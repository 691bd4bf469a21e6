-- ===== src/Lib.antt =====
-- Flask-XXLJob: an executor of XXL-JOB as an extension of Flask (flask_xxljob/).
--
-- The Admin of XXL-JOB sends requests to the Blueprint of a Flask application, which parses them and
-- calls the callbacks that the application has registered; the application reports results through
-- the callback client. The Registry service keeps the executor registered at the Admin from a
-- background Thread, and removes it at the end. Both clients call the Admins over HTTP with retry
-- and failover.
--
-- Base: names shared by all modules, Python's `str` as code points, `int`, and `dict`.
-- Client (flask_xxljob/client/): Result is `CallResult`, Policy is `AdminCallPolicy`, Post is
--   `post_to_admins` with `join_url` of utils/url_utils.py, Callback is `CallbackClient`,
--   Admin is `AdminClient`.
-- Registry (flask_xxljob/registry/registry_service.py): State is `_RegistryProcessState` and the
--   objects that it refers to, by numbers of a heap; Outcome records results; Register coordinates
--   one-shot registers with cleanups; Lifecycle prepares, activates, cancels and finishes Workers;
--   Remove requests, schedules and completes Removes; Terminal is the synchronous Remove, shutdown
--   and the status. A function there is one critical section under `state_lock`, with the
--   `Event.set()` that follows it. Steps is the relation of all critical sections: a run of a process
--   is any sequence of them, in any order that threads may take. Invariant and Progress hold what
--   every section keeps and lets grow; Contracts is what single operations promise. Service
--   composes the sections to the operations that callers and Threads run, each with what the world answers.
-- Config (flask_xxljob/config.py): Keys is `DEFAULTS`, Readers the `_as_*` functions, Prefix and
--   Address the route prefix and the addresses, Load is `from_mapping` with `validate`, Validate is
--   `validate_registry`.
-- Logging (flask_xxljob/_logging.py): `XXLJobLogManager`, `redact_text` and the names of loggers.
-- Extension (flask_xxljob/extension.py, _app.py, status.py): Application is _app.py, Init is the
--   preflight and the private preparation of `init_app`, Init.Commit its commit and cleanup;
--   Rollback and Transaction show what a call has done, Composition, Completion and Starting how it
--   meets the Registry service, Seeding how the waiting callbacks reach the application. Facade resolves an application and its callbacks, Services are the
--   methods on its Runtime.
-- CommandLine (flask_xxljob/cli/commands.py): the commands.
-- Runtime (flask_xxljob/runtime.py): the closing of a runtime.
-- Model (flask_xxljob/model/): Value is what `json.loads` returns, Coerce is coerce.py, Request the
--   six requests.
-- Callback (flask_xxljob/callback/registry.py): `CallbackRegistry`.
-- Protocol (flask_xxljob/protocol/, flask_xxljob/response/): Response is response/, Parser is
--   parser.py and validator.py, Blueprint the five endpoints, Hooks the error handlers and
--   the routing-error hook.
--
-- Parameters stand for what is not in the repository: `requests.post` and the clock (Transport), the
-- request stream and `json.loads` of its bytes, `urlsplit`, `ipaddress`, the idna codec,
-- `codecs.lookup` and the formatting of a log record (Platform), the users' callbacks, the two regular
-- expressions of `redact_text`, whether a Thread starts and is alive, and which calls of `init_app`
-- raise (Around). The loop that reads a request body is on fuel, one more than the size
-- limit; the retry loop is structural on the attempts left, the failover loop on the addresses.
--
-- Not modelled: the finalizer around `close` (_lifecycle.py), the parsing of command arguments, the
-- waits between critical sections, the exceptions of the calls that clean up after a failed
-- `init_app`, which the code logs only, and what other Threads write to an application while
-- `init_app` works on it, but for a replacement of its command or Runtime before the cleanup. A
-- critical section is one step with the `Event.set()` behind it, which the
-- code makes after it has released the lock.
-- In Registry the process is the one that made the state, so the checks of the process identity pass;
-- Runtime takes a fork into account.
pub mod Base
pub mod Client
pub mod CommandLine
pub mod Config
pub mod Logging
pub mod Extension
pub mod Model
pub mod Callback
pub mod Protocol
pub mod Registry
pub mod Runtime
