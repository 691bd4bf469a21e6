-- ===== src/Extension/Init.antt =====
-- flask_xxljob/extension.py: `init_app` until it owns its resources. What it calls outside of the
-- repository may raise; an
-- `Around` says which calls do. The calls of the cleanup, whose exceptions are logged only, return.
-- Other Threads act on the service, and on the application before the cleanup.
pub mod Commit
use flask_xxljob.Base.{
  ℕ, ◌==◌, Bool, true, false, not, ◌&&◌, ◌||◌, Option, none, some, is_some, holds, List, [], ◌∷◌,
  ◌++◌, is_empty, Text, text, if◌then◌else◌,
}
use flask_xxljob.Base.Dict
use flask_xxljob.Base.Dict.{Dict, text_key}
use flask_xxljob.Config.{Result, ok, invalid, unexpected}
use flask_xxljob.Config.Address.{Platform}
use flask_xxljob.Config.Load.{XxlJobConfig, from_mapping}
use flask_xxljob.Config.Validate.{validate_registry}
use flask_xxljob.Logging.{Patterns, redact_text}
use flask_xxljob.Registry.State.{Process, Heap, add, discard}
use flask_xxljob.Registry.Steps.{new_process}
use flask_xxljob.Registry.Lifecycle.{
  Prepare, nothing, prepared, start_failed, prepare_start, Activation, activated, cancelled,
  owner_lost, generation_skew, worker_appeared, activate_prepared_start, cancel_prepared_start,
  settle_prepared,
}
use flask_xxljob.Callback
use flask_xxljob.Callback.{seed_from}
use flask_xxljob.Extension.{
  App, Callbacks, Site, Resources, no_resources, extension_key, Refusal, already_initialized,
  config_error, unexpected_error, route_conflict, blueprint_conflict, cli_conflict,
}
use flask_xxljob.Extension.Application.{executor_paths, route_conflicts, is_name_available}

-- `app.register_blueprint(blueprint)` returns, raises before the Blueprint is in
-- `app.blueprints`, or raises after that.
pub data Publication : Type 0 where
  returns raises raises_published : Publication

-- What another Thread has written to the application before the cleanup of a failed call: nothing,
-- or another command or Runtime under the key of this extension.
pub data Replacement : Type 0 where
  nothing_replaced : Replacement
  command_replaced runtime_replaced : ℕ → Replacement

abbrev pub replace_in : Replacement → App → App
replace_in nothing_replaced a = a
replace_in (command_replaced n) a = record a { commands = Dict.put a.commands (text "xxljob") n }
replace_in (runtime_replaced n) a = record a { extensions = Dict.put a.extensions extension_key n }

abbrev pub replace : Replacement → Site → Site
replace x s = record s { app = replace_in x s.app }

pub record Around : Type 0 where
  -- the identities of the objects of this call, and of `xxljob_cli`
  pub runtime_id : ℕ
  pub blueprint_id : ℕ
  pub xxljob_cli : ℕ
  -- the exceptions of the private preparation
  pub log_manager_raises : Bool
  pub service_raises : Bool
  pub runtime_raises : Bool
  pub thread_starts : Bool
  pub finalizer_raises : Bool
  -- the exceptions of the commit
  pub add_command_raises : Bool
  pub attach_raises : Bool
  pub publication : Publication
  pub info_raises : Bool
  -- `logger.exception` raises before the cleanup, lines 195 and 263
  pub exception_raises : Bool
  -- what other Threads do to the service once its Runtime is published
  pub meanwhile : Process → Process
  -- what other Threads do to the application until the cleanup
  pub replacement : Replacement
  -- the process of the interpreter, and the patterns of `redact_text`
  pub pid : ℕ
  pub heap : Heap
  pub patterns : Patterns

-- `name.replace(".", "_")`
abbrev pub replace_dots : Text → Text
replace_dots [] = []
replace_dots (c ∷ s) = (if c == 46 then 95 else c) ∷ replace_dots s

-- `_blueprint_name`
unfoldable pub blueprint_name : App → Text
blueprint_name a = text "xxljob_" ++ replace_dots a.app_name

-- `_ensure_cli_available` passes
abbrev pub is_own : ℕ → Option ℕ → Bool
is_own n none = true
is_own n (some m) = m == n

unfoldable pub is_cli_available : Around → App → Bool
is_cli_available w a = is_own w.xxljob_cli (Dict.get a.commands (text "xxljob"))

pub data Preflight : Type 0 where
  refuse : Refusal → Preflight
  ready : XxlJobConfig → Preflight

abbrev pub after_cli : Around → App → XxlJobConfig → Preflight
after_cli w a c = if is_cli_available w a then ready c else refuse cli_conflict

-- lines 140 to 146
unfoldable pub check_flask : Around → App → XxlJobConfig → Preflight
check_flask w a c =
    let conflicts = route_conflicts (executor_paths c.route_prefix) a.rules in
    if not c.enabled
    then after_cli w a c
    else if not (is_empty conflicts)
    then refuse (route_conflict conflicts)
    else if not (is_name_available a.blueprints (blueprint_name a))
    then refuse (blueprint_conflict (blueprint_name a))
    else after_cli w a c

abbrev pub check_registry : Around → App → XxlJobConfig → Result {0} Unit → Preflight
check_registry w a c (ok u) = check_flask w a c
check_registry w a c (invalid e) = refuse (config_error e)
check_registry w a c unexpected = refuse unexpected_error

abbrev pub check_config : Platform → Around → App → Result XxlJobConfig → Preflight
check_config p w a (ok c) =
    if c.enabled && c.auto_register
    then check_registry w a c (validate_registry p c)
    else check_flask w a c
check_config p w a (invalid e) = refuse (config_error e)
check_config p w a unexpected = refuse unexpected_error

-- lines 114 to 146
unfoldable pub preflight : Platform → Around → App → Preflight
unfolding check_flask
preflight p w a =
    if Dict.has a.extensions extension_key
    then refuse already_initialized
    else check_config p w a (from_mapping p a.config)

abbrev pub is_ok {ℓ} : {A : Type ℓ} → Result A → Bool
is_ok (ok a) = true
is_ok (invalid e) = false
is_ok unexpected = false

-- The process of the new service.
abbrev pub new_service : Platform → Around → XxlJobConfig → Process
new_service p w c =
    new_process
      (record {
        enabled = c.enabled;
        valid = is_ok (validate_registry p c);
        deregister_on_exit = c.deregister_on_exit;
        redact = λ value. redact_text w.patterns value c.access_token;
      })
      w.heap w.pid

-- the end of the private preparation, line 193
abbrev pub install_finalizer : Around → Resources → Resources × Bool
install_finalizer w r =
    if w.finalizer_raises then (r, true) else (record r { finalizer = some true }, false)

-- line 187
abbrev pub keep_prepared : Around → Resources → Process × Prepare → Resources × Bool
keep_prepared w r (p, nothing) = install_finalizer w (record r { registry_service = some p })
keep_prepared w r (p, prepared t) =
    install_finalizer w (record r { registry_service = some p; prepared = some t })
keep_prepared w r (p, start_failed) = (record r { registry_service = some p }, true)

-- the resources after the log manager, the service and the Runtime are made
-- lines 159 to 165: the callbacks of the extension are the first ones of the application
abbrev pub seeded : Callbacks → Callbacks
seeded deferred = seed_from Callback.empty_registry deferred

abbrev pub log_resources : Callbacks → Resources
log_resources deferred = record no_resources {
  log_manager = some true;
  callback_registry = some (seeded deferred);
}

abbrev pub service_resources : Platform → Around → Callbacks → XxlJobConfig → Resources
service_resources p w deferred c = record (log_resources deferred) {
  registry_service = some (new_service p w c);
}

abbrev pub runtime_resources : Platform → Around → Callbacks → XxlJobConfig → Resources
runtime_resources p w deferred c = record (service_resources p w deferred c) {
  runtime = some w.runtime_id;
}

-- lines 158 to 193: the resources, and whether the preparation raised
unfoldable pub prepare : Platform → Around → Callbacks → XxlJobConfig → Resources × Bool
prepare p w deferred c =
    if w.log_manager_raises
    then (no_resources, true)
    else if w.service_raises
    then (log_resources deferred, true)
    else if w.runtime_raises
    then (service_resources p w deferred c, true)
    else if c.enabled && c.auto_register
    then keep_prepared w (runtime_resources p w deferred c)
        (prepare_start w.thread_starts (new_service p w c))
    else install_finalizer w (runtime_resources p w deferred c)
