-- ===== src/Extension.antt =====
-- flask_xxljob/extension.py and _app.py: the state that `init_app` reads and writes. A Flask
-- application, a Blueprint, a command, a callback and a Runtime are objects with identity: numbers.
use flask_xxljob.Base.{ℕ, Bool, false, Option, none, List, Text, text}
use flask_xxljob.Base.Dict.{Dict}
use flask_xxljob.Registry.State.{Process}
use flask_xxljob.Config.{Setting, ConfigError}
use flask_xxljob.Callback
use flask_xxljob.Callback.{CallbackRegistry}
pub mod Application
pub mod Init
pub mod Rollback
pub mod Transaction
pub mod Composition
pub mod Completion
pub mod Starting
pub mod Seeding
pub mod Facade
pub mod Services
mod Tests

-- What the extension uses of a Flask application. A rule is its path, and whether it accepts POST.
pub record App : Type 0 where
  pub id : ℕ
  pub app_name : Text
  pub config : Dict Text Setting
  pub rules : List (Text × Bool)
  pub blueprints : Dict Text ℕ
  pub commands : Dict Text ℕ
  pub extensions : Dict Text ℕ

-- `EXTENSION_KEY`
abbrev pub extension_key : Text
extension_key = text "xxljob"

-- The callbacks of an application, or those that wait for one.
abbrev pub Callbacks : Type 0
Callbacks = CallbackRegistry ℕ ℕ ℕ ℕ

-- The application, and what the extension has: the applications that it tracks, and
-- `_deferred_callbacks`.
pub record Site : Type 0 where
  pub app : App
  pub open app use *
  pub applications : List ℕ
  pub deferred_callbacks : Callbacks

-- The resources that one call of `init_app` owns: whether the log manager is open, the service's
-- process, the Runtime, the
-- callback registry, the Prepared token, and whether the finalizer is armed. `none` is `None`.
pub record Resources : Type 0 where
  pub log_manager : Option Bool
  pub callback_registry : Option Callbacks
  pub registry_service : Option Process
  pub runtime : Option ℕ
  pub prepared : Option ℕ
  pub finalizer : Option Bool

abbrev pub no_resources : Resources
no_resources = record {
  log_manager = none;
  callback_registry = none;
  registry_service = none;
  runtime = none;
  prepared = none;
  finalizer = none;
}

-- What `init_app` raises before it owns a resource.
pub data Refusal : Type 0 where
  already_initialized : Refusal
  config_error : ConfigError → Refusal
  unexpected_error : Refusal
  route_conflict : List Text → Refusal
  blueprint_conflict : Text → Refusal
  cli_conflict : Refusal
