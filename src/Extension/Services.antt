-- ===== src/Extension/Services.antt =====
-- flask_xxljob/extension.py: the methods that act on the Runtime of an application, with status.py.
pub mod Laws
use flask_xxljob.Base.{ℕ, Bool, List, Option, none, some, Text, text, pos, if◌then◌else◌}
use flask_xxljob.Client.Result.{CallResult, ErrorType}
use flask_xxljob.Client.Callback.{CallbackConfig, Item, Sent, callback, callback_many}
use flask_xxljob.Model.Value.{Value, Values, int}
use flask_xxljob.Config.Load.{XxlJobConfig}
use flask_xxljob.Logging.{effective_enabled, file_enabled, console_enabled, shown_log_file}
use flask_xxljob.Registry.State.{Process, update}
use flask_xxljob.Registry.Terminal.{status_snapshot}
use flask_xxljob.Registry.Service.{
  World, Ending, register_once_result, remove_once_result, start, stop_service,
}
use flask_xxljob.Extension.Facade.{
  Answer, ok, raised, ◌>>=◌, to_limit, require_int, Runtime, Extension, get_runtime,
}

-- `XXLJobStatus`
pub record XxlJobStatus : Type 0 where
  pub enabled : Bool
  pub auto_register : Bool
  pub registered : Bool
  pub last_registry_time : Option Text
  pub last_registry_success : Option Bool
  pub last_registry_admin_address : Option Text
  pub last_registry_error_type : Option ErrorType
  pub last_registry_message : Option Text
  pub registry_thread_running : Bool
  pub log_enabled : Bool
  pub log_level : Text
  pub log_file_enabled : Bool
  pub log_console_enabled : Bool
  pub log_file : Option Text

-- What the callback client reads of the configuration.
abbrev pub callback_config : XxlJobConfig → CallbackConfig
callback_config c = record {
  enabled = c.enabled;
  callback_batch_max_size = to_limit c.callback_batch_max_size;
  callback_message_max_length = to_limit c.callback_message_max_length;
}

-- `SUCCESS_CODE`, `FAIL_CODE`
abbrev pub success_handle_code : Value
success_handle_code = int (pos 200)

abbrev pub fail_handle_code : Value
fail_handle_code = int (pos 500)

-- lines 618 to 621
abbrev pub require_integers : Bool → Value → Value → Value → Answer {0} Unit
require_integers enabled log_id log_date_time handle_code = if enabled then integers else ok tt
  where
    integers : Answer {0} Unit
    integers = do
      _ ← require_int (text "log_id") log_id
      _ ← require_int (text "log_date_time") log_date_time
      require_int (text "handle_code") handle_code

module _ {R I K L : Type 0} where
  -- The status of a Runtime, which the command line builds in the same way.
  unfoldable pub status_of : Runtime R I K L → XxlJobStatus
  unfolding effective_enabled file_enabled console_enabled shown_log_file
  status_of runtime =
      let snapshot = status_snapshot runtime.registry_service in
      record {
        enabled = runtime.config.enabled;
        auto_register = runtime.config.auto_register;
        registered = snapshot.registered;
        last_registry_time = snapshot.last_registry_time;
        last_registry_success = snapshot.last_registry_success;
        last_registry_admin_address = snapshot.last_registry_admin_address;
        last_registry_error_type = snapshot.last_registry_error_type;
        last_registry_message = snapshot.last_registry_message;
        registry_thread_running = snapshot.registry_thread_running;
        log_enabled = effective_enabled runtime.config;
        log_level = runtime.config.log_level;
        log_file_enabled = file_enabled runtime.config;
        log_console_enabled = console_enabled runtime.config;
        log_file = shown_log_file runtime.config runtime.log_file;
      }

  -- `get_status`
  unfoldable pub get_status : Extension R I K L → Option ℕ → Answer XxlJobStatus
  get_status e app = do found ← get_runtime e app; ok (status_of found.1)

  -- the operation `f` of the Registry service of an application
  abbrev pub with_process : Extension R I K L → ℕ → Runtime R I K L → Process → Extension R I K L
  with_process e app runtime p = record e {
    runtimes = update e.runtimes app (some (record runtime { registry_service = p }));
  }

  unfoldable pub on_service :
      (Process → Process × Ending)
      → Extension R I K L
      → Option ℕ
      → Answer (Extension R I K L × Ending)
  on_service f e app = do
    found ← get_runtime e app
    let (p, ending) = f found.1.registry_service
    ok (with_process e found.0 found.1 p, ending)

  -- `register_executor`, `remove_executor`, `start_registry`, `stop_registry`
  abbrev pub register_executor :
      World → Extension R I K L → Option ℕ → Answer (Extension R I K L × Ending)
  register_executor w = on_service (register_once_result w)

  abbrev pub remove_executor :
      World → Extension R I K L → Option ℕ → Answer (Extension R I K L × Ending)
  remove_executor w = on_service (remove_once_result w)

  abbrev pub start_registry :
      World → Extension R I K L → Option ℕ → Answer (Extension R I K L × Ending)
  start_registry w = on_service (start w)

  abbrev pub stop_registry :
      World → Bool → Extension R I K L → Option ℕ → Answer (Extension R I K L × Ending)
  stop_registry w with_remove = on_service (stop_service w with_remove)

  -- `callback`; `post` is the Admin call of the application's callback client
  unfoldable pub callback_of :
      (ℕ → Values → CallResult)
      → Extension R I K L
      → Value
      → Value
      → Value
      → Value
      → Option ℕ
      → Answer Sent
  callback_of post e log_id log_date_time handle_code handle_msg app = do
    found ← get_runtime e app
    _ ← require_integers found.1.config.enabled log_id log_date_time handle_code
    ok (
        callback (post found.0) (callback_config found.1.config) log_id log_date_time handle_code
          handle_msg)

  -- `callback_success`, `callback_failure`
  abbrev pub callback_success :
      (ℕ → Values → CallResult) → Extension R I K L → Value → Value → Value → Option ℕ → Answer Sent
  callback_success post e log_id log_date_time message app =
      callback_of post e log_id log_date_time success_handle_code message app

  abbrev pub callback_failure :
      (ℕ → Values → CallResult) → Extension R I K L → Value → Value → Value → Option ℕ → Answer Sent
  callback_failure post e log_id log_date_time message app =
      callback_of post e log_id log_date_time fail_handle_code message app

  -- `callback_many`
  unfoldable pub callback_many_of :
      (ℕ → Values → CallResult) → Extension R I K L → List Item → Option ℕ → Answer Sent
  callback_many_of post e items app = do
    found ← get_runtime e app
    ok (callback_many (post found.0) (callback_config found.1.config) items)
