-- ===== src/CommandLine.antt =====
-- flask_xxljob/cli/commands.py: the commands. A command writes lines and ends with an exit code, or
-- an operation of the Registry service ends it with an exception or a wait.
use flask_xxljob.Base.{
  ℕ, Bool, true, false, ◌&&◌, Option, none, some, List, [], ◌∷◌, ◌++◌, is_empty, Text, text,
  if◌then◌else◌,
}
use flask_xxljob.Client.Result.{
  CallResult, ErrorType, config, network, timeout, http, invalid_json, invalid_response, business,
  lifecycle, process, exception,
}
use flask_xxljob.Registry.State.{Process}
use flask_xxljob.Registry.Service.{
  World, Ending, done, result, register_once_result, remove_once_result, stop_service,
}
use flask_xxljob.Extension.Facade.{Runtime}
use flask_xxljob.Extension.Services.{XxlJobStatus, status_of}
pub mod Laws
mod Tests

-- The lines on the standard output and on the standard error, and the exit code.
pub record Output : Type 0 where
  pub out : List Text
  pub err : List Text
  pub code : ℕ

pub data Exit : Type 0 where
  exited : Output → Exit
  ended_by : Ending → Exit

-- `raise click.ClickException(m)`
abbrev pub click_exception : Text → Exit
click_exception m = exited (record { out = []; err = (text "Error: " ++ m) ∷ []; code = 1 })

abbrev pub not_initialized : Text
not_initialized = text "Flask-XXLJob is not initialized on this application."

-- `f"{value}"`
abbrev pub show_bool : Bool → Text
show_bool true = text "True"
show_bool false = text "False"

abbrev pub show_text : Option Text → Text
show_text none = text "None"
show_text (some s) = s

-- the string constants of the error types
abbrev pub error_type_text : ErrorType → Text
error_type_text config = text "config"
error_type_text network = text "network"
error_type_text timeout = text "timeout"
error_type_text http = text "http"
error_type_text invalid_json = text "invalid_json"
error_type_text invalid_response = text "invalid_response"
error_type_text business = text "business"
error_type_text lifecycle = text "lifecycle"
error_type_text process = text "process"
error_type_text (exception name) = name

abbrev pub show_error_type : Option ErrorType → Text
show_error_type none = text "None"
show_error_type (some t) = error_type_text t

-- `result.error or result.msg`
abbrev pub error_or_msg : CallResult → Option Text
error_or_msg r = elim r.error [ none ↦ r.msg | some s ↦ if is_empty s then r.msg else some s ]

-- The end of a command that calls the Admin: `verb` and `failure` are its two words.
unfoldable pub report : Text → Text → CallResult → Output
report verb failure r =
    if r.success
    then record {
      out =
          (text "Executor " ++ verb ++ text " successfully via " ++ show_text r.address ++ text ".")
          ∷ [];
      err = [];
      code = 0;
    }
    else record {
      out = [];
      err = (text "Executor " ++ failure ++ text " failed: " ++ show_text (error_or_msg r)) ∷ [];
      code = 1;
    }

abbrev pub report_ending : Text → Text → Process × Ending → Process × Exit
report_ending verb failure (p, result r) = (p, exited (report verb failure r))
report_ending verb failure (p, e) = (p, ended_by e)

-- `_remove_runtime`
abbrev pub then_remove : World → Process × Ending → Process × Ending
then_remove w (p, done) = remove_once_result w p
then_remove w (p, e) = (p, e)

unfoldable pub remove_runtime : World → Process → Process × Ending
remove_runtime w p = then_remove w (stop_service w false p)

-- `register_command` and `remove_command`, of an application with a Runtime
unfoldable pub register_command : World → Process → Process × Exit
unfolding report
register_command w p =
    report_ending (text "registered") (text "registration") (register_once_result w p)

unfoldable pub remove_command : World → Process → Process × Exit
unfolding report remove_runtime
remove_command w p = report_ending (text "removed") (text "removal") (remove_runtime w p)

-- the last lines of `_echo_status`
abbrev pub failure_lines : XxlJobStatus → List Text
failure_lines s =
    (text "  Last registry error type: " ++ show_error_type s.last_registry_error_type)
    ∷ (text "  Last registry message: " ++ show_text s.last_registry_message)
    ∷ []

abbrev pub is_success : Option Bool → Bool
is_success (some true) = true
is_success _ = false

abbrev pub attempt_lines : XxlJobStatus → Option Text → List Text
attempt_lines s none = text "  Last registry: (no attempt yet)" ∷ []
attempt_lines s (some time) =
    (text "  Last registry time: " ++ time)
    ∷ (text "  Last registry admin: " ++ show_text s.last_registry_admin_address)
    ∷ (text "  Last registry result: "
        ++ (if is_success s.last_registry_success then text "success" else text "failure"))
    ∷ (if is_success s.last_registry_success then [] else failure_lines s)

abbrev pub file_lines : Option Text → List Text
file_lines none = []
file_lines (some path) = (text "  Log file: " ++ path) ∷ []

-- `_echo_status`
unfoldable pub echo_status : XxlJobStatus → List Text
echo_status s =
    text "Flask-XXLJob status"
    ∷ (text "  Enabled: " ++ show_bool s.enabled)
    ∷ (text "  Auto register: " ++ show_bool s.auto_register)
    ∷ (text "  Registered: " ++ show_bool s.registered)
    ∷ (text "  Registry thread running: " ++ show_bool s.registry_thread_running)
    ∷ (text "  Log enabled: " ++ show_bool s.log_enabled)
    ∷ (text "  Log level: " ++ s.log_level)
    ∷ (text "  File logging: " ++ show_bool s.log_file_enabled)
    ∷ (file_lines s.log_file
        ++ (text "  Console logging: " ++ show_bool s.log_console_enabled)
          ∷ attempt_lines s s.last_registry_time)

-- `_status_failed`: `status.last_registry_success is False`
unfoldable pub status_failed : XxlJobStatus → Bool
status_failed s = elim s.last_registry_success [
  | none ↦ false
  | some success ↦ if success then false else true
]

-- `status_command`, of a status
unfoldable pub show_status : XxlJobStatus → Output
unfolding echo_status status_failed
show_status s = record { out = echo_status s; err = []; code = if status_failed s then 1 else 0 }

-- the action of `_run_standalone`, `register` or `remove`
abbrev pub run_action : World → Bool → Process → Process × Exit
run_action w true p = report_ending (text "registered") (text "register") (register_once_result w p)
run_action w false p = report_ending (text "removed") (text "remove") (remove_runtime w p)

-- `script_info.load_app()` raises an exception with a text, or returns an application, whose
-- Runtime may be missing.
pub data Loaded (A : Type 0) : Type 0 where
  load_failed : Text → Loaded A
  loaded_app : Option A → Loaded A

module _ {R I K L : Type 0} where
  -- `status_command`
  unfoldable pub status_command : Option (Runtime R I K L) → Exit
  unfolding status_of show_status
  status_command none = click_exception not_initialized
  status_command (some r) = exited (show_status (status_of r))

  -- `standalone_status`
  unfoldable pub standalone_status : Loaded (Runtime R I K L) → Exit
  unfolding status_command
  standalone_status (load_failed e) =
      click_exception (text "Failed to load Flask application: " ++ e)
  standalone_status (loaded_app r) = status_command r

  -- `_run_standalone`: the process of the Runtime afterwards, and the end
  unfoldable pub run_standalone : World → Bool → Loaded (Runtime R I K L) → Option Process × Exit
  unfolding report remove_runtime
  run_standalone w is_register (load_failed e) =
      (none, click_exception (text "Failed to load Flask application: " ++ e))
  run_standalone w is_register (loaded_app none) = (none, click_exception not_initialized)
  run_standalone w is_register (loaded_app (some r)) =
      let (p, x) = run_action w is_register r.registry_service in (some p, x)
