-- ===== src/CommandLine/Laws.antt =====
-- flask_xxljob/cli/commands.py: exit codes, and what the status shows.
use flask_xxljob.Base.{true, false, ◌≡◌, refl, some, Text, text, arith, Bool-cases, inl, inr, ◌↔◌}
use flask_xxljob.Client.Result.{CallResult}
use flask_xxljob.Registry.State.{Process}
use flask_xxljob.Registry.Service.{
  World, Ending, done, result, config_error, start_error, activation_error, blocked,
  register_once_result, remove_once_result, stop_service,
}
use flask_xxljob.Extension.Facade.{Runtime}
use flask_xxljob.Extension.Services.{status_of}
use flask_xxljob.CommandLine.{
  Output, Exit, exited, ended_by, report, report_ending, then_remove, remove_runtime,
  register_command, remove_command, status_command, run_action, loaded_app, standalone_status,
}

-- a command that exits with a result of the service, and the code that tells it
abbrev pub IsReport : Process × Ending → Process × Exit → Type 0
IsReport (p, result r) (q, x) =
    (o : Output) × (x ≡ exited o) × (q ≡ p) × ((o.code ≡ 0) ↔ (r.success ≡ true))
IsReport (p, e) (q, x) = (x ≡ ended_by e) × (q ≡ p)

report-code :
    (verb failure : Text) (r : CallResult) → ((report verb failure r).code ≡ 0) ↔ (r.success ≡ true)
unfolding report
report-code verb failure r = elim (Bool-cases r.success) [
  | inl e ↦ ground arith
  | inr e ↦ ground arith
]

report_ending-IsReport :
    (verb failure : Text) (e : Process × Ending) → IsReport e (report_ending verb failure e)
report_ending-IsReport verb failure (p, result r) =
    (report verb failure r, refl, refl, report-code verb failure r)
report_ending-IsReport verb failure (p, done) = (refl, refl)
report_ending-IsReport verb failure (p, config_error) = (refl, refl)
report_ending-IsReport verb failure (p, start_error) = (refl, refl)
report_ending-IsReport verb failure (p, activation_error) = (refl, refl)
report_ending-IsReport verb failure (p, blocked t) = (refl, refl)

-- What follows a stop: the synchronous Remove where it returned, and its end otherwise.
abbrev pub removal : World → Process × Ending → Process × Ending
removal w (p, done) = remove_once_result w p
removal w (p, e) = (p, e)

remove_runtime_lem :
    (w : World) (p : Process) → remove_runtime w p ≡ removal w (stop_service w false p)
unfolding remove_runtime
remove_runtime_lem w p = either (stop_service w false p)
  where
    either : (e : Process × Ending) → then_remove w e ≡ removal w e
    either (q, done) = refl
    either (q, result r) = refl
    either (q, config_error) = refl
    either (q, start_error) = refl
    either (q, activation_error) = refl
    either (q, blocked t) = refl

-- The command `register` performs `register_once_result`, and `remove` performs `stop` without a
-- Remove and, where that returns, `remove_once_result` on the process that it leaves, in the group
-- of Flask and in the standalone one. Each exits with the code 0 exactly when the result of the
-- service is a success, and ends with the exception or the wait of the service where it has one.
pub commands-IsReport :
    (w : World) (p : Process)
    → IsReport (register_once_result w p) (register_command w p)
      × IsReport (removal w (stop_service w false p)) (remove_command w p)
      × IsReport (register_once_result w p) (run_action w true p)
      × IsReport (removal w (stop_service w false p)) (run_action w false p)
unfolding register_command remove_command
commands-IsReport w p = rw⁻¹ (remove_runtime_lem w p) (
  report_ending-IsReport (text "registered") (text "registration") (register_once_result w p),
  report_ending-IsReport (text "removed") (text "removal") (remove_runtime w p),
  report_ending-IsReport (text "registered") (text "register") (register_once_result w p),
  report_ending-IsReport (text "removed") (text "remove") (remove_runtime w p),
)

module _ {R I K L : Type 0} where
  -- The status that the commands print does not depend on the access token of the configuration.
  pub status_command-hides :
      (runtime : Runtime R I K L) (access_token : Text)
      → standalone_status (
          loaded_app (
            some
              (record runtime { config = record runtime.config { access_token = access_token } })))
        ≡ standalone_status (loaded_app (some runtime))
  unfolding standalone_status status_command status_of
  status_command-hides runtime access_token = refl
