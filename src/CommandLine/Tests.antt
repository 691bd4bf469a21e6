-- ===== src/CommandLine/Tests.antt =====
-- flask_xxljob/cli/commands.py: commands in a small process, and the witnesses.
use flask_xxljob.Base.{ℕ, true, false, ◌≡◌, refl, none, [], ◌∷◌, text}
use flask_xxljob.Callback
use flask_xxljob.Config.Sample.{loaded}
use flask_xxljob.Registry.Sample.{world, fresh}
use flask_xxljob.Registry.Service.{register_once_result, stop_service}
use flask_xxljob.Extension.Facade.{Runtime}
use flask_xxljob.CommandLine.{
  exited, register_command, remove_command, run_action, load_failed, run_standalone,
}
use flask_xxljob.CommandLine.Laws.{IsReport, removal, commands-IsReport}

commands-IsReport_example :
    IsReport (register_once_result world fresh) (register_command world fresh)
    × IsReport (removal world (stop_service world false fresh)) (remove_command world fresh)
    × IsReport (register_once_result world fresh) (run_action world true fresh)
    × IsReport (removal world (stop_service world false fresh)) (run_action world false fresh)
commands-IsReport_example = commands-IsReport world fresh

abbrev runtime : Runtime ℕ ℕ ℕ ℕ
runtime = record {
  config = loaded;
  callback_registry = Callback.empty_registry;
  registry_service = fresh;
  log_file = none;
}

run_standalone_fails :
    run_standalone {R = ℕ} {I = ℕ} {K = ℕ} {L = ℕ} world true (load_failed (text "no module")) ≡ (
      none,
      exited (record {
        out = [];
        err = text "Error: Failed to load Flask application: no module" ∷ [];
        code = 1;
      }),
    )
unfolding run_standalone
run_standalone_fails = refl
