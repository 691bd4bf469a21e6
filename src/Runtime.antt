-- ===== src/Runtime.antt =====
-- flask_xxljob/runtime.py: the closing of a runtime, by its finalizer or at the exit of the
-- interpreter, in the process that made it and in a fork of it. The state of its Registry service is
-- a part of it; an exception of `shutdown` is logged only.
use flask_xxljob.Base.{ℕ, Bool, true, false, if◌then◌else◌, ◌==◌}
use flask_xxljob.Registry.State.{Process}
use flask_xxljob.Registry.Steps.{new_process}
use flask_xxljob.Registry.Service.{World, shutdown}
pub mod Closing
mod Tests

pub record XxlJobRuntime : Type 0 where
  pub pid : ℕ
  pub closed : Bool
  pub process : Process

-- `RegistryService._get_process_state`: a fork starts from a blank state.
unfoldable pub get_process_state : ℕ → Process → Process
get_process_state current_pid p =
    if p.pid == current_pid then p else new_process p.settings p.heap current_pid

-- `_ensure_process_state`
unfoldable pub ensure_process_state : ℕ → XxlJobRuntime → XxlJobRuntime
ensure_process_state current_pid rt =
    if rt.pid == current_pid then rt else record rt { pid = current_pid; closed = false }

-- `close`, lines 76 to 89
unfoldable pub close_open : World → ℕ → XxlJobRuntime → XxlJobRuntime
close_open w current_pid rt = if rt.closed then rt else record rt {
  closed = true;
  process = (shutdown w (get_process_state current_pid rt.process)).0;
}

-- `close`, called in the process `current_pid`
unfoldable pub close : World → ℕ → XxlJobRuntime → XxlJobRuntime
close w current_pid rt = close_open w current_pid (ensure_process_state current_pid rt)
