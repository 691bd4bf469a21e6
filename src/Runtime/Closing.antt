-- ===== src/Runtime/Closing.antt =====
-- flask_xxljob/runtime.py: a runtime is closed once in each process.
use flask_xxljob.Base.{ℕ, ◌≡◌, ◌≢◌, true, none, arith}
use flask_xxljob.Registry.State.{Settings, Heap}
use flask_xxljob.Registry.Steps.{new_process}
use flask_xxljob.Registry.Lifecycle.{stop_local}
use flask_xxljob.Registry.Remove.{withdraw_prepared}
use flask_xxljob.Registry.Terminal.{
  begin_shutdown, close_window, should_validate_remove, maybe_close_logs,
}
use flask_xxljob.Registry.Service.{World, shutdown}
use flask_xxljob.Runtime.{XxlJobRuntime, get_process_state, ensure_process_state, close_open, close}

-- Closing is idempotent: a second call in the same process, whatever the world is then, changes
-- nothing, so no second shutdown of the Registry service runs.
pub close-close :
    (w again : World) (pid : ℕ) (rt : XxlJobRuntime)
    → close again pid (close w pid rt) ≡ close w pid rt
unfolding close close_open ensure_process_state
close-close w again pid rt = ground arith

shutdown-fresh :
    (w : World) (s : Settings) (h : Heap) (pid : ℕ)
    → ((shutdown w (new_process s h pid)).0.rpc_sequence ≡ 0)
      × ((shutdown w (new_process s h pid)).0.pending_remove ≡ none)
      × ((shutdown w (new_process s h pid)).0.active_remove ≡ none)
      × ((shutdown w (new_process s h pid)).0.logs_closed ≡ true)
unfolding shutdown begin_shutdown close_window stop_local withdraw_prepared should_validate_remove
    maybe_close_logs
shutdown-fresh w s h pid = ground arith

-- The finalizer of a forked child that has used neither the runtime nor its Registry service makes
-- no call and requests no Remove, even if the parent is registered and has a Worker: the executor
-- of the parent stays registered.
pub close-fork :
    (w : World) (child : ℕ) (rt : XxlJobRuntime)
    → rt.pid ≢ child
    → rt.process.pid ≢ child
    → ((close w child rt).process.rpc_sequence ≡ 0)
      × ((close w child rt).process.pending_remove ≡ none)
      × ((close w child rt).process.active_remove ≡ none)
      × ((close w child rt).process.logs_closed ≡ true)
unfolding close close_open ensure_process_state get_process_state
close-fork w child rt h g =
    ground (arith, shutdown-fresh w rt.process.settings rt.process.heap child)
