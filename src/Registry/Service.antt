-- ===== src/Registry/Service.antt =====
-- registry_service.py: the operations of the service, composed of the critical sections as the code
-- composes them. Each is given what the world answers: the outcome of the RPC, the clock, and
-- whether Threads start and live.
use flask_xxljob.Base.{
  ℕ, Bool, true, false, not, ◌&&◌, Option, none, some, is_none, is_some, Text, text, if◌then◌else◌,
}
use flask_xxljob.Client.Result.{CallResult, exception, local_failure}
use flask_xxljob.Registry.State.{Process}
use flask_xxljob.Registry.Outcome.{
  local, register, remove, record_result, unexpected_result, registration_error, removal_error,
  disabled_result, internal_operation_result, safe_result,
}
use flask_xxljob.Registry.Register.{join_register, commit_one_shot}
use flask_xxljob.Registry.Lifecycle.{
  Prepare, nothing, prepared, start_failed, prepare_start, Activation, activate_prepared_start,
  next_sequence, begin_renewal, commit_renewal, is_committed_worker, finish_worker,
}
use flask_xxljob.Registry.Remove.{
  stop, Scheduling, idle, started, failed, schedule_pending_remove, claim_remove, leave_actor,
  complete_remove,
}
use flask_xxljob.Registry.Terminal.{
  Turn, one_shot, cached, own, wait_registers, wait_active, wait_pending, terminal_turn,
  begin_shutdown, request_exit_remove, maybe_close_logs,
}
pub mod Parts
pub mod Refinement
pub mod Removal
pub mod Serving
mod Tests

-- The Admin client returns a result, or raises an exception of a type.
pub data Rpc : Type 0 where
  returned : CallResult → Rpc
  raised : Text → Rpc

pub record World : Type 0 where
  pub rpc : Rpc
  pub now : Text
  pub alive : ℕ → Bool
  pub actor_start : Option Text
  pub worker_start : Bool

-- How an operation ends. `blocked` waits for an Event that another thread sets.
pub data Ending : Type 0 where
  done : Ending
  result : CallResult → Ending
  config_error start_error activation_error : Ending
  blocked : Turn → Ending

abbrev pub result_of : Text → Rpc → CallResult
result_of error (returned r) = r
result_of error (raised type_name) = unexpected_result error type_name

module _ (w : World) where
  abbrev pub schedule : Process → Process × Scheduling
  schedule p = schedule_pending_remove w.alive w.actor_start w.now p

  -- `_schedule_pending_remove` where there is an operation for it
  unfoldable pub schedule_if : Bool → Process → Process × Scheduling
  schedule_if b p = if b then schedule p else (p, idle)

  -- `_record_local_failure`
  abbrev pub record_local : Process → CallResult → Process
  record_local p r = record_result p r local w.now

  -- `register_once_result`, after the validation
  unfoldable pub register_call : Process → Process × Ending
  register_call p =
      let (q, c, g) = join_register p in
      let (called, n) = next_sequence q in
      let r : CallResult = result_of registration_error w.rpc in
      let (committed, operation) = commit_one_shot called r n register (some g) c w.now in
      let (scheduled, s) = schedule_if (is_some operation) committed in
      (if is_some c then (maybe_close_logs scheduled).0 else scheduled, result r)

  -- `register_once_result`
  unfoldable pub register_once_result : Process → Process × Ending
  register_once_result p =
      if not p.enabled
      then (record_local p disabled_result, result disabled_result)
      else if not p.valid
      then (p, config_error)
      else register_call p

  -- Lines 457 to 460, 525 to 530: a Remove outside the lifecycle
  unfoldable pub remove_call : Process → Process × Ending
  remove_call p =
      let (called, n) = next_sequence p in
      let r : CallResult = result_of removal_error w.rpc in
      ((commit_one_shot called r n remove none none w.now).0, result r)

  -- `_execute_remove`
  unfoldable pub execute_remove : Process → ℕ → Process
  execute_remove p o =
      let (called, n) = next_sequence p in
      let completed : Process = complete_remove called o (result_of removal_error w.rpc) n w.now in
      (maybe_close_logs (schedule completed).0).0

  -- `_operation_result`
  abbrev pub operation_result : Process → ℕ → CallResult
  operation_result p o = elim (p.operations o).result [
    | none ↦ internal_operation_result (text "Registry removal completed without a result.")
    | some r ↦ safe_result p.redact r
  ]

  -- `_terminal_remove_result`, lines 524 to 545, up to the wait
  unfoldable pub take_turn : Process × Turn → Process × Ending
  take_turn (p, one_shot) = remove_call p
  take_turn (p, cached r) = (p, result r)
  take_turn (p, own o) = (execute_remove p o, result (operation_result (execute_remove p o) o))
  take_turn (p, wait_pending o true) = ((schedule p).0, blocked (wait_pending o true))
  take_turn (p, turn) = (p, blocked turn)

  -- `remove_once_result`
  unfoldable pub remove_once_result : Process → Process × Ending
  remove_once_result p =
      if not p.enabled
      then (record_local p disabled_result, result disabled_result)
      else if not p.valid
      then (p, config_error)
      else if is_none p.worker
      then take_turn (terminal_turn p p.generation)
      else remove_call p

  unfoldable pub activate_if : Process × Prepare → Process × Ending
  activate_if (p, nothing) = (p, done)
  activate_if (p, start_failed) = (p, start_error)
  activate_if (p, prepared r) =
      ((activate_prepared_start r p).0, ending (activate_prepared_start r p).1)
    where
      ending : Activation → Ending
      ending Activation.activated = done
      ending Activation.cancelled = done
      ending _ = activation_error

  -- `start`
  unfoldable pub start : Process → Process × Ending
  start p =
      if not p.enabled
      then (p, done)
      else if not p.valid
      then (p, config_error)
      else activate_if (prepare_start w.worker_start p)

  abbrev pub start_ending : Scheduling → Ending
  start_ending (failed o) = start_error
  start_ending _ = done

  -- `stop`; an actor that does not start raises before the logs are looked at.
  unfoldable pub close_unless_failed : Process × Scheduling → Process × Ending
  close_unless_failed (p, failed o) = (p, start_error)
  close_unless_failed (p, _) = ((maybe_close_logs p).0, done)

  unfoldable pub stop_service : Bool → Process → Process × Ending
  stop_service with_remove p =
      if not p.enabled
      then (p, done)
      else if with_remove && not p.valid
      then (p, config_error)
      else let (q, operation) = stop with_remove p in
        close_unless_failed (schedule_if (is_some operation) q)

  -- `shutdown`, lines 1461 to 1491
  unfoldable pub exit_remove : Process → ℕ → Process
  exit_remove p g =
      if p.valid
      then (let (q, operation) = request_exit_remove p g in (schedule_if (is_some operation) q).0)
      else record_local p (
          local_failure (text "Invalid Registry configuration during exit cleanup.")
            (exception (text "XXLJobConfigurationError")))

  -- `shutdown`
  unfoldable pub shutdown : Process → Process × Ending
  shutdown p =
      let (q, should_validate_remove) = begin_shutdown p in
      let r : Process = (if should_validate_remove then exit_remove q q.generation else q) in
      ((maybe_close_logs r).0, done)

  -- `_perform_worker_registry`; the flag says whether the Worker goes on.
  unfoldable pub commit_if : ℕ → Process × Option ℕ → Process × Bool
  commit_if c (p, none) = (p, false)
  commit_if c (p, some n) = commit_renewal p c (result_of registration_error w.rpc) n w.now

  unfoldable pub perform_worker_registry : ℕ → Process → Process × Bool
  perform_worker_registry c p = commit_if c (begin_renewal p c)

  -- `_finish_worker`
  unfoldable pub execute_or_schedule : Process × Option ℕ → Process
  execute_or_schedule (p, some o) = execute_remove p o
  execute_or_schedule (p, none) = (schedule p).0

  unfoldable pub finish : ℕ → Process → Process
  finish c p =
      if is_committed_worker p c
      then (maybe_close_logs (execute_or_schedule (finish_worker p c))).0
      else p

  -- `_run_cleanup_actor`, by the Thread `t`
  unfoldable pub execute_if : ℕ → Process × Bool → Process
  execute_if o (p, true) = execute_remove p o
  execute_if o (p, false) = p

  unfoldable pub run_cleanup_actor : ℕ → ℕ → Process → Process
  run_cleanup_actor o t p =
      (maybe_close_logs (schedule (leave_actor (execute_if o (claim_remove p o)) o t)).0).0

-- The entry points of the service, for its callers and for its Threads.
pub data Call : Type 0 where
  registers removes starts shuts_down : Call
  stops : Bool → Call
  renews finishes : ℕ → Call
  cleans_up : ℕ → ℕ → Call

-- The process after a call that ran alone.
unfoldable pub perform : World → Call → Process → Process
perform w Call.registers p = (register_once_result w p).0
perform w Call.removes p = (remove_once_result w p).0
perform w Call.starts p = (start w p).0
perform w Call.shuts_down p = (shutdown w p).0
perform w (Call.stops b) p = (stop_service w b p).0
perform w (Call.renews c) p = (perform_worker_registry w c p).0
perform w (Call.finishes c) p = finish w c p
perform w (Call.cleans_up o t) p = run_cleanup_actor w o t p
