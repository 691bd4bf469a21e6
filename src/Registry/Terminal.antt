-- ===== src/Registry/Terminal.antt =====
-- registry_service.py: the synchronous Remove of a process without a Worker, finalization, the
-- closing of the logs, and the status.
use flask_xxljob.Base.{
  ℕ, ◌+◌, ltb, Bool, true, false, not, ◌&&◌, ◌||◌, Option, none, some, ◌==◌, holds, is_none,
  is_some, is_empty, Text, if◌then◌else◌,
}
use flask_xxljob.Client.Result.{CallResult, ErrorType}
use flask_xxljob.Registry.State.{Process, update}
use flask_xxljob.Registry.Outcome.{safe_result}
use flask_xxljob.Registry.Lifecycle.{stop_local}
use flask_xxljob.Registry.Remove.{withdraw_prepared, request_remove, request_cleanup}

-- What one turn of the loop of `_terminal_remove_result` decides to do.
pub data Turn : Type 0 where
  one_shot : Turn
  cached : CallResult → Turn
  own : ℕ → Turn
  wait_registers : ℕ → Turn
  wait_active : ℕ → Bool → Turn
  wait_pending : ℕ → Bool → Turn

abbrev pub has_inflight : Process → ℕ → Option ℕ → Bool
has_inflight p g none = false
has_inflight p g (some c) =
    (p.coordinations c).generation == g && ltb 0 (p.coordinations c).inflight_count

-- Lines 518 to 522
unfoldable pub open_active : Process → ℕ → Process
open_active p g = record p {
  state = record p.state { active_remove = some p.next };
  heap = record p.heap {
    next = p.next + 1;
    operations =
        update p.operations p.next
          (record { generation = g; done_event = false; thread = none; result = none });
  };
}

-- Lines 501 to 522: wait for an operation, or become the owner of a new one.
unfoldable pub join_or_own : Process → ℕ → Process × Turn
unfolding open_active
join_or_own p g = elim p.active_remove [
  | some o ↦ (p, wait_active o ((p.operations o).generation == g))
  | none ↦ elim p.pending_remove [
    | some o ↦ (p, wait_pending o ((p.operations o).generation == g))
    | none ↦ (open_active p g, own p.next)
  ]
]

-- Lines 493 to 500
unfoldable pub answer_or_join : Process → ℕ → Process × Turn
unfolding join_or_own safe_result
answer_or_join p g = elim p.last_successfully_removed_result [
  | none ↦ join_or_own p g
  | some r ↦
      if holds p.last_successfully_removed_generation g
      then (p, cached (safe_result p.redact r))
      else join_or_own p g
]

abbrev pub wait_window : Process → Option ℕ → Process × Turn
wait_window p none = (p, one_shot)
wait_window p (some c) = (p, wait_registers c)

-- The section of `_terminal_remove_result`
unfoldable pub terminal_turn : Process → ℕ → Process × Turn
unfolding answer_or_join
terminal_turn p g =
    if not (p.generation == g) || is_some p.worker
    then (p, one_shot)
    else if has_inflight p g p.register_coordination
    then wait_window p p.register_coordination
    else answer_or_join p g

abbrev pub is_satisfied : Process → Bool
is_satisfied p = holds p.last_successfully_removed_generation p.generation

-- `shutdown`, lines 1439 to 1455
unfoldable pub should_validate_remove : Process → Bool
should_validate_remove p =
    p.enabled
    && p.deregister_on_exit
    && (has_inflight p p.generation p.register_coordination
        || ((ltb 0 p.generation || (p.generation == 0 && p.registered))
            && not (is_satisfied p)
            && not (holds p.last_remove_requested_generation p.generation)))

-- Lines 1423 to 1429
unfoldable pub close_window : Process → Process
close_window p = elim p.register_coordination [
  | none ↦ p
  | some c ↦
      if p.enabled && p.deregister_on_exit && (p.coordinations c).generation == p.generation
      then request_cleanup p c
      else p
]

-- The first section of `shutdown`; the flag is `should_validate_remove`.
unfoldable pub begin_shutdown : Process → Process × Bool
begin_shutdown p =
    let q = stop_local (withdraw_prepared p) in
    let r = close_window (record q { state = record q.state { close_logs_when_idle = true } }) in
    (r, should_validate_remove r)

-- Lines 1478 to 1480
unfoldable pub request_exit_remove : Process → ℕ → Process × Option ℕ
request_exit_remove p g = if p.generation == g then request_remove p else (p, none)

-- Lines 1504 to 1513
unfoldable pub is_idle : Process → Bool
is_idle p =
    p.close_logs_when_idle
    && is_none p.prepared_start
    && is_none p.worker
    && is_empty p.stopping_workers
    && is_none p.active_remove
    && is_none p.pending_remove
    && is_empty p.cleanup_actors
    && is_none p.register_coordination
    && not p.logs_closed

-- The section of `_maybe_close_logs_when_idle`; the flag is `should_close`.
unfoldable pub maybe_close_logs : Process → Process × Bool
unfolding is_idle
maybe_close_logs p =
    if is_idle p
    then (record p { state = record p.state { logs_closed = true } }, true)
    else (p, false)

-- `status_snapshot`
pub record Status : Type 0 where
  pub registered : Bool
  pub last_registry_time : Option Text
  pub last_registry_success : Option Bool
  pub last_registry_admin_address : Option Text
  pub last_registry_error_type : Option ErrorType
  pub last_registry_message : Option Text
  pub registry_thread_running : Bool

unfoldable pub status_snapshot : Process → Status
status_snapshot p = record {
  registered = p.registered;
  last_registry_time = p.last_registry_time;
  last_registry_success = p.last_registry_success;
  last_registry_admin_address = p.last_registry_admin_address;
  last_registry_error_type = p.last_registry_error_type;
  last_registry_message = p.last_registry_message;
  registry_thread_running = is_some p.worker;
}
