-- ===== src/Registry/Register.antt =====
-- registry_service.py, one-shot registers: the coordination of registers with a cleanup, and the
-- responsibility for the Remove of a generation. An `Event.set()` that follows a critical section
-- is taken with it.
use flask_xxljob.Base.{
  ℕ, ◌+◌, ◌-◌, ltb, Bool, true, false, not, ◌&&◌, ◌||◌, Option, none, some, ◌==◌, holds, Text,
  if◌then◌else◌,
}
use flask_xxljob.Client.Result.{CallResult}
use flask_xxljob.Registry.State.{Process, update, with_coordination}
use flask_xxljob.Registry.Outcome.{Kind, register, record_result}

abbrev pub set_coordination_done : Process → ℕ → Process
set_coordination_done p c = with_coordination p c (record (p.coordinations c) { done_event = true })

abbrev pub forget_coordination : Process → Process
forget_coordination p = record p { state = record p.state { register_coordination = none } }

-- `_join_register_coordination`, lines 239 to 245 and 265: a window of an older generation closes.
unfoldable pub detach_stale_coordination : Process → Process
detach_stale_coordination p = elim p.register_coordination [
  | none ↦ p
  | some c ↦
      if (p.coordinations c).generation == p.generation
      then p
      else set_coordination_done (forget_coordination p) c
]

abbrev pub enter_window : Process → ℕ → Process
enter_window p c =
    let k = p.coordinations c in
    with_coordination p c (record k { inflight_count = k.inflight_count + 1; done_event = false })

abbrev pub open_window : Process → Process
open_window p = record p {
  state = record p.state { register_coordination = some p.next };
  heap = record p.heap {
    next = p.next + 1;
    coordinations = update p.coordinations p.next (record {
      generation = p.generation;
      inflight_count = 0;
      done_event = false;
      cleanup_requested = false;
    });
  };
}

-- Lines 247 to 263: a window that a cleanup has closed is not joined.
unfoldable pub join_window : Process → Option ℕ → Process × Option ℕ
join_window p none = (enter_window (open_window p) p.next, some p.next)
join_window p (some c) =
    if (p.coordinations c).cleanup_requested then (p, none) else (enter_window p c, some c)

-- `_join_register_coordination`
unfoldable pub join_register : Process → Process × Option ℕ × ℕ
unfolding detach_stale_coordination join_window
join_register p =
    let q = detach_stale_coordination p in
    let (r, c) = join_window q q.register_coordination in (r, c, p.generation)

abbrev pub has_generation : Process → ℕ → Option ℕ → Bool
has_generation p g none = false
has_generation p g (some o) = (p.operations o).generation == g

-- `_has_remove_for_generation_locked`
unfoldable pub has_remove_for_generation : Process → ℕ → Bool
has_remove_for_generation p g =
    has_generation p g p.active_remove || has_generation p g p.pending_remove

-- The caller's coordination is still the open window of the generation.
abbrev pub is_open_window : Process → ℕ → Option ℕ → Bool
is_open_window p g none = false
is_open_window p g (some c) = holds p.register_coordination c && (p.coordinations c).generation == g

abbrev pub is_cleanup_requested : Process → Option ℕ → Bool
is_cleanup_requested p none = false
is_cleanup_requested p (some c) = (p.coordinations c).cleanup_requested

abbrev pub forget_cleanup : Process → Process
forget_cleanup p = record p {
  state = record p.state {
    last_successfully_removed_generation = none;
    last_successfully_removed_result = none;
    last_remove_requested_generation = none;
  };
}

-- `_invalidate_successful_cleanup_locked`; a generation is never negative.
unfoldable pub invalidate_successful_cleanup : Process → ℕ → Option ℕ → Process × Bool
invalidate_successful_cleanup p g coordination =
    if not (p.generation == g)
    then (p, false)
    else if holds p.last_successfully_removed_generation g
        || (is_open_window p g coordination && is_cleanup_requested p coordination)
        || (g == 0 && is_open_window p g coordination)
    then (forget_cleanup p, true)
    else (p, false)

abbrev pub mark_requested : Process → ℕ → Process
mark_requested p g = record p {
  state = record p.state { last_remove_requested_generation = some g };
}

abbrev pub open_pending : Process → ℕ → Process
open_pending p g = record p {
  state = record p.state {
    last_remove_requested_generation = some g;
    pending_remove = some p.next;
  };
  heap = record p.heap {
    next = p.next + 1;
    operations =
        update p.operations p.next
          (record { generation = g; done_event = false; thread = none; result = none });
  };
}

-- `_ensure_pending_remove_locked`
unfoldable pub ensure_pending_remove : Process → ℕ → Process × Option ℕ
ensure_pending_remove p g =
    if g == 0 && not p.registered
    then (p, none)
    else if holds p.last_successfully_removed_generation g
    then (p, none)
    else elim p.pending_remove [
      | some o ↦
          if (p.operations o).generation == g then (mark_requested p g, some o) else (p, none)
      | none ↦
          if holds p.last_remove_requested_generation g
          then (p, none)
          else (open_pending p g, some p.next)
    ]

-- `_reconcile_register_coordination_locked`, lines 365 to 375
unfoldable pub reconcile_pending : Process → ℕ → ℕ → Process × Option ℕ
reconcile_pending p c g =
    if (p.coordinations c).cleanup_requested
      && (p.coordinations c).inflight_count == 0
      && (ltb 0 g || p.registered)
      && not (holds p.last_successfully_removed_generation g)
    then ensure_pending_remove p g
    else (p, none)

-- Lines 377 to 398: may the window be forgotten?
unfoldable pub window_is_settled : Process → ℕ → ℕ → Bool
unfolding has_remove_for_generation
window_is_settled p c g =
    (p.coordinations c).inflight_count == 0
    && (not (p.coordinations c).cleanup_requested
        || holds p.last_successfully_removed_generation g
        || (g == 0 && not p.registered)
        || ((p.coordinations c).cleanup_requested
            && not (has_remove_for_generation p g)
            && holds p.last_remove_requested_generation g))

-- `_reconcile_register_coordination_locked`
unfoldable pub reconcile : Process → ℕ → Process × Option ℕ
reconcile p c =
    let g = (p.coordinations c).generation in
    if not (holds p.register_coordination c)
    then (p, none)
    else if not (p.generation == g)
    then (forget_coordination p, none)
    else let (q, operation) = reconcile_pending p c g in
      (if window_is_settled q c g then forget_coordination q else q, operation)

-- Lines 634 to 647: `cleanup_mutation_allowed`, and the call that it guards.
unfoldable pub reopen_cleanup : Process → CallResult → Kind → Option ℕ → Option ℕ → Process
reopen_cleanup p result register (some g) (some c) =
    if result.success && p.generation == g && is_open_window p g (some c)
    then (invalidate_successful_cleanup p g (some c)).0
    else p
reopen_cleanup p result _ _ _ = p

abbrev pub set_applied : Process → ℕ → Process
set_applied p n = record p { state = record p.state { last_applied_rpc_sequence = n } }

-- Lines 621 to 647: an RPC that a later one has overtaken records nothing.
unfoldable pub commit_result :
    Process → CallResult → ℕ → Kind → Option ℕ → Option ℕ → Text → Process
commit_result p result sequence kind g c now =
    if ltb p.last_applied_rpc_sequence sequence
    then reopen_cleanup (set_applied (record_result p result kind now) sequence) result kind g c
    else p

abbrev pub leave_window : Process → ℕ → Process
leave_window p c =
    with_coordination p c
      (record (p.coordinations c) { inflight_count = (p.coordinations c).inflight_count - 1 })

-- Lines 649 to 664: the register leaves its window; the last one to leave sets the Event.
unfoldable pub close_register : Process → ℕ → Process × Option ℕ
close_register p c =
    let q = leave_window p c in
    let (r, operation) = (if holds q.register_coordination c then reconcile q c else (q, none)) in
    (if (r.coordinations c).inflight_count == 0 then set_coordination_done r c else r, operation)

abbrev pub close_if : Process → Option ℕ → Process × Option ℕ
close_if p none = (p, none)
close_if p (some c) = close_register p c

-- `_commit_one_shot`: the process after it, and the operation that it is to schedule
unfoldable pub commit_one_shot :
    Process → CallResult → ℕ → Kind → Option ℕ → Option ℕ → Text → Process × Option ℕ
commit_one_shot p result sequence kind g c now =
    close_if (commit_result p result sequence kind g c now) c
