-- ===== src/Registry/Remove.antt =====
-- registry_service.py, removals: the request for a Remove, the scheduler and its cleanup actors,
-- the completion of a Remove, and the caller that waits for one.
use flask_xxljob.Base.{
  ℕ, ◌+◌, ltb, Bool, true, false, not, ◌&&◌, ◌||◌, Option, none, some, List, ◌==◌, holds, is_none,
  is_some, Text, text, if◌then◌else◌,
}
use flask_xxljob.Base.Dict
use flask_xxljob.Base.Dict.{nat_eq}
use flask_xxljob.Client.Result.{CallResult, exception, local_failure}
use flask_xxljob.Registry.State.{Process, with_operation, with_coordination, add, discard}
use flask_xxljob.Registry.Outcome.{remove, local, record_result, safe_result}
use flask_xxljob.Registry.Register.{ensure_pending_remove, reconcile, set_applied}
use flask_xxljob.Registry.Lifecycle.{set_done, set_stop, set_activate, forget_prepared, stop_local}

abbrev pub request_cleanup : Process → ℕ → Process
request_cleanup p c =
    with_coordination p c (record (p.coordinations c) { cleanup_requested = true })

-- `_request_remove_locked`, lines 1101 to 1105
unfoldable pub request_uncoordinated : Process → Process × Option ℕ
request_uncoordinated p =
    if holds p.last_successfully_removed_generation p.generation
    then (p, none)
    else if p.generation == 0 && not p.registered
    then (p, none)
    else ensure_pending_remove p p.generation

-- Lines 1093 to 1105, after the reconciliation: `g` is the generation read at the start.
unfoldable pub request_reconciled : ℕ → ℕ → Process × Option ℕ → Process × Option ℕ
request_reconciled g c (q, some o) = (q, some o)
request_reconciled g c (q, none) =
    if holds q.last_successfully_removed_generation g || ltb 0 (q.coordinations c).inflight_count
    then (q, none)
    else request_uncoordinated q

-- Lines 1089 to 1105
unfoldable pub request_coordinated : Process → ℕ → Process × Option ℕ
request_coordinated p c = request_reconciled p.generation c (reconcile (request_cleanup p c) c)

abbrev pub matching_coordination : Process → Option ℕ → Bool
matching_coordination p none = false
matching_coordination p (some c) = (p.coordinations c).generation == p.generation

-- `_request_remove_locked`, by its window
unfoldable pub request_in_window : Process → Option ℕ → Process × Option ℕ
request_in_window p none = request_uncoordinated p
request_in_window p (some c) =
    if (p.coordinations c).generation == p.generation
    then request_coordinated p c
    else request_uncoordinated p

-- `_request_remove_locked`
unfoldable pub request_remove : Process → Process × Option ℕ
request_remove p = request_in_window p p.register_coordination

-- `stop`, lines 1055 to 1057, 1062 to 1064
unfoldable pub withdraw_prepared : Process → Process
withdraw_prepared p = elim p.prepared_start [
  | none ↦ p
  | some r ↦ set_activate (set_stop (forget_prepared p) (p.prepareds r).context) r
]

-- The section of `stop`, and the operation that it is to schedule
unfoldable pub stop : Bool → Process → Process × Option ℕ
stop with_remove p =
    let q = stop_local (withdraw_prepared p) in if with_remove then request_remove q else (q, none)

-- How `_schedule_pending_remove` ends. An actor is a Thread.
pub data Scheduling : Type 0 where
  idle : Scheduling
  started : ℕ → Scheduling
  failed : ℕ → Scheduling

abbrev pub with_actors : Process → (List ℕ → List ℕ) → Process
with_actors p f = record p { state = record p.state { cleanup_actors = f p.cleanup_actors } }

abbrev pub set_thread : Process → ℕ → Option ℕ → Process
set_thread p o t = with_operation p o (record (p.operations o) { thread = t })

-- Lines 1170 to 1176: the association with an actor that is no longer alive is dropped.
unfoldable pub drop_dead_actor : Process → ℕ → Process
drop_dead_actor p o = elim (p.operations o).thread [
  | none ↦ p
  | some t ↦ set_thread (with_actors p (discard t)) o none
]

abbrev pub has_live_actor : (ℕ → Bool) → Option ℕ → Bool
has_live_actor alive none = false
has_live_actor alive (some t) = alive t

-- Lines 1178 to 1185
abbrev pub new_actor : Process → ℕ → Process
new_actor p o =
    set_thread
      (record p {
        state = record p.state { cleanup_actors = add p.next p.cleanup_actors };
        heap = record p.heap { next = p.next + 1 };
      })
      o (some p.next)

abbrev pub start_failure : Text → CallResult
start_failure type_name =
    local_failure (text "Failed to start Registry cleanup actor.") (exception type_name)

abbrev pub set_result : Process → ℕ → CallResult → Process
set_result p o r =
    with_operation p o (record (p.operations o) { result = some (safe_result p.redact r) })

abbrev pub clear_pending : Process → ℕ → Process
clear_pending p o = record p {
  state = record p.state {
    pending_remove = if holds p.pending_remove o then none else p.pending_remove;
    active_remove = if holds p.active_remove o then none else p.active_remove;
  };
}

-- Lines 1205 to 1212, 1362 to 1369
unfoldable pub reconcile_window : Process → ℕ → Option ℕ → Process
reconcile_window p o none = p
reconcile_window p o (some c) =
    if (p.coordinations c).generation == (p.operations o).generation then (reconcile p c).0 else p

unfoldable pub reconcile_after : Process → ℕ → Process
reconcile_after p o = reconcile_window p o p.register_coordination

-- Lines 1191 to 1203
unfoldable pub end_unstarted : Process → ℕ → ℕ → Text → Process
end_unstarted p o t type_name =
    set_result (clear_pending (set_thread (with_actors p (discard t)) o none) o) o
      (start_failure type_name)

-- Lines 1190 to 1217: the Thread did not start. The operation ends with a local failure.
unfoldable pub fail_start : Process → ℕ → ℕ → Text → Text → Process
fail_start p o t type_name now =
    set_done
      (reconcile_after
        (record_result (end_unstarted p o t type_name) (start_failure type_name) local now) o)
      o

-- Lines 1186 to 1217
unfoldable pub launch_actor : Option Text → Text → Process → ℕ → ℕ → Process × Scheduling
launch_actor none now p o t = (p, started t)
launch_actor (some type_name) now p o t = (fail_start p o t type_name now, failed o)

-- Lines 1166 to 1217: `alive` is `Thread.is_alive`, and `outcome` is the type of the
-- exception that `thread.start()` raises, if any.
unfoldable pub schedule_operation :
    (ℕ → Bool) → Option Text → Text → Process → ℕ → Process × Scheduling
schedule_operation alive outcome now p o =
    if is_some p.active_remove
      || Dict.has p.stopping_workers (p.operations o).generation
      || has_live_actor alive (p.operations o).thread
    then (p, idle)
    else launch_actor outcome now (new_actor (drop_dead_actor p o) o) o p.next

abbrev pub schedule_pending :
    (ℕ → Bool) → Option Text → Text → Process → Option ℕ → Process × Scheduling
schedule_pending alive outcome now p none = (p, idle)
schedule_pending alive outcome now p (some o) = schedule_operation alive outcome now p o

-- `_schedule_pending_remove`, in the process of the caller
unfoldable pub schedule_pending_remove :
    (ℕ → Bool) → Option Text → Text → Process → Process × Scheduling
schedule_pending_remove alive outcome now p = schedule_pending alive outcome now p p.pending_remove

-- `_run_cleanup_actor`, lines 1247 to 1254
unfoldable pub claim_remove : Process → ℕ → Process × Bool
claim_remove p o =
    if is_none p.active_remove && holds p.pending_remove o
    then (
      record p { state = record p.state { pending_remove = none; active_remove = some o } },
      true,
    )
    else (p, false)

-- Lines 1259 to 1262
unfoldable pub leave_actor : Process → ℕ → ℕ → Process
leave_actor p o t =
    if holds (p.operations o).thread t
    then set_thread (with_actors p (discard t)) o none
    else with_actors p (discard t)

-- `_complete_remove_operation`, lines 1334 to 1349: is the generation now removed?
abbrev pub cleanup_is_satisfied : Process → ℕ → CallResult → Bool
cleanup_is_satisfied p o r =
    r.success && p.generation == (p.operations o).generation && is_none p.worker

abbrev pub mark_removed : Process → ℕ → CallResult → Process
mark_removed p g r = record p {
  state = record p.state {
    last_remove_requested_generation = some g;
    last_successfully_removed_generation = some g;
    last_successfully_removed_result = some (safe_result p.redact r);
  };
}

-- Lines 1350 to 1356, 1302 and 1303
unfoldable pub cancel_same_pending : Process → ℕ → Process
cancel_same_pending p g = elim p.pending_remove [
  | none ↦ p
  | some o ↦
      if (p.operations o).generation == g
      then set_done (record p { state = record p.state { pending_remove = none } }) o
      else p
]

-- Lines 1328 to 1356
unfoldable pub accept_removal : Process → ℕ → CallResult → ℕ → Text → Process
accept_removal p o result sequence now =
    if cleanup_is_satisfied q o (safe_result p.redact result)
    then cancel_same_pending
        (mark_removed q (q.operations o).generation (safe_result p.redact result))
        (q.operations o).generation
    else q
  where
    q : Process
    q = set_applied (record_result p result remove now) sequence

-- Lines 1322 to 1356
unfoldable pub settle_removal : Process → ℕ → CallResult → ℕ → Text → Process
settle_removal p o result sequence now =
    let q = set_result p o result in
    if holds q.active_remove o && ltb q.last_applied_rpc_sequence sequence
    then accept_removal q o result sequence now
    else q

abbrev pub clear_active : Process → ℕ → Process
clear_active p o = record p {
  state = record p.state {
    active_remove = if holds p.active_remove o then none else p.active_remove;
  };
}

-- `_complete_remove_operation`, and the `done_event` of lines 1301 to 1303
unfoldable pub complete_remove : Process → ℕ → CallResult → ℕ → Text → Process
complete_remove p o result sequence now =
    set_done (reconcile_after (clear_active (settle_removal p o result sequence now) o) o) o
