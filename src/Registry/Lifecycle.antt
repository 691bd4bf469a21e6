-- ===== src/Registry/Lifecycle.antt =====
-- registry_service.py, the renewal lifecycle: a candidate Thread is prepared, then activated,
-- cancelled or settled; a Worker renews, is stopped and finishes.
use flask_xxljob.Base.{
  ℕ, ◌+◌, ltb, Bool, true, false, not, ◌&&◌, ◌||◌, Option, none, some, ◌==◌, holds, is_some, Text,
  if◌then◌else◌,
}
use flask_xxljob.Base.Dict
use flask_xxljob.Base.Dict.{nat_eq}
use flask_xxljob.Client.Result.{CallResult}
use flask_xxljob.Registry.State.{
  Process, update, with_operation, with_context, with_prepared, is_current_worker,
}
use flask_xxljob.Registry.Outcome.{worker, record_result}
use flask_xxljob.Registry.Register.{
  invalidate_successful_cleanup, set_applied, forget_coordination, set_coordination_done,
}

abbrev pub forget_prepared : Process → Process
forget_prepared p = record p { state = record p.state { prepared_start = none } }

-- Clears `ctx.prepared_owner`.
abbrev pub disown : Process → ℕ → Process
disown p c = with_context p c (record (p.contexts c) { prepared_owner = none })

abbrev pub set_stop : Process → ℕ → Process
set_stop p c = with_context p c (record (p.contexts c) { stop_event = true })

abbrev pub set_activate : Process → ℕ → Process
set_activate p r = with_prepared p r (record (p.prepareds r) { activate_event = true })

abbrev pub set_done : Process → ℕ → Process
set_done p o = with_operation p o (record (p.operations o) { done_event = true })

-- Lines 708 to 728: the context, the Prepared token and the Thread take the next three numbers.
unfoldable pub publish_prepared : Process → Process
publish_prepared p = record p {
  state = record p.state { prepared_start = some (p.next + 1) };
  heap = record p.heap {
    next = p.next + 3;
    contexts = update p.contexts p.next (record {
      generation = p.generation + 1;
      stop_event = false;
      thread = some (p.next + 2);
      wait_remove_event = none;
      prepared_owner = some (p.next + 1);
    });
    prepareds =
        update p.prepareds (p.next + 1)
          (record { context = p.next; activate_event = false; thread = p.next + 2 });
  };
}

pub data Prepare : Type 0 where
  nothing : Prepare
  prepared : ℕ → Prepare
  start_failed : Prepare

abbrev pub current_worker_exists : Process → Option ℕ → Bool
current_worker_exists p none = false
current_worker_exists p (some w) = is_current_worker p w

-- The section of `_prepare_start`; `started` says whether `thread.start()` returned.
unfoldable pub prepare_start : Bool → Process → Process × Prepare
unfolding publish_prepared
prepare_start started p =
    if current_worker_exists p p.worker || is_some p.prepared_start
    then (p, nothing)
    else let q = publish_prepared p in
      if started
      then (q, prepared (p.next + 1))
      else (disown (forget_prepared q) p.next, start_failed)

-- The two results of `_activate_prepared_start`, and its three RuntimeErrors.
pub data Activation : Type 0 where
  activated cancelled owner_lost generation_skew worker_appeared : Activation

-- Lines 784 to 786, and `_stop_local_locked`
unfoldable pub retire : Process → ℕ → Process
retire p w =
    set_stop
      (record p {
        state = record p.state {
          worker = none;
          stopping_workers = Dict.put p.stopping_workers (p.contexts w).generation w;
        };
      })
      w

unfoldable pub stop_local : Process → Process
stop_local p = elim p.worker [ none ↦ p | some w ↦ retire p w ]

-- Lines 792 to 795 and 808
unfoldable pub detach_coordination : Process → Process
detach_coordination p = elim p.register_coordination [
  | none ↦ p
  | some c ↦ set_coordination_done (forget_coordination p) c
]

-- Lines 799 to 801 and 806
unfoldable pub cancel_pending : Process → Process
cancel_pending p = elim p.pending_remove [
  | none ↦ p
  | some o ↦ set_done (record p { state = record p.state { pending_remove = none } }) o
]

-- Lines 802 and 803
unfoldable pub wait_for_active : Process → ℕ → Process
wait_for_active p c = elim p.active_remove [
  | none ↦ p
  | some o ↦ with_context p c (record (p.contexts c) { wait_remove_event = some o })
]

-- Lines 788 to 790
unfoldable pub commit_generation : Process → ℕ → Process
commit_generation p c = record p {
  state = record p.state {
    generation = (p.contexts c).generation;
    worker = some c;
    prepared_start = none;
  };
}

-- Lines 788 to 809: the candidate becomes the Worker.
unfoldable pub commit_activation : Process → ℕ → ℕ → Process
unfolding commit_generation detach_coordination cancel_pending wait_for_active
commit_activation p r c =
    set_activate (wait_for_active (cancel_pending (detach_coordination (commit_generation p c))) c)
      r

-- `_activate_prepared_start`, in the process that made the token
unfoldable pub activate_prepared_start : ℕ → Process → Process × Activation
activate_prepared_start r p =
    let c = (p.prepareds r).context in
    if not (holds p.prepared_start r)
    then (p, cancelled)
    else if not (holds (p.contexts c).prepared_owner r)
    then (p, owner_lost)
    else if not ((p.contexts c).generation == p.generation + 1)
    then (p, generation_skew)
    else if current_worker_exists p p.worker
    then (p, worker_appeared)
    else (commit_activation (stop_local p) r c, activated)

abbrev pub disown_from : Process → ℕ → ℕ → Process
disown_from p c r = if holds (p.contexts c).prepared_owner r then disown p c else p

-- `_cancel_prepared_start`
unfoldable pub cancel_prepared_start : ℕ → Process → Process × Bool
cancel_prepared_start r p =
    if not (holds p.prepared_start r)
    then (p, false)
    else (set_activate (set_stop (disown_from (forget_prepared p) c r) c) r, true)
  where
    c : ℕ
    c = (p.prepareds r).context

-- `_settle_prepared_after_publish_failure`: a token that is still owned is withdrawn; the Event of
-- a committed one is set again. `retried` says whether `activate_event.set()` returned.
unfoldable pub settle_prepared : Bool → ℕ → Process → Process
settle_prepared retried r p =
    if holds p.prepared_start r && holds (p.contexts c).prepared_owner r
    then wake (set_stop (disown (forget_prepared p) c) c)
    else if holds (p.contexts c).prepared_owner r
        && holds (p.contexts c).thread (p.prepareds r).thread
        && (holds p.worker c || holds (Dict.get p.stopping_workers (p.contexts c).generation) c)
    then wake p
    else p
  where
    c : ℕ
    c = (p.prepareds r).context

    wake : Process → Process
    wake q = if retried then set_activate q r else q

-- `_prepared_worker_entry`, lines 928 to 932: did the candidate become a Worker?
unfoldable pub is_committed_worker : Process → ℕ → Bool
is_committed_worker p c =
    holds p.worker c || holds (Dict.get p.stopping_workers (p.contexts c).generation) c

-- `_worker_is_current`, in the process of the worker
unfoldable pub worker_is_current : Process → ℕ → Bool
worker_is_current p c = not (p.contexts c).stop_event && is_current_worker p c

-- `rpc_sequence += 1` under the network lock, and the sequence of the call
unfoldable pub next_sequence : Process → Process × ℕ
next_sequence p =
    (record p { state = record p.state { rpc_sequence = p.rpc_sequence + 1 } }, p.rpc_sequence + 1)

-- `_perform_worker_registry`, lines 1000 to 1007: no call is made for a worker that is not current.
unfoldable pub begin_renewal : Process → ℕ → Process × Option ℕ
unfolding worker_is_current next_sequence
begin_renewal p c =
    if worker_is_current p c
    then (let (q, sequence) = next_sequence p in (q, some sequence))
    else (p, none)

-- Lines 1016 to 1036; the flag is `still_current`.
unfoldable pub commit_renewal : Process → ℕ → CallResult → ℕ → Text → Process × Bool
commit_renewal p c result sequence now =
    if worker_is_current p c && ltb p.last_applied_rpc_sequence sequence
    then (set_applied (reopen (record_result p result worker now)) sequence, true)
    else (p, worker_is_current p c)
  where
    reopen : Process → Process
    reopen q =
        if result.success
        then (invalidate_successful_cleanup q (q.contexts c).generation none).0
        else q

-- `_finish_worker`, lines 1117 to 1127: the last act of a worker may be to claim its Remove.
unfoldable pub claim_own_remove : Process → ℕ → Process × Option ℕ
claim_own_remove p c = elim p.pending_remove [
  | none ↦ (p, none)
  | some o ↦
      if (p.operations o).generation == (p.contexts c).generation && not (is_some p.active_remove)
      then (
        record p { state = record p.state { pending_remove = none; active_remove = some o } },
        some o,
      )
      else (p, none)
]

-- Lines 1129 to 1134
unfoldable pub leave_worker : Process → ℕ → Process
leave_worker p c =
    let g = (p.contexts c).generation in
    disown
      (record p {
        state = record p.state {
          worker = if holds p.worker c then none else p.worker;
          stopping_workers =
              if holds (Dict.get p.stopping_workers g) c
              then Dict.delete p.stopping_workers g
              else p.stopping_workers;
        };
      })
      c

-- The section of `_finish_worker`, and the operation that the worker is to execute
unfoldable pub finish_worker : Process → ℕ → Process × Option ℕ
finish_worker p c = let (q, claimed) = claim_own_remove p c in (leave_worker q c, claimed)
