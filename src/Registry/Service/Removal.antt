-- ===== src/Registry/Service/Removal.antt =====
-- registry_service.py: a Worker that is stopped with a Remove removes its generation.
use flask_xxljob.Base.{
  ℕ, ◌+◌, ◌≤◌, ◌<◌, ◌≡◌, ap, ◌∙◌, ◌&&◌, Bool, true, false, not, none, some, Text, if◌then◌else◌,
  arith,
}
use flask_xxljob.Base.Dict
use flask_xxljob.Base.Dict.{nat_eq, get-put}
use flask_xxljob.Client.Result.{CallResult}
use flask_xxljob.Registry.State.{Process}
use flask_xxljob.Registry.Outcome.{removal_error, record_result}
use flask_xxljob.Registry.Register.{ensure_pending_remove}
use flask_xxljob.Registry.Lifecycle.{
  next_sequence, stop_local, retire, is_committed_worker, finish_worker, claim_own_remove,
  leave_worker,
}
use flask_xxljob.Registry.Remove.{
  schedule_pending_remove, schedule_operation, complete_remove, reconcile_after, reconcile_window,
  settle_removal, accept_removal, cancel_same_pending, stop, withdraw_prepared, request_remove,
  request_in_window, request_uncoordinated,
}
use flask_xxljob.Registry.Contracts.{IsRemoved, complete_remove-IsRemoved}
use flask_xxljob.Registry.Terminal.{maybe_close_logs}
use flask_xxljob.Registry.Invariant.{Inv}
use flask_xxljob.Registry.Steps.{Reach}
use flask_xxljob.Registry.Steps.Safety.{Reach-Inv}
use flask_xxljob.Registry.Service.{
  result_of, close_unless_failed, schedule_if, done, execute_remove, execute_or_schedule, finish,
  stop_service, World, returned, Call, perform, Ending,
}

-- What `stop(remove=True)` leaves of a live Worker: its Remove is Pending, and it owns it.
record IsDraining (p q : Process) (c o : ℕ) : Type 0 where
  pub worker : q.worker ≡ none
  pub generation : q.generation ≡ p.generation
  pub context : (q.contexts c).generation ≡ p.generation
  pub stopping : Dict.get q.stopping_workers p.generation ≡ some c
  pub pending : q.pending_remove ≡ some o
  pub operation : (q.operations o).generation ≡ p.generation
  pub active : q.active_remove ≡ p.active_remove
  pub window : q.register_coordination ≡ none
  pub applied : q.last_applied_rpc_sequence ≤ q.rpc_sequence
  pub settings : q.settings ≡ p.settings

retire-IsDraining :
    (p : Process) (c : ℕ)
    → Inv p
    → p.worker ≡ some c
    → p.register_coordination ≡ none
    → 0 < p.generation
    → IsDraining p (ensure_pending_remove (retire p c) p.generation).0 c p.next
unfolding retire ensure_pending_remove
retire-IsDraining p c v w r g =
    ground (arith, v.core, get-put p.stopping_workers (p.contexts c).generation p.generation c)

stop-worker :
    (p : Process) (c : ℕ)
    → Inv p
    → p.worker ≡ some c
    → p.register_coordination ≡ none
    → 0 < p.generation
    → stop true p ≡ ensure_pending_remove (retire p c) p.generation
unfolding stop withdraw_prepared stop_local request_remove request_in_window request_uncoordinated
    retire
stop-worker p c v w r g = ground (arith, v.core)

ensure-requests :
    (p : Process) (c : ℕ)
    → Inv p
    → p.worker ≡ some c
    → 0 < p.generation
    → (ensure_pending_remove (retire p c) p.generation).1 ≡ some p.next
unfolding retire ensure_pending_remove
ensure-requests p c v w g = ground (arith, v.core)

schedule-draining :
    (w : World) (p q : Process) (c o : ℕ)
    → IsDraining p q c o
    → close_unless_failed w (schedule_if w true q) ≡ (q, done)
unfolding close_unless_failed schedule_if schedule_pending_remove schedule_operation
    maybe_close_logs Dict.has
schedule-draining w p q c o d = ground (arith, d)

-- The end of a Remove: the generation is removed, and nothing is left to do.
pub record IsFinished (p q : Process) : Type 0 where
  pub registered : q.registered ≡ false
  pub removed : q.last_successfully_removed_generation ≡ some p.generation
  pub generation : q.generation ≡ p.generation
  pub worker : q.worker ≡ none
  pub pending : q.pending_remove ≡ none
  pub active : q.active_remove ≡ none

complete-free :
    (p : Process) (o : ℕ) (r : CallResult) (n : ℕ) (now : Text)
    → p.pending_remove ≡ none
    → p.register_coordination ≡ none
    → p.active_remove ≡ some o
    → ((complete_remove p o r n now).pending_remove ≡ none)
      × ((complete_remove p o r n now).active_remove ≡ none)
unfolding complete_remove reconcile_after reconcile_window settle_removal accept_removal
    cancel_same_pending record_result
complete-free p o r n now h w a = ground arith

schedule-none :
    (w : World) (p : Process)
    → p.pending_remove ≡ none
    → (schedule_pending_remove w.alive w.actor_start w.now p).0 ≡ p
unfolding schedule_pending_remove
schedule-none w p h = ground arith

finish_worker-draining :
    (p q : Process) (c o : ℕ)
    → IsDraining p q c o
    → p.active_remove ≡ none
    → (is_committed_worker q c ≡ true)
      × ((finish_worker q c).1 ≡ some o)
      × ((finish_worker q c).0.active_remove ≡ some o)
      × ((finish_worker q c).0.pending_remove ≡ none)
      × ((finish_worker q c).0.worker ≡ none)
      × ((finish_worker q c).0.register_coordination ≡ none)
      × ((finish_worker q c).0.generation ≡ p.generation)
      × (((finish_worker q c).0.operations o).generation ≡ p.generation)
      × ((finish_worker q c).0.last_applied_rpc_sequence ≤ (finish_worker q c).0.rpc_sequence)
unfolding finish_worker claim_own_remove leave_worker is_committed_worker
finish_worker-draining p q c o d a = ground (arith, d)

close-IsFinished : {p q : Process} → IsFinished p q → IsFinished p (maybe_close_logs q).0
unfolding maybe_close_logs
close-IsFinished v = ground (arith, v)

execute_remove-IsFinished :
    (w : World) (p : Process) (o : ℕ) (r : CallResult)
    → p.pending_remove ≡ none
    → p.active_remove ≡ some o
    → (p.operations o).generation ≡ p.generation
    → p.worker ≡ none
    → p.register_coordination ≡ none
    → p.last_applied_rpc_sequence ≤ p.rpc_sequence
    → w.rpc ≡ returned r
    → r.success ≡ true
    → IsFinished p (execute_remove w p o)
unfolding execute_remove next_sequence
execute_remove-IsFinished w p o r h a g k c l e s =
    close-IsFinished (rw (schedule-none w completed free.0) finished)
  where
    called : Process
    called = (next_sequence p).0

    completed : Process
    completed = complete_remove called o (result_of removal_error w.rpc) (p.rpc_sequence + 1) w.now

    free : (completed.pending_remove ≡ none) × (completed.active_remove ≡ none)
    free = complete-free called o (result_of removal_error w.rpc) (p.rpc_sequence + 1) w.now h c a

    removed : IsRemoved called completed (result_of removal_error w.rpc)
    removed =
        complete_remove-IsRemoved called o (result_of removal_error w.rpc) (p.rpc_sequence + 1)
          w.now a g k c (omega (arith, l)) (rw e s)

    finished : IsFinished p completed
    finished = record {
      registered = removed.registered;
      removed = removed.removed;
      generation = removed.generation;
      worker = removed.worker;
      pending = free.0;
      active = free.1;
    }

moved-IsFinished : {p q r : Process} → q.generation ≡ p.generation → IsFinished q r → IsFinished p r
moved-IsFinished e v = ground (arith, v)

finish-IsFinished :
    (w : World) (p q : Process) (c o : ℕ) (r : CallResult)
    → IsDraining p q c o
    → p.active_remove ≡ none
    → w.rpc ≡ returned r
    → r.success ≡ true
    → IsFinished p (finish w c q)
unfolding finish execute_or_schedule
finish-IsFinished w p q c o r d a e s =
    let (committed, claims, active, pending, worker, window, generation, operation, applied) =
      finish_worker-draining p q c o d a in
    rw (committed, claims)
      (close-IsFinished (
        moved-IsFinished generation (
          execute_remove-IsFinished w (finish_worker q c).0 o r pending active
            (ground (arith, operation, generation)) worker window applied e s)))

guards :
    (b d : Bool) (x y z : Process × Ending)
    → b ≡ true
    → d ≡ true
    → (if not b then x else if true && not d then y else z) ≡ z
guards b d x y z h g = ground arith

stop_service-draining :
    (w : World) (p : Process) (c : ℕ)
    → Inv p
    → p.enabled ≡ true
    → p.valid ≡ true
    → p.worker ≡ some c
    → p.register_coordination ≡ none
    → 0 < p.generation
    → (stop_service w true p).0 ≡ (ensure_pending_remove (retire p c) p.generation).0
unfolding stop_service
stop_service-draining w p c v en va k wi g =
    ap (λ x. x.0) (guards p.enabled p.valid _ _ _ en va)
    ∙ rw (stop-worker p c v k wi g, ensure-requests p c v k g)
        (ap (λ x. x.0) (schedule-draining w p _ c p.next (retire-IsDraining p c v k wi g)))

-- A live Worker that is stopped with a Remove removes its generation: when `stop(remove=True)` runs
-- in a process of the service that is enabled and validly configured, with a Worker of a generation
-- above 0, no Active Remove and no register window, then the exit of the Worker's Thread sends the
-- Remove, and if the Admin accepts it, the process ends unregistered, with the generation removed,
-- and nothing Pending or Active.
pub removal_completes :
    (p : Process) (c : ℕ) (w exit : World) (r : CallResult)
    → Reach p
    → p.enabled ≡ true
    → p.valid ≡ true
    → p.worker ≡ some c
    → p.register_coordination ≡ none
    → p.active_remove ≡ none
    → 0 < p.generation
    → exit.rpc ≡ returned r
    → r.success ≡ true
    → IsFinished p (perform exit (Call.finishes c) (perform w (Call.stops true) p))
unfolding perform
removal_completes p c w exit r run en va k wi a g e s =
    rw (stop_service-draining w p c (Reach-Inv p run) en va k wi g)
      (finish-IsFinished exit p _ c p.next r (retire-IsDraining p c (Reach-Inv p run) k wi g) a e s)
