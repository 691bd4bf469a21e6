-- ===== src/Registry/Invariant/Requests.antt =====
-- registry_service.py: `stop`, `shutdown` and the scheduler keep the invariant.
use flask_xxljob.Base.{
  ℕ, Bool, true, false, Option, none, some, Text, ◌≡◌, ◌<◌, ◌∙◌, refl, holds, inl, inr,
  Option-cases, arith,
}
use flask_xxljob.Registry.State.{Process, discard}
use flask_xxljob.Registry.Outcome.{local, record_result}
use flask_xxljob.Registry.Lifecycle.{stop_local, retire}
use flask_xxljob.Registry.Remove.{
  request_cleanup, request_coordinated, request_in_window, request_remove, withdraw_prepared, stop,
  start_failure, end_unstarted, request_reconciled, fail_start, launch_actor, schedule_operation,
  schedule_pending, drop_dead_actor, schedule_pending_remove, reconcile_after,
}
use flask_xxljob.Registry.Terminal.{begin_shutdown, request_exit_remove}
use flask_xxljob.Registry.Invariant.{Inv, OnSome}
use flask_xxljob.Registry.Invariant.Frame.{
  Frame, reconcile-Frame, reconcile_after-Frame, record_result-Frame,
}
use flask_xxljob.Registry.Invariant.Small.{
  record_result-Inv, reconcile-Inv, stop_local-Inv, withdraw_prepared-Inv,
}
use flask_xxljob.Registry.Invariant.Registers.{first-Inv}
use flask_xxljob.Registry.Invariant.Removes.{
  request_cleanup-Inv, request_uncoordinated-Inv, close_window-Inv, with_actors-Inv, set_thread-Inv,
  clear_pending-Inv, set_result-Inv, set_done-Inv, reconcile_after-Inv, drop_dead_actor-Inv,
  new_actor-Inv,
}

request_reconciled-Inv :
    (g c : ℕ) (r : Process × Option ℕ)
    → Inv r.0
    → r.0.worker ≡ none
    → Inv (request_reconciled g c r).0
unfolding request_reconciled
request_reconciled-Inv g c (q, some o) v h = v
request_reconciled-Inv g c (q, none) v h = first-Inv _ _ _ v (request_uncoordinated-Inv v h)

request_coordinated-Inv :
    {p : Process} (c : ℕ) → Inv p → p.worker ≡ none → Inv (request_coordinated p c).0
unfolding request_coordinated
request_coordinated-Inv {p} c v h =
    request_reconciled-Inv p.generation c _ (reconcile-Inv c (request_cleanup-Inv v c h))
      ((reconcile-Frame (request_cleanup p c) c).worker ∙ h)

request_in_window-Inv :
    {p : Process} (w : Option ℕ) → Inv p → p.worker ≡ none → Inv (request_in_window p w).0
unfolding request_in_window
request_in_window-Inv none v h = request_uncoordinated-Inv v h
request_in_window-Inv (some c) v h =
    first-Inv _ _ _ (request_coordinated-Inv c v h) (request_uncoordinated-Inv v h)

pub request_remove-Inv : {p : Process} → Inv p → p.worker ≡ none → Inv (request_remove p).0
unfolding request_remove
request_remove-Inv {p} v h = request_in_window-Inv p.register_coordination v h

pub worker-stop_local : (p : Process) → (stop_local p).worker ≡ none
unfolding stop_local
worker-stop_local p = elim (Option-cases p.worker) [
  | inl e ↦ rw (e, stop_local) e
  | inr (w, e) ↦ rw (e, stop_local) (unfold retire in refl)
]

pub stop-Inv : {p : Process} (b : Bool) → Inv p → Inv (stop b p).0
unfolding stop
stop-Inv {p} b v =
    first-Inv _ _ _ (request_remove-Inv w (worker-stop_local (withdraw_prepared p))) w
  where
    w : Inv (stop_local (withdraw_prepared p))
    w = stop_local-Inv (withdraw_prepared-Inv v)

closing-Inv :
    {p : Process}
    → Inv p
    → Inv (record p { state = record p.state { close_logs_when_idle = true } })
closing-Inv v = record { core = ground arith; stopping = v.stopping }

pub begin_shutdown-Inv : {p : Process} → Inv p → Inv (begin_shutdown p).0
unfolding begin_shutdown
begin_shutdown-Inv {p} v =
    close_window-Inv (closing-Inv (stop_local-Inv (withdraw_prepared-Inv v)))
      (worker-stop_local (withdraw_prepared p))

pub request_exit_remove-Inv :
    {p : Process} (g : ℕ)
    → Inv p
    → (p.generation ≡ g → p.worker ≡ none)
    → Inv (request_exit_remove p g).0
unfolding request_exit_remove
request_exit_remove-Inv {p} g v h = ground (arith, request_remove-Inv v)

end_unstarted-Inv :
    {p : Process} (o t : ℕ) (type_name : Text) → Inv p → Inv (end_unstarted p o t type_name)
unfolding end_unstarted
end_unstarted-Inv o t type_name v =
    set_result-Inv (clear_pending-Inv (set_thread-Inv (with_actors-Inv v (discard t)) o none) o) o
      (start_failure type_name)

-- The operation is neither Pending nor Active any more.
end_unstarted-forgets :
    (p : Process) (o t : ℕ) (type_name : Text)
    → (holds (end_unstarted p o t type_name).pending_remove o ≡ false)
      × (holds (end_unstarted p o t type_name).active_remove o ≡ false)
      × ((end_unstarted p o t type_name).next ≡ p.next)
unfolding end_unstarted
end_unstarted-forgets p o t type_name = ground arith

fail_start-Inv :
    {p : Process} (o t : ℕ) (type_name now : Text)
    → o < p.next
    → Inv p
    → Inv (fail_start p o t type_name now)
unfolding fail_start
fail_start-Inv {p} o t type_name now h v =
    set_done-Inv
      (reconcile_after-Inv (record_result-Inv (end_unstarted-Inv o t type_name v) _ _ now) o) o
      (ground (arith, end_unstarted-forgets p o t type_name, f, g))
      (ground (arith, end_unstarted-forgets p o t type_name, f, g))
  where
    q : Process
    q = end_unstarted p o t type_name

    r : Process
    r = record_result q (start_failure type_name) local now

    f : Frame q r
    f = record_result-Frame q (start_failure type_name) local now

    g : Frame r (reconcile_after r o)
    g = reconcile_after-Frame r o

launch_actor-Inv :
    {p : Process} (outcome : Option Text) (now : Text) (o t : ℕ)
    → o < p.next
    → Inv p
    → Inv (launch_actor outcome now p o t).0
unfolding launch_actor
launch_actor-Inv none now o t h v = v
launch_actor-Inv (some type_name) now o t h v = fail_start-Inv o t type_name now h v

next-drop_dead_actor : (p : Process) (o : ℕ) → (drop_dead_actor p o).next ≡ p.next
unfolding drop_dead_actor
next-drop_dead_actor p o = ground arith

schedule_operation-Inv :
    {p : Process} (alive : ℕ → Bool) (outcome : Option Text) (now : Text) (o : ℕ)
    → o < p.next
    → Inv p
    → Inv (schedule_operation alive outcome now p o).0
unfolding schedule_operation
schedule_operation-Inv {p} alive outcome now o h v = first-Inv _ _ _ v (
    launch_actor-Inv outcome now o p.next (omega (arith, next-drop_dead_actor p o))
      (new_actor-Inv (drop_dead_actor-Inv v o) o))

schedule_pending-Inv :
    {p : Process} (alive : ℕ → Bool) (outcome : Option Text) (now : Text) (w : Option ℕ)
    → OnSome (λ o. o < p.next) w
    → Inv p
    → Inv (schedule_pending alive outcome now p w).0
schedule_pending-Inv alive outcome now none h v = v
schedule_pending-Inv alive outcome now (some o) h v = schedule_operation-Inv alive outcome now o h v

pub schedule_pending_remove-Inv :
    {p : Process} (alive : ℕ → Bool) (outcome : Option Text) (now : Text)
    → Inv p
    → Inv (schedule_pending_remove alive outcome now p).0
unfolding schedule_pending_remove
schedule_pending_remove-Inv {p} alive outcome now v =
    schedule_pending-Inv alive outcome now p.pending_remove (ground arith) v
