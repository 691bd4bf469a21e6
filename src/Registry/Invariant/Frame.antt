-- ===== src/Registry/Invariant/Frame.antt =====
-- registry_service.py: what the helpers of a section leave as it was.
use flask_xxljob.Base.{ℕ, Option, none, some, Text, ◌≡◌, ◌⊎◌, ◌≤◌, arith}
use flask_xxljob.Client.Result.{CallResult}
use flask_xxljob.Registry.State.{Process}
use flask_xxljob.Registry.Outcome.{Kind, record_result}
use flask_xxljob.Registry.Register.{
  ensure_pending_remove, reconcile_pending, reconcile, invalidate_successful_cleanup,
}
use flask_xxljob.Registry.Remove.{reconcile_window, reconcile_after}

-- The lifecycle is untouched, and a Remove that is Pending afterwards was so before or is new.
pub record Frame (p q : Process) : Type 0 where
  pub next : p.next ≤ q.next
  pub worker : q.worker ≡ p.worker
  pub generation : q.generation ≡ p.generation
  pub rpc : q.rpc_sequence ≡ p.rpc_sequence
  pub applied : q.last_applied_rpc_sequence ≡ p.last_applied_rpc_sequence
  pub active : q.active_remove ≡ p.active_remove
  pub prepared : q.prepared_start ≡ p.prepared_start
  pub stopping : q.stopping_workers ≡ p.stopping_workers
  pub contexts : q.contexts ≡ p.contexts
  pub prepareds : q.prepareds ≡ p.prepareds
  pub pending : (q.pending_remove ≡ p.pending_remove) ⊎ (q.pending_remove ≡ some p.next)

module _ (p : Process) where
  pub ensure_pending_remove-Frame : (g : ℕ) → Frame p (ensure_pending_remove p g).0
  unfolding ensure_pending_remove
  ensure_pending_remove-Frame g = ground arith

  pub reconcile_pending-Frame : (c g : ℕ) → Frame p (reconcile_pending p c g).0
  unfolding reconcile_pending
  reconcile_pending-Frame c g = ground (arith, ensure_pending_remove-Frame g)

  pub reconcile-Frame : (c : ℕ) → Frame p (reconcile p c).0
  unfolding reconcile
  reconcile-Frame c = ground (arith, reconcile_pending-Frame c (p.coordinations c).generation)

  reconcile_window-Frame : (o : ℕ) (w : Option ℕ) → Frame p (reconcile_window p o w)
  unfolding reconcile_window
  reconcile_window-Frame o none = ground arith
  reconcile_window-Frame o (some c) = ground (arith, reconcile-Frame c)

  pub reconcile_after-Frame : (o : ℕ) → Frame p (reconcile_after p o)
  unfolding reconcile_after
  reconcile_after-Frame o = reconcile_window-Frame o p.register_coordination

  pub invalidate-Frame : (g : ℕ) (c : Option ℕ) → Frame p (invalidate_successful_cleanup p g c).0
  unfolding invalidate_successful_cleanup
  invalidate-Frame g c = ground arith

  pub record_result-Frame :
      (r : CallResult) (k : Kind) (now : Text) → Frame p (record_result p r k now)
  unfolding record_result
  record_result-Frame r k now = ground arith
