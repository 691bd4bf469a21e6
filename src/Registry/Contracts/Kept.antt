-- ===== src/Registry/Contracts/Kept.antt =====
-- registry_service.py: the fields that a request for a Remove and the end of a register leave
-- alone.
use flask_xxljob.Base.{ℕ, ◌≡◌, ◌∙◌, Bool, true, false, Option, none, some, if◌then◌else◌, arith}
use flask_xxljob.Registry.State.{Process}
use flask_xxljob.Registry.Register.{
  ensure_pending_remove, reconcile_pending, reconcile, close_register, leave_window,
}
use flask_xxljob.Registry.Lifecycle.{stop_local, retire}
use flask_xxljob.Registry.Remove.{
  request_uncoordinated, request_reconciled, request_coordinated, request_in_window, request_remove,
  request_cleanup, withdraw_prepared, reconcile_window, reconcile_after,
}
use flask_xxljob.Registry.Terminal.{close_window}

-- What a cleanup is decided by, beside its requests.
pub record Kept (p q : Process) : Type 0 where
  pub prepared : q.prepared_start ≡ p.prepared_start
  pub worker : q.worker ≡ p.worker
  pub generation : q.generation ≡ p.generation
  pub removed : q.last_successfully_removed_generation ≡ p.last_successfully_removed_generation
  pub result : q.last_successfully_removed_result ≡ p.last_successfully_removed_result
  pub snapshot : q.snapshot ≡ p.snapshot

Kept-trans : {p q r : Process} → Kept p q → Kept q r → Kept p r
Kept-trans s t = record {
  prepared = t.prepared ∙ s.prepared;
  worker = t.worker ∙ s.worker;
  generation = t.generation ∙ s.generation;
  removed = t.removed ∙ s.removed;
  result = t.result ∙ s.result;
  snapshot = t.snapshot ∙ s.snapshot;
}

first-Kept {ℓ} :
    {A : Type ℓ} {p : Process} (b : Bool) (q r : Process × A)
    → Kept p q.0
    → Kept p r.0
    → Kept p (if b then q else r).0
first-Kept true q r s t = s
first-Kept false q r s t = t

module _ (p : Process) where
  ensure_pending_remove-Kept : (g : ℕ) → Kept p (ensure_pending_remove p g).0
  unfolding ensure_pending_remove
  ensure_pending_remove-Kept g = ground arith

  reconcile_pending-Kept : (c g : ℕ) → Kept p (reconcile_pending p c g).0
  unfolding reconcile_pending
  reconcile_pending-Kept c g = ground (arith, ensure_pending_remove-Kept g)

  pub reconcile-Kept : (c : ℕ) → Kept p (reconcile p c).0
  unfolding reconcile
  reconcile-Kept c = ground (arith, reconcile_pending-Kept c (p.coordinations c).generation)

  request_uncoordinated-Kept : Kept p (request_uncoordinated p).0
  unfolding request_uncoordinated
  request_uncoordinated-Kept = ground (arith, ensure_pending_remove-Kept p.generation)

request_reconciled-Kept : (g c : ℕ) (r : Process × Option ℕ) → Kept r.0 (request_reconciled g c r).0
unfolding request_reconciled
request_reconciled-Kept g c (q, some o) = ground arith
request_reconciled-Kept g c (q, none) = ground (arith, request_uncoordinated-Kept q)

module _ (p : Process) where
  request_coordinated-Kept : (c : ℕ) → Kept p (request_coordinated p c).0
  unfolding request_coordinated
  request_coordinated-Kept c =
      Kept-trans (Kept-trans {q = request_cleanup p c} (ground arith) (reconcile-Kept _ c))
        (request_reconciled-Kept _ c _)

  request_in_window-Kept : (w : Option ℕ) → Kept p (request_in_window p w).0
  unfolding request_in_window
  request_in_window-Kept none = request_uncoordinated-Kept p
  request_in_window-Kept (some c) =
      first-Kept _ _ _ (request_coordinated-Kept c) (request_uncoordinated-Kept p)

  pub request_remove-Kept : Kept p (request_remove p).0
  unfolding request_remove
  request_remove-Kept = request_in_window-Kept p.register_coordination

  reconcile_window-Kept : (o : ℕ) (w : Option ℕ) → Kept p (reconcile_window p o w)
  unfolding reconcile_window
  reconcile_window-Kept o none = ground arith
  reconcile_window-Kept o (some c) = ground (arith, reconcile-Kept p c)

  pub reconcile_after-Kept : (o : ℕ) → Kept p (reconcile_after p o)
  unfolding reconcile_after
  reconcile_after-Kept o = reconcile_window-Kept o p.register_coordination

  pub close_register-Kept : (c : ℕ) → Kept p (close_register p c).0
  unfolding close_register
  close_register-Kept c = ground (arith, reconcile-Kept (leave_window p c) c)

  pub stop_local-prepared : (stop_local p).prepared_start ≡ p.prepared_start
  unfolding stop_local retire
  stop_local-prepared = ground arith

  pub withdraw_prepared-none : (withdraw_prepared p).prepared_start ≡ none
  unfolding withdraw_prepared
  withdraw_prepared-none = ground arith

  pub close_window-Kept : Kept p (close_window p)
  unfolding close_window
  close_window-Kept = ground arith
