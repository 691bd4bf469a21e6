-- ===== src/Registry/Invariant/Small.antt =====
-- registry_service.py: the sections that are helpers of others keep the invariant.
use flask_xxljob.Base.{
  ℕ, Option, Text, ◌≡◌, ◌≤◌, none, some, Bool, true, false, inl, inr, ◌==◌, holds, if◌then◌else◌,
  Bool-cases, Option-cases, arith,
}
use flask_xxljob.Base.Dict.{get-put, nat_eq}
use flask_xxljob.Client.Result.{CallResult}
use flask_xxljob.Registry.State.{Process}
use flask_xxljob.Registry.Outcome.{Kind, record_result}
use flask_xxljob.Registry.Register.{
  join_register, invalidate_successful_cleanup, ensure_pending_remove, reconcile, reconcile_pending,
  forget_coordination, set_applied,
}
use flask_xxljob.Registry.Lifecycle.{stop_local, retire}
use flask_xxljob.Registry.Remove.{withdraw_prepared}
use flask_xxljob.Registry.Invariant.{Inv}

module _ {p : Process} (v : Inv p) where
  pub join_register-Inv : Inv (join_register p).0
  unfolding join_register
  join_register-Inv = record { core = ground arith; stopping = λ g. ground (arith, v.stopping g) }

  pub record_result-Inv : (r : CallResult) (k : Kind) (now : Text) → Inv (record_result p r k now)
  unfolding record_result
  record_result-Inv r k now = record {
    core = ground arith;
    stopping = λ g. ground (arith, v.stopping g);
  }

  pub set_applied-Inv : (n : ℕ) → n ≤ p.rpc_sequence → Inv (set_applied p n)
  set_applied-Inv n h = record { core = ground arith; stopping = λ g. ground (arith, v.stopping g) }

  pub invalidate-Inv : (g : ℕ) (c : Option ℕ) → Inv (invalidate_successful_cleanup p g c).0
  unfolding invalidate_successful_cleanup
  invalidate-Inv g c = record { core = ground arith; stopping = λ h. ground (arith, v.stopping h) }

  retire-Inv : (w : ℕ) → p.worker ≡ some w → Inv (retire p w)
  unfolding retire
  retire-Inv w h = record {
    core = ground arith;
    stopping =
        λ g. ground (arith, v.stopping g, get-put p.stopping_workers (p.contexts w).generation g w);
  }

  pub stop_local-Inv : Inv (stop_local p)
  unfolding stop_local
  stop_local-Inv = elim (Option-cases p.worker) [
    | inl e ↦ rw (e, stop_local) v
    | inr (w, e) ↦ rw (e, stop_local) (retire-Inv w e)
  ]

  pub withdraw_prepared-Inv : Inv (withdraw_prepared p)
  unfolding withdraw_prepared
  withdraw_prepared-Inv = record {
    core = ground arith;
    stopping = λ g. ground (arith, v.stopping g);
  }

  pub ensure_pending_remove-Inv : p.worker ≡ none → Inv (ensure_pending_remove p p.generation).0
  unfolding ensure_pending_remove
  ensure_pending_remove-Inv h = record {
    core = ground arith;
    stopping = λ g. ground (arith, v.stopping g);
  }

  pub forget_coordination-Inv : Inv (forget_coordination p)
  forget_coordination-Inv = record { core = ground arith; stopping = v.stopping }

-- Only after the Worker has stopped does a cleanup close the window.
closed-worker :
    {p : Process} (c : ℕ)
    → Inv p
    → p.register_coordination ≡ some c
    → (p.coordinations c).cleanup_requested ≡ true
    → p.worker ≡ none
closed-worker c v h e = ground arith

pub if-Inv {ℓ} :
    {A : Type ℓ} (b : Bool) (q r : Process × A) → Inv q.0 → Inv r.0 → Inv (if b then q else r).0
if-Inv true q r v w = v
if-Inv false q r v w = w

reconcile_pending-Inv :
    {p : Process} (c g : ℕ)
    → Inv p
    → p.register_coordination ≡ some c
    → p.generation ≡ g
    → Inv (reconcile_pending p c g).0
unfolding reconcile_pending
reconcile_pending-Inv {p} c g v h e = elim (Bool-cases (p.coordinations c).cleanup_requested) [
  | inr still ↦ rw (still, reconcile_pending) v
  | inl closed ↦
      rw (← e, closed, reconcile_pending)
        (if-Inv _ _ _ (ensure_pending_remove-Inv v (closed-worker c v h closed)) v)
]

forget_if-Inv : {p : Process} (b : Bool) → Inv p → Inv (if b then forget_coordination p else p)
forget_if-Inv true v = forget_coordination-Inv v
forget_if-Inv false v = v

pub reconcile-Inv : {p : Process} (c : ℕ) → Inv p → Inv (reconcile p c).0
unfolding reconcile
reconcile-Inv {p} c v = elim (Bool-cases (holds p.register_coordination c)) [
  | inr e ↦ rw e v
  | inl e ↦ elim (Bool-cases (p.generation == (p.coordinations c).generation)) [
    | inr d ↦ rw (e, d) (forget_coordination-Inv v)
    | inl d ↦
        rw (e, d) (forget_if-Inv _ (reconcile_pending-Inv c _ v (ground arith) (ground arith)))
  ]
]
