-- ===== src/Registry/Progress.antt =====
-- registry_service.py: what a critical section may do to the state over time.
use flask_xxljob.Base.{
  ℕ, none, ◌≤◌, ◌<◌, ◌≡◌, ◌⊎◌, inl, inr, Bool, true, false, some, arith, if◌then◌else◌,
}
use flask_xxljob.Registry.State.{Process}
pub mod Registers
pub mod Workers
pub mod Removes
pub mod Completion

-- Somebody may wait for the operation: it is Pending or Active.
abbrev pub IsWaited : Process → ℕ → Type 0
IsWaited p o = (p.pending_remove ≡ some o) ⊎ (p.active_remove ≡ some o)

-- Numbers only grow, and closed logs stay closed.
pub record Grows (p q : Process) : Type 0 where
  pub next : p.next ≤ q.next
  pub generation : p.generation ≤ q.generation
  pub rpc : p.rpc_sequence ≤ q.rpc_sequence
  pub applied : p.last_applied_rpc_sequence ≤ q.last_applied_rpc_sequence
  pub idle : p.worker ≡ none → (q.worker ≡ none) ⊎ (p.generation < q.generation)
  pub closed : p.logs_closed ≡ true → q.logs_closed ≡ true

-- An operation that was signalled stays so, and one that is let go has been signalled; an Active
-- one stays Active until then.
pub record Progress (p q : Process) : Type 0 where
  pub grows : Grows p q
  pub done :
      (o : ℕ) → o < p.next → (p.operations o).done_event ≡ true → (q.operations o).done_event ≡ true
  pub waits :
      (o : ℕ) → o < p.next → IsWaited p o → IsWaited q o ⊎ ((q.operations o).done_event ≡ true)
  pub active :
      (o : ℕ)
      → o < p.next
      → p.active_remove ≡ some o
      → (q.active_remove ≡ some o) ⊎ ((q.operations o).done_event ≡ true)

pub Progress-refl : (p : Process) → Progress p p
Progress-refl p = record {
  grows = ground arith;
  done = λ o h d. d;
  waits = λ o h w. inl w;
  active = λ o h w. inl w;
}

pub Progress-trans : {p q r : Process} → Progress p q → Progress q r → Progress p r
Progress-trans {p} {q} {r} s t = record {
  grows = ground (arith, s.grows, t.grows);
  done = λ o h d. t.done o (omega (arith, s.grows.next)) (s.done o h d);
  waits = λ o h w. elim (s.waits o h w) [
    | inl still ↦ t.waits o (omega (arith, s.grows.next)) still
    | inr signalled ↦ inr (t.done o (omega (arith, s.grows.next)) signalled)
  ];
  active = λ o h w. elim (s.active o h w) [
    | inl still ↦ t.active o (omega (arith, s.grows.next)) still
    | inr signalled ↦ inr (t.done o (omega (arith, s.grows.next)) signalled)
  ];
}

pub choose-Progress :
    {p : Process} (b : Bool) (q r : Process)
    → Progress p q
    → Progress p r
    → Progress p (if b then q else r)
choose-Progress true q r s t = s
choose-Progress false q r s t = t

pub first-Progress {ℓ} :
    {A : Type ℓ} {p : Process} (b : Bool) (q r : Process × A)
    → Progress p q.0
    → Progress p r.0
    → Progress p (if b then q else r).0
first-Progress true q r s t = s
first-Progress false q r s t = t
