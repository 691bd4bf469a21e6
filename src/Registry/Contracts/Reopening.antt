-- ===== src/Registry/Contracts/Reopening.antt =====
-- registry_service.py: the end of a register keeps a cleanup open that the register has reopened.
use flask_xxljob.Base.{ℕ, ◌==◌, ◌≡◌, Bool, true, Option, none, some, is_none, is_some, arith}
use flask_xxljob.Registry.State.{Process}
use flask_xxljob.Registry.Register.{
  ensure_pending_remove, reconcile_pending, reconcile, close_register, leave_window,
}
use flask_xxljob.Registry.Remove.{request_uncoordinated}

-- A Pending Remove is one of the current generation, and without one none was requested.
abbrev pub is_requestable : Process → Option ℕ → Bool
is_requestable p none = is_none p.last_remove_requested_generation
is_requestable p (some o) = (p.operations o).generation == p.generation

pub record IsOpen (p : Process) : Type 0 where
  pub registered : p.registered ≡ true
  pub removed : p.last_successfully_removed_generation ≡ none
  pub requestable : is_requestable p p.pending_remove ≡ true

module _ (p : Process) where
  ensure_pending_remove-IsOpen : IsOpen p → IsOpen (ensure_pending_remove p p.generation).0
  unfolding ensure_pending_remove
  ensure_pending_remove-IsOpen v = ground (arith, v)

  reconcile_pending-IsOpen : (c : ℕ) → IsOpen p → IsOpen (reconcile_pending p c p.generation).0
  unfolding reconcile_pending
  reconcile_pending-IsOpen c v = ground (arith, v, ensure_pending_remove-IsOpen v)

  reconcile-IsOpen : (c : ℕ) → IsOpen p → IsOpen (reconcile p c).0
  unfolding reconcile
  reconcile-IsOpen c v = ground (arith, v, reconcile_pending-IsOpen c v)

pub close_register-IsOpen : (p : Process) (c : ℕ) → IsOpen p → IsOpen (close_register p c).0
unfolding close_register
close_register-IsOpen p c v = ground (arith, v, reconcile-IsOpen (leave_window p c) c)

-- a request finds an operation
pub IsOpen-request : (p : Process) → IsOpen p → is_some (request_uncoordinated p).1 ≡ true
unfolding request_uncoordinated ensure_pending_remove
IsOpen-request p v = ground (arith, v)
