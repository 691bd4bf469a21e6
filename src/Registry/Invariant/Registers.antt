-- ===== src/Registry/Invariant/Registers.antt =====
-- registry_service.py: one-shot calls keep the invariant.
use flask_xxljob.Base.{
  ℕ, Bool, true, false, Option, none, some, Text, ◌≤◌, holds, arith, if◌then◌else◌,
}
use flask_xxljob.Client.Result.{CallResult}
use flask_xxljob.Registry.State.{Process}
use flask_xxljob.Registry.Outcome.{Kind, register, record_result}
use flask_xxljob.Registry.Register.{
  reopen_cleanup, commit_result, close_register, commit_one_shot, leave_window, set_applied,
  set_coordination_done, reconcile,
}
use flask_xxljob.Registry.Invariant.{Inv}
use flask_xxljob.Registry.Invariant.Small.{
  record_result-Inv, set_applied-Inv, invalidate-Inv, reconcile-Inv, if-Inv,
}

pub accept-Inv :
    {p : Process} (r : CallResult) (n : ℕ) (k : Kind) (now : Text)
    → Inv p
    → n ≤ p.rpc_sequence
    → Inv (set_applied (record_result p r k now) n)
unfolding record_result
accept-Inv r n k now v h = set_applied-Inv (record_result-Inv v r k now) n h

pub choose-Inv : (b : Bool) (p q : Process) → Inv p → Inv q → Inv (if b then p else q)
choose-Inv true p q v w = v
choose-Inv false p q v w = w

-- A section that may do nothing
pub first-Inv {ℓ} :
    {A : Type ℓ} (b : Bool) (q r : Process × A) → Inv q.0 → Inv r.0 → Inv (if b then q else r).0
first-Inv true q r v w = v
first-Inv false q r v w = w

reopen_cleanup-Inv :
    {p : Process} (r : CallResult) (k : Kind) (g c : Option ℕ)
    → Inv p
    → Inv (reopen_cleanup p r k g c)
unfolding reopen_cleanup
reopen_cleanup-Inv r register (some g) (some c) v = choose-Inv _ _ _ (invalidate-Inv v g (some c)) v
reopen_cleanup-Inv r _ _ _ v = v

commit_result-Inv :
    {p : Process} (r : CallResult) (n : ℕ) (k : Kind) (g c : Option ℕ) (now : Text)
    → Inv p
    → n ≤ p.rpc_sequence
    → Inv (commit_result p r n k g c now)
unfolding commit_result
commit_result-Inv r n k g c now v h =
    choose-Inv _ _ _ (reopen_cleanup-Inv r k g c (accept-Inv r n k now v h)) v

leave_window-Inv : {p : Process} (c : ℕ) → Inv p → Inv (leave_window p c)
leave_window-Inv c v = record { core = ground arith; stopping = v.stopping }

set_coordination_done-Inv : {p : Process} (c : ℕ) → Inv p → Inv (set_coordination_done p c)
set_coordination_done-Inv c v = record { core = ground arith; stopping = v.stopping }

close_register-Inv : {p : Process} (c : ℕ) → Inv p → Inv (close_register p c).0
unfolding close_register
close_register-Inv {p} c v = choose-Inv _ _ _ (set_coordination_done-Inv c left) left
  where
    left :
        Inv
          (if holds (leave_window p c).register_coordination c
            then reconcile (leave_window p c) c
            else (leave_window p c, none)).0
    left = if-Inv _ _ _ (reconcile-Inv c (leave_window-Inv c v)) (leave_window-Inv c v)

pub commit_one_shot-Inv :
    {p : Process} (r : CallResult) (n : ℕ) (k : Kind) (g c : Option ℕ) (now : Text)
    → Inv p
    → n ≤ p.rpc_sequence
    → Inv (commit_one_shot p r n k g c now).0
unfolding commit_one_shot
commit_one_shot-Inv r n k g none now v h = commit_result-Inv r n k g none now v h
commit_one_shot-Inv r n k g (some c) now v h =
    close_register-Inv c (commit_result-Inv r n k g (some c) now v h)
