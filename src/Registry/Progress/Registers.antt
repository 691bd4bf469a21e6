-- ===== src/Registry/Progress/Registers.antt =====
-- registry_service.py: registers, and the helpers of sections, make progress.
use flask_xxljob.Base.{
  ℕ, Option, none, some, Text, ◌<◌, ◌==◌, ltb, holds, inl, inr, Bool-cases, arith, if◌then◌else◌,
}
use flask_xxljob.Client.Result.{CallResult}
use flask_xxljob.Registry.State.{Process}
use flask_xxljob.Registry.Outcome.{Kind, register, record_result}
use flask_xxljob.Registry.Register.{
  join_register, forget_coordination, invalidate_successful_cleanup, ensure_pending_remove,
  reconcile_pending, reconcile, reopen_cleanup, commit_result, close_register, commit_one_shot,
  leave_window, set_applied, set_coordination_done,
}
use flask_xxljob.Registry.Progress.{
  Progress, Progress-refl, Progress-trans, choose-Progress, first-Progress,
}

module _ (p : Process) where
  pub join_register-Progress : Progress p (join_register p).0
  unfolding join_register
  join_register-Progress = record {
    grows = ground arith;
    done = λ o h d. ground arith;
    waits = λ o h w. ground arith;
    active = λ o h w. ground arith;
  }

  pub record_result-Progress :
      (r : CallResult) (k : Kind) (now : Text) → Progress p (record_result p r k now)
  unfolding record_result
  record_result-Progress r k now = record {
    grows = ground arith;
    done = λ o h d. d;
    waits = λ o h w. inl w;
    active = λ o h w. inl w;
  }

  -- A result is accepted in the order of the calls.
  pub accept-Progress :
      (r : CallResult) (n : ℕ) (k : Kind) (now : Text)
      → p.last_applied_rpc_sequence < n
      → Progress p (set_applied (record_result p r k now) n)
  unfolding record_result
  accept-Progress r n k now l = record {
    grows = ground arith;
    done = λ o h d. d;
    waits = λ o h w. inl w;
    active = λ o h w. inl w;
  }

  pub invalidate-Progress :
      (g : ℕ) (c : Option ℕ) → Progress p (invalidate_successful_cleanup p g c).0
  unfolding invalidate_successful_cleanup
  invalidate-Progress g c = record {
    grows = ground arith;
    done = λ o h d. ground arith;
    waits = λ o h w. ground arith;
    active = λ o h w. ground arith;
  }

  pub ensure_pending_remove-Progress : (g : ℕ) → Progress p (ensure_pending_remove p g).0
  unfolding ensure_pending_remove
  ensure_pending_remove-Progress g = record {
    grows = ground arith;
    done = λ o h d. ground arith;
    waits = λ o h w. ground arith;
    active = λ o h w. ground arith;
  }

  forget_coordination-Progress : Progress p (forget_coordination p)
  forget_coordination-Progress = record {
    grows = ground arith;
    done = λ o h d. d;
    waits = λ o h w. inl w;
    active = λ o h w. inl w;
  }

  leave_window-Progress : (c : ℕ) → Progress p (leave_window p c)
  leave_window-Progress c = record {
    grows = ground arith;
    done = λ o h d. d;
    waits = λ o h w. inl w;
    active = λ o h w. inl w;
  }

  set_coordination_done-Progress : (c : ℕ) → Progress p (set_coordination_done p c)
  set_coordination_done-Progress c = record {
    grows = ground arith;
    done = λ o h d. d;
    waits = λ o h w. inl w;
    active = λ o h w. inl w;
  }

module _ (p : Process) where
  reconcile_pending-Progress : (c g : ℕ) → Progress p (reconcile_pending p c g).0
  unfolding reconcile_pending
  reconcile_pending-Progress c g =
      first-Progress _ _ _ (ensure_pending_remove-Progress p g) (Progress-refl p)

  pub reconcile-Progress : (c : ℕ) → Progress p (reconcile p c).0
  unfolding reconcile
  reconcile-Progress c = elim (Bool-cases (holds p.register_coordination c)) [
    | inr e ↦ rw e (Progress-refl p)
    | inl e ↦ elim (Bool-cases (p.generation == (p.coordinations c).generation)) [
      | inr d ↦ rw (e, d) (forget_coordination-Progress p)
      | inl d ↦
          rw (e, d)
            (Progress-trans s
              (choose-Progress _ _ _ (forget_coordination-Progress _) (Progress-refl _)))
    ]
  ]
    where
      s : Progress p (reconcile_pending p c (p.coordinations c).generation).0
      s = reconcile_pending-Progress c (p.coordinations c).generation

module _ (p : Process) where
  reopen_cleanup-Progress :
      (r : CallResult) (k : Kind) (g c : Option ℕ) → Progress p (reopen_cleanup p r k g c)
  unfolding reopen_cleanup
  reopen_cleanup-Progress r register (some g) (some c) =
      choose-Progress _ _ _ (invalidate-Progress p g (some c)) (Progress-refl p)
  reopen_cleanup-Progress r _ _ _ = Progress-refl p

module _ (p : Process) where
  commit_result-Progress :
      (r : CallResult) (n : ℕ) (k : Kind) (g c : Option ℕ) (now : Text)
      → Progress p (commit_result p r n k g c now)
  unfolding commit_result
  commit_result-Progress r n k g c now = elim (Bool-cases (ltb p.last_applied_rpc_sequence n)) [
    | inr e ↦ rw e (Progress-refl p)
    | inl e ↦ rw e (
        Progress-trans (accept-Progress p r n k now (ground arith))
          (reopen_cleanup-Progress _ r k g c))
  ]

  close_register-Progress : (c : ℕ) → Progress p (close_register p c).0
  unfolding close_register
  close_register-Progress c =
      Progress-trans (leave_window-Progress p c)
        (choose-Progress _ _ _ (Progress-trans left (set_coordination_done-Progress _ c)) left)
    where
      q : Process
      q = leave_window p c

      left : Progress q (if holds q.register_coordination c then reconcile q c else (q, none)).0
      left = first-Progress _ _ _ (reconcile-Progress q c) (Progress-refl q)

module _ (p : Process) where
  pub commit_one_shot-Progress :
      (r : CallResult) (n : ℕ) (k : Kind) (g c : Option ℕ) (now : Text)
      → Progress p (commit_one_shot p r n k g c now).0
  unfolding commit_one_shot
  commit_one_shot-Progress r n k g none now = commit_result-Progress p r n k g none now
  commit_one_shot-Progress r n k g (some c) now =
      Progress-trans (commit_result-Progress p r n k g (some c) now) (close_register-Progress _ c)
