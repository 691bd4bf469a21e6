-- ===== src/Registry/Progress/Workers.antt =====
-- registry_service.py: the sections of the renewal lifecycle make progress.
use flask_xxljob.Base.{
  ℕ, ◌+◌, Bool, none, Text, ◌≡◌, ◌≤◌, ltb, ◌&&◌, inl, inr, Bool-cases, arith, if◌then◌else◌,
}
use flask_xxljob.Client.Result.{CallResult}
use flask_xxljob.Registry.State.{Process}
use flask_xxljob.Registry.Outcome.{worker, record_result}
use flask_xxljob.Registry.Register.{set_applied, invalidate_successful_cleanup}
use flask_xxljob.Registry.Lifecycle.{
  prepare_start, commit_activation, activate_prepared_start, cancel_prepared_start, settle_prepared,
  begin_renewal, commit_renewal, next_sequence, leave_worker, claim_own_remove, finish_worker,
  stop_local, worker_is_current, retire,
}
use flask_xxljob.Registry.Invariant.{Inv}
use flask_xxljob.Registry.Invariant.Workers.{stop_local-none}
use flask_xxljob.Registry.Invariant.Frame.{Frame, invalidate-Frame, record_result-Frame}
use flask_xxljob.Registry.Progress.{Progress, Progress-refl, Progress-trans, choose-Progress}
use flask_xxljob.Registry.Progress.Registers.{record_result-Progress, invalidate-Progress}

module _ (p : Process) where
  pub prepare_start-Progress : (b : Bool) → Progress p (prepare_start b p).0
  unfolding prepare_start
  prepare_start-Progress b = record {
    grows = ground arith;
    done = λ o h d. ground arith;
    waits = λ o h w. ground arith;
    active = λ o h w. ground arith;
  }

  commit_activation-Progress :
      (r c : ℕ)
      → (p.contexts c).generation ≡ p.generation + 1
      → Progress p (commit_activation p r c)
  unfolding commit_activation
  commit_activation-Progress r c e = record {
    grows = ground arith;
    done = λ o h d. ground arith;
    waits = λ o h w. ground arith;
    active = λ o h w. ground arith;
  }

  pub cancel_prepared_start-Progress : (r : ℕ) → Progress p (cancel_prepared_start r p).0
  unfolding cancel_prepared_start
  cancel_prepared_start-Progress r = record {
    grows = ground arith;
    done = λ o h d. ground arith;
    waits = λ o h w. ground arith;
    active = λ o h w. ground arith;
  }

  pub settle_prepared-Progress : (b : Bool) (r : ℕ) → Progress p (settle_prepared b r p)
  unfolding settle_prepared
  settle_prepared-Progress b r = record {
    grows = ground arith;
    done = λ o h d. ground arith;
    waits = λ o h w. ground arith;
    active = λ o h w. ground arith;
  }

  pub next_sequence-Progress : Progress p (next_sequence p).0
  unfolding next_sequence
  next_sequence-Progress = record {
    grows = ground arith;
    done = λ o h d. d;
    waits = λ o h w. inl w;
    active = λ o h w. inl w;
  }

  pub begin_renewal-Progress : (c : ℕ) → Progress p (begin_renewal p c).0
  unfolding begin_renewal
  begin_renewal-Progress c = record {
    grows = ground arith;
    done = λ o h d. ground arith;
    waits = λ o h w. ground arith;
    active = λ o h w. ground arith;
  }

  pub stop_local-Progress : Progress p (stop_local p)
  unfolding stop_local retire
  stop_local-Progress = record {
    grows = ground arith;
    done = λ o h d. ground arith;
    waits = λ o h w. ground arith;
    active = λ o h w. ground arith;
  }

  claim_own_remove-Progress : (c : ℕ) → Progress p (claim_own_remove p c).0
  unfolding claim_own_remove
  claim_own_remove-Progress c = record {
    grows = ground arith;
    done = λ o h d. ground arith;
    waits = λ o h w. ground arith;
    active = λ o h w. ground arith;
  }

  leave_worker-Progress : (c : ℕ) → Progress p (leave_worker p c)
  unfolding leave_worker
  leave_worker-Progress c = record {
    grows = ground arith;
    done = λ o h d. ground arith;
    waits = λ o h w. ground arith;
    active = λ o h w. ground arith;
  }

set_applied-Progress :
    {p q : Process} (n : ℕ)
    → Progress p q
    → q.last_applied_rpc_sequence ≤ n
    → Progress p (set_applied q n)
set_applied-Progress n s h = record {
  grows = ground (arith, s.grows);
  done = s.done;
  waits = s.waits;
  active = s.active;
}

module _ (p : Process) where
  pub activate-Progress : (r : ℕ) → Inv p → Progress p (activate_prepared_start r p).0
  unfolding activate_prepared_start
  activate-Progress r v = ground (
    arith,
    Progress-refl p,
    stop_local-none v,
    commit_activation-Progress p r (p.prepareds r).context,
  )

  pub finish_worker-Progress : (c : ℕ) → Progress p (finish_worker p c).0
  unfolding finish_worker
  finish_worker-Progress c =
      Progress-trans (claim_own_remove-Progress p c) (leave_worker-Progress _ c)

  pub commit_renewal-Progress :
      (c : ℕ) (r : CallResult) (n : ℕ) (now : Text) → Progress p (commit_renewal p c r n now).0
  unfolding commit_renewal
  commit_renewal-Progress c r n now =
      elim (Bool-cases (worker_is_current p c && ltb p.last_applied_rpc_sequence n)) [
        | inr e ↦ rw e (Progress-refl p)
        | inl e ↦
            rw e (set_applied-Progress n (Progress-trans recorded reopened) (ground (arith, f, g)))
      ]
    where
      q : Process
      q = record_result p r worker now

      recorded : Progress p q
      recorded = record_result-Progress p r worker now

      reopened : Progress q (
          if r.success
          then (invalidate_successful_cleanup q (q.contexts c).generation none).0
          else q)
      reopened =
          choose-Progress _ _ _ (invalidate-Progress q (q.contexts c).generation none)
            (Progress-refl q)

      f : Frame p q
      f = record_result-Frame p r worker now

      g : Frame q (invalidate_successful_cleanup q (q.contexts c).generation none).0
      g = invalidate-Frame q (q.contexts c).generation none
