-- ===== src/Registry/Invariant/Workers.antt =====
-- registry_service.py: the renewal lifecycle keeps the invariant.
use flask_xxljob.Base.{ℕ, Bool, true, none, some, Text, ◌≡◌, ◌∙◌, ◌≤◌, arith, if◌then◌else◌}
use flask_xxljob.Base.Dict.{get-delete, nat_eq}
use flask_xxljob.Client.Result.{CallResult}
use flask_xxljob.Registry.State.{Process}
use flask_xxljob.Registry.Outcome.{worker, record_result}
use flask_xxljob.Registry.Lifecycle.{
  prepare_start, commit_activation, activate_prepared_start, cancel_prepared_start, settle_prepared,
  is_committed_worker, begin_renewal, commit_renewal, next_sequence, leave_worker, claim_own_remove,
  finish_worker, stop_local,
}
use flask_xxljob.Registry.Invariant.{Inv}
use flask_xxljob.Registry.Invariant.Small.{record_result-Inv, invalidate-Inv, set_applied-Inv}
use flask_xxljob.Registry.Register.{invalidate_successful_cleanup}
use flask_xxljob.Registry.Invariant.Frame.{invalidate-Frame, record_result-Frame}
use flask_xxljob.Registry.Invariant.Registers.{choose-Inv, first-Inv}

module _ {p : Process} (v : Inv p) where
  pub prepare_start-Inv : (b : Bool) → Inv (prepare_start b p).0
  unfolding prepare_start
  prepare_start-Inv b = record { core = ground arith; stopping = λ g. ground (arith, v.stopping g) }

  commit_activation-Inv :
      (r : ℕ)
      → p.worker ≡ none
      → p.prepared_start ≡ some r
      → Inv (commit_activation p r (p.prepareds r).context)
  unfolding commit_activation
  commit_activation-Inv r h e = record {
    core = ground arith;
    stopping = λ g. ground (arith, v.stopping g);
  }

  pub cancel_prepared_start-Inv : (r : ℕ) → Inv (cancel_prepared_start r p).0
  unfolding cancel_prepared_start
  cancel_prepared_start-Inv r = record {
    core = ground arith;
    stopping = λ g. ground (arith, v.stopping g);
  }

  pub settle_prepared-Inv : (b : Bool) (r : ℕ) → Inv (settle_prepared b r p)
  unfolding settle_prepared
  settle_prepared-Inv b r = record {
    core = ground arith;
    stopping = λ g. ground (arith, v.stopping g);
  }

  pub next_sequence-Inv : Inv (next_sequence p).0
  unfolding next_sequence
  next_sequence-Inv = record { core = ground arith; stopping = v.stopping }

  pub begin_renewal-Inv : (c : ℕ) → Inv (begin_renewal p c).0
  unfolding begin_renewal
  begin_renewal-Inv c = record { core = ground arith; stopping = λ g. ground (arith, v.stopping g) }

  claim_own_remove-Inv : (c : ℕ) → Inv (claim_own_remove p c).0
  unfolding claim_own_remove
  claim_own_remove-Inv c = record {
    core = ground arith;
    stopping = λ g. ground (arith, v.stopping g);
  }

  is_committed_worker-claim :
      (c : ℕ) → is_committed_worker (claim_own_remove p c).0 c ≡ is_committed_worker p c
  unfolding is_committed_worker claim_own_remove
  is_committed_worker-claim c = ground arith

  leave_worker-Inv : (c : ℕ) → is_committed_worker p c ≡ true → Inv (leave_worker p c)
  unfolding leave_worker is_committed_worker
  leave_worker-Inv c h = record {
    core = ground (arith, v.stopping (p.contexts c).generation);
    stopping = λ g.
        ground (arith, v.stopping g, get-delete p.stopping_workers (p.contexts c).generation g);
  }

  pub stop_local-none : p.worker ≡ none → stop_local p ≡ p
  unfolding stop_local
  stop_local-none h = ground arith

  -- A Worker that lives excludes the commit: `_is_current_worker` holds of it.
  pub activate-Inv : (r : ℕ) → Inv (activate_prepared_start r p).0
  unfolding activate_prepared_start
  activate-Inv r = ground (arith, stop_local-none, commit_activation-Inv r)

module _ {p : Process} (v : Inv p) where
  pub finish_worker-Inv : (c : ℕ) → is_committed_worker p c ≡ true → Inv (finish_worker p c).0
  unfolding finish_worker
  finish_worker-Inv c h =
      leave_worker-Inv (claim_own_remove-Inv v c) c (is_committed_worker-claim v c ∙ h)

  pub commit_renewal-Inv :
      (c : ℕ) (r : CallResult) (n : ℕ) (now : Text)
      → n ≤ p.rpc_sequence
      → Inv (commit_renewal p c r n now).0
  unfolding commit_renewal
  commit_renewal-Inv c r n now h = first-Inv _ _ _ (set_applied-Inv reopened n within) v
    where
      q : Process
      q = record_result p r worker now

      g : ℕ
      g = (q.contexts c).generation

      recorded : Inv q
      recorded = record_result-Inv v r worker now

      reopened : Inv (if r.success then (invalidate_successful_cleanup q g none).0 else q)
      reopened = choose-Inv _ _ _ (invalidate-Inv recorded g none) recorded

      within :
          n ≤ (if r.success then (invalidate_successful_cleanup q g none).0 else q).rpc_sequence
      within = ground (arith, invalidate-Frame q g none, record_result-Frame p r worker now)
