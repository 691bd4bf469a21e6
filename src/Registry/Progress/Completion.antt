-- ===== src/Registry/Progress/Completion.antt =====
-- registry_service.py: the scheduler and the completion of a Remove make progress.
use flask_xxljob.Base.{
  ℕ, Bool, Option, none, some, Text, ◌≡◌, refl, ◌&&◌, ◌⊎◌, ◌<◌, ltb, holds, inl, inr, Bool-cases,
  arith,
}
use flask_xxljob.Client.Result.{CallResult}
use flask_xxljob.Registry.State.{Process}
use flask_xxljob.Registry.Outcome.{remove, local, record_result}
use flask_xxljob.Registry.Register.{set_applied}
use flask_xxljob.Registry.Lifecycle.{set_done}
use flask_xxljob.Registry.Remove.{
  end_unstarted, start_failure, fail_start, launch_actor, schedule_operation, schedule_pending,
  schedule_pending_remove, accept_removal, settle_removal, clear_active, complete_remove,
  set_result,
}
use flask_xxljob.Registry.Progress.{
  Progress, Grows, IsWaited, Progress-refl, Progress-trans, choose-Progress, first-Progress,
}
use flask_xxljob.Registry.Progress.Registers.{record_result-Progress, accept-Progress}
use flask_xxljob.Registry.Progress.Removes.{
  drop_dead_actor-Progress, new_actor-Progress, set_result-Progress, mark_removed-Progress,
  cancel_same_pending-Progress, reconcile_after-Progress,
}

-- An operation that a section lets go of first, and signals last.
signal_last :
    {p q : Process} (r : Process) (o : ℕ)
    → Grows p q
    → ((k : ℕ) → (q.operations k).done_event ≡ (p.operations k).done_event)
    → ((k : ℕ) → IsWaited p k → IsWaited q k ⊎ (k ≡ o))
    → ((k : ℕ) → p.active_remove ≡ some k → (q.active_remove ≡ some k) ⊎ (k ≡ o))
    → Progress q r
    → Progress p (set_done r o)
signal_last r o g d keep let_active s = record {
  grows = ground (arith, g, s.grows);
  done = λ k h e. ground (arith, g, d k, s.done k);
  waits = λ k h w. elim (keep k w) [
    | inl still ↦ ground (arith, g, s.waits k)
    | inr same ↦ inr (ground arith)
  ];
  active = λ k h w. elim (let_active k w) [
    | inl still ↦ ground (arith, g, s.active k)
    | inr same ↦ inr (ground arith)
  ];
}

module _ (p : Process) where
  fail_start-Progress :
      (o t : ℕ) (type_name now : Text) → Progress p (fail_start p o t type_name now)
  unfolding fail_start end_unstarted
  fail_start-Progress o t type_name now =
      signal_last {q = end_unstarted p o t type_name} _ o (ground arith) (λ k. ground arith)
        (λ k w. ground arith) (λ k w. ground arith)
        (Progress-trans (record_result-Progress _ (start_failure type_name) local now)
          (reconcile_after-Progress _ o))

  launch_actor-Progress :
      (outcome : Option Text) (now : Text) (o t : ℕ) → Progress p (launch_actor outcome now p o t).0
  unfolding launch_actor
  launch_actor-Progress none now o t = Progress-refl p
  launch_actor-Progress (some type_name) now o t = fail_start-Progress o t type_name now

module _ (p : Process) (alive : ℕ → Bool) (outcome : Option Text) (now : Text) where
  schedule_operation-Progress : (o : ℕ) → Progress p (schedule_operation alive outcome now p o).0
  unfolding schedule_operation
  schedule_operation-Progress o = first-Progress _ _ _ (Progress-refl p) (
      Progress-trans (Progress-trans (drop_dead_actor-Progress p o) (new_actor-Progress _ o))
        (launch_actor-Progress _ outcome now o p.next))

  schedule_pending-Progress : (w : Option ℕ) → Progress p (schedule_pending alive outcome now p w).0
  schedule_pending-Progress none = Progress-refl p
  schedule_pending-Progress (some o) = schedule_operation-Progress o

  pub schedule_pending_remove-Progress : Progress p (schedule_pending_remove alive outcome now p).0
  unfolding schedule_pending_remove
  schedule_pending_remove-Progress = schedule_pending-Progress p.pending_remove

module _ (p : Process) (o : ℕ) (r : CallResult) (n : ℕ) (now : Text) where
  accept_removal-Progress :
      p.last_applied_rpc_sequence < n → Progress p (accept_removal p o r n now)
  unfolding accept_removal
  accept_removal-Progress h =
      choose-Progress _ _ _
        (Progress-trans accepted
          (Progress-trans (mark_removed-Progress _ _ _) (cancel_same_pending-Progress _ _)))
        accepted
    where
      accepted : Progress p (set_applied (record_result p r remove now) n)
      accepted = accept-Progress p r n remove now h

module _ (p : Process) (o : ℕ) (r : CallResult) (n : ℕ) (now : Text) where
  settle_removal-Progress : Progress p (settle_removal p o r n now)
  unfolding settle_removal
  settle_removal-Progress =
      elim (Bool-cases (holds p.active_remove o && ltb p.last_applied_rpc_sequence n)) [
        | inr e ↦ rw e (set_result-Progress p o r)
        | inl e ↦ rw e (
            Progress-trans (set_result-Progress p o r)
              (accept_removal-Progress (set_result p o r) o r n now (ground arith)))
      ]

  -- The operation that completes is let go of, and then signalled.
  let_go :
      (k : ℕ)
      → IsWaited (settle_removal p o r n now) k
      → IsWaited (clear_active (settle_removal p o r n now) o) k ⊎ (k ≡ o)
  let_go k w = ground arith

module _ (p : Process) (o : ℕ) (r : CallResult) (n : ℕ) (now : Text) where
  pub complete_remove-Progress : Progress p (complete_remove p o r n now)
  unfolding complete_remove
  complete_remove-Progress = Progress-trans (settle_removal-Progress p o r n now) (
      signal_last {q = clear_active q o} _ o (ground arith) (λ k. refl) (let_go p o r n now)
        (λ k w. ground arith) (reconcile_after-Progress (clear_active q o) o))
    where
      q : Process
      q = settle_removal p o r n now
