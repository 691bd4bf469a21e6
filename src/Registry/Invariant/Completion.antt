-- ===== src/Registry/Invariant/Completion.antt =====
-- registry_service.py: the completion of a Remove keeps the invariant.
use flask_xxljob.Base.{ℕ, none, some, Text, ◌≡◌, ◌≤◌, inl, inr, Bool-cases, if◌then◌else◌, arith}
use flask_xxljob.Client.Result.{CallResult}
use flask_xxljob.Registry.State.{Process}
use flask_xxljob.Registry.Outcome.{remove, record_result, safe_result}
use flask_xxljob.Registry.Register.{set_applied}
use flask_xxljob.Registry.Remove.{
  accept_removal, cancel_same_pending, cleanup_is_satisfied, settle_removal, clear_active,
  complete_remove, set_result, mark_removed, reconcile_after,
}
use flask_xxljob.Registry.Invariant.{Inv}
use flask_xxljob.Registry.Invariant.Frame.{Frame, reconcile_after-Frame, record_result-Frame}
use flask_xxljob.Registry.Invariant.Registers.{accept-Inv, choose-Inv}
use flask_xxljob.Registry.Invariant.Removes.{
  cancel_same_pending-Inv, mark_removed-Inv, set_result-Inv, clear_active-Inv, set_done-Inv,
  reconcile_after-Inv,
}

mark_if-Inv :
    {q : Process} (o : ℕ) (r : CallResult)
    → Inv q
    → Inv (
        if cleanup_is_satisfied q o r
        then cancel_same_pending
            (mark_removed q (q.operations o).generation r)
            (q.operations o).generation
        else q)
mark_if-Inv {q} o r v = elim (Bool-cases (cleanup_is_satisfied q o r)) [
  | inr e ↦ rw e v
  | inl e ↦
      rw e
        (cancel_same_pending-Inv (marked (ground arith) (ground arith)) (q.operations o).generation)
]
  where
    marked :
        q.generation ≡ (q.operations o).generation
        → q.worker ≡ none
        → Inv (mark_removed q (q.operations o).generation r)
    marked d h = rw (← d) (mark_removed-Inv v r h)

accept_removal-Inv :
    {p : Process} (o : ℕ) (r : CallResult) (n : ℕ) (now : Text)
    → Inv p
    → n ≤ p.rpc_sequence
    → Inv (accept_removal p o r n now)
unfolding accept_removal
accept_removal-Inv {p} o r n now v h =
    mark_if-Inv o (safe_result p.redact r) (accept-Inv r n remove now v h)

settle_removal-Inv :
    {p : Process} (o : ℕ) (r : CallResult) (n : ℕ) (now : Text)
    → Inv p
    → n ≤ p.rpc_sequence
    → Inv (settle_removal p o r n now)
unfolding settle_removal
settle_removal-Inv o r n now v h =
    choose-Inv _ _ _ (accept_removal-Inv o r n now (set_result-Inv v o r) h) (set_result-Inv v o r)

active-cancel_same_pending :
    (p : Process) (g : ℕ) → (cancel_same_pending p g).active_remove ≡ p.active_remove
unfolding cancel_same_pending
active-cancel_same_pending p g = ground arith

active-accept_removal :
    (p : Process) (o : ℕ) (r : CallResult) (n : ℕ) (now : Text)
    → (accept_removal p o r n now).active_remove ≡ p.active_remove
unfolding accept_removal
active-accept_removal p o r n now = elim (Bool-cases (cleanup_is_satisfied q o s)) [
  | inr e ↦ rw e (record_result-Frame p r remove now).active
  | inl e ↦
      rw
        (
          e,
          active-cancel_same_pending (mark_removed q (q.operations o).generation s)
              (q.operations o).generation,
        )
        (record_result-Frame p r remove now).active
]
  where
    s : CallResult
    s = safe_result p.redact r

    q : Process
    q = set_applied (record_result p r remove now) n

-- Before it is cleared, the operation is Active still.
active-settle_removal :
    (p : Process) (o : ℕ) (r : CallResult) (n : ℕ) (now : Text)
    → (settle_removal p o r n now).active_remove ≡ p.active_remove
unfolding settle_removal
active-settle_removal p o r n now =
    ground (arith, active-accept_removal (set_result p o r) o r n now)

pub complete_remove-Inv :
    {p : Process} (o : ℕ) (r : CallResult) (n : ℕ) (now : Text)
    → Inv p
    → n ≤ p.rpc_sequence
    → p.active_remove ≡ some o
    → Inv (complete_remove p o r n now)
unfolding complete_remove
complete_remove-Inv {p} o r n now v h a =
    set_done-Inv (reconcile_after-Inv (clear_active-Inv w o) o) o
      (ground (arith, active-settle_removal p o r n now, w, f))
      (ground (arith, active-settle_removal p o r n now, f))
  where
    w : Inv (settle_removal p o r n now)
    w = settle_removal-Inv o r n now v h

    f :
        Frame
          (clear_active (settle_removal p o r n now) o)
          (reconcile_after (clear_active (settle_removal p o r n now) o) o)
    f = reconcile_after-Frame (clear_active (settle_removal p o r n now) o) o
