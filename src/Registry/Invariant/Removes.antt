-- ===== src/Registry/Invariant/Removes.antt =====
-- registry_service.py: removals and finalization keep the invariant.
use flask_xxljob.Base.{ℕ, false, Option, none, some, List, ◌≡◌, holds, inl, inr, Bool-cases, arith}
use flask_xxljob.Client.Result.{CallResult}
use flask_xxljob.Registry.State.{Process}
use flask_xxljob.Registry.Lifecycle.{set_done}
use flask_xxljob.Registry.Remove.{
  request_cleanup, request_uncoordinated, drop_dead_actor, new_actor, reconcile_window,
  reconcile_after, claim_remove, leave_actor, cancel_same_pending, clear_active, clear_pending,
  set_result, set_thread, with_actors, mark_removed,
}
use flask_xxljob.Registry.Terminal.{terminal_turn, close_window, maybe_close_logs}
use flask_xxljob.Registry.Invariant.{Inv}
use flask_xxljob.Registry.Invariant.Small.{ensure_pending_remove-Inv, reconcile-Inv}
use flask_xxljob.Registry.Invariant.Registers.{choose-Inv, first-Inv}

module _ {p : Process} (v : Inv p) where
  pub with_actors-Inv : (f : List ℕ → List ℕ) → Inv (with_actors p f)
  with_actors-Inv f = record { core = ground arith; stopping = v.stopping }

  pub request_cleanup-Inv : (c : ℕ) → p.worker ≡ none → Inv (request_cleanup p c)
  request_cleanup-Inv c h = record { core = ground arith; stopping = v.stopping }

  pub request_uncoordinated-Inv : p.worker ≡ none → Inv (request_uncoordinated p).0
  unfolding request_uncoordinated
  request_uncoordinated-Inv h =
      elim (Bool-cases (holds p.last_successfully_removed_generation p.generation)) [
        | inl e ↦ rw e v
        | inr e ↦ rw e (first-Inv _ _ _ v (ensure_pending_remove-Inv v h))
      ]

  pub claim_remove-Inv : (o : ℕ) → Inv (claim_remove p o).0
  unfolding claim_remove
  claim_remove-Inv o = record { core = ground arith; stopping = λ g. ground (arith, v.stopping g) }

  pub leave_actor-Inv : (o t : ℕ) → Inv (leave_actor p o t)
  unfolding leave_actor
  leave_actor-Inv o t = record { core = ground arith; stopping = λ g. ground (arith, v.stopping g) }

  pub terminal_turn-Inv : (g : ℕ) → Inv (terminal_turn p g).0
  unfolding terminal_turn
  terminal_turn-Inv g = record { core = ground arith; stopping = λ g. ground (arith, v.stopping g) }

  pub maybe_close_logs-Inv : Inv (maybe_close_logs p).0
  unfolding maybe_close_logs
  maybe_close_logs-Inv = record {
    core = ground arith;
    stopping = λ g. ground (arith, v.stopping g);
  }

  pub close_window-Inv : p.worker ≡ none → Inv (close_window p)
  unfolding close_window
  close_window-Inv h = record { core = ground arith; stopping = λ g. ground (arith, v.stopping g) }

  pub set_result-Inv : (o : ℕ) (r : CallResult) → Inv (set_result p o r)
  set_result-Inv o r = record { core = ground arith; stopping = v.stopping }

  pub set_thread-Inv : (o : ℕ) (t : Option ℕ) → Inv (set_thread p o t)
  set_thread-Inv o t = record { core = ground arith; stopping = v.stopping }

  pub drop_dead_actor-Inv : (o : ℕ) → Inv (drop_dead_actor p o)
  unfolding drop_dead_actor
  drop_dead_actor-Inv o = record {
    core = ground arith;
    stopping = λ g. ground (arith, v.stopping g);
  }

  pub new_actor-Inv : (o : ℕ) → Inv (new_actor p o)
  new_actor-Inv o = record { core = ground arith; stopping = λ g. ground (arith, v.stopping g) }

  pub clear_active-Inv : (o : ℕ) → Inv (clear_active p o)
  clear_active-Inv o = record { core = ground arith; stopping = v.stopping }

  pub clear_pending-Inv : (o : ℕ) → Inv (clear_pending p o)
  clear_pending-Inv o = record { core = ground arith; stopping = v.stopping }

  pub cancel_same_pending-Inv : (g : ℕ) → Inv (cancel_same_pending p g)
  unfolding cancel_same_pending
  cancel_same_pending-Inv g = record {
    core = ground arith;
    stopping = λ g. ground (arith, v.stopping g);
  }

  pub mark_removed-Inv : (r : CallResult) → p.worker ≡ none → Inv (mark_removed p p.generation r)
  mark_removed-Inv r h = record { core = ground arith; stopping = v.stopping }

  -- An operation that nobody waits for any more may be signalled.
  pub set_done-Inv :
      (o : ℕ)
      → holds p.pending_remove o ≡ false
      → holds p.active_remove o ≡ false
      → Inv (set_done p o)
  set_done-Inv o h e = record { core = ground arith; stopping = v.stopping }

  reconcile_window-Inv : (o : ℕ) (w : Option ℕ) → Inv (reconcile_window p o w)
  unfolding reconcile_window
  reconcile_window-Inv o none = v
  reconcile_window-Inv o (some c) = choose-Inv _ _ _ (reconcile-Inv c v) v

  pub reconcile_after-Inv : (o : ℕ) → Inv (reconcile_after p o)
  unfolding reconcile_after
  reconcile_after-Inv o = reconcile_window-Inv o p.register_coordination
