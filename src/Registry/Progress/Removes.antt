-- ===== src/Registry/Progress/Removes.antt =====
-- registry_service.py: removals and finalization make progress.
use flask_xxljob.Base.{ℕ, Bool, true, Option, none, some, holds, inl, inr, Bool-cases, arith}
use flask_xxljob.Client.Result.{CallResult}
use flask_xxljob.Registry.State.{Process}
use flask_xxljob.Registry.Lifecycle.{stop_local}
use flask_xxljob.Registry.Remove.{
  request_cleanup, request_uncoordinated, request_reconciled, request_coordinated,
  request_in_window, request_remove, withdraw_prepared, stop, drop_dead_actor, new_actor,
  reconcile_window, reconcile_after, claim_remove, leave_actor, cancel_same_pending, set_result,
  mark_removed,
}
use flask_xxljob.Registry.Terminal.{
  terminal_turn, close_window, begin_shutdown, request_exit_remove, maybe_close_logs,
}
use flask_xxljob.Registry.Progress.{
  Progress, Progress-refl, Progress-trans, choose-Progress, first-Progress,
}
use flask_xxljob.Registry.Progress.Registers.{reconcile-Progress, ensure_pending_remove-Progress}
use flask_xxljob.Registry.Progress.Workers.{stop_local-Progress}

module _ (p : Process) where
  request_cleanup-Progress : (c : ℕ) → Progress p (request_cleanup p c)
  request_cleanup-Progress c = record {
    grows = ground arith;
    done = λ o h d. d;
    waits = λ o h w. inl w;
    active = λ o h w. inl w;
  }

  request_uncoordinated-Progress : Progress p (request_uncoordinated p).0
  unfolding request_uncoordinated
  request_uncoordinated-Progress =
      elim (Bool-cases (holds p.last_successfully_removed_generation p.generation)) [
        | inl e ↦ rw e (Progress-refl p)
        | inr e ↦
            rw e (
              first-Progress _ _ _ (Progress-refl p)
                (ensure_pending_remove-Progress p p.generation))
      ]

  withdraw_prepared-Progress : Progress p (withdraw_prepared p)
  unfolding withdraw_prepared
  withdraw_prepared-Progress = record {
    grows = ground arith;
    done = λ o h d. ground arith;
    waits = λ o h w. ground arith;
    active = λ o h w. ground arith;
  }

  pub claim_remove-Progress : (o : ℕ) → Progress p (claim_remove p o).0
  unfolding claim_remove
  claim_remove-Progress o = record {
    grows = ground arith;
    done = λ o h d. ground arith;
    waits = λ o h w. ground arith;
    active = λ o h w. ground arith;
  }

  pub leave_actor-Progress : (o t : ℕ) → Progress p (leave_actor p o t)
  unfolding leave_actor
  leave_actor-Progress o t = record {
    grows = ground arith;
    done = λ o h d. ground arith;
    waits = λ o h w. ground arith;
    active = λ o h w. ground arith;
  }

  pub terminal_turn-Progress : (g : ℕ) → Progress p (terminal_turn p g).0
  unfolding terminal_turn
  terminal_turn-Progress g = record {
    grows = ground arith;
    done = λ o h d. ground arith;
    waits = λ o h w. ground arith;
    active = λ o h w. ground arith;
  }

  pub maybe_close_logs-Progress : Progress p (maybe_close_logs p).0
  unfolding maybe_close_logs
  maybe_close_logs-Progress = record {
    grows = ground arith;
    done = λ o h d. ground arith;
    waits = λ o h w. ground arith;
    active = λ o h w. ground arith;
  }

  close_window-Progress : Progress p (close_window p)
  unfolding close_window
  close_window-Progress = record {
    grows = ground arith;
    done = λ o h d. ground arith;
    waits = λ o h w. ground arith;
    active = λ o h w. ground arith;
  }

  closing-Progress :
      Progress p (record p { state = record p.state { close_logs_when_idle = true } })
  closing-Progress = record {
    grows = ground arith;
    done = λ o h d. d;
    waits = λ o h w. inl w;
    active = λ o h w. inl w;
  }

  pub drop_dead_actor-Progress : (o : ℕ) → Progress p (drop_dead_actor p o)
  unfolding drop_dead_actor
  drop_dead_actor-Progress o = record {
    grows = ground arith;
    done = λ o h d. ground arith;
    waits = λ o h w. ground arith;
    active = λ o h w. ground arith;
  }

  pub new_actor-Progress : (o : ℕ) → Progress p (new_actor p o)
  new_actor-Progress o = record {
    grows = ground arith;
    done = λ o h d. ground arith;
    waits = λ o h w. inl w;
    active = λ o h w. inl w;
  }

  pub set_result-Progress : (o : ℕ) (r : CallResult) → Progress p (set_result p o r)
  set_result-Progress o r = record {
    grows = ground arith;
    done = λ o h d. ground arith;
    waits = λ o h w. inl w;
    active = λ o h w. inl w;
  }

  pub mark_removed-Progress : (g : ℕ) (r : CallResult) → Progress p (mark_removed p g r)
  mark_removed-Progress g r = record {
    grows = ground arith;
    done = λ o h d. d;
    waits = λ o h w. inl w;
    active = λ o h w. inl w;
  }

  pub cancel_same_pending-Progress : (g : ℕ) → Progress p (cancel_same_pending p g)
  unfolding cancel_same_pending
  cancel_same_pending-Progress g = record {
    grows = ground arith;
    done = λ o h d. ground arith;
    waits = λ o h w. ground arith;
    active = λ o h w. ground arith;
  }

module _ (p : Process) where
  reconcile_window-Progress : (o : ℕ) (w : Option ℕ) → Progress p (reconcile_window p o w)
  unfolding reconcile_window
  reconcile_window-Progress o none = Progress-refl p
  reconcile_window-Progress o (some c) =
      choose-Progress _ _ _ (reconcile-Progress p c) (Progress-refl p)

  pub reconcile_after-Progress : (o : ℕ) → Progress p (reconcile_after p o)
  unfolding reconcile_after
  reconcile_after-Progress o = reconcile_window-Progress o p.register_coordination

  request_reconciled-Progress :
      (g c : ℕ) (r : Process × Option ℕ) → Progress p r.0 → Progress p (request_reconciled g c r).0
  unfolding request_reconciled
  request_reconciled-Progress g c (q, some o) s = s
  request_reconciled-Progress g c (q, none) s =
      first-Progress _ _ _ s (Progress-trans s (request_uncoordinated-Progress q))

  request_coordinated-Progress : (c : ℕ) → Progress p (request_coordinated p c).0
  unfolding request_coordinated
  request_coordinated-Progress c =
      request_reconciled-Progress p.generation c _
        (Progress-trans (request_cleanup-Progress p c) (reconcile-Progress _ c))

module _ (p : Process) where
  request_in_window-Progress : (w : Option ℕ) → Progress p (request_in_window p w).0
  unfolding request_in_window
  request_in_window-Progress none = request_uncoordinated-Progress p
  request_in_window-Progress (some c) =
      first-Progress _ _ _ (request_coordinated-Progress p c) (request_uncoordinated-Progress p)

  request_remove-Progress : Progress p (request_remove p).0
  unfolding request_remove
  request_remove-Progress = request_in_window-Progress p.register_coordination

module _ (p : Process) where
  pub stop-Progress : (b : Bool) → Progress p (stop b p).0
  unfolding stop
  stop-Progress b =
      Progress-trans stopped (first-Progress _ _ _ (request_remove-Progress _) (Progress-refl _))
    where
      stopped : Progress p (stop_local (withdraw_prepared p))
      stopped = Progress-trans (withdraw_prepared-Progress p) (stop_local-Progress _)

  pub begin_shutdown-Progress : Progress p (begin_shutdown p).0
  unfolding begin_shutdown
  begin_shutdown-Progress = Progress-trans (withdraw_prepared-Progress p) (
      Progress-trans (stop_local-Progress _)
        (Progress-trans (closing-Progress _) (close_window-Progress _)))

  pub request_exit_remove-Progress : (g : ℕ) → Progress p (request_exit_remove p g).0
  unfolding request_exit_remove
  request_exit_remove-Progress g =
      first-Progress _ _ _ (request_remove-Progress p) (Progress-refl p)
