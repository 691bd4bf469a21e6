-- ===== src/Registry/Service/Parts.antt =====
-- registry_service.py: the parts that several operations of the service share are runs.
use flask_xxljob.Base.{ℕ, ◌≡◌, Bool, true, false, none, some, if◌then◌else◌, arith}
use flask_xxljob.Registry.State.{Process}
use flask_xxljob.Registry.Outcome.{removal_error}
use flask_xxljob.Registry.Lifecycle.{stop_local, next_sequence}
use flask_xxljob.Registry.Remove.{withdraw_prepared}
use flask_xxljob.Registry.Terminal.{close_window, begin_shutdown}
use flask_xxljob.Registry.Invariant.Requests.{worker-stop_local}
use flask_xxljob.Registry.Steps.{Step, Steps}
use flask_xxljob.Registry.Service.{World, result_of, schedule_if, remove_call, execute_remove}

pub Steps-join : {p q r : Process} → Steps p q → Steps q r → Steps p r
Steps-join s Steps.stay = s
Steps-join s (Steps.then_step t u) = Steps.then_step (Steps-join s t) u

pub one : {p q : Process} → Step p q → Steps p q
one s = Steps.then_step Steps.stay s

pub choose-Steps :
    {p : Process} (b : Bool) (q r : Process) → Steps p q → Steps p r → Steps p (if b then q else r)
choose-Steps true q r s t = s
choose-Steps false q r s t = t

pub first-Steps {ℓ} :
    {A : Type ℓ} {p : Process} (b : Bool) (q r : Process × A)
    → Steps p q.0
    → Steps p r.0
    → Steps p (if b then q else r).0
first-Steps true q r s t = s
first-Steps false q r s t = t

close_window-none : (p : Process) → p.worker ≡ none → (close_window p).worker ≡ none
unfolding close_window
close_window-none p h = ground arith

pub worker-begin_shutdown : (p : Process) → (begin_shutdown p).0.worker ≡ none
unfolding begin_shutdown
worker-begin_shutdown p =
    let q = stop_local (withdraw_prepared p) in
    close_window-none (record q { state = record q.state { close_logs_when_idle = true } })
      (worker-stop_local (withdraw_prepared p))

module _ (w : World) where
  pub schedule_if-Steps : (b : Bool) (p : Process) → Steps p (schedule_if w b p).0
  unfolding schedule_if
  schedule_if-Steps b p =
      first-Steps b _ _ (one (Step.schedules w.alive w.actor_start w.now)) Steps.stay

  pub remove_call-Steps : (p : Process) → Steps p (remove_call w p).0
  unfolding remove_call next_sequence
  remove_call-Steps p =
      Steps.then_step (one Step.calls)
        (Step.commits_remove (result_of removal_error w.rpc) _ w.now (omega arith))

  pub execute_remove-Steps :
      (p : Process) (o : ℕ) → p.active_remove ≡ some o → Steps p (execute_remove w p o)
  unfolding execute_remove next_sequence
  execute_remove-Steps p o h =
      Steps.then_step
        (Steps.then_step
          (Steps.then_step (one Step.calls)
            (Step.completes o (result_of removal_error w.rpc) _ w.now (omega arith) h))
          (Step.schedules w.alive w.actor_start w.now))
        Step.closes_logs
