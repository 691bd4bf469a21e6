-- ===== src/Registry/Steps/Safety.antt =====
-- registry_service.py: every run keeps the invariant, and what follows from it.
use flask_xxljob.Base.{ℕ, ◌≡◌, none, some, holds, if◌then◌else◌, arith}
use flask_xxljob.Base.Dict
use flask_xxljob.Base.Dict.{nat_eq}
use flask_xxljob.Registry.State.{Process, Heap, Settings}
use flask_xxljob.Registry.Outcome.{local}
use flask_xxljob.Registry.Register.{detach_stale_coordination}
use flask_xxljob.Registry.Lifecycle.{activated, cancelled, activate_prepared_start, begin_renewal}
use flask_xxljob.Registry.Invariant.{Inv}
use flask_xxljob.Registry.Invariant.Small.{join_register-Inv, record_result-Inv}
use flask_xxljob.Registry.Invariant.Registers.{commit_one_shot-Inv}
use flask_xxljob.Registry.Invariant.Workers.{
  prepare_start-Inv, activate-Inv, cancel_prepared_start-Inv, settle_prepared-Inv,
  next_sequence-Inv, begin_renewal-Inv, commit_renewal-Inv, finish_worker-Inv,
}
use flask_xxljob.Registry.Invariant.Removes.{
  claim_remove-Inv, leave_actor-Inv, terminal_turn-Inv, maybe_close_logs-Inv,
}
use flask_xxljob.Registry.Invariant.Requests.{
  stop-Inv, begin_shutdown-Inv, request_exit_remove-Inv, schedule_pending_remove-Inv,
}
use flask_xxljob.Registry.Invariant.Completion.{complete_remove-Inv}
use flask_xxljob.Registry.Steps.{Step, Steps, Reach, new_process}

pub new_process-Inv : (s : Settings) (h : Heap) (pid : ℕ) → Inv (new_process s h pid)
unfolding Dict.get
new_process-Inv s h pid = record { core = ground arith; stopping = λ g. tt }

-- A critical section keeps the invariant.
pub Step-Inv : {p q : Process} → Inv p → Step p q → Inv q
Step-Inv v Step.joins = join_register-Inv v
Step-Inv v Step.calls = next_sequence-Inv v
Step-Inv v (Step.commits_register r n g c now h) = commit_one_shot-Inv r n _ _ _ now v h
Step-Inv v (Step.commits_remove r n now h) = commit_one_shot-Inv r n _ _ _ now v h
Step-Inv v (Step.records_local r now) = record_result-Inv v r local now
Step-Inv v (Step.prepares b) = prepare_start-Inv v b
Step-Inv v (Step.activates r) = activate-Inv v r
Step-Inv v (Step.cancels r) = cancel_prepared_start-Inv v r
Step-Inv v (Step.settles b r) = settle_prepared-Inv v b r
Step-Inv v (Step.begins_renewal c) = begin_renewal-Inv v c
Step-Inv v (Step.commits_renewal c r n now h) = commit_renewal-Inv v c r n now h
Step-Inv v (Step.finishes c h) = finish_worker-Inv v c h
Step-Inv v (Step.stops b) = stop-Inv b v
Step-Inv v (Step.schedules alive outcome now) = schedule_pending_remove-Inv alive outcome now v
Step-Inv v (Step.claims o) = claim_remove-Inv v o
Step-Inv v (Step.leaves o t) = leave_actor-Inv v o t
Step-Inv v (Step.completes o r n now h e) = complete_remove-Inv o r n now v h e
Step-Inv v (Step.takes_turn g) = terminal_turn-Inv v g
Step-Inv v Step.begins_shutdown = begin_shutdown-Inv v
Step-Inv v (Step.requests_exit g h) = request_exit_remove-Inv g v h
Step-Inv v Step.closes_logs = maybe_close_logs-Inv v

pub Steps-Inv : {p q : Process} → Inv p → Steps p q → Inv q
Steps-Inv v Steps.stay = v
Steps-Inv v (Steps.then_step s t) = Step-Inv (Steps-Inv v s) t

-- A process of the service, which any sequence of critical sections has made from a new one, is
-- well formed: each reference names an object of the generation that it stands for, a Prepared
-- token owns the next generation and excludes a Worker, operations that may be waited for are not
-- done, stopping Workers are stopped, and a generation with a Worker has no cleanup.
pub Reach-Inv : (p : Process) → Reach p → Inv p
Reach-Inv p (s, h, pid, run) = Steps-Inv (new_process-Inv s h pid) run

-- In a process of the service, activating a Prepared token never raises: the token becomes the
-- Worker if it is still published, and is cancelled otherwise.
pub activate-total :
    (p : Process) (r : ℕ)
    → Reach p
    → (activate_prepared_start r p).1 ≡ (if holds p.prepared_start r then activated else cancelled)
unfolding activate_prepared_start
activate-total p r run = ground (arith, (Reach-Inv p run).core)

-- In a process of the service, a register never meets a window of an older generation: the branch
-- of `_join_register_coordination` that detaches one changes nothing.
pub detach-unreachable : (p : Process) → Reach p → detach_stale_coordination p ≡ p
unfolding detach_stale_coordination
detach-unreachable p run = ground (arith, (Reach-Inv p run).core)

-- In a process of the service, a Worker that has been moved to the stopping ones makes no further
-- call: its renewal changes nothing and takes no sequence number.
pub renewal-stopping :
    (p : Process) (g c : ℕ)
    → Reach p
    → Dict.get p.stopping_workers g ≡ some c
    → begin_renewal p c ≡ (p, none)
unfolding begin_renewal
renewal-stopping p g c run e = ground (arith, (Reach-Inv p run).stopping g)
