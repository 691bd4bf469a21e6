-- ===== src/Registry/Steps/Liveness.antt =====
-- registry_service.py: what a run does to the numbers, the logs and the operations of a process.
use flask_xxljob.Base.{ℕ, ◌≤◌, ◌<◌, ◌≡◌, ◌⊎◌, inl, inr, true, false, none, some, arith}
use flask_xxljob.Registry.State.{Process}
use flask_xxljob.Registry.Outcome.{local}
use flask_xxljob.Registry.Invariant.{Inv}
use flask_xxljob.Registry.Progress.{Progress, Progress-refl, Progress-trans, IsWaited}
use flask_xxljob.Registry.Progress.Registers.{
  join_register-Progress, record_result-Progress, commit_one_shot-Progress,
}
use flask_xxljob.Registry.Progress.Workers.{
  prepare_start-Progress, activate-Progress, cancel_prepared_start-Progress,
  settle_prepared-Progress, next_sequence-Progress, begin_renewal-Progress, commit_renewal-Progress,
  finish_worker-Progress,
}
use flask_xxljob.Registry.Progress.Removes.{
  claim_remove-Progress, leave_actor-Progress, terminal_turn-Progress, maybe_close_logs-Progress,
  stop-Progress, begin_shutdown-Progress, request_exit_remove-Progress,
}
use flask_xxljob.Registry.Progress.Completion.{
  schedule_pending_remove-Progress, complete_remove-Progress,
}
use flask_xxljob.Registry.Terminal.{maybe_close_logs}
use flask_xxljob.Registry.Steps.{Step, Steps, Reach}
use flask_xxljob.Registry.Steps.Safety.{Step-Inv, Steps-Inv, Reach-Inv}

-- A critical section makes progress.
pub Step-Progress : {p q : Process} → Inv p → Step p q → Progress p q
Step-Progress {p} v Step.joins = join_register-Progress p
Step-Progress {p} v Step.calls = next_sequence-Progress p
Step-Progress {p} v (Step.commits_register r n g c now h) = commit_one_shot-Progress p r n _ g c now
Step-Progress {p} v (Step.commits_remove r n now h) = commit_one_shot-Progress p r n _ none none now
Step-Progress {p} v (Step.records_local r now) = record_result-Progress p r local now
Step-Progress {p} v (Step.prepares b) = prepare_start-Progress p b
Step-Progress {p} v (Step.activates r) = activate-Progress p r v
Step-Progress {p} v (Step.cancels r) = cancel_prepared_start-Progress p r
Step-Progress {p} v (Step.settles b r) = settle_prepared-Progress p b r
Step-Progress {p} v (Step.begins_renewal c) = begin_renewal-Progress p c
Step-Progress {p} v (Step.commits_renewal c r n now h) = commit_renewal-Progress p c r n now
Step-Progress {p} v (Step.finishes c h) = finish_worker-Progress p c
Step-Progress {p} v (Step.stops b) = stop-Progress p b
Step-Progress {p} v (Step.schedules alive outcome now) =
    schedule_pending_remove-Progress p alive outcome now
Step-Progress {p} v (Step.claims o) = claim_remove-Progress p o
Step-Progress {p} v (Step.leaves o t) = leave_actor-Progress p o t
Step-Progress {p} v (Step.completes o r n now h e) = complete_remove-Progress p o r n now
Step-Progress {p} v (Step.takes_turn g) = terminal_turn-Progress p g
Step-Progress {p} v Step.begins_shutdown = begin_shutdown-Progress p
Step-Progress {p} v (Step.requests_exit g h) = request_exit_remove-Progress p g
Step-Progress {p} v Step.closes_logs = maybe_close_logs-Progress p

pub Steps-Progress : {p q : Process} → Inv p → Steps p q → Progress p q
Steps-Progress {p} v Steps.stay = Progress-refl p
Steps-Progress v (Steps.then_step s t) =
    Progress-trans (Steps-Progress v s) (Step-Progress (Steps-Inv v s) t)

-- No wake-up is lost: over any run, an operation that is Pending or Active stays so until its
-- `done_event` is set, and a `done_event` that is set stays set.
pub no_lost_wakeup :
    (p q : Process) (o : ℕ)
    → Reach p
    → Steps p q
    → o < p.next
    → IsWaited p o ⊎ ((p.operations o).done_event ≡ true)
    → IsWaited q o ⊎ ((q.operations o).done_event ≡ true)
no_lost_wakeup p q o run s h (inl w) = (Steps-Progress (Reach-Inv p run) s).waits o h w
no_lost_wakeup p q o run s h (inr d) = inr ((Steps-Progress (Reach-Inv p run) s).done o h d)

-- Over any run of critical sections, the Active operation stays the Active one until the section
-- that completes it, with which its `done_event` is set: no other operation becomes Active before.
pub active_is_exclusive :
    (p q : Process) (o : ℕ)
    → Reach p
    → Steps p q
    → o < p.next
    → p.active_remove ≡ some o
    → (q.active_remove ≡ some o) ⊎ ((q.operations o).done_event ≡ true)
active_is_exclusive p q o run s h e = (Steps-Progress (Reach-Inv p run) s).active o h e

-- Over any run, the generation, the sequence number given out last and the one applied last never
-- go down, and the applied one was given out.
pub numbers_grow :
    (p q : Process)
    → Reach p
    → Steps p q
    → (p.generation ≤ q.generation)
      × (p.rpc_sequence ≤ q.rpc_sequence)
      × (p.last_applied_rpc_sequence ≤ q.last_applied_rpc_sequence)
      × (q.last_applied_rpc_sequence ≤ q.rpc_sequence)
numbers_grow p q run s =
    let g = (Steps-Progress (Reach-Inv p run) s).grows in
    (g.generation, g.rpc, g.applied, (Steps-Inv (Reach-Inv p run) s).core.applied)

-- A generation that has no Worker never gets one again: over any run without an activation of a
-- new generation the process stays without a Worker.
pub generation_stays_idle :
    (p q : Process)
    → Reach p
    → Steps p q
    → p.worker ≡ none
    → q.generation ≡ p.generation
    → q.worker ≡ none
generation_stays_idle p q run s h e = ground (arith, (Steps-Progress (Reach-Inv p run) s).grows)

-- The logs are closed at most once: over any run, after a section that has decided to close them
-- no section decides so again.
pub logs_close_once :
    (p q : Process)
    → Reach p
    → Steps (maybe_close_logs p).0 q
    → (maybe_close_logs p).1 ≡ true
    → (maybe_close_logs q).1 ≡ false
unfolding maybe_close_logs
logs_close_once p q run s h =
    ground (arith, (Steps-Progress (Step-Inv (Reach-Inv p run) Step.closes_logs) s).grows)
