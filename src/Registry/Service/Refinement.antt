-- ===== src/Registry/Service/Refinement.antt =====
-- registry_service.py: an operation of the service is a sequence of critical sections.
use flask_xxljob.Base.{
  ℕ, ◌≤◌, ◌≡◌, refl, Bool, true, false, not, ◌&&◌, Option, none, some, is_none, is_some, text,
  if◌then◌else◌, Bool-cases, inl, inr, arith,
}
use flask_xxljob.Client.Result.{CallResult, exception, local_failure}
use flask_xxljob.Registry.State.{Process}
use flask_xxljob.Registry.Outcome.{register, registration_error, disabled_result}
use flask_xxljob.Registry.Register.{join_register, commit_one_shot}
use flask_xxljob.Registry.Lifecycle.{
  Prepare, nothing, prepared, start_failed, prepare_start, next_sequence, begin_renewal,
  is_committed_worker, finish_worker, claim_own_remove, leave_worker,
}
use flask_xxljob.Registry.Remove.{stop, Scheduling, idle, started, failed, claim_remove}
use flask_xxljob.Registry.Terminal.{
  Turn, one_shot, cached, own, wait_registers, wait_active, wait_pending, terminal_turn,
  answer_or_join, join_or_own, open_active, begin_shutdown, request_exit_remove, maybe_close_logs,
}
use flask_xxljob.Registry.Steps.{Step, Steps}
use flask_xxljob.Registry.Service.{
  World, Call, Ending, done, result, config_error, perform, result_of, schedule_if, record_local,
  register_call, register_once_result, remove_call, take_turn, remove_once_result, activate_if,
  start, close_unless_failed, stop_service, exit_remove, shutdown, commit_if,
  perform_worker_registry, execute_or_schedule, finish, execute_if, run_cleanup_actor,
}
use flask_xxljob.Registry.Service.Parts.{
  Steps-join, one, choose-Steps, first-Steps, schedule_if-Steps, remove_call-Steps,
  execute_remove-Steps, worker-begin_shutdown,
}

module _ (w : World) where
  register_call-Steps : (p : Process) → Steps p (register_call w p).0
  unfolding register_call next_sequence
  register_call-Steps p =
      let scheduled = Steps-join commits (schedule_if-Steps w (is_some committed.1) committed.0) in
      choose-Steps (is_some (join_register p).1)
        (maybe_close_logs (schedule_if w (is_some committed.1) committed.0).0).0
        (schedule_if w (is_some committed.1) committed.0).0
        (Steps-join scheduled (one Step.closes_logs)) scheduled
    where
      called : Process
      called = (next_sequence (join_register p).0).0

      committed : Process × Option ℕ
      committed =
          commit_one_shot called (result_of registration_error w.rpc) called.rpc_sequence register
            (some (join_register p).2) (join_register p).1 w.now

      commits : Steps p committed.0
      commits = Steps.then_step (Steps.then_step (one Step.joins) Step.calls) (
          Step.commits_register (result_of registration_error w.rpc) called.rpc_sequence _ _ w.now
            (omega arith))

  register_once_result-Steps : (p : Process) → Steps p (register_once_result w p).0
  unfolding register_once_result
  register_once_result-Steps p =
      first-Steps (not p.enabled) (record_local w p disabled_result, result disabled_result) valid
        (one (Step.records_local disabled_result w.now))
        (first-Steps (not p.valid) (p, config_error) (register_call w p) Steps.stay
          (register_call-Steps p))
    where
      valid : Process × Ending
      valid = if not p.valid then (p, config_error) else register_call w p

  terminal_turn-owns :
      (p : Process) (g o : ℕ)
      → (terminal_turn p g).1 ≡ own o
      → (terminal_turn p g).0.active_remove ≡ some o
  unfolding terminal_turn answer_or_join join_or_own open_active
  terminal_turn-owns p g o h = ground arith

  take_turn-Steps :
      (p : Process) (t : Turn)
      → ((o : ℕ) → t ≡ own o → p.active_remove ≡ some o)
      → Steps p (take_turn w (p, t)).0
  unfolding take_turn
  take_turn-Steps p one_shot h = remove_call-Steps w p
  take_turn-Steps p (cached r) h = Steps.stay
  take_turn-Steps p (own o) h = execute_remove-Steps w p o (h o refl)
  take_turn-Steps p (wait_registers c) h = Steps.stay
  take_turn-Steps p (wait_active o b) h = Steps.stay
  take_turn-Steps p (wait_pending o true) h = one (Step.schedules w.alive w.actor_start w.now)
  take_turn-Steps p (wait_pending o false) h = Steps.stay

  remove_once_result-Steps : (p : Process) → Steps p (remove_once_result w p).0
  unfolding remove_once_result
  remove_once_result-Steps p =
      first-Steps (not p.enabled) (record_local w p disabled_result, result disabled_result) valid
        (one (Step.records_local disabled_result w.now))
        (first-Steps (not p.valid) (p, config_error) chosen Steps.stay
          (first-Steps (is_none p.worker) (take_turn w (terminal_turn p p.generation))
            (remove_call w p)
            (Steps-join (one (Step.takes_turn p.generation)) (
              take_turn-Steps _ (terminal_turn p p.generation).1
                (terminal_turn-owns p p.generation)))
            (remove_call-Steps w p)))
    where
      chosen : Process × Ending
      chosen =
          if is_none p.worker then take_turn w (terminal_turn p p.generation) else remove_call w p

      valid : Process × Ending
      valid = if not p.valid then (p, config_error) else chosen

  activate_if-Steps : (q : Process × Prepare) → Steps q.0 (activate_if w q).0
  unfolding activate_if
  activate_if-Steps (p, nothing) = Steps.stay
  activate_if-Steps (p, start_failed) = Steps.stay
  activate_if-Steps (p, prepared r) = one (Step.activates r)

  start-Steps : (p : Process) → Steps p (start w p).0
  unfolding start
  start-Steps p =
      first-Steps (not p.enabled) (p, done)
        (if not p.valid then (p, config_error) else activate_if w (prepare_start w.worker_start p))
        Steps.stay
        (first-Steps (not p.valid) (p, config_error)
          (activate_if w (prepare_start w.worker_start p)) Steps.stay
          (Steps-join (one (Step.prepares w.worker_start))
            (activate_if-Steps (prepare_start w.worker_start p))))

  close_unless_failed-Steps : (q : Process × Scheduling) → Steps q.0 (close_unless_failed w q).0
  unfolding close_unless_failed
  close_unless_failed-Steps (p, idle) = one Step.closes_logs
  close_unless_failed-Steps (p, started t) = one Step.closes_logs
  close_unless_failed-Steps (p, failed o) = Steps.stay

  stop_service-Steps : (b : Bool) (p : Process) → Steps p (stop_service w b p).0
  unfolding stop_service
  stop_service-Steps b p =
      first-Steps (not p.enabled) (p, done)
        (if b && not p.valid then (p, config_error) else stopped) Steps.stay
        (first-Steps (b && not p.valid) (p, config_error) stopped Steps.stay
          (Steps-join (one (Step.stops b)) (
            Steps-join (schedule_if-Steps w (is_some (stop b p).1) (stop b p).0)
              (close_unless_failed-Steps (schedule_if w (is_some (stop b p).1) (stop b p).0)))))
    where
      stopped : Process × Ending
      stopped = close_unless_failed w (schedule_if w (is_some (stop b p).1) (stop b p).0)

  exit_remove-Steps : (p : Process) (g : ℕ) → p.worker ≡ none → Steps p (exit_remove w p g)
  unfolding exit_remove
  exit_remove-Steps p g h =
      choose-Steps p.valid
        (schedule_if w (is_some (request_exit_remove p g).1) (request_exit_remove p g).0).0
        (record_local w p invalid)
        (Steps-join (one (Step.requests_exit g (λ _. h)))
          (schedule_if-Steps w (is_some (request_exit_remove p g).1) (request_exit_remove p g).0))
        (one (Step.records_local invalid w.now))
    where
      invalid : CallResult
      invalid =
          local_failure (text "Invalid Registry configuration during exit cleanup.")
            (exception (text "XXLJobConfigurationError"))

  shutdown-Steps : (p : Process) → Steps p (shutdown w p).0
  unfolding shutdown
  shutdown-Steps p =
      Steps.then_step
        (Steps-join (one Step.begins_shutdown) (
          choose-Steps (begin_shutdown p).1
            (exit_remove w (begin_shutdown p).0 (begin_shutdown p).0.generation)
            (begin_shutdown p).0 (exit_remove-Steps _ _ (worker-begin_shutdown p)) Steps.stay))
        Step.closes_logs

  commit_if-Steps :
      (c : ℕ) (q : Process × Option ℕ)
      → ((n : ℕ) → q.1 ≡ some n → n ≤ q.0.rpc_sequence)
      → Steps q.0 (commit_if w c q).0
  unfolding commit_if
  commit_if-Steps c (p, none) h = Steps.stay
  commit_if-Steps c (p, some n) h = one (Step.commits_renewal c _ n w.now (h n refl))

  begin_renewal-sequence :
      (p : Process) (c n : ℕ)
      → (begin_renewal p c).1 ≡ some n
      → n ≤ (begin_renewal p c).0.rpc_sequence
  unfolding begin_renewal next_sequence
  begin_renewal-sequence p c n h = ground arith

  execute_or_schedule-Steps :
      (q : Process × Option ℕ)
      → ((o : ℕ) → q.1 ≡ some o → q.0.active_remove ≡ some o)
      → Steps q.0 (execute_or_schedule w q)
  unfolding execute_or_schedule
  execute_or_schedule-Steps (p, some o) h = execute_remove-Steps w p o (h o refl)
  execute_or_schedule-Steps (p, none) h = one (Step.schedules w.alive w.actor_start w.now)

  finish_worker-claims :
      (p : Process) (c o : ℕ)
      → (finish_worker p c).1 ≡ some o
      → (finish_worker p c).0.active_remove ≡ some o
  unfolding finish_worker claim_own_remove leave_worker
  finish_worker-claims p c o h = ground arith

  finish-Steps : (c : ℕ) (p : Process) → Steps p (finish w c p)
  unfolding finish
  finish-Steps c p = elim (Bool-cases (is_committed_worker p c)) [
    | inl e ↦ rw e (
        Steps.then_step
          (Steps-join (one (Step.finishes c e))
            (execute_or_schedule-Steps (finish_worker p c) (finish_worker-claims p c)))
          Step.closes_logs)
    | inr e ↦ rw e Steps.stay
  ]

  execute_if-Steps :
      (o : ℕ) (q : Process × Bool)
      → (q.1 ≡ true → q.0.active_remove ≡ some o)
      → Steps q.0 (execute_if w o q)
  unfolding execute_if
  execute_if-Steps o (p, true) h = execute_remove-Steps w p o (h refl)
  execute_if-Steps o (p, false) h = Steps.stay

  claim_remove-owns :
      (p : Process) (o : ℕ)
      → (claim_remove p o).1 ≡ true
      → (claim_remove p o).0.active_remove ≡ some o
  unfolding claim_remove
  claim_remove-owns p o h = ground arith

  run_cleanup_actor-Steps : (o t : ℕ) (p : Process) → Steps p (run_cleanup_actor w o t p)
  unfolding run_cleanup_actor
  run_cleanup_actor-Steps o t p =
      Steps.then_step
        (Steps.then_step
          (Steps.then_step
            (Steps-join (one (Step.claims o))
              (execute_if-Steps o (claim_remove p o) (claim_remove-owns p o)))
            (Step.leaves o t))
          (Step.schedules w.alive w.actor_start w.now))
        Step.closes_logs

-- A call of the service that runs alone, by its users or by one of its Threads, is a sequence of
-- critical sections of the step relation.
pub perform-Steps : (w : World) (call : Call) (p : Process) → Steps p (perform w call p)
unfolding perform perform_worker_registry
perform-Steps w Call.registers p = register_once_result-Steps w p
perform-Steps w Call.removes p = remove_once_result-Steps w p
perform-Steps w Call.starts p = start-Steps w p
perform-Steps w Call.shuts_down p = shutdown-Steps w p
perform-Steps w (Call.stops b) p = stop_service-Steps w b p
perform-Steps w (Call.renews c) p =
    Steps-join (one (Step.begins_renewal c))
      (commit_if-Steps w c (begin_renewal p c) (begin_renewal-sequence w p c))
perform-Steps w (Call.finishes c) p = finish-Steps w c p
perform-Steps w (Call.cleans_up o t) p = run_cleanup_actor-Steps w o t p
