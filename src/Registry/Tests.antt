-- ===== src/Registry/Tests.antt =====
-- registry_service.py: runs of a small process.
use flask_xxljob.Base.{◌≡◌, refl, true, false, none, some, text, inl, arith, ◌⊎◌}
use flask_xxljob.Base.Dict
use flask_xxljob.Base.Dict.{nat_eq}
use flask_xxljob.Registry.State.{Process}
use flask_xxljob.Registry.Outcome.{register, safe_result}
use flask_xxljob.Registry.Register.{ensure_pending_remove, commit_one_shot, join_register}
use flask_xxljob.Registry.Lifecycle.{
  stop_local, retire, commit_activation, prepare_start, activate_prepared_start, activated,
  begin_renewal, next_sequence,
}
use flask_xxljob.Registry.Remove.{
  stop, request_remove, request_in_window, withdraw_prepared, request_uncoordinated, claim_remove,
  complete_remove,
}
use flask_xxljob.Registry.Terminal.{
  close_window, maybe_close_logs, terminal_turn, cached, begin_shutdown,
}
use flask_xxljob.Registry.Invariant.{Inv}
use flask_xxljob.Registry.Progress.{IsWaited}
use flask_xxljob.Registry.Sample.{settings, heap, accepted, fresh}
use flask_xxljob.Registry.Steps.{Step, Steps, Reach}
use flask_xxljob.Registry.Steps.Safety.{Reach-Inv, activate-total, renewal-stopping}
use flask_xxljob.Registry.Steps.Liveness.{
  no_lost_wakeup, active_is_exclusive, generation_stays_idle, logs_close_once,
}
use flask_xxljob.Registry.Contracts.{removal_is_remembered}

abbrev prepared : Process
prepared = (prepare_start true fresh).0

abbrev running : Process
running = (activate_prepared_start 1 prepared).0

abbrev stopped : Process
stopped = (stop true running).0

abbrev removing : Process
removing = (claim_remove stopped 3).0

abbrev called : Process
called = (next_sequence removing).0

to_prepared : Steps fresh prepared
to_prepared = Steps.then_step Steps.stay (Step.prepares true)

to_stopped : Steps fresh stopped
to_stopped = Steps.then_step (Steps.then_step to_prepared (Step.activates 1)) (Step.stops true)

prepared-Reach : Reach prepared
prepared-Reach = (settings, heap, 7, to_prepared)

stopped-Reach : Reach stopped
stopped-Reach = (settings, heap, 7, to_stopped)

removing-Reach : Reach removing
removing-Reach = (settings, heap, 7, Steps.then_step to_stopped (Step.claims 3))

Reach-Inv_example : Inv stopped
Reach-Inv_example = Reach-Inv stopped stopped-Reach

activate-total_example : (activate_prepared_start 1 prepared).1 ≡ activated
unfolding prepare_start
activate-total_example = activate-total prepared 1 prepared-Reach

renewal-stopping_example : begin_renewal stopped 0 ≡ (stopped, none)
unfolding stop Dict.get Dict.put prepare_start activate_prepared_start request_remove
    request_in_window stop_local withdraw_prepared commit_activation retire request_uncoordinated
    ensure_pending_remove
renewal-stopping_example = renewal-stopping stopped 1 0 stopped-Reach refl

to_removing : Steps stopped removing
to_removing = Steps.then_step Steps.stay (Step.claims 3)

no_lost_wakeup_example : IsWaited removing 3 ⊎ ((removing.operations 3).done_event ≡ true)
unfolding stop Dict.get Dict.put prepare_start activate_prepared_start request_remove
    request_in_window stop_local withdraw_prepared commit_activation retire request_uncoordinated
    ensure_pending_remove
no_lost_wakeup_example =
    no_lost_wakeup stopped removing 3 stopped-Reach to_removing (omega arith) (inl (inl refl))

active_is_exclusive_example :
    (called.active_remove ≡ some 3) ⊎ ((called.operations 3).done_event ≡ true)
unfolding claim_remove stop Dict.get Dict.put prepare_start activate_prepared_start request_remove
    request_in_window stop_local withdraw_prepared commit_activation retire request_uncoordinated
    ensure_pending_remove
active_is_exclusive_example =
    active_is_exclusive removing called 3 removing-Reach (Steps.then_step Steps.stay Step.calls)
      (omega arith) refl

generation_stays_idle_example : removing.worker ≡ none
unfolding claim_remove stop Dict.get Dict.put prepare_start activate_prepared_start request_remove
    request_in_window stop_local withdraw_prepared commit_activation retire request_uncoordinated
    ensure_pending_remove
generation_stays_idle_example =
    generation_stays_idle stopped removing stopped-Reach to_removing refl refl

abbrev down : Process
down = (begin_shutdown fresh).0

down-Reach : Reach down
down-Reach = (settings, heap, 7, Steps.then_step Steps.stay Step.begins_shutdown)

logs_close_once_example : (maybe_close_logs (maybe_close_logs down).0).1 ≡ false
unfolding maybe_close_logs begin_shutdown close_window stop_local withdraw_prepared
logs_close_once_example = logs_close_once down (maybe_close_logs down).0 down-Reach Steps.stay refl

removal_is_remembered_example :
    ((complete_remove called 3 accepted 1 (text "now")).registered ≡ false)
    × (terminal_turn (complete_remove called 3 accepted 1 (text "now")) called.generation ≡ (
      complete_remove called 3 accepted 1 (text "now"),
      cached (
          safe_result called.redact
            (safe_result called.redact (safe_result called.redact accepted))),
    ))
unfolding claim_remove next_sequence stop Dict.get Dict.put prepare_start activate_prepared_start
    request_remove request_in_window stop_local withdraw_prepared commit_activation retire
    request_uncoordinated ensure_pending_remove
removal_is_remembered_example =
    removal_is_remembered called 3 accepted 1 (text "now") refl refl refl refl (omega arith) refl

abbrev joined : Process
joined = (join_register fresh).0

abbrev joined_removed : Process
joined_removed = record joined {
  state = record joined.state { last_successfully_removed_generation = some 0 };
}

abbrev reopened : Process
reopened = (commit_one_shot joined_removed accepted 1 register (some 0) (some 0) (text "now")).0
