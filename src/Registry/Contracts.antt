-- ===== src/Registry/Contracts.antt =====
-- registry_service.py: what the operations promise their callers, each from any state of the
-- process: `_finish_worker`, `_cancel_prepared_start`, `_complete_remove_operation`,
-- `_commit_one_shot`, `stop`, `shutdown`.
pub mod Kept
pub mod Reopening
use flask_xxljob.Base.{
  ℕ, ◌+◌, ◌≤◌, ◌<◌, ◌≡◌, ◌≢◌, ◌⊎◌, refl, Bool, true, false, Option, none, some, Text, holds, ◌&&◌,
  not, if◌then◌else◌, arith, ltb, ==_refl,
}
use flask_xxljob.Client.Result.{CallResult}
use flask_xxljob.Registry.State.{Process}
use flask_xxljob.Registry.Outcome.{next_registered, safe_result, record_result, Kind}
use flask_xxljob.Registry.Register.{commit_result}
use flask_xxljob.Registry.Lifecycle.{
  activate_prepared_start, cancelled, cancel_prepared_start, commit_renewal, prepare_start,
  start_failed,
}
use flask_xxljob.Registry.Remove.{
  launch_actor, fail_start, claim_remove, clear_active, reconcile_after, reconcile_window,
  accept_removal, cancel_same_pending, stop, complete_remove, settle_removal, set_result,
}
use flask_xxljob.Registry.Contracts.Kept.{
  request_remove-Kept, close_window-Kept, stop_local-prepared, withdraw_prepared-none,
  close_register-Kept, reconcile_after-Kept,
}
use flask_xxljob.Registry.Lifecycle.{stop_local}
use flask_xxljob.Registry.Remove.{withdraw_prepared}
use flask_xxljob.Registry.Terminal.{answer_or_join, begin_shutdown, terminal_turn, cached}

-- A start that fails, and a Prepared token that is cancelled before its activation, leave the
-- state of the process as it was: no generation is spent and nothing is published.
pub prepare-cancel :
    (p : Process)
    → p.worker ≡ none
    → p.prepared_start ≡ none
    → ((prepare_start false p).0.state ≡ p.state)
      × ((cancel_prepared_start (p.next + 1) (prepare_start true p).0).0.state ≡ p.state)
      × ((cancel_prepared_start (p.next + 1) (prepare_start true p).0).1 ≡ true)
unfolding prepare_start cancel_prepared_start
prepare-cancel p h e = ground arith

-- A result that a later RPC has overtaken changes nothing, whether it is the result of a one-shot
-- call or of a renewal; that of a Remove is kept in its operation alone.
pub overtaken_result :
    (p : Process) (r : CallResult) (n : ℕ) (k : Kind) (g c : Option ℕ) (w o : ℕ) (now : Text)
    → n ≤ p.last_applied_rpc_sequence
    → (commit_result p r n k g c now ≡ p)
      × ((commit_renewal p w r n now).0 ≡ p)
      × (settle_removal p o r n now ≡ set_result p o r)
unfolding commit_result commit_renewal settle_removal
overtaken_result p r n k g c w o now h = ground arith

prepared-stop : (p : Process) (b : Bool) → (stop b p).0.prepared_start ≡ none
unfolding stop
prepared-stop p b = ground (
  arith,
  request_remove-Kept (stop_local (withdraw_prepared p)),
  stop_local-prepared (withdraw_prepared p),
  withdraw_prepared-none p,
)

prepared-begin_shutdown : (p : Process) → (begin_shutdown p).0.prepared_start ≡ none
unfolding begin_shutdown
prepared-begin_shutdown p = ground (
  arith,
  close_window-Kept (record q { state = record q.state { close_logs_when_idle = true } }),
  stop_local-prepared (withdraw_prepared p),
  withdraw_prepared-none p,
)
  where
    q : Process
    q = stop_local (withdraw_prepared p)

-- `stop` and `shutdown` withdraw the Prepared token: its activation afterwards is cancelled.
pub activate-stop :
    (p : Process) (b : Bool) (r : ℕ)
    → (activate_prepared_start r (stop b p).0 ≡ ((stop b p).0, cancelled))
      × (activate_prepared_start r (begin_shutdown p).0 ≡ ((begin_shutdown p).0, cancelled))
unfolding activate_prepared_start
activate-stop p b r = (ground (arith, prepared-stop p b), ground (arith, prepared-begin_shutdown p))

-- What a successful Remove leaves in the state; the result is redacted twice on its way.
pub record IsRemoved (p q : Process) (r : CallResult) : Type 0 where
  pub worker : q.worker ≡ none
  pub window : q.register_coordination ≡ none
  pub generation : q.generation ≡ p.generation
  pub registered : q.registered ≡ false
  pub settings : q.settings ≡ p.settings
  pub removed : q.last_successfully_removed_generation ≡ some p.generation
  pub result :
      q.last_successfully_removed_result ≡ some (safe_result p.redact (safe_result p.redact r))

accept_removal-IsRemoved :
    (p : Process) (o : ℕ) (r : CallResult) (n : ℕ) (now : Text)
    → (p.operations o).generation ≡ p.generation
    → p.worker ≡ none
    → p.register_coordination ≡ none
    → r.success ≡ true
    → IsRemoved p (accept_removal p o r n now) r
unfolding accept_removal cancel_same_pending record_result safe_result next_registered
accept_removal-IsRemoved p o r n now g w c e = ground arith

terminal_turn-IsRemoved :
    (p q : Process) (r : CallResult)
    → IsRemoved p q r
    → terminal_turn q p.generation
      ≡ (q, cached (safe_result p.redact (safe_result p.redact (safe_result p.redact r))))
unfolding terminal_turn answer_or_join
terminal_turn-IsRemoved p q r v = ground (arith, v)

reconcile_after-alone :
    (p : Process) (o : ℕ) → p.register_coordination ≡ none → reconcile_after p o ≡ p
unfolding reconcile_after reconcile_window
reconcile_after-alone p o c = ground arith

settle_removal-IsRemoved :
    (p : Process) (o : ℕ) (r : CallResult) (n : ℕ) (now : Text)
    → p.active_remove ≡ some o
    → (p.operations o).generation ≡ p.generation
    → p.worker ≡ none
    → p.register_coordination ≡ none
    → p.last_applied_rpc_sequence < n
    → r.success ≡ true
    → IsRemoved p (settle_removal p o r n now) r
unfolding settle_removal
settle_removal-IsRemoved p o r n now a g w c h e =
    ground (arith, accept_removal-IsRemoved (set_result p o r) o r n now)

pub complete_remove-IsRemoved :
    (p : Process) (o : ℕ) (r : CallResult) (n : ℕ) (now : Text)
    → p.active_remove ≡ some o
    → (p.operations o).generation ≡ p.generation
    → p.worker ≡ none
    → p.register_coordination ≡ none
    → p.last_applied_rpc_sequence < n
    → r.success ≡ true
    → IsRemoved p (complete_remove p o r n now) r
unfolding complete_remove
complete_remove-IsRemoved p o r n now a g w c h e = ground (
  arith,
  settle_removal-IsRemoved p o r n now,
  reconcile_after-alone (clear_active (settle_removal p o r n now) o) o,
)

-- A successful Remove of the current generation of a process without a Worker, which nothing
-- overtook, with no register window open, clears the registered flag and is remembered: the next
-- synchronous Remove is answered by that result, without a call.
pub removal_is_remembered :
    (p : Process) (o : ℕ) (r : CallResult) (n : ℕ) (now : Text)
    → p.active_remove ≡ some o
    → (p.operations o).generation ≡ p.generation
    → p.worker ≡ none
    → p.register_coordination ≡ none
    → p.last_applied_rpc_sequence < n
    → r.success ≡ true
    → ((complete_remove p o r n now).registered ≡ false)
      × (terminal_turn (complete_remove p o r n now) p.generation ≡ (
        complete_remove p o r n now,
        cached (safe_result p.redact (safe_result p.redact (safe_result p.redact r))),
      ))
removal_is_remembered p o r n now a g w c h e =
    let done = complete_remove-IsRemoved p o r n now a g w c h e in
    (done.registered, terminal_turn-IsRemoved p _ r done)

-- One Remove is executed at a time: of two cleanup actors that claim, whichever operations they
-- serve, the second is refused; and a claim that succeeds is for the Pending operation.
pub claim-once :
    (p : Process) (o k : ℕ)
    → (claim_remove p o).1 ≡ true
    → (p.pending_remove ≡ some o)
      × ((claim_remove p o).0.active_remove ≡ some o)
      × ((claim_remove (claim_remove p o).0 k).1 ≡ false)
unfolding claim_remove
claim-once p o k h = ground arith

-- A cleanup actor whose Thread does not start ends its operation: the operation is signalled.
pub launch-failure :
    (p : Process) (o t : ℕ) (type_name now : Text)
    → ((launch_actor (some type_name) now p o t).0.operations o).done_event ≡ true
unfolding launch_actor fail_start
launch-failure p o t type_name now = ground arith
