-- ===== src/Registry/Steps.antt =====
-- registry_service.py: the runs of a process. The threads of a process meet in critical sections
-- only, so a run is any sequence of these.
use flask_xxljob.Base.{ℕ, ◌≤◌, Bool, true, Option, none, some, Text, ◌≡◌}
use flask_xxljob.Client.Result.{CallResult}
use flask_xxljob.Registry.State.{Heap, Settings, Process, new_process_state}
use flask_xxljob.Registry.Outcome.{local, register, remove, record_result}
use flask_xxljob.Registry.Register.{join_register, commit_one_shot}
use flask_xxljob.Registry.Lifecycle.{
  prepare_start, activate_prepared_start, cancel_prepared_start, settle_prepared, next_sequence,
  begin_renewal, commit_renewal, is_committed_worker, finish_worker,
}
use flask_xxljob.Registry.Remove.{
  stop, schedule_pending_remove, claim_remove, leave_actor, complete_remove,
}
use flask_xxljob.Registry.Terminal.{
  terminal_turn, begin_shutdown, request_exit_remove, maybe_close_logs,
}
pub mod Safety
pub mod Liveness

-- `_get_process_state` in a process that has no state yet: at first, and after a fork.
abbrev pub new_process : Settings → Heap → ℕ → Process
new_process s h pid = record { state = new_process_state pid; heap = h; settings = s }

-- One critical section. A result that is committed has a sequence number that was given out; a
-- worker finishes after it was committed; an operation is completed by the thread that executes it.
pub data Step (p : Process) : Process → Type 0 where
  joins : Step p (join_register p).0
  calls : Step p (next_sequence p).0
  commits_register :
      (r : CallResult) (n : ℕ) (g c : Option ℕ) (now : Text)
      → n ≤ p.rpc_sequence
      → Step p (commit_one_shot p r n register g c now).0
  commits_remove :
      (r : CallResult) (n : ℕ) (now : Text)
      → n ≤ p.rpc_sequence
      → Step p (commit_one_shot p r n remove none none now).0
  records_local : (r : CallResult) (now : Text) → Step p (record_result p r local now)
  prepares : (started : Bool) → Step p (prepare_start started p).0
  activates : (r : ℕ) → Step p (activate_prepared_start r p).0
  cancels : (r : ℕ) → Step p (cancel_prepared_start r p).0
  settles : (retried : Bool) (r : ℕ) → Step p (settle_prepared retried r p)
  begins_renewal : (c : ℕ) → Step p (begin_renewal p c).0
  commits_renewal :
      (c : ℕ) (r : CallResult) (n : ℕ) (now : Text)
      → n ≤ p.rpc_sequence
      → Step p (commit_renewal p c r n now).0
  finishes : (c : ℕ) → is_committed_worker p c ≡ true → Step p (finish_worker p c).0
  stops : (with_remove : Bool) → Step p (stop with_remove p).0
  schedules :
      (alive : ℕ → Bool) (outcome : Option Text) (now : Text)
      → Step p (schedule_pending_remove alive outcome now p).0
  claims : (o : ℕ) → Step p (claim_remove p o).0
  leaves : (o t : ℕ) → Step p (leave_actor p o t)
  completes :
      (o : ℕ) (r : CallResult) (n : ℕ) (now : Text)
      → n ≤ p.rpc_sequence
      → p.active_remove ≡ some o
      → Step p (complete_remove p o r n now)
  takes_turn : (g : ℕ) → Step p (terminal_turn p g).0
  begins_shutdown : Step p (begin_shutdown p).0
  requests_exit :
      (g : ℕ) → (p.generation ≡ g → p.worker ≡ none) → Step p (request_exit_remove p g).0
  closes_logs : Step p (maybe_close_logs p).0

-- What a process may become from `p` on.
pub data Steps (p : Process) : Process → Type 0 where
  stay : Steps p p
  then_step : {q r : Process} → Steps p q → Step q r → Steps p r

-- The states of a process of the service.
abbrev pub Reach : Process → Type 0
Reach p = (s : Settings) × (h : Heap) × (pid : ℕ) × Steps (new_process s h pid) p
