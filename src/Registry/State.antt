-- ===== src/Registry/State.antt =====
-- registry_service.py: the objects of the service. An object with identity (`eq=False`) lives in
-- the heap under a number, and `x is y` compares numbers. A Thread is its number alone; an Event
-- is a Boolean of its owner.
use flask_xxljob.Base.{
  ℕ, Bool, false, Option, none, List, [], ◌∷◌, ◌==◌, holds, ◌&&◌, Text, if◌then◌else◌,
}
use flask_xxljob.Base.Dict.{Dict}
use flask_xxljob.Client.Result.{CallResult, ErrorType}

-- `_RegistryWorkerContext`; `wait_remove_event` is the operation whose `done_event` it is.
pub record Context : Type 0 where
  pub generation : ℕ
  pub stop_event : Bool
  pub thread : Option ℕ
  pub wait_remove_event : Option ℕ
  pub prepared_owner : Option ℕ

-- `_PreparedRegistryStart`
pub record Prepared : Type 0 where
  pub context : ℕ
  pub activate_event : Bool
  pub thread : ℕ

-- `_RemoveOperation`
pub record Operation : Type 0 where
  pub generation : ℕ
  pub done_event : Bool
  pub thread : Option ℕ
  pub result : Option CallResult

-- `_RegisterCoordination`
pub record Coordination : Type 0 where
  pub generation : ℕ
  pub inflight_count : ℕ
  pub done_event : Bool
  pub cleanup_requested : Bool

-- The fields of `_RegistryProcessState` that the last accepted result sets.
pub record Snapshot : Type 0 where
  pub registered : Bool
  pub last_result : Option CallResult
  pub last_error : Option CallResult
  pub last_registry_time : Option Text
  pub last_registry_success : Option Bool
  pub last_registry_admin_address : Option Text
  pub last_registry_error_type : Option ErrorType
  pub last_registry_message : Option Text

-- `_RegistryProcessState`: references are numbers of the heap. The two locks have no field: a
-- function below is one critical section.
pub record State : Type 0 where
  pub pid : ℕ
  pub generation : ℕ
  pub last_remove_requested_generation : Option ℕ
  pub last_successfully_removed_generation : Option ℕ
  pub last_successfully_removed_result : Option CallResult
  pub register_coordination : Option ℕ
  pub prepared_start : Option ℕ
  pub worker : Option ℕ
  pub stopping_workers : Dict ℕ ℕ
  pub pending_remove : Option ℕ
  pub active_remove : Option ℕ
  pub snapshot : Snapshot
  pub open snapshot use *
  pub rpc_sequence : ℕ
  pub last_applied_rpc_sequence : ℕ
  pub cleanup_actors : List ℕ
  pub close_logs_when_idle : Bool
  pub logs_closed : Bool

-- `_new_process_state`
abbrev pub new_process_state : ℕ → State
new_process_state pid = record {
  pid = pid;
  generation = 0;
  last_remove_requested_generation = none;
  last_successfully_removed_generation = none;
  last_successfully_removed_result = none;
  register_coordination = none;
  prepared_start = none;
  worker = none;
  stopping_workers = [];
  pending_remove = none;
  active_remove = none;
  snapshot = record {
    registered = false;
    last_result = none;
    last_error = none;
    last_registry_time = none;
    last_registry_success = none;
    last_registry_admin_address = none;
    last_registry_error_type = none;
    last_registry_message = none;
  };
  rpc_sequence = 0;
  last_applied_rpc_sequence = 0;
  cleanup_actors = [];
  close_logs_when_idle = false;
  logs_closed = false;
}

-- The objects made so far have numbers below `next`.
pub record Heap : Type 0 where
  pub next : ℕ
  pub contexts : ℕ → Context
  pub prepareds : ℕ → Prepared
  pub operations : ℕ → Operation
  pub coordinations : ℕ → Coordination

-- What the service reads of its configuration: `redact` is `redact_text(·, access_token)`, and
-- `valid` says that `validate_registry()` raises nothing.
pub record Settings : Type 0 where
  pub enabled : Bool
  pub valid : Bool
  pub deregister_on_exit : Bool
  pub redact : Text → Text

pub record Process : Type 0 where
  pub state : State
  pub open state use *
  pub heap : Heap
  pub open heap use *
  pub settings : Settings
  pub open settings use *

abbrev pub update {ℓ} : {A : Type ℓ} → (ℕ → A) → ℕ → A → ℕ → A
update f i a j = if i == j then a else f j

-- `cleanup_actors.add`, `cleanup_actors.discard`
unfoldable pub add : ℕ → List ℕ → List ℕ
add t [] = t ∷ []
add t (x ∷ xs) = if x == t then x ∷ xs else x ∷ add t xs

unfoldable pub discard : ℕ → List ℕ → List ℕ
discard t [] = []
discard t (x ∷ xs) = let rest = discard t xs in if x == t then rest else x ∷ rest

-- Writes of one part of a process.
module _ (p : Process) where
  abbrev pub with_context : ℕ → Context → Process
  with_context c x = record p { heap = record p.heap { contexts = update p.contexts c x } }

  abbrev pub with_prepared : ℕ → Prepared → Process
  with_prepared r x = record p { heap = record p.heap { prepareds = update p.prepareds r x } }

  abbrev pub with_operation : ℕ → Operation → Process
  with_operation o x = record p { heap = record p.heap { operations = update p.operations o x } }

  abbrev pub with_coordination : ℕ → Coordination → Process
  with_coordination c x = record p {
    heap = record p.heap { coordinations = update p.coordinations c x };
  }

-- `_is_current_worker`
abbrev pub is_current_worker : Process → ℕ → Bool
is_current_worker p c = holds p.worker c && p.generation == (p.contexts c).generation
