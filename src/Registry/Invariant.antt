-- ===== src/Registry/Invariant.antt =====
-- What holds of a process between any two critical sections of registry_service.py.
use flask_xxljob.Base.{ℕ, ◌+◌, ◌≤◌, ◌<◌, ◌≡◌, ◌≢◌, Bool, true, false, Option, none, some}
use flask_xxljob.Base.Dict
use flask_xxljob.Base.Dict.{nat_eq}
use flask_xxljob.Registry.State.{Process}
pub mod Frame
pub mod Small
pub mod Registers
pub mod Workers
pub mod Removes
pub mod Requests
pub mod Completion

abbrev pub OnSome {ℓ κ} : {A : Type ℓ} → (A → Type κ) → Option A → Type κ
OnSome P none = Unit
OnSome P (some a) = P a

-- The Worker is of the current generation, so `_is_current_worker` holds of it.
abbrev pub IsWorker : Process → ℕ → Type 0
IsWorker p c = (c < p.next) × ((p.contexts c).generation ≡ p.generation)

-- A Prepared token owns its context, which is of the generation to come, and there is no Worker.
abbrev pub IsCandidate : Process → ℕ → Type 0
IsCandidate p r =
    (r < p.next)
    × (p.worker ≡ none)
    × ((p.prepareds r).context < p.next)
    × ((p.contexts (p.prepareds r).context).prepared_owner ≡ some r)
    × ((p.contexts (p.prepareds r).context).generation ≡ p.generation + 1)

abbrev pub IsStopping : Process → ℕ → ℕ → Type 0
IsStopping p g c =
    (c < p.next)
    × ((p.contexts c).generation ≡ g)
    × (g ≤ p.generation)
    × ((p.contexts c).stop_event ≡ true)

abbrev pub IsPending : Process → ℕ → Type 0
IsPending p o =
    (o < p.next)
    × ((p.operations o).generation ≡ p.generation)
    × ((p.operations o).done_event ≡ false)
    × (p.active_remove ≢ some o)

abbrev pub IsActive : Process → ℕ → Type 0
IsActive p o =
    (o < p.next)
    × ((p.operations o).generation ≤ p.generation)
    × ((p.operations o).done_event ≡ false)

abbrev pub IsWindow : Process → ℕ → Type 0
IsWindow p c = (c < p.next) × ((p.coordinations c).generation ≡ p.generation)

-- While a Worker lives, nothing has been asked or done to remove its generation.
abbrev pub NotRemoved : Process → ℕ → Type 0
NotRemoved p c =
    (p.pending_remove ≡ none)
    × (p.last_successfully_removed_generation ≢ some p.generation)
    × (p.last_remove_requested_generation ≢ some p.generation)
    × OnSome (λ k. (p.coordinations k).cleanup_requested ≡ false) p.register_coordination

pub record Core (p : Process) : Type 0 where
  pub applied : p.last_applied_rpc_sequence ≤ p.rpc_sequence
  pub worker : OnSome (IsWorker p) p.worker
  pub candidate : OnSome (IsCandidate p) p.prepared_start
  pub pending : OnSome (IsPending p) p.pending_remove
  pub active : OnSome (IsActive p) p.active_remove
  pub window : OnSome (IsWindow p) p.register_coordination
  pub removed : OnSome (λ g. g ≤ p.generation) p.last_successfully_removed_generation
  pub requested : OnSome (λ g. g ≤ p.generation) p.last_remove_requested_generation
  pub live : OnSome (NotRemoved p) p.worker

pub record Inv (p : Process) : Type 0 where
  pub core : Core p
  pub open core use *
  pub stopping : (g : ℕ) → OnSome (IsStopping p g) (Dict.get p.stopping_workers g)
