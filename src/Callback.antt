-- ===== src/Callback.antt =====
-- flask_xxljob/callback/registry.py: `CallbackRegistry`. A callable is a function of its request;
-- `run` of `register_callbacks` is a mapping, in its order, of any objects.
use flask_xxljob.Base.{
  text, ℕ, Bool, true, false, not, ◌&&◌, Option, none, some, is_some, is_empty, List, [], ◌∷◌, Text,
  text_eq, strip, if◌then◌else◌,
}
use flask_xxljob.Base.Dict
use flask_xxljob.Base.Dict.{Dict, text_key}
pub mod Items
pub mod Laws
mod Tests

-- An argument in the place of a callback: callable, or some other object.
pub data Func (F : Type 0) : Type 0 where
  callable : F → Func F
  not_callable : Func F

-- A key in the place of an `executor_handler`.
pub data Key : Type 0 where
  name : Text → Key
  not_a_string : Key

-- The argument `run`.
pub data Run (F : Type 0) : Type 0 where
  mapping : List (Key × Func F) → Run F
  not_a_mapping : Run F

-- The XXLJobCallbackRegistrationErrors.
pub data RegistrationError : Type 0 where
  invalid_handler run_not_a_mapping : RegistrationError
  not_a_callable already_registered : Text → RegistrationError

pub data Result {ℓ} (A : Type ℓ) : Type ℓ where
  ok : A → Result A
  raised : RegistrationError → Result A

abbrev pub and_then {ℓ κ} : {A : Type ℓ} {B : Type κ} → Result A → (A → Result B) → Result B
and_then (Result.ok a) f = f a
and_then (Result.raised e) f = Result.raised e

-- `validate_executor_handler`
unfoldable pub validate_executor_handler : Key → Result Text
validate_executor_handler not_a_string = Result.raised invalid_handler
validate_executor_handler (name s) =
    if is_empty s
    then Result.raised invalid_handler
    else if text_eq (strip s) s
    then Result.ok s
    else Result.raised invalid_handler

-- `_validate_callback`
unfoldable pub validate_callback : {F : Type 0} → Text → Func F → Result F
validate_callback label (callable f) = Result.ok f
validate_callback label not_callable = Result.raised (not_a_callable label)

-- `_validate_single`, and the value of its field afterwards
unfoldable pub validate_single :
    {F : Type 0} → Text → Option (Func F) → Option F → Bool → Result (Option F)
unfolding validate_callback
validate_single label none existing replace = Result.ok existing
validate_single label (some func) existing replace = and_then (validate_callback label func) (λ f.
    if is_some existing && not replace
    then Result.raised (already_registered label)
    else Result.ok (some f))

pub record CallbackRegistry (R I K L : Type 0) : Type 0 where
  pub run : Dict Text R
  pub idle_beat : Option I
  pub kill : Option K
  pub log : Option L

-- `a if a is not None else b`
abbrev pub or_else {ℓ} : {A : Type ℓ} → Option A → Option A → Option A
or_else none b = b
or_else (some a) b = some a

module _ {R : Type 0} where
  -- One turn of the loop of `register_callbacks`.
  unfoldable pub register_run_item : Dict Text R → Key → Func R → Bool → Result (Dict Text R)
  unfolding validate_executor_handler validate_callback
  register_run_item run key func replace = and_then (validate_executor_handler key) (λ s.
      and_then (validate_callback s func) (λ f.
        if Dict.has run s && not replace
        then Result.raised (already_registered s)
        else Result.ok (Dict.put run s f)))

  unfoldable pub register_run : Dict Text R → List (Key × Func R) → Bool → Result (Dict Text R)
  register_run run [] replace = Result.ok run
  register_run run ((key, func) ∷ items) replace =
      and_then (register_run_item run key func replace) (λ r. register_run r items replace)

  abbrev pub register_optional_run : Dict Text R → Option (Run R) → Bool → Result (Dict Text R)
  register_optional_run run none replace = Result.ok run
  register_optional_run run (some not_a_mapping) replace = Result.raised run_not_a_mapping
  register_optional_run run (some (mapping items)) replace = register_run run items replace

  -- `setdefault`
  abbrev pub set_default : Dict Text R → Text → R → Dict Text R
  set_default run s f = if Dict.has run s then run else Dict.put run s f

  abbrev pub seed_run : Dict Text R → Dict Text R → Dict Text R
  seed_run run [] = run
  seed_run run ((s, f) ∷ d) = seed_run (set_default run s f) d

module _ {R I K L : Type 0} where
  -- `__init__`
  abbrev pub empty_registry : CallbackRegistry R I K L
  empty_registry = record { run = []; idle_beat = none; kill = none; log = none }

  -- `register_callbacks`: the registry afterwards, or the exception
  unfoldable pub register_callbacks :
      CallbackRegistry R I K L
      → Option (Run R)
      → Option (Func I)
      → Option (Func K)
      → Option (Func L)
      → Bool
      → Result (CallbackRegistry R I K L)
  register_callbacks r run idle_beat kill log replace =
      and_then (register_optional_run r.run run replace) (λ new_run.
        and_then (validate_single (text "idleBeat") idle_beat r.idle_beat replace) (λ new_idle_beat.
          and_then (validate_single (text "kill") kill r.kill replace) (λ new_kill.
            and_then (validate_single (text "log") log r.log replace) (λ new_log.
              Result.ok (record {
                run = new_run;
                idle_beat = new_idle_beat;
                kill = new_kill;
                log = new_log;
              })))))

  -- `seed_from`
  unfoldable pub seed_from :
      CallbackRegistry R I K L → CallbackRegistry R I K L → CallbackRegistry R I K L
  seed_from r other = record {
    run = seed_run r.run other.run;
    idle_beat = or_else r.idle_beat other.idle_beat;
    kill = or_else r.kill other.kill;
    log = or_else r.log other.log;
  }

  -- `get_run`, `has_run_callbacks`
  unfoldable pub get_run : CallbackRegistry R I K L → Text → Option R
  get_run r executor_handler = Dict.get r.run executor_handler

  unfoldable pub has_run_callbacks : CallbackRegistry R I K L → Bool
  has_run_callbacks r = not (is_empty r.run)
