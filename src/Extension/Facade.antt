-- ===== src/Extension/Facade.antt =====
-- flask_xxljob/extension.py: the public methods, and the application that they act on.
use flask_xxljob.Base.{
  ℕ, ℤ, pos, negsuc, ◌==◌, Bool, true, false, not, ◌&&◌, Option, none, some, List, [], ◌∷◌,
  is_empty, Text, text, if◌then◌else◌,
}
use flask_xxljob.Model.Value.{Value, Values, int}
use flask_xxljob.Model.Coerce.{type_name}
use flask_xxljob.Callback
use flask_xxljob.Callback.{
  CallbackRegistry, Func, Key, name, Run, mapping, RegistrationError, validate_executor_handler,
  get_run,
}
use flask_xxljob.Config.Load.{XxlJobConfig}
use flask_xxljob.Registry.State.{Process, update}
use flask_xxljob.Registry.Terminal.{status_snapshot}
use flask_xxljob.Registry.Service.{
  World, Ending, register_once_result, remove_once_result, start, stop_service,
}
use flask_xxljob.Extension.Application.{
  Resolved, resolved, no_application, several_applications, resolve,
}
pub mod Laws

-- What a method raises; `service` is the end of an operation of the Registry service.
pub data FacadeError : Type 0 where
  unresolved_none unresolved_several not_initialized : FacadeError
  registration : RegistrationError → FacadeError
  not_an_integer : Text → Text → FacadeError

pub data Answer {ℓ} (A : Type ℓ) : Type ℓ where
  ok : A → Answer A
  raised : FacadeError → Answer A

infixl 20 ◌>>=◌
abbrev pub ◌>>=◌ {ℓ κ} : {A : Type ℓ} {B : Type κ} → Answer A → (A → Answer B) → Answer B
ok a >>= f = f a
raised e >>= f = raised e

abbrev pub of_resolved : Resolved → Answer ℕ
of_resolved (resolved app) = ok app
of_resolved no_application = raised unresolved_none
of_resolved several_applications = raised unresolved_several

abbrev pub of_registration {ℓ} : {A : Type ℓ} → Callback.Result A → Answer A
of_registration (Callback.Result.ok a) = ok a
of_registration (Callback.Result.raised e) = raised (registration e)

abbrev pub to_limit : ℤ → ℕ
to_limit (pos n) = n
to_limit (negsuc n) = 0

-- `_require_int`
unfoldable pub require_int : Text → Value → Answer {0} Unit
require_int label (int n) = ok tt
require_int label v = raised (not_an_integer label (type_name v))

-- the callbacks of an application
module _ (R I K L : Type 0) where
  -- The Runtime of an application: its log file is `none` when the log manager has none.
  pub record Runtime : Type 0 where
    pub config : XxlJobConfig
    pub callback_registry : CallbackRegistry R I K L
    pub registry_service : Process
    pub log_file : Option Text

  -- The extension: the applications that it tracks, the callbacks that wait for an application, the
  -- application of the context, and the Runtime of each application.
  pub record Extension : Type 0 where
    pub applications : List ℕ
    pub deferred_callbacks : CallbackRegistry R I K L
    pub context : Option ℕ
    pub runtimes : ℕ → Option Runtime

-- A registry of callbacks: that of the extension, or that of an application.
pub data Target : Type 0 where
  deferred : Target
  registry_of : ℕ → Target

module _ {R I K L : Type 0} where
  -- `_resolve_app`
  unfoldable pub resolve_app : Extension R I K L → Option ℕ → Answer ℕ
  resolve_app e (some app) = ok app
  resolve_app e none = elim e.context [
    | none ↦ of_resolved (resolve e.applications none)
    | some app ↦ ok app
  ]

  abbrev pub installed : Option (Runtime R I K L) → Answer (Runtime R I K L)
  installed none = raised not_initialized
  installed (some r) = ok r

  -- `_get_runtime`: the application and its Runtime
  unfoldable pub get_runtime : Extension R I K L → Option ℕ → Answer (ℕ × Runtime R I K L)
  get_runtime e app = do
    target ← resolve_app e app
    runtime ← installed (e.runtimes target)
    ok (target, runtime)

  abbrev pub target_of : Extension R I K L → Option ℕ → Answer Target
  target_of e app = do found ← get_runtime e app; ok (registry_of found.0)

  -- `_target_registry`
  unfoldable pub target_registry : Extension R I K L → Answer Target
  target_registry e = elim e.context [
    | some app ↦ target_of e none
    | none ↦ if is_empty e.applications then ok deferred else tracked
  ]
    where
      tracked : Answer Target
      tracked = do app ← of_resolved (resolve e.applications none); target_of e (some app)

  -- `_registry_for`
  unfoldable pub registry_for : Extension R I K L → Option ℕ → Answer Target
  registry_for e (some app) = target_of e (some app)
  registry_for e none = target_registry e

  -- the registry of a target, and its replacement
  abbrev pub empty : CallbackRegistry R I K L
  empty = Callback.empty_registry

  abbrev pub registry_in : Option (Runtime R I K L) → CallbackRegistry R I K L
  registry_in none = empty
  registry_in (some r) = r.callback_registry

  unfoldable pub read_target : Extension R I K L → Target → CallbackRegistry R I K L
  read_target e deferred = e.deferred_callbacks
  read_target e (registry_of app) = registry_in (e.runtimes app)

  abbrev pub with_registry :
      CallbackRegistry R I K L → Option (Runtime R I K L) → Option (Runtime R I K L)
  with_registry c none = none
  with_registry c (some r) = some (record r { callback_registry = c })

  unfoldable pub write_target :
      Extension R I K L → Target → CallbackRegistry R I K L → Extension R I K L
  write_target e deferred c = record e { deferred_callbacks = c }
  write_target e (registry_of app) c = record e {
    runtimes = update e.runtimes app (with_registry c (e.runtimes app));
  }

  -- `register_callbacks`
  unfoldable pub register_on :
      Extension R I K L
      → Answer Target
      → Option (Run R)
      → Option (Func I)
      → Option (Func K)
      → Option (Func L)
      → Bool
      → Answer (Extension R I K L)
  register_on e target run idle_beat kill log replace = do
    t ← target
    c ←
        of_registration
          (Callback.register_callbacks (read_target e t) run idle_beat kill log replace)
    ok (write_target e t c)

  unfoldable pub register_callbacks :
      Extension R I K L
      → Option ℕ
      → Option (Run R)
      → Option (Func I)
      → Option (Func K)
      → Option (Func L)
      → Bool
      → Answer (Extension R I K L)
  unfolding register_on
  register_callbacks e app run idle_beat kill log replace =
      register_on e (registry_for e app) run idle_beat kill log replace

  -- `set_run_callback`, `set_idle_beat_callback`, `set_kill_callback`, `set_log_callback`
  abbrev pub set_run_callback :
      Extension R I K L → Option ℕ → Key → Func R → Bool → Answer (Extension R I K L)
  set_run_callback e app key func replace =
      register_callbacks e app (some (mapping ((key, func) ∷ []))) none none none replace

  abbrev pub set_idle_beat_callback :
      Extension R I K L → Option ℕ → Func I → Bool → Answer (Extension R I K L)
  set_idle_beat_callback e app func replace =
      register_callbacks e app none (some func) none none replace

  abbrev pub set_kill_callback :
      Extension R I K L → Option ℕ → Func K → Bool → Answer (Extension R I K L)
  set_kill_callback e app func replace = register_callbacks e app none none (some func) none replace

  abbrev pub set_log_callback :
      Extension R I K L → Option ℕ → Func L → Bool → Answer (Extension R I K L)
  set_log_callback e app func replace = register_callbacks e app none none none (some func) replace

  -- `on_run(name)(func)`, `on_idle_beat`, `on_kill`, `on_log`
  unfoldable pub on_run : Extension R I K L → Key → Func R → Answer (Extension R I K L)
  unfolding register_on
  on_run e key func = do
    s ← of_registration (validate_executor_handler key)
    register_on e (target_registry e) (some (mapping ((name s, func) ∷ []))) none none none false

  abbrev pub on_idle_beat : Extension R I K L → Func I → Answer (Extension R I K L)
  on_idle_beat e func = register_on e (target_registry e) none (some func) none none false

  abbrev pub on_kill : Extension R I K L → Func K → Answer (Extension R I K L)
  on_kill e func = register_on e (target_registry e) none none (some func) none false

  abbrev pub on_log : Extension R I K L → Func L → Answer (Extension R I K L)
  on_log e func = register_on e (target_registry e) none none none (some func) false

  -- `get_run_callback`, `get_idle_beat_callback`, `get_kill_callback`, `get_log_callback`
  unfoldable pub get_run_callback : Extension R I K L → Option ℕ → Key → Answer (Option R)
  get_run_callback e app key = do
    s ← of_registration (validate_executor_handler key)
    t ← registry_for e app
    ok (get_run (read_target e t) s)

  abbrev pub get_callback {ℓ} :
      {A : Type ℓ} → (CallbackRegistry R I K L → A) → Extension R I K L → Option ℕ → Answer A
  get_callback field e app = do t ← registry_for e app; ok (field (read_target e t))

  abbrev pub get_idle_beat_callback : Extension R I K L → Option ℕ → Answer (Option I)
  get_idle_beat_callback = get_callback (λ c. c.idle_beat)

  abbrev pub get_kill_callback : Extension R I K L → Option ℕ → Answer (Option K)
  get_kill_callback = get_callback (λ c. c.kill)

  abbrev pub get_log_callback : Extension R I K L → Option ℕ → Answer (Option L)
  get_log_callback = get_callback (λ c. c.log)
