-- ===== src/Extension/Facade/Laws.antt =====
-- flask_xxljob/extension.py: which registry a registration reaches.
use mathlib.Core.Path.{subst}
use flask_xxljob.Base.{
  ℕ, ◌==◌, ==_refl, Bool, true, false, ◌≡◌, ◌∙◌, refl, text_eq_refl, Option, none, some, is_empty,
  [], ◌∷◌, Text, arith, Option-cases, inl, inr,
}
use flask_xxljob.Base.Dict
use flask_xxljob.Callback
use flask_xxljob.Callback.{
  CallbackRegistry, Func, callable, Key, name, Run, mapping, validate_executor_handler, get_run,
  seed_from, or_else,
}
use flask_xxljob.Callback.Items.{requested_run, requested_func}
use flask_xxljob.Callback.Laws.{register_callbacks-get, seed_from-get}
use flask_xxljob.Extension.Facade.{
  Answer, ok, raised, ◌>>=◌, of_registration, Extension, Runtime, Target, deferred, registry_of,
  get_runtime, registry_for, resolve_app, not_initialized, read_target, write_target,
  target_registry, on_run, register_on, register_callbacks,
}

-- inversion of a bind
pub bind-ok {ℓ κ} :
    {A : Type ℓ} {B : Type κ} (m : Answer A) (f : A → Answer B) (b : B)
    → (m >>= f) ≡ ok b
    → (a : A) × (m ≡ ok a) × (f a ≡ ok b)
bind-ok (ok a) f b h = (a, refl, h)
bind-ok (raised e) f b h = ground arith

of_registration-ok :
    {A : Type 0} (m : Callback.Result A) (a : A)
    → of_registration m ≡ ok a
    → m ≡ Callback.Result.ok a
of_registration-ok (Callback.Result.ok b) a h = ground arith
of_registration-ok (Callback.Result.raised e) a h = ground arith

validate-same : (s t : Text) → validate_executor_handler (name s) ≡ Callback.Result.ok t → t ≡ s
unfolding validate_executor_handler
validate-same s t h = ground arith

module _ {R I K L : Type 0} where
  registry_for-installed :
      (e : Extension R I K L) (app : ℕ) (r : Runtime R I K L)
      → e.runtimes app ≡ some r
      → registry_for e (some app) ≡ ok (registry_of app)
  unfolding registry_for get_runtime resolve_app
  registry_for-installed e app r h = rw h refl

  registry_for-missing :
      (e : Extension R I K L) (app : ℕ)
      → e.runtimes app ≡ none
      → registry_for e (some app) ≡ raised not_initialized
  unfolding registry_for get_runtime resolve_app
  registry_for-missing e app h = rw h refl

  read_target-write_target :
      (e : Extension R I K L) (app : ℕ) (r : Runtime R I K L) (c : CallbackRegistry R I K L)
      → e.runtimes app ≡ some r
      → read_target (write_target e (registry_of app) c) (registry_of app) ≡ c
  unfolding read_target write_target
  read_target-write_target e app r c h = rw (==_refl app, h) refl

  write_target-other :
      (e : Extension R I K L) (app other : ℕ) (c : CallbackRegistry R I K L)
      → (app == other) ≡ false
      → ((write_target e (registry_of app) c).runtimes other ≡ e.runtimes other)
        × ((write_target e (registry_of app) c).deferred_callbacks ≡ e.deferred_callbacks)
  unfolding write_target
  write_target-other e app other c h = (rw h refl, refl)

  -- the registry that is written, for a known target
  register_on-ok :
      (e d : Extension R I K L) (t : Target) (run : Option (Run R)) (idle_beat : Option (Func I))
      (kill : Option (Func K)) (log : Option (Func L)) (replace : Bool)
      → register_on e (ok t) run idle_beat kill log replace ≡ ok d
      → (c : CallbackRegistry R I K L) × (Callback.register_callbacks
            (read_target e t)
            run
            idle_beat
            kill
            log
            replace
          ≡ Callback.Result.ok c)
        × (d ≡ write_target e t c)
  unfolding register_on
  register_on-ok e d t run idle_beat kill log replace h =
      let (c, made, same) =
        bind-ok
          (of_registration
            (Callback.register_callbacks (read_target e t) run idle_beat kill log replace))
          _ d h in
      (c, of_registration-ok _ c made, ground arith)

  accepted :
      (e d : Extension R I K L) (app : ℕ) (run : Option (Run R)) (idle_beat : Option (Func I))
      (kill : Option (Func K)) (log : Option (Func L)) (replace : Bool)
      → register_callbacks e (some app) run idle_beat kill log replace ≡ ok d
      → (r : Runtime R I K L) × (e.runtimes app ≡ some r)
        × (register_on e (ok (registry_of app)) run idle_beat kill log replace ≡ ok d)
  unfolding register_callbacks register_on
  accepted e d app run idle_beat kill log replace h = elim (Option-cases (e.runtimes app)) [
    | inl absent ↦ ground (arith, subst Goes (registry_for-missing e app absent) h)
    | inr (r, here) ↦ (r, here, subst Goes (registry_for-installed e app r here) h)
  ]
    where
      Goes : Answer Target → Type 0
      Goes t = register_on e t run idle_beat kill log replace ≡ ok d

  -- A registration for one application that is accepted gives the application the callbacks of the
  -- batch: each JobHandler name has the callback of its item, and its former one if the batch has
  -- none; idleBeat, kill and log likewise. Neither another application nor the callbacks that wait
  -- for an application change.
  pub register_callbacks-reaches :
      (e d : Extension R I K L) (app other : ℕ) (run : Option (Run R)) (idle_beat : Option (Func I))
      (kill : Option (Func K)) (log : Option (Func L)) (replace : Bool)
      → (app == other) ≡ false
      → register_callbacks e (some app) run idle_beat kill log replace ≡ ok d
      → ((s : Text)
          → get_run (read_target d (registry_of app)) s
            ≡ or_else (requested_run run s) (get_run (read_target e (registry_of app)) s))
        × ((read_target d (registry_of app)).idle_beat
            ≡ or_else (requested_func idle_beat) (read_target e (registry_of app)).idle_beat)
        × ((read_target d (registry_of app)).kill
            ≡ or_else (requested_func kill) (read_target e (registry_of app)).kill)
        × ((read_target d (registry_of app)).log
            ≡ or_else (requested_func log) (read_target e (registry_of app)).log)
        × (d.runtimes other ≡ e.runtimes other)
        × (d.deferred_callbacks ≡ e.deferred_callbacks)
  unfolding register_callbacks
  register_callbacks-reaches e d app other run idle_beat kill log replace differs h =
      let (r, here, known) = accepted e d app run idle_beat kill log replace h in
      let (c, made, same) =
        register_on-ok e d (registry_of app) run idle_beat kill log replace known in
      let (runs, idles, kills, logs) =
        register_callbacks-get (read_target e (registry_of app)) c run idle_beat kill log replace
          made in
      let (kept, waiting) = write_target-other e app other c differs in
      let now = read_target-write_target e app r c here in
      (
        λ s. rw (same, now) (runs s),
        rw (same, now) idles,
        rw (same, now) kills,
        rw (same, now) logs,
        rw same kept,
        rw same waiting,
      )

  target_registry-deferred :
      (e : Extension R I K L)
      → e.context ≡ none
      → is_empty e.applications ≡ true
      → target_registry e ≡ ok deferred
  unfolding target_registry
  target_registry-deferred e h k = rw (h, k) refl

  -- the extension's own registry after a registration of one name
  deferred-get_run :
      (e d : Extension R I K L) (s : Text) (f : R) (c : CallbackRegistry R I K L)
      → Callback.register_callbacks
          (read_target e deferred)
          (some (mapping ((name s, callable f) ∷ [])))
          none
          none
          none
          false
        ≡ Callback.Result.ok c
      → d ≡ write_target e deferred c
      → get_run d.deferred_callbacks s ≡ some f
  unfolding write_target
  deferred-get_run e d s f c made same =
      let effect =
        (register_callbacks-get (read_target e deferred) c
            (some (mapping ((name s, callable f) ∷ []))) none none none false made).0
          s in
      rw (same, effect, text_eq_refl s) refl

  seed_from-empty :
      (other : CallbackRegistry R I K L) (s : Text)
      → get_run (seed_from Callback.empty_registry other) s ≡ get_run other s
  unfolding get_run Dict.get
  seed_from-empty other s = (seed_from-get Callback.empty_registry other s).0

  -- A callback that `on_run` accepts while no application is initialized and there is no context
  -- is the one of its JobHandler in each application that is initialized afterwards.
  pub on_run-seeds :
      (e d : Extension R I K L) (s : Text) (f : R)
      → e.context ≡ none
      → is_empty e.applications ≡ true
      → on_run e (name s) (callable f) ≡ ok d
      → get_run (seed_from Callback.empty_registry d.deferred_callbacks) s ≡ some f
  unfolding on_run
  on_run-seeds e d s f outside untracked h =
      let (t, named, on) = bind-ok (of_registration (validate_executor_handler (name s))) _ d h in
      let same_name = validate-same s t (of_registration-ok _ t named) in
      let written =
        subst (λ u. register_on e (target_registry e) (run_of u) none none none false ≡ ok d)
          same_name on in
      let known =
        subst (λ target. register_on e target (run_of s) none none none false ≡ ok d)
          (target_registry-deferred e outside untracked) written in
      let (c, made, same) = register_on-ok e d deferred (run_of s) none none none false known in
      seed_from-empty d.deferred_callbacks s ∙ deferred-get_run e d s f c made same
    where
      run_of : Text → Option (Run R)
      run_of t = some (mapping ((name t, callable f) ∷ []))
