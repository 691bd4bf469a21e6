-- ===== src/Extension/Seeding.antt =====
-- flask_xxljob/extension.py: the callbacks that wait for an application reach the next one.
use flask_xxljob.Base.{
  ℕ, Bool, true, false, ◌&&◌, ◌≡◌, refl, none, some, is_empty, Text, if◌then◌else◌, Bool-cases, inl,
  inr,
}
use mathlib.Core.Path.{subst}
use flask_xxljob.Callback.{callable, name, get_run}
use flask_xxljob.Config.Address.{Platform}
use flask_xxljob.Config.Load.{XxlJobConfig}
use flask_xxljob.Registry.State.{Process}
use flask_xxljob.Registry.Lifecycle.{Prepare, nothing, prepared, start_failed, prepare_start}
use flask_xxljob.Extension.{Callbacks, Site, Resources}
use flask_xxljob.Extension.Rollback.{begin}
use flask_xxljob.Extension.Init.{
  Around, Preflight, refuse, ready, preflight, prepare, new_service, seeded, keep_prepared,
  install_finalizer, runtime_resources,
}
use flask_xxljob.Extension.Init.Commit.{
  Commit, commit, InitOutcome, initialized, conclude, after_prepare, after_preflight, init_app,
}
use flask_xxljob.Extension.Facade.{Extension, ok, on_run}
use flask_xxljob.Extension.Facade.Laws.{on_run-seeds}

-- a preparation that did not raise has seeded the callbacks
abbrev IsSeeded : Callbacks → Resources × Bool → Type 0
IsSeeded d (r, true) = Unit
IsSeeded d (r, false) = r.callback_registry ≡ some (seeded d)

-- so has a call that returned
abbrev HasSeeded : Callbacks → InitOutcome → Type 0
HasSeeded d (initialized r) = r.callback_registry ≡ some (seeded d)
HasSeeded d o = Unit

module _ (w : Around) (d : Callbacks) where
  install_finalizer-IsSeeded :
      (r : Resources) → r.callback_registry ≡ some (seeded d) → IsSeeded d (install_finalizer w r)
  install_finalizer-IsSeeded r h = elim (Bool-cases w.finalizer_raises) [
    | inl e ↦ rw e tt
    | inr e ↦ rw e h
  ]

  keep_prepared-IsSeeded :
      (r : Resources) (o : Process × Prepare)
      → r.callback_registry ≡ some (seeded d)
      → IsSeeded d (keep_prepared w r o)
  keep_prepared-IsSeeded r (p, nothing) h =
      install_finalizer-IsSeeded (record r { registry_service = some p }) h
  keep_prepared-IsSeeded r (p, prepared t) h =
      install_finalizer-IsSeeded (record r { registry_service = some p; prepared = some t }) h
  keep_prepared-IsSeeded r (p, start_failed) h = tt

  if-IsSeeded :
      (b : Bool) (x y : Resources × Bool)
      → IsSeeded d x
      → IsSeeded d y
      → IsSeeded d (if b then x else y)
  if-IsSeeded true x y h k = h
  if-IsSeeded false x y h k = k

  prepare-IsSeeded : (p : Platform) (c : XxlJobConfig) → IsSeeded d (prepare p w d c)
  unfolding prepare
  prepare-IsSeeded p c = if-IsSeeded w.log_manager_raises _ _ tt (
      if-IsSeeded w.service_raises _ _ tt (
        if-IsSeeded w.runtime_raises _ _ tt (
          if-IsSeeded (c.enabled && c.auto_register) _ _
            (keep_prepared-IsSeeded (runtime_resources p w d c)
              (prepare_start w.thread_starts (new_service p w c)) refl)
            (install_finalizer-IsSeeded (runtime_resources p w d c) refl))))

  if-HasSeeded :
      (b : Bool) (x y : Site × InitOutcome)
      → HasSeeded d x.1
      → HasSeeded d y.1
      → HasSeeded d (if b then x else y).1
  if-HasSeeded true x y h k = h
  if-HasSeeded false x y h k = k

  conclude-HasSeeded :
      (r : Resources) (k : Commit × Bool)
      → r.callback_registry ≡ some (seeded d)
      → HasSeeded d (conclude w r k).1
  unfolding conclude
  conclude-HasSeeded r (c, false) h = h
  conclude-HasSeeded r (c, true) h =
      if-HasSeeded w.exception_raises _ _ tt (if-HasSeeded c.blueprint_published _ _ tt tt)

  after_prepare-HasSeeded :
      (c : XxlJobConfig) (s : Site) (o : Resources × Bool)
      → IsSeeded d o
      → HasSeeded d (after_prepare w c s o).1
  after_prepare-HasSeeded c s (r, true) h = if-HasSeeded w.exception_raises _ _ tt tt
  after_prepare-HasSeeded c s (r, false) h =
      conclude-HasSeeded r (commit w c.enabled r.prepared (begin w s r.registry_service)) h

module _ (p : Platform) (w : Around) (s : Site) where
  after_preflight-HasSeeded :
      (q : Preflight) → HasSeeded s.deferred_callbacks (after_preflight p w s q).1
  after_preflight-HasSeeded (refuse e) = tt
  after_preflight-HasSeeded (ready c) =
      after_prepare-HasSeeded w s.deferred_callbacks c s (prepare p w s.deferred_callbacks c)
        (prepare-IsSeeded w s.deferred_callbacks p c)

  init_app-HasSeeded :
      (r : Resources)
      → (init_app p w s).1 ≡ initialized r
      → r.callback_registry ≡ some (seeded s.deferred_callbacks)
  unfolding init_app
  init_app-HasSeeded r h =
      subst (HasSeeded s.deferred_callbacks) h (after_preflight-HasSeeded (preflight p w s.app))

-- A callback that `on_run` accepts while no application is initialized and there is no context is
-- the one of its JobHandler in each application that an `init_app` of the extension initializes
-- while its waiting callbacks are those that the registration left.
pub on_run-init_app :
    (e d : Extension ℕ ℕ ℕ ℕ) (h : Text) (f : ℕ) (p : Platform) (w : Around) (s : Site)
    (r : Resources)
    → e.context ≡ none
    → is_empty e.applications ≡ true
    → on_run e (name h) (callable f) ≡ ok d
    → s.deferred_callbacks ≡ d.deferred_callbacks
    → (init_app p w s).1 ≡ initialized r
    → (c : Callbacks) × (r.callback_registry ≡ some c) × (get_run c h ≡ some f)
on_run-init_app e d h f p w s r outside untracked accepted waiting returned = (
  seeded d.deferred_callbacks,
  rw⁻¹ waiting (init_app-HasSeeded p w s r returned),
  on_run-seeds e d h f outside untracked accepted,
)
