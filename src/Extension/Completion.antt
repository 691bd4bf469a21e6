-- ===== src/Extension/Completion.antt =====
-- flask_xxljob/extension.py: `init_app` returns when nothing that it calls raises.
use flask_xxljob.Base.{
  ℕ, Bool, true, false, ◌&&◌, ◌||◌, ◌≡◌, refl, Option, none, some, is_some, text, arith,
  if◌then◌else◌, Bool-cases, inl, inr, holds,
}
use flask_xxljob.Base.Dict
use flask_xxljob.Base.Dict.{text_key}
use flask_xxljob.Config.{Result, ok, invalid, unexpected}
use flask_xxljob.Config.Address.{Platform}
use flask_xxljob.Config.Load.{XxlJobConfig, from_mapping}
use flask_xxljob.Config.Validate.{validate_registry}
use flask_xxljob.Registry.State.{Process}
use flask_xxljob.Registry.Steps.{Reach}
use flask_xxljob.Registry.Steps.Safety.{activate-total}
use flask_xxljob.Registry.Lifecycle.{
  activated, cancelled, current_worker_exists, prepare_start, activate_prepared_start,
}
use flask_xxljob.Extension.{Callbacks, App, Site, Resources, extension_key, already_initialized}
use flask_xxljob.Extension.Rollback.{begin}
use flask_xxljob.Extension.Init.{
  Around, returns, Preflight, refuse, ready, is_cli_available, preflight, check_config,
  check_registry, check_flask, prepare, new_service, keep_prepared, install_finalizer,
  runtime_resources,
}
use flask_xxljob.Extension.Init.Commit.{
  Commit, Action, ◌>>◌, register_cli, publish_runtime, attach_finalizer, register_blueprint,
  activate, activate_token, activation_raises, log_info, commit, initialized, with_service,
  conclude, after_prepare, init_app,
}
use flask_xxljob.Extension.Composition.{
  IsService, Interferes, prepare-IsService, register_cli-IsService, publish_runtime-IsService,
  register_blueprint-IsService, activate_token-IsService,
}

-- No call outside of `init_app` raises, and the Thread starts.
pub record IsQuiet (w : Around) : Type 0 where
  pub log_manager : w.log_manager_raises ≡ false
  pub service : w.service_raises ≡ false
  pub runtime : w.runtime_raises ≡ false
  pub thread : w.thread_starts ≡ true
  pub finalizer : w.finalizer_raises ≡ false
  pub add_command : w.add_command_raises ≡ false
  pub attach : w.attach_raises ≡ false
  pub blueprint : w.publication ≡ returns
  pub info : w.info_raises ≡ false

-- The action does not raise, and leaves the service in a state that a run reaches.
abbrev pub Passes : Action → Commit → Type 0
Passes m c = ((m c).1 ≡ false) × IsService (m c).0.service

>>-Passes :
    (m k : Action) (c : Commit)
    → Passes m c
    → ((d : Commit) → IsService d.service → Passes k d)
    → Passes (m >> k) c
>>-Passes m k c (e, v) h = rw e (h (m c).0 v)

activation_returns :
    (w : Around) (t : ℕ) (p : Process)
    → Reach p
    → activation_raises w (activate_prepared_start t p).1 ≡ false
activation_returns w t p v = rw (activate-total p t v) (either (holds p.prepared_start t))
  where
    either : (b : Bool) → activation_raises w (if b then activated else cancelled) ≡ false
    either true = refl
    either false = refl

module _ (w : Around) (a : App) (c : XxlJobConfig) where
  check_flask-ready : (d : XxlJobConfig) → check_flask w a d ≡ ready c → is_cli_available w a ≡ true
  unfolding check_flask
  check_flask-ready d h = ground arith

  check_registry-ready :
      (d : XxlJobConfig) (r : Result {0} Unit)
      → check_registry w a d r ≡ ready c
      → is_cli_available w a ≡ true
  check_registry-ready d (ok u) h = check_flask-ready d h
  check_registry-ready d (invalid e) h = ground arith
  check_registry-ready d unexpected h = ground arith

  if-ready :
      (b : Bool) (x y : Preflight)
      → (x ≡ ready c → is_cli_available w a ≡ true)
      → (y ≡ ready c → is_cli_available w a ≡ true)
      → (if b then x else y) ≡ ready c
      → is_cli_available w a ≡ true
  if-ready true x y h k e = h e
  if-ready false x y h k e = k e

  check_config-ready :
      (p : Platform) (r : Result XxlJobConfig)
      → check_config p w a r ≡ ready c
      → is_cli_available w a ≡ true
  check_config-ready p (ok d) h =
      if-ready (d.enabled && d.auto_register) _ _ (check_registry-ready d (validate_registry p d))
        (check_flask-ready d) h
  check_config-ready p (invalid e) h = ground arith
  check_config-ready p unexpected h = ground arith

  pub preflight-ready : (p : Platform) → preflight p w a ≡ ready c → is_cli_available w a ≡ true
  unfolding preflight
  preflight-ready p h =
      if-ready (Dict.has a.extensions extension_key) (refuse already_initialized)
        (check_config p w a (from_mapping p a.config)) (λ e. ground arith)
        (check_config-ready p (from_mapping p a.config)) h

module _ (w : Around) (interferes : Interferes w) (quiet : IsQuiet w) where
  pub activate_token-quiet :
      (t : Option ℕ) (p : Option Process) → IsService p → (activate_token w t p).1 ≡ false
  activate_token-quiet (some t) (some p) v = activation_returns w t p v
  activate_token-quiet (some t) none v = refl
  activate_token-quiet none p v = refl

  activate-Passes : (t : Option ℕ) (c : Commit) → IsService c.service → Passes (activate w t) c
  unfolding activate
  activate-Passes t c v =
      (activate_token-quiet t c.service v, activate_token-IsService w interferes t c.service v)

  pub register_cli-quiet :
      (c : Commit) → is_cli_available w c.site.app ≡ true → (register_cli w c).1 ≡ false
  unfolding register_cli
  register_cli-quiet c e = elim (Bool-cases (is_some (Dict.get c.site.commands (text "xxljob")))) [
    | inl here ↦ rw (e, here) refl
    | inr absent ↦ rw (e, absent, quiet.add_command) refl
  ]

  pub register_blueprint-quiet :
      (enabled : Bool) (c : Commit) → (register_blueprint w enabled c).1 ≡ false
  unfolding register_blueprint
  register_blueprint-quiet true c = rw quiet.blueprint refl
  register_blueprint-quiet false c = refl

  publish_runtime-quiet : (c : Commit) → (publish_runtime w c).1 ≡ false
  unfolding publish_runtime
  publish_runtime-quiet c = refl

  attach_finalizer-Passes : (c : Commit) → IsService c.service → Passes (attach_finalizer w) c
  unfolding attach_finalizer
  attach_finalizer-Passes c v = (quiet.attach, v)

  log_info-Passes : (c : Commit) → IsService c.service → Passes (log_info w) c
  unfolding log_info
  log_info-Passes c v = (quiet.info, v)

  pub commit-Passes :
      (enabled : Bool) (t : Option ℕ) (c : Commit)
      → is_cli_available w c.site.app ≡ true
      → IsService c.service
      → Passes (commit w enabled t) c
  unfolding commit
  commit-Passes enabled t c e v =
      let step1 = register_cli w >> publish_runtime w in
      let step2 = step1 >> attach_finalizer w in
      let step3 = step2 >> register_blueprint w enabled in
      let step4 = step3 >> activate w t in
      let pass1 =
        >>-Passes (register_cli w) (publish_runtime w) c
          (register_cli-quiet c e, register_cli-IsService w interferes c v)
          (λ d u. (publish_runtime-quiet d, publish_runtime-IsService w interferes d u)) in
      let pass2 = >>-Passes step1 (attach_finalizer w) c pass1 attach_finalizer-Passes in
      let pass3 = >>-Passes step2 (register_blueprint w enabled) c pass2 (λ d u. (
        register_blueprint-quiet enabled d,
        register_blueprint-IsService w interferes enabled d u,
      )) in
      let pass4 = >>-Passes step3 (activate w t) c pass3 (activate-Passes t) in
      >>-Passes step4 (log_info w) c pass4 log_info-Passes

  install_finalizer-quiet : (r : Resources) → (install_finalizer w r).1 ≡ false
  install_finalizer-quiet r = rw quiet.finalizer refl

  keep_prepared-quiet :
      (r : Resources) (p : Process) → (keep_prepared w r (prepare_start true p)).1 ≡ false
  unfolding prepare_start
  keep_prepared-quiet r p =
      elim (Bool-cases (current_worker_exists p p.worker || is_some p.prepared_start)) [
        | inl e ↦ rw e (install_finalizer-quiet (record r { registry_service = some p }))
        | inr e ↦ rw e (install_finalizer-quiet _)
      ]

  prepare-quiet : (p : Platform) (d : Callbacks) (c : XxlJobConfig) → (prepare p w d c).1 ≡ false
  unfolding prepare
  prepare-quiet p d c = elim (Bool-cases (c.enabled && c.auto_register)) [
    | inl e ↦
        rw (quiet.log_manager, quiet.service, quiet.runtime, e, quiet.thread)
          (keep_prepared-quiet (runtime_resources p w d c) (new_service p w c))
    | inr e ↦
        rw (quiet.log_manager, quiet.service, quiet.runtime, e)
          (install_finalizer-quiet (runtime_resources p w d c))
  ]

  conclude-initialized :
      (r : Resources) (k : Commit × Bool)
      → k.1 ≡ false
      → (q : Resources) × ((conclude w r k).1 ≡ initialized q)
  unfolding conclude
  conclude-initialized r (c, false) h = (with_service r c.service, refl)
  conclude-initialized r (c, true) h = ground arith

  after_prepare-initialized :
      (c : XxlJobConfig) (s : Site) (o : Resources × Bool)
      → is_cli_available w s.app ≡ true
      → o.1 ≡ false
      → IsService o.0.registry_service
      → (q : Resources) × ((after_prepare w c s o).1 ≡ initialized q)
  after_prepare-initialized c s (r, true) e h v = ground arith
  after_prepare-initialized c s (r, false) e h v =
      let k = begin w s r.registry_service in
      conclude-initialized r (commit w c.enabled r.prepared k)
        (commit-Passes c.enabled r.prepared k e v).0

  -- When the preflight accepts the application, no call outside of `init_app` raises, the Thread
  -- starts, and other Threads do only what critical sections do, `init_app` returns: in particular
  -- the activation of its Prepared token does not raise.
  pub init_app-completes :
      (p : Platform) (s : Site) (c : XxlJobConfig)
      → preflight p w s.app ≡ ready c
      → (q : Resources) × ((init_app p w s).1 ≡ initialized q)
  unfolding init_app
  init_app-completes p s c h =
      let (q, e) =
        after_prepare-initialized c s (prepare p w s.deferred_callbacks c)
          (preflight-ready w s.app c p h) (prepare-quiet p s.deferred_callbacks c)
          (prepare-IsService w p s.deferred_callbacks c) in
      (q, rw h e)
