-- ===== src/Extension/Starting.antt =====
-- flask_xxljob/extension.py: `init_app` starts the renewal of an executor that registers itself.
use flask_xxljob.Base.{
  ℕ, ◌+◌, ◌==◌, Bool, true, false, ◌&&◌, ◌≡◌, ◌∙◌, refl, ap, Option, none, some, arith, Bool-cases,
  inl, inr, is_some, text,
}
use mathlib.Core.Option
use mathlib.Core.Path.{subst}
use flask_xxljob.Base.Dict
use flask_xxljob.Base.Dict.{text_key}
use flask_xxljob.Config.Address.{Platform}
use flask_xxljob.Config.Load.{XxlJobConfig}
use flask_xxljob.Registry.State.{Process}
use flask_xxljob.Registry.Steps.{Steps}
use flask_xxljob.Registry.Lifecycle.{
  prepare_start, publish_prepared, activate_prepared_start, stop_local, commit_activation,
  commit_generation, detach_coordination, cancel_pending, wait_for_active, worker_is_current,
}
use flask_xxljob.Extension.{Callbacks, Site, Resources}
use flask_xxljob.Extension.Rollback.{begin}
use flask_xxljob.Extension.Init.{
  Around, ready, is_cli_available, preflight, prepare, new_service, runtime_resources,
}
use flask_xxljob.Extension.Init.Commit.{
  Commit, Action, ◌>>◌, register_cli, publish_runtime, attach_finalizer, register_blueprint,
  activate, activate_token, log_info, commit, InitOutcome, initialized, with_service, conclude,
  after_prepare, init_app,
}
use flask_xxljob.Extension.Composition.{IsService, prepare-IsService}
use flask_xxljob.Extension.Completion.{
  IsQuiet, activate_token-quiet, commit-Passes, preflight-ready,
}

-- The context is the current Worker of the service, and the Thread of its token, which waits for
-- `activate_event` before it renews, is let go.
abbrev pub is_renewing : Option Process → ℕ → ℕ → Bool
is_renewing none c t = false
is_renewing (some p) c t =
    worker_is_current p c && ((p.prepareds t).context == c) && (p.prepareds t).activate_event

-- The activation of the first token of a new process makes its Worker and lets its Thread go.
first_activation :
    (p : Platform) (w : Around) (c : XxlJobConfig)
    → is_renewing
        (some (activate_prepared_start (w.heap.next + 1) (publish_prepared (new_service p w c))).0)
        w.heap.next
        (w.heap.next + 1)
      ≡ true
unfolding activate_prepared_start publish_prepared stop_local commit_activation commit_generation
    detach_coordination cancel_pending wait_for_active worker_is_current
first_activation p w c = ground arith

-- The action does not raise and leaves the service as it is.
abbrev Idles : Action → Commit → Type 0
Idles m c = ((m c).1 ≡ false) × ((m c).0.service ≡ c.service)

>>-Idles : (m k : Action) (c : Commit) → Idles m c → ((d : Commit) → Idles k d) → Idles (m >> k) c
>>-Idles m k c (e, v) h = rw e ((h (m c).0).0, (h (m c).0).1 ∙ v)

module _ (w : Around) (still : (p : Process) → w.meanwhile p ≡ p) (quiet : IsQuiet w) where
  stays : (p : Process) → Steps p (w.meanwhile p)
  stays p = rw (still p) Steps.stay

  register_cli-Idles :
      (c : Commit) → is_cli_available w c.site.app ≡ true → Idles (register_cli w) c
  unfolding register_cli
  register_cli-Idles c e = elim (Bool-cases (is_some (Dict.get c.site.commands (text "xxljob")))) [
    | inl here ↦ rw (e, here) (refl, refl)
    | inr absent ↦ rw (e, absent, quiet.add_command) (refl, refl)
  ]

  meanwhile-still : (p : Option Process) → Option.map w.meanwhile p ≡ p
  meanwhile-still none = refl
  meanwhile-still (some p) = ap some (still p)

  publish_runtime-Idles : (c : Commit) → Idles (publish_runtime w) c
  unfolding publish_runtime
  publish_runtime-Idles c = (refl, meanwhile-still c.service)

  attach_finalizer-Idles : (c : Commit) → Idles (attach_finalizer w) c
  unfolding attach_finalizer
  attach_finalizer-Idles c = (quiet.attach, refl)

  register_blueprint-Idles : (enabled : Bool) (c : Commit) → Idles (register_blueprint w enabled) c
  unfolding register_blueprint
  register_blueprint-Idles true c = rw quiet.blueprint (refl, refl)
  register_blueprint-Idles false c = (refl, refl)

  -- the service at the end of the commit
  commit-service :
      (enabled : Bool) (t : Option ℕ) (c : Commit)
      → is_cli_available w c.site.app ≡ true
      → (activate_token w t c.service).1 ≡ false
      → (commit w enabled t c).0.service ≡ (activate_token w t c.service).0
  unfolding commit activate log_info
  commit-service enabled t c e passes =
      let step1 = register_cli w >> publish_runtime w in
      let step2 = step1 >> attach_finalizer w in
      let step3 = step2 >> register_blueprint w enabled in
      let idle1 =
        >>-Idles (register_cli w) (publish_runtime w) c (register_cli-Idles c e)
          publish_runtime-Idles in
      let idle2 = >>-Idles step1 (attach_finalizer w) c idle1 attach_finalizer-Idles in
      let (quiet3, same3) =
        >>-Idles step2 (register_blueprint w enabled) c idle2 (register_blueprint-Idles enabled) in
      rw (quiet3, same3, passes) refl

  -- the resources of an executor that registers itself
  abbrev started : Platform → Callbacks → XxlJobConfig → Resources
  started p d c = record (runtime_resources p w d c) {
    registry_service = some (publish_prepared (new_service p w c));
    prepared = some (w.heap.next + 1);
    finalizer = some true;
  }

  prepare-started :
      (p : Platform) (d : Callbacks) (c : XxlJobConfig)
      → (c.enabled && c.auto_register) ≡ true
      → prepare p w d c ≡ (started p d c, false)
  unfolding prepare prepare_start
  prepare-started p d c on =
      rw (quiet.log_manager, quiet.service, quiet.runtime, on, quiet.thread, quiet.finalizer) refl

  IsStarted : InitOutcome → Type 0
  IsStarted o =
      (q : Resources) × (o ≡ initialized q)
      × (is_renewing q.registry_service w.heap.next (w.heap.next + 1) ≡ true)

  conclude-IsStarted :
      (r : Resources) (k : Commit × Bool)
      → k.1 ≡ false
      → is_renewing k.0.service w.heap.next (w.heap.next + 1) ≡ true
      → IsStarted (conclude w r k).1
  unfolding conclude IsStarted
  conclude-IsStarted r (c, false) h v = (with_service r c.service, refl, v)
  conclude-IsStarted r (c, true) h v = ground arith

  after_prepare-IsStarted :
      (p : Platform) (c : XxlJobConfig) (s : Site)
      → is_cli_available w s.app ≡ true
      → IsService (started p s.deferred_callbacks c).registry_service
      → IsStarted (after_prepare w c s (started p s.deferred_callbacks c, false)).1
  after_prepare-IsStarted p c s e v =
      let k = begin w s (started p s.deferred_callbacks c).registry_service in
      let t = some (w.heap.next + 1) in
      let passes = activate_token-quiet w stays quiet t k.service v in
      conclude-IsStarted (started p s.deferred_callbacks c) (commit w c.enabled t k)
        (commit-Passes w stays quiet c.enabled t k e v).0
        (rw (commit-service c.enabled t k e passes) (first_activation p w c))

  -- When no call outside of `init_app` raises and no other Thread interferes, `init_app` of an
  -- application that the preflight accepts and that is enabled and registers itself returns with a
  -- Worker that renews: its candidate is the current Worker of the service, not stopped, and the
  -- Event that the Thread of its Prepared token waits for is set.
  pub init_app-starts :
      (p : Platform) (s : Site) (c : XxlJobConfig)
      → preflight p w s.app ≡ ready c
      → (c.enabled && c.auto_register) ≡ true
      → (q : Resources) × ((init_app p w s).1 ≡ initialized q)
        × (is_renewing q.registry_service w.heap.next (w.heap.next + 1) ≡ true)
  unfolding init_app IsStarted
  init_app-starts p s c h on =
      let known = prepare-started p s.deferred_callbacks c on in
      let v =
        subst (λ o. IsService o.0.registry_service) known
          (prepare-IsService w p s.deferred_callbacks c) in
      let (q, e, r) = after_prepare-IsStarted p c s (preflight-ready w s.app c p h) v in
      (q, rw (h, known) e, r)
