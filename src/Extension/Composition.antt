-- ===== src/Extension/Composition.antt =====
-- flask_xxljob/extension.py: `init_app` and the Registry service. The process of the service is at
-- each end of a call a state that a run of critical sections reaches.
use flask_xxljob.Base.{
  ℕ, Bool, true, false, ◌&&◌, Option, none, some, if◌then◌else◌, Bool-cases, inl, inr, is_some,
  text,
}
use mathlib.Core.Option
use flask_xxljob.Base.Dict
use flask_xxljob.Base.Dict.{text_key}
use flask_xxljob.Config.Address.{Platform}
use flask_xxljob.Config.Load.{XxlJobConfig}
use flask_xxljob.Registry.State.{Process, Heap, Settings}
use flask_xxljob.Registry.Steps.{Step, Steps, Reach, new_process}
use flask_xxljob.Registry.Service.Parts.{Steps-join, one}
use flask_xxljob.Registry.Lifecycle.{
  Prepare, nothing, prepared, start_failed, prepare_start, activate_prepared_start,
  cancel_prepared_start, settle_prepared,
}
use flask_xxljob.Extension.{Callbacks, Site, Resources}
use flask_xxljob.Extension.Rollback.{begin}
use flask_xxljob.Extension.Init.{
  is_cli_available, Around, Publication, returns, raises, raises_published, Preflight, refuse,
  ready, preflight, prepare, new_service, keep_prepared, install_finalizer, runtime_resources,
}
use flask_xxljob.Extension.Init.Commit.{
  cancel_token, settle_token, close_resources, Commit, Action, ◌>>◌, register_cli, publish_runtime,
  attach_finalizer, register_blueprint, publish_as, activate, activate_token, log_info, commit,
  InitOutcome, unclosed, refused, failed, failed_published, initialized, conclude, after_prepare,
  after_preflight, init_app,
}

abbrev pub IsService : Option Process → Type 0
IsService none = Unit
IsService (some p) = Reach p

-- The process of the service at the end of a call.
abbrev pub service_of : InitOutcome → Option Process
service_of (refused e) = none
service_of (failed r) = r.registry_service
service_of (unclosed r) = r.registry_service
service_of (failed_published r) = r.registry_service
service_of (initialized r) = r.registry_service

-- What other Threads do is a run of critical sections.
abbrev pub Interferes : Around → Type 0
Interferes w = (p : Process) → Steps p (w.meanwhile p)

Reach-then : (p q : Process) → Reach p → Steps p q → Reach q
Reach-then p q (s, h, pid, run) more = (s, h, pid, Steps-join run more)

new_process-Reach : (s : Settings) (h : Heap) (pid : ℕ) → Reach (new_process s h pid)
new_process-Reach s h pid = (s, h, pid, Steps.stay)

prepare_start-Reach : (started : Bool) (p : Process) → Reach p → Reach (prepare_start started p).0
prepare_start-Reach started p v =
    Reach-then p (prepare_start started p).0 v (one (Step.prepares started))

cancel_token-IsService :
    (p : Option Process) (t : Option ℕ) → IsService p → IsService (cancel_token p t)
cancel_token-IsService (some p) (some t) v =
    Reach-then p (cancel_prepared_start t p).0 v (one (Step.cancels t))
cancel_token-IsService (some p) none v = v
cancel_token-IsService none t v = v

settle_token-IsService :
    (p : Option Process) (t : Option ℕ) → IsService p → IsService (settle_token p t)
settle_token-IsService (some p) (some t) v =
    Reach-then p (settle_prepared true t p) v (one (Step.settles true t))
settle_token-IsService (some p) none v = v
settle_token-IsService none t v = v

module _ (w : Around) where
  install_finalizer-IsService :
      (r : Resources)
      → IsService r.registry_service
      → IsService (install_finalizer w r).0.registry_service
  install_finalizer-IsService r v = elim (Bool-cases w.finalizer_raises) [
    | inl e ↦ rw e v
    | inr e ↦ rw e v
  ]

  keep_prepared-IsService :
      (r : Resources) (o : Process × Prepare)
      → Reach o.0
      → IsService (keep_prepared w r o).0.registry_service
  keep_prepared-IsService r (p, nothing) v =
      install_finalizer-IsService (record r { registry_service = some p }) v
  keep_prepared-IsService r (p, prepared t) v =
      install_finalizer-IsService (record r { registry_service = some p; prepared = some t }) v
  keep_prepared-IsService r (p, start_failed) v = v

  if-IsService :
      (b : Bool) (x y : Resources × Bool)
      → IsService x.0.registry_service
      → IsService y.0.registry_service
      → IsService (if b then x else y).0.registry_service
  if-IsService true x y h k = h
  if-IsService false x y h k = k

  pub prepare-IsService :
      (p : Platform) (d : Callbacks) (c : XxlJobConfig)
      → IsService (prepare p w d c).0.registry_service
  unfolding prepare
  prepare-IsService p d c =
      let new : Reach (new_service p w c) =
        ((new_service p w c).settings, w.heap, w.pid, Steps.stay) in
      if-IsService w.log_manager_raises _ _ tt (
        if-IsService w.service_raises _ _ tt (
          if-IsService w.runtime_raises _ _ new (
            if-IsService (c.enabled && c.auto_register) _ _
              (keep_prepared-IsService (runtime_resources p w d c)
                (prepare_start w.thread_starts (new_service p w c))
                (prepare_start-Reach w.thread_starts (new_service p w c) new))
              (install_finalizer-IsService (runtime_resources p w d c) new))))

module _ (w : Around) (interferes : Interferes w) where
  abbrev Keeps : Action → Type 0
  Keeps m = (c : Commit) → IsService c.service → IsService (m c).0.service

  >>-IsService : (m k : Action) → Keeps m → Keeps k → Keeps (m >> k)
  >>-IsService m k h i c v = elim (Bool-cases (m c).1) [
    | inl e ↦ rw e (h c v)
    | inr e ↦ rw e (i (m c).0 (h c v))
  ]

  pub register_cli-IsService : Keeps (register_cli w)
  unfolding register_cli
  register_cli-IsService c v = elim (Bool-cases (is_cli_available w c.site.app)) [
    | inl e ↦ elim (Bool-cases (is_some (Dict.get c.site.commands (text "xxljob")))) [
      | inl here ↦ rw (e, here) v
      | inr absent ↦ elim (Bool-cases w.add_command_raises) [
        | inl r ↦ rw (e, absent, r) v
        | inr r ↦ rw (e, absent, r) v
      ]
    ]
    | inr e ↦ rw e v
  ]

  meanwhile-IsService : (p : Option Process) → IsService p → IsService (Option.map w.meanwhile p)
  meanwhile-IsService none v = v
  meanwhile-IsService (some p) v = Reach-then p (w.meanwhile p) v (interferes p)

  pub publish_runtime-IsService : Keeps (publish_runtime w)
  unfolding publish_runtime
  publish_runtime-IsService c v = meanwhile-IsService c.service v

  publish_as-IsService : (o : Publication) → Keeps (publish_as w o)
  publish_as-IsService returns c v = v
  publish_as-IsService raises c v = v
  publish_as-IsService raises_published c v = v

  pub register_blueprint-IsService : (enabled : Bool) → Keeps (register_blueprint w enabled)
  unfolding register_blueprint
  register_blueprint-IsService true c v = publish_as-IsService w.publication c v
  register_blueprint-IsService false c v = v

  pub activate_token-IsService :
      (t : Option ℕ) (p : Option Process) → IsService p → IsService (activate_token w t p).0
  activate_token-IsService (some t) (some p) v =
      Reach-then p (activate_prepared_start t p).0 v (one (Step.activates t))
  activate_token-IsService none p v = v
  activate_token-IsService (some t) none v = v

  attach_finalizer-IsService : Keeps (attach_finalizer w)
  unfolding attach_finalizer
  attach_finalizer-IsService c v = v

  activate-IsService : (token : Option ℕ) → Keeps (activate w token)
  unfolding activate
  activate-IsService token c v = activate_token-IsService token c.service v

  log_info-IsService : Keeps (log_info w)
  unfolding log_info
  log_info-IsService c v = v

  commit-IsService : (enabled : Bool) (token : Option ℕ) → Keeps (commit w enabled token)
  unfolding commit
  commit-IsService enabled token =
      let step1 = register_cli w >> publish_runtime w in
      let step2 = step1 >> attach_finalizer w in
      let step3 = step2 >> register_blueprint w enabled in
      let step4 = step3 >> activate w token in
      let keeps1 =
        >>-IsService (register_cli w) (publish_runtime w) register_cli-IsService
          publish_runtime-IsService in
      let keeps2 = >>-IsService step1 (attach_finalizer w) keeps1 attach_finalizer-IsService in
      let keeps3 =
        >>-IsService step2 (register_blueprint w enabled) keeps2
          (register_blueprint-IsService enabled) in
      let keeps4 = >>-IsService step3 (activate w token) keeps3 (activate-IsService token) in
      >>-IsService step4 (log_info w) keeps4 log_info-IsService

  conclude-IsService :
      (r : Resources) (k : Commit × Bool)
      → IsService k.0.service
      → IsService (service_of (conclude w r k).1)
  unfolding conclude close_resources
  conclude-IsService r (c, false) v = v
  conclude-IsService r (c, true) v = elim (Bool-cases w.exception_raises) [
    | inl fails ↦ rw fails v
    | inr goes_on ↦ elim (Bool-cases c.blueprint_published) [
      | inl e ↦ rw (goes_on, e) (settle_token-IsService c.service r.prepared v)
      | inr e ↦ rw (goes_on, e) (cancel_token-IsService c.service r.prepared v)
    ]
  ]

  after_prepare-IsService :
      (c : XxlJobConfig) (s : Site) (o : Resources × Bool)
      → IsService o.0.registry_service
      → IsService (service_of (after_prepare w c s o).1)
  unfolding close_resources
  after_prepare-IsService c s (r, true) v = elim (Bool-cases w.exception_raises) [
    | inl fails ↦ rw fails v
    | inr goes_on ↦ rw goes_on (cancel_token-IsService r.registry_service r.prepared v)
  ]
  after_prepare-IsService c s (r, false) v =
      conclude-IsService r (commit w c.enabled r.prepared (begin w s r.registry_service))
        (commit-IsService c.enabled r.prepared (begin w s r.registry_service) v)

  after_preflight-IsService :
      (p : Platform) (s : Site) (q : Preflight) → IsService (service_of (after_preflight p w s q).1)
  after_preflight-IsService p s (refuse e) = tt
  after_preflight-IsService p s (ready c) =
      after_prepare-IsService c s (prepare p w s.deferred_callbacks c)
        (prepare-IsService w p s.deferred_callbacks c)

  -- However `init_app` ends, the Registry service that it has made is in a state that a run of
  -- critical sections reaches from a new process, when what other Threads do in between is such a
  -- run.
  pub init_app-IsService : (p : Platform) (s : Site) → IsService (service_of (init_app p w s).1)
  unfolding init_app
  init_app-IsService p s = after_preflight-IsService p s (preflight p w s.app)
