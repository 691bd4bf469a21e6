-- ===== src/Extension/Transaction.antt =====
-- flask_xxljob/extension.py: how a call of `init_app` ends.
use flask_xxljob.Base.{
  ℕ, Bool, true, false, ◌&&◌, ◌≡◌, refl, none, some, ◌⊎◌, inl, inr, arith, if◌then◌else◌,
  Bool-cases,
}
use flask_xxljob.Base.Dict
use flask_xxljob.Base.Dict.{text_key}
use flask_xxljob.Config.Address.{Platform}
use flask_xxljob.Config.Load.{XxlJobConfig}
use flask_xxljob.Registry.State.{Process}
use flask_xxljob.Registry.Lifecycle.{Prepare, nothing, prepared, start_failed, prepare_start}
use flask_xxljob.Extension.{Callbacks, App, Site, Resources, extension_key, already_initialized}
use flask_xxljob.Extension.Init.{
  replace, Around, Preflight, refuse, ready, preflight, prepare, new_service, keep_prepared,
  install_finalizer, runtime_resources,
}
use flask_xxljob.Extension.Init.Commit.{
  close_site, Commit, commit, InitOutcome, refused, failed, failed_published, unclosed, initialized,
  with_service, conclude, after_prepare, after_preflight, init_app,
}
use flask_xxljob.Extension.Rollback.{
  is_tracked, IsForeign, close_site-unwritten, is_released, close_resources-is_released,
  close_site-written, IsVisible, IsFresh, written, Good, begin, commit-Good,
}

-- The site with the command and the Runtime of the call, as far as it has added them, or with the
-- Runtime visible.
abbrev pub IsPartial : Around → Site → Site → Type 0
IsPartial w s t =
    ((cli : Bool) × (published : Bool) × (t ≡ written w s cli published)) ⊎ IsVisible w s t

-- What a call has done, by how it ended: a refusal or a failure has changed nothing, and a failure
-- has let go of its resources, unless the logger raised; after the Blueprint was published, or in the end, the Runtime of the
-- call is the one of the application, which is tracked.
abbrev pub IsEnd : (Site → Type 0) → Around → Site → Site × InitOutcome → Type 0
IsEnd Left w s (t, refused e) = t ≡ s
IsEnd Left w s (t, failed r) = Left t × (is_released r ≡ true)
IsEnd Left w s (t, unclosed r) = (w.exception_raises ≡ true) × IsPartial w s t
IsEnd Left w s (t, failed_published r) = IsVisible w s t
IsEnd Left w s (t, initialized r) = IsVisible w s t

-- A failure leaves the site as it was, but for what another Thread has written.
abbrev pub AsPromised : Around → Site → Site × InitOutcome → Type 0
AsPromised w s = IsEnd (λ t. t ≡ replace w.replacement s) w s

-- what the cleanup leaves, behind a commit and behind a preparation
record Leaves (Left : Site → Type 0) (w : Around) (s : Site) : Type 0 where
  pub commit :
      (r : Resources) (cli published : Bool)
      → r.runtime ≡ some w.runtime_id
      → Dict.get s.extensions extension_key ≡ none
      → IsFresh w s cli
      → Left (close_site w r cli published (replace w.replacement (written w s cli published)))
  pub preparation :
      (r : Resources)
      → (r.runtime ≡ none) ⊎ (r.runtime ≡ some w.runtime_id)
      → Dict.get s.extensions extension_key ≡ none
      → Left (close_site w r false false (replace w.replacement s))

-- a preparation that did not raise has made the Runtime, one that raised may have
abbrev HasRuntime : Around → Resources × Bool → Type 0
HasRuntime w (r, true) = (r.runtime ≡ none) ⊎ (r.runtime ≡ some w.runtime_id)
HasRuntime w (r, false) = r.runtime ≡ some w.runtime_id

module _ (w : Around) where
  install_finalizer-HasRuntime :
      (r : Resources) → r.runtime ≡ some w.runtime_id → HasRuntime w (install_finalizer w r)
  install_finalizer-HasRuntime r h = elim (Bool-cases w.finalizer_raises) [
    | inl e ↦ rw e (inr h)
    | inr e ↦ rw e h
  ]

  keep_prepared-HasRuntime :
      (r : Resources) (o : Process × Prepare)
      → r.runtime ≡ some w.runtime_id
      → HasRuntime w (keep_prepared w r o)
  keep_prepared-HasRuntime r (p, nothing) h =
      install_finalizer-HasRuntime (record r { registry_service = some p }) h
  keep_prepared-HasRuntime r (p, prepared t) h =
      install_finalizer-HasRuntime (record r { registry_service = some p; prepared = some t }) h
  keep_prepared-HasRuntime r (p, start_failed) h = inr h

  if-HasRuntime :
      (b : Bool) (x y : Resources × Bool)
      → HasRuntime w x
      → HasRuntime w y
      → HasRuntime w (if b then x else y)
  if-HasRuntime true x y h k = h
  if-HasRuntime false x y h k = k

  prepare-HasRuntime :
      (p : Platform) (d : Callbacks) (c : XxlJobConfig) → HasRuntime w (prepare p w d c)
  unfolding prepare
  prepare-HasRuntime p d c = if-HasRuntime w.log_manager_raises _ _ (inl refl) (
      if-HasRuntime w.service_raises _ _ (inl refl) (
        if-HasRuntime w.runtime_raises _ _ (inl refl) (
          if-HasRuntime (c.enabled && c.auto_register) _ _
            (keep_prepared-HasRuntime (runtime_resources p w d c)
              (prepare_start w.thread_starts (new_service p w c)) refl)
            (install_finalizer-HasRuntime (runtime_resources p w d c) refl))))

module _ (w : Around) (s : Site) (unset : Dict.get s.extensions extension_key ≡ none)
    (Left : Site → Type 0) (leaves : Leaves Left w s) where
  conclude-AsPromised :
      (r : Resources) (k : Commit × Bool)
      → r.runtime ≡ some w.runtime_id
      → Good w s k
      → IsEnd Left w s (conclude w r k)
  unfolding conclude
  conclude-AsPromised r (c, false) h (stage, v) = v
  conclude-AsPromised r (c, true) h (inl (unpublished, same, fresh)) =
      elim (Bool-cases w.exception_raises) [
        | inl fails ↦ rw fails (refl, inl (c.cli_added, c.application_added, same))
        | inr goes_on ↦
            rw (goes_on, unpublished)
              (
                rw same (leaves.commit r c.cli_added c.application_added h unset fresh),
                close_resources-is_released (with_service r c.service),
              )
      ]
  conclude-AsPromised r (c, true) h (inr (published, v)) = elim (Bool-cases w.exception_raises) [
    | inl fails ↦ rw fails (refl, inr v)
    | inr goes_on ↦ rw (goes_on, published) v
  ]

  after_prepare-AsPromised :
      (c : XxlJobConfig) (o : Resources × Bool)
      → HasRuntime w o
      → IsEnd Left w s (after_prepare w c s o)
  unfolding close_site
  after_prepare-AsPromised c (r, true) h = elim (Bool-cases w.exception_raises) [
    | inl fails ↦ rw fails (refl, inl (false, false, refl))
    | inr goes_on ↦ rw goes_on (leaves.preparation r h unset, close_resources-is_released r)
  ]
  after_prepare-AsPromised c (r, false) h =
      conclude-AsPromised r (commit w c.enabled r.prepared (begin w s r.registry_service)) h
        (commit-Good w s c.enabled r.prepared r.registry_service)

has-get :
    (a : App)
    → Dict.has a.extensions extension_key ≡ false
    → Dict.get a.extensions extension_key ≡ none
unfolding Dict.has
has-get a h = ground arith

ready-unset :
    (p : Platform) (w : Around) (a : App) (c : XxlJobConfig)
    → preflight p w a ≡ ready c
    → Dict.get a.extensions extension_key ≡ none
unfolding preflight
ready-unset p w a c h = elim (Bool-cases (Dict.has a.extensions extension_key)) [
  | inl e ↦ ground arith
  | inr e ↦ has-get a e
]

after_preflight-AsPromised :
    (p : Platform) (w : Around) (s : Site) (q : Preflight)
    → (Left : Site → Type 0) → Leaves Left w s
    → preflight p w s.app ≡ q
    → IsEnd Left w s (after_preflight p w s q)
after_preflight-AsPromised p w s (refuse e) Left leaves h = refl
after_preflight-AsPromised p w s (ready c) Left leaves h =
    after_prepare-AsPromised w s (ready-unset p w s.app c h) Left leaves c
      (prepare p w s.deferred_callbacks c) (prepare-HasRuntime w p s.deferred_callbacks c)

init_app-IsEnd :
    (p : Platform) (w : Around) (s : Site) (Left : Site → Type 0)
    → Leaves Left w s
    → IsEnd Left w s (init_app p w s)
unfolding init_app
init_app-IsEnd p w s Left leaves =
    after_preflight-AsPromised p w s (preflight p w s.app) Left leaves refl

-- `init_app` is a transaction on an application that is not tracked yet, whatever the calls of the
-- preparation and of the commit raise, and whatever other Threads do to the service. A refusal
-- changes nothing. A failure before the Blueprint is published leaves the commands, the extensions
-- and the tracked applications as they were, but for a command or a Runtime of its own that another
-- Thread has put under the key of the extension before the cleanup, which stays; the log manager is
-- closed, the finalizer detached and the Prepared token withdrawn. After a failure behind the
-- publication, and after a success, the Runtime of the call is the one of the application, which is
-- tracked. Where `logger.exception` itself raises, before the cleanup, nothing is taken back: the
-- command and the Runtime stay as far as they were added.
pub init_app-AsPromised :
    (p : Platform) (w : Around) (s : Site)
    → is_tracked s ≡ false
    → IsForeign w s w.replacement
    → AsPromised w s (init_app p w s)
init_app-AsPromised p w s untracked foreign =
    init_app-IsEnd p w s (λ t. t ≡ replace w.replacement s)
      (record {
        commit = λ r cli published h unset fresh.
            close_site-written w s w.replacement r cli published foreign h unset untracked fresh;
        preparation = λ r h unset. close_site-unwritten w s w.replacement r foreign h unset;
      })

get-has :
    (a : App) (n : ℕ)
    → Dict.get a.extensions extension_key ≡ some n
    → Dict.has a.extensions extension_key ≡ true
unfolding Dict.has
get-has a n h = ground arith

preflight-visible :
    (p : Platform) (w : Around) (a : App) (n : ℕ)
    → Dict.get a.extensions extension_key ≡ some n
    → preflight p w a ≡ refuse already_initialized
unfolding preflight
preflight-visible p w a n h = rw (get-has a n h) refl

visible-refused :
    (p : Platform) (w v : Around) (s t : Site)
    → IsVisible v s t
    → init_app p w t ≡ (t, refused already_initialized)
unfolding init_app
visible-refused p w v s t (e, tracked) = rw (preflight-visible p w t.app v.runtime_id e) refl

-- A second `init_app` of an application is refused and changes nothing, after one that returned and
-- after one that failed behind the publication of its Blueprint.
pub init_app-init_app :
    (p q : Platform) (w v : Around) (s : Site) (r : Resources)
    → ((init_app p w s).1 ≡ initialized r) ⊎ ((init_app p w s).1 ≡ failed_published r)
    → init_app q v (init_app p w s).0 ≡ ((init_app p w s).0, refused already_initialized)
init_app-init_app p q w v s r h = visible-refused q v w s (init_app p w s).0 (
    ends (init_app p w s)
      (init_app-IsEnd p w s (λ t. Unit)
        (record { commit = λ r cli published h unset fresh. tt; preparation = λ r h unset. tt }))
      h)
  where
    ends :
        (o : Site × InitOutcome)
        → IsEnd (λ t. Unit) w s o
        → (o.1 ≡ initialized r) ⊎ (o.1 ≡ failed_published r)
        → IsVisible w s o.0
    ends (t, refused e) a h = ground arith
    ends (t, failed x) a h = ground arith
    ends (t, unclosed x) a h = ground arith
    ends (t, failed_published x) a h = a
    ends (t, initialized x) a h = a
