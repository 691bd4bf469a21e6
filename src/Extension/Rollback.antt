-- ===== src/Extension/Rollback.antt =====
-- flask_xxljob/extension.py: `init_app` is a transaction on the application.
use mathlib.Core.Path.{ap₂}
use flask_xxljob.Base.{
  ℕ, ◌==◌, ==_refl, Bool, true, false, not, ◌&&◌, ◌≡◌, ◌∙◌, ap, refl, Option, none, some, holds,
  List, [], ◌∷◌, any, text, arith, ◌⊎◌, inl, inr, if◌then◌else◌, Bool-cases, Option-cases,
}
use flask_xxljob.Base.Dict
use flask_xxljob.Base.Dict.{text_key, delete-put, get-put_self, put-put}
use flask_xxljob.Registry.State.{Process, add, discard}
use flask_xxljob.Registry.Lifecycle.{cancel_prepared_start}
use flask_xxljob.Extension.{App, Site, Resources, extension_key}
use flask_xxljob.Extension.Init.{
  Replacement, nothing_replaced, command_replaced, runtime_replaced, replace_in, replace, Around,
  Publication, returns, raises, raises_published, is_cli_available,
}
use flask_xxljob.Extension.Init.Commit.{
  cancel_token, turn_off, remove_cli, remove_runtime, close_resources, close_site, Commit, Action,
  ◌>>◌, register_cli, activate_token, publish_as, publish_runtime, attach_finalizer,
  register_blueprint, activate, log_info, commit,
}

abbrev pub is_tracked : Site → Bool
is_tracked s = any (λ a. a == s.id) s.applications

member-add : (a : ℕ) (xs : List ℕ) → any (λ b. b == a) (add a xs) ≡ true
unfolding add
member-add a [] = ground arith
member-add a (x ∷ xs) = ground (arith, member-add a xs)

discard-add : (a : ℕ) (xs : List ℕ) → any (λ b. b == a) xs ≡ false → discard a (add a xs) ≡ xs
unfolding add discard
discard-add a [] h = ground arith
discard-add a (x ∷ xs) h = ground (arith, discard-add a xs)

-- The log manager is closed, the finalizer detached, and the token withdrawn.
abbrev pub is_on : Option Bool → Bool
is_on none = false
is_on (some b) = b

abbrev pub has_token : Option Process → Option ℕ → Bool
has_token (some p) (some t) = holds p.prepared_start t
has_token _ _ = false

abbrev pub is_released : Resources → Bool
is_released r =
    not (is_on r.log_manager)
    && not (is_on r.finalizer)
    && not (has_token r.registry_service r.prepared)

turn_off-is_on : (b : Option Bool) → is_on (turn_off b) ≡ false
turn_off-is_on none = refl
turn_off-is_on (some b) = refl

cancel-withdraws :
    (p : Process) (t : ℕ) → holds (cancel_prepared_start t p).0.prepared_start t ≡ false
unfolding cancel_prepared_start
cancel-withdraws p t = ground arith

has_token-cancel_token :
    (p : Option Process) (t : Option ℕ) → has_token (cancel_token p t) t ≡ false
has_token-cancel_token (some p) (some t) = cancel-withdraws p t
has_token-cancel_token (some p) none = refl
has_token-cancel_token none t = refl

pub close_resources-is_released : (r : Resources) → is_released (close_resources r) ≡ true
unfolding close_resources
close_resources-is_released r =
    rw
      (
        turn_off-is_on r.log_manager,
        turn_off-is_on r.finalizer,
        has_token-cancel_token r.registry_service r.prepared,
      )
      refl

module _ (w : Around) (s : Site) where
  -- the site with the command and the Runtime of the call, as far as it has added them
  abbrev pub with_cli : Bool → App → App
  with_cli true a = record a { commands = Dict.put a.commands (text "xxljob") w.xxljob_cli }
  with_cli false a = a

  abbrev pub with_runtime : Bool → App → App
  with_runtime true a = record a { extensions = Dict.put a.extensions extension_key w.runtime_id }
  with_runtime false a = a

  abbrev pub written : Bool → Bool → Site
  written cli published = record s {
    app = with_runtime published (with_cli cli s.app);
    applications = if published then add s.id s.applications else s.applications;
  }

  -- a command is added only where there was none
  abbrev pub IsFresh : Bool → Type 0
  IsFresh true = Dict.get s.commands (text "xxljob") ≡ none
  IsFresh false = Unit

  remove_cli-with_runtime :
      (cli published : Bool) (a : App)
      → remove_cli w cli (with_runtime published a) ≡ with_runtime published (remove_cli w cli a)
  remove_cli-with_runtime cli true a = ground arith
  remove_cli-with_runtime cli false a = refl

  remove_cli-with_cli :
      (a : App)
      → Dict.get a.commands (text "xxljob") ≡ none
      → remove_cli w true (with_cli true a) ≡ a
  remove_cli-with_cli a h =
      rw
        (
          get-put_self a.commands (text "xxljob") w.xxljob_cli,
          ==_refl w.xxljob_cli,
          delete-put a.commands (text "xxljob") w.xxljob_cli h,
        )
        refl

  remove_runtime-with_runtime :
      (a : App)
      → Dict.get a.extensions extension_key ≡ none
      → remove_runtime (some w.runtime_id) (with_runtime true a) ≡ a
  remove_runtime-with_runtime a h =
      rw
        (
          get-put_self a.extensions extension_key w.runtime_id,
          ==_refl w.runtime_id,
          delete-put a.extensions extension_key w.runtime_id h,
        )
        refl

  pub remove_runtime-untouched :
      (rt : Option ℕ) (a : App)
      → Dict.get a.extensions extension_key ≡ none
      → remove_runtime rt a ≡ a
  remove_runtime-untouched none a h = refl
  remove_runtime-untouched (some b) a h = rw h refl

  undo_cli : (cli : Bool) → IsFresh cli → remove_cli w cli (with_cli cli s.app) ≡ s.app
  undo_cli true fresh = remove_cli-with_cli s.app fresh
  undo_cli false fresh = refl

  with_cli-id : (cli : Bool) (a : App) → (with_cli cli a).id ≡ a.id
  with_cli-id true a = refl
  with_cli-id false a = refl

  -- what another Thread has put in the place of the command or of the Runtime is not the call's own
  abbrev pub IsForeign : Replacement → Type 0
  IsForeign nothing_replaced = Unit
  IsForeign (command_replaced n) = (n == w.xxljob_cli) ≡ false
  IsForeign (runtime_replaced n) = (n == w.runtime_id) ≡ false

  remove_cli-replaced :
      (cli : Bool) (n : ℕ) (a : App)
      → (n == w.xxljob_cli) ≡ false
      → remove_cli w cli (replace_in (command_replaced n) a) ≡ replace_in (command_replaced n) a
  remove_cli-replaced true n a h = rw (get-put_self a.commands (text "xxljob") n, h) refl
  remove_cli-replaced false n a h = refl

  remove_runtime-replaced :
      (n : ℕ) (a : App)
      → (n == w.runtime_id) ≡ false
      → remove_runtime (some w.runtime_id) (replace_in (runtime_replaced n) a)
        ≡ replace_in (runtime_replaced n) a
  remove_runtime-replaced n a h = rw (get-put_self a.extensions extension_key n, h) refl

  replaced-with_cli :
      (cli : Bool) (n : ℕ) (a : App)
      → replace_in (command_replaced n) (with_cli cli a) ≡ replace_in (command_replaced n) a
  replaced-with_cli true n a = rw (put-put a.commands (text "xxljob") w.xxljob_cli n) refl
  replaced-with_cli false n a = refl

  replaced-with_runtime :
      (published : Bool) (n : ℕ) (a : App)
      → replace_in (runtime_replaced n) (with_runtime published a)
        ≡ replace_in (runtime_replaced n) a
  replaced-with_runtime true n a = rw (put-put a.extensions extension_key w.runtime_id n) refl
  replaced-with_runtime false n a = refl

  -- the two writes are to different dicts
  swap_command :
      (published : Bool) (n : ℕ) (a : App)
      → replace_in (command_replaced n) (with_runtime published a)
        ≡ with_runtime published (replace_in (command_replaced n) a)
  swap_command true n a = refl
  swap_command false n a = refl

  swap_runtime :
      (cli : Bool) (n : ℕ) (a : App)
      → remove_cli w cli (replace_in (runtime_replaced n) a)
        ≡ replace_in (runtime_replaced n) (remove_cli w cli a)
  swap_runtime true n a = ground arith
  swap_runtime false n a = refl

  undo_runtime :
      (published : Bool) (a : App)
      → Dict.get a.extensions extension_key ≡ none
      → remove_runtime (some w.runtime_id) (with_runtime published a) ≡ a
  undo_runtime true a h = remove_runtime-with_runtime a h
  undo_runtime false a h = remove_runtime-untouched (some w.runtime_id) a h

  -- The cleanup of the application leaves what another Thread has put there.
  remove-replaced :
      (x : Replacement) (cli published : Bool)
      → IsForeign x
      → Dict.get s.extensions extension_key ≡ none
      → IsFresh cli
      → remove_runtime
          (some w.runtime_id)
          (remove_cli w cli (replace_in x (with_runtime published (with_cli cli s.app))))
        ≡ replace_in x s.app
  remove-replaced nothing_replaced cli published foreign unset fresh =
      rw (remove_cli-with_runtime cli published (with_cli cli s.app), undo_cli cli fresh)
        (undo_runtime published s.app unset)
  remove-replaced (command_replaced n) cli published foreign unset fresh =
      ap (λ a. remove_runtime (some w.runtime_id) (remove_cli w cli a)) inner
      ∙ ap (remove_runtime (some w.runtime_id)) outer
      ∙ undo_runtime published with_command unset
    where
      with_command : App
      with_command = replace_in (command_replaced n) s.app

      inner :
          replace_in (command_replaced n) (with_runtime published (with_cli cli s.app))
          ≡ with_runtime published with_command
      inner =
          swap_command published n (with_cli cli s.app)
          ∙ ap (with_runtime published) (replaced-with_cli cli n s.app)

      outer :
          remove_cli w cli (with_runtime published with_command)
          ≡ with_runtime published with_command
      outer =
          remove_cli-with_runtime cli published with_command
          ∙ ap (with_runtime published) (remove_cli-replaced cli n s.app foreign)
  remove-replaced (runtime_replaced n) cli published foreign unset fresh =
      ap (λ a. remove_runtime (some w.runtime_id) (remove_cli w cli a))
        (replaced-with_runtime published n (with_cli cli s.app))
      ∙ ap (remove_runtime (some w.runtime_id)) (
          swap_runtime cli n (with_cli cli s.app)
          ∙ ap (replace_in (runtime_replaced n)) (undo_cli cli fresh))
      ∙ remove_runtime-replaced n s.app foreign

  -- A preparation that failed has written nothing.
  pub close_site-unwritten :
      (x : Replacement) (r : Resources)
      → IsForeign x
      → (r.runtime ≡ none) ⊎ (r.runtime ≡ some w.runtime_id)
      → Dict.get s.extensions extension_key ≡ none
      → close_site w r false false (replace x s) ≡ replace x s
  unfolding close_site
  close_site-unwritten x r foreign h unset =
      ap (λ (a : App). record s { app = a }) (kept x r.runtime foreign h)
    where
      kept :
          (y : Replacement) (o : Option ℕ)
          → IsForeign y
          → (o ≡ none) ⊎ (o ≡ some w.runtime_id)
          → remove_runtime o (replace_in y s.app) ≡ replace_in y s.app
      kept nothing_replaced o k e = remove_runtime-untouched o s.app unset
      kept (command_replaced n) o k e =
          remove_runtime-untouched o (replace_in (command_replaced n) s.app) unset
      kept (runtime_replaced n) o k (inl e) =
          ap (λ m. remove_runtime m (replace_in (runtime_replaced n) s.app)) e
      kept (runtime_replaced n) o k (inr e) =
          ap (λ m. remove_runtime m (replace_in (runtime_replaced n) s.app)) e
          ∙ remove_runtime-replaced n s.app k

  with_runtime-id : (published : Bool) (a : App) → (with_runtime published a).id ≡ a.id
  with_runtime-id true a = refl
  with_runtime-id false a = refl

  replace_in-id : (x : Replacement) (a : App) → (replace_in x a).id ≡ a.id
  replace_in-id nothing_replaced a = refl
  replace_in-id (command_replaced n) a = refl
  replace_in-id (runtime_replaced n) a = refl

  forget-add :
      (published : Bool) (a : ℕ)
      → is_tracked s ≡ false
      → a ≡ s.id
      → (if published
          then discard a (if published then add s.id s.applications else s.applications)
          else if published
          then add s.id s.applications
          else s.applications)
        ≡ s.applications
  forget-add true a untracked e = rw e (discard-add s.id s.applications untracked)
  forget-add false a untracked e = refl

  -- The cleanup takes back what the commit has added, and leaves what another Thread has put in
  -- its place.
  pub close_site-written :
      (x : Replacement) (r : Resources) (cli published : Bool)
      → IsForeign x
      → r.runtime ≡ some w.runtime_id
      → Dict.get s.extensions extension_key ≡ none
      → is_tracked s ≡ false
      → IsFresh cli
      → close_site w r cli published (replace x (written cli published)) ≡ replace x s
  unfolding close_site
  close_site-written x r cli published foreign e unset untracked fresh =
      ap₂ (λ (a : App) (tracked : List ℕ). record s { app = a; applications = tracked })
        (ap (λ o. remove_runtime o (remove_cli w cli (replace_in x made))) e
          ∙ remove-replaced x cli published foreign unset fresh)
        (forget-add published (replace_in x made).id untracked (
          replace_in-id x made
          ∙ with_runtime-id published (with_cli cli s.app)
          ∙ with_cli-id cli s.app))
    where
      made : App
      made = with_runtime published (with_cli cli s.app)

  abbrev pub IsVisible : Site → Type 0
  IsVisible t = (Dict.get t.extensions extension_key ≡ some w.runtime_id) × (is_tracked t ≡ true)

  -- A state of the commit that raised: what was written can be taken back, or the Blueprint is
  -- published and so is its Runtime.
  abbrev pub Stage : Commit → Type 0
  Stage c =
      ((c.blueprint_published ≡ false)
        × (c.site ≡ written c.cli_added c.application_added)
        × IsFresh c.cli_added)
      ⊎ ((c.blueprint_published ≡ true) × IsVisible c.site)

  -- A commit that did not raise has published the Runtime.
  abbrev pub Good : Commit × Bool → Type 0
  Good (c, true) = Stage c
  Good (c, false) = Stage c × IsVisible c.site

  abbrev pub Keeps : Action → Type 0
  Keeps k = (c : Commit) → Stage c → IsVisible c.site → Good (k c)

  >>-Keeps : (m k : Action) (c : Commit) → Good (m c) → Keeps k → Good ((m >> k) c)
  >>-Keeps m k c h keep = go (m c) h
    where
      go :
          (r : Commit × Bool)
          → Good r
          → Good (let (d, raised) = r in if raised then (d, true) else k d)
      go (d, true) h = h
      go (d, false) (h, v) = keep d h v

  flag-Good : (c : Commit) (b : Bool) → Stage c → IsVisible c.site → Good (c, b)
  flag-Good c true h v = h
  flag-Good c false h v = (h, v)

  attach_finalizer-Keeps : Keeps (attach_finalizer w)
  unfolding attach_finalizer
  attach_finalizer-Keeps c h v = flag-Good c w.attach_raises h v

  log_info-Keeps : Keeps (log_info w)
  unfolding log_info
  log_info-Keeps c h v = flag-Good c w.info_raises h v

  activate-Keeps : (token : Option ℕ) → Keeps (activate w token)
  unfolding activate
  activate-Keeps token c h v =
      let (p, raised) = activate_token w token c.service in
      flag-Good (record c { service = p }) raised h v

  publish_as-Keeps : (o : Publication) → Keeps (publish_as w o)
  publish_as-Keeps returns c h v = (inr (refl, v), v)
  publish_as-Keeps raises c h v = h
  publish_as-Keeps raises_published c h v = inr (refl, v)

  register_blueprint-Keeps : (enabled : Bool) → Keeps (register_blueprint w enabled)
  unfolding register_blueprint
  register_blueprint-Keeps true c h v = publish_as-Keeps w.publication c h v
  register_blueprint-Keeps false c h v = (h, v)

  written-IsVisible : (cli : Bool) → IsVisible (written cli true)
  written-IsVisible cli = (
    get-put_self (with_cli cli s.app).extensions extension_key w.runtime_id,
    rw (with_cli-id cli s.app) (member-add s.id s.applications),
  )

  publish_runtime-written :
      (c : Commit)
      → c.site ≡ written c.cli_added false
      → (publish_runtime w c).0.site ≡ written c.cli_added true
  unfolding publish_runtime
  publish_runtime-written c e = rw (e, with_cli-id c.cli_added s.app) refl

  -- A commit that may publish the Runtime.
  abbrev pub Opens : Commit → Type 0
  Opens c =
      (c.site ≡ written c.cli_added false) × (c.blueprint_published ≡ false) × IsFresh c.cli_added

  IsVisible-of : (t : Site) (cli : Bool) → t ≡ written cli true → IsVisible t
  IsVisible-of t cli e = rw e (written-IsVisible cli)

  publish_runtime-Good : (c : Commit) → Opens c → Good (publish_runtime w c)
  unfolding publish_runtime
  publish_runtime-Good c (e, unpublished, fresh) =
      let same = publish_runtime-written c e in
      (inl (unpublished, same, fresh), IsVisible-of (publish_runtime w c).0.site c.cli_added same)

  abbrev pub begin : Option Process → Commit
  begin p = record {
    site = s;
    service = p;
    cli_added = false;
    application_added = false;
    blueprint_published = false;
  }

  -- the command is added
  abbrev pub begin_added : Option Process → Commit
  begin_added p = record (begin p) { site = written true false; cli_added = true }

  register_cli-begin :
      (p : Option Process)
      → (register_cli w (begin p) ≡ (begin p, true))
        ⊎ (register_cli w (begin p) ≡ (begin p, false))
        ⊎ (Dict.get s.commands (text "xxljob") ≡ none)
          × (register_cli w (begin p) ≡ (begin_added p, false))
  unfolding register_cli
  register_cli-begin p = elim (Bool-cases (is_cli_available w s.app)) [
    | inl e ↦ elim (Option-cases (Dict.get s.commands (text "xxljob"))) [
      | inl absent ↦ elim (Bool-cases w.add_command_raises) [
        | inl r ↦ inl (rw (e, absent, r) refl)
        | inr r ↦ inr (inr (absent, rw (e, absent, r) refl))
      ]
      | inr (n, present) ↦ inr (inl (rw (e, present) refl))
    ]
    | inr e ↦ inl (rw e refl)
  ]

  begin-Good : (p : Option Process) → Good ((register_cli w >> publish_runtime w) (begin p))
  begin-Good p = elim (register_cli-begin p) [
    | inl e ↦ rw e (inl (refl, refl, tt))
    | inr (inl e) ↦ rw e (publish_runtime-Good (begin p) (refl, refl, tt))
    | inr (inr (absent, e)) ↦ rw e (publish_runtime-Good (begin_added p) (refl, refl, absent))
  ]

  pub commit-Good :
      (enabled : Bool) (token : Option ℕ) (p : Option Process)
      → Good (commit w enabled token (begin p))
  unfolding commit
  commit-Good enabled token p =
      let step1 = register_cli w >> publish_runtime w in
      let step2 = step1 >> attach_finalizer w in
      let step3 = step2 >> register_blueprint w enabled in
      let step4 = step3 >> activate w token in
      let good2 =
        >>-Keeps step1 (attach_finalizer w) (begin p) (begin-Good p) attach_finalizer-Keeps in
      let good3 =
        >>-Keeps step2 (register_blueprint w enabled) (begin p) good2
          (register_blueprint-Keeps enabled) in
      let good4 = >>-Keeps step3 (activate w token) (begin p) good3 (activate-Keeps token) in
      >>-Keeps step4 (log_info w) (begin p) good4 log_info-Keeps
