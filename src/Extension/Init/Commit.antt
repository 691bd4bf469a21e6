-- ===== src/Extension/Init/Commit.antt =====
-- flask_xxljob/extension.py: the commit of `init_app`, its cleanup, and the whole of it.
use flask_xxljob.Base.{
  ℕ, Bool, true, false, not, ◌&&◌, Option, none, some, is_some, holds, text, if◌then◌else◌,
}
use mathlib.Core.Option
use flask_xxljob.Base.Dict
use flask_xxljob.Base.Dict.{Dict, text_key}
use flask_xxljob.Config.Address.{Platform}
use flask_xxljob.Config.Load.{XxlJobConfig}
use flask_xxljob.Registry.State.{Process, add, discard}
use flask_xxljob.Registry.Lifecycle.{
  Activation, activated, cancelled, activate_prepared_start, cancel_prepared_start, settle_prepared,
}
use flask_xxljob.Extension.{App, Site, Resources, extension_key, Refusal}
use flask_xxljob.Extension.Init.{
  replace, Publication, returns, raises, raises_published, Around, blueprint_name, is_cli_available,
  Preflight, refuse, ready, preflight, prepare,
}

-- lines 308 to 331
abbrev pub cancel_token : Option Process → Option ℕ → Option Process
cancel_token (some p) (some t) = some (cancel_prepared_start t p).0
cancel_token p _ = p

-- `finalizer.detach()`, `log_manager.close()`
abbrev pub turn_off : Option Bool → Option Bool
turn_off none = none
turn_off (some b) = some false

-- lines 348 to 355
abbrev pub remove_cli : Around → Bool → App → App
remove_cli w cli_added a =
    if cli_added && holds (Dict.get a.commands (text "xxljob")) w.xxljob_cli
    then record a { commands = Dict.delete a.commands (text "xxljob") }
    else a

-- lines 364 to 373
abbrev pub same_object : Option ℕ → Option ℕ → Bool
same_object none b = false
same_object (some a) b = holds b a

abbrev pub remove_runtime : Option ℕ → App → App
remove_runtime runtime a =
    if same_object runtime (Dict.get a.extensions extension_key)
    then record a { extensions = Dict.delete a.extensions extension_key }
    else a

-- `_close_uncommitted_runtime_resources`: what is left of the resources, and the site
unfoldable pub close_resources : Resources → Resources
close_resources r = record r {
  registry_service = cancel_token r.registry_service r.prepared;
  finalizer = turn_off r.finalizer;
  log_manager = turn_off r.log_manager;
}

unfoldable pub close_site : Around → Resources → Bool → Bool → Site → Site
close_site w r cli_added application_added s = record s {
  app = remove_runtime r.runtime (remove_cli w cli_added s.app);
  applications = if application_added then discard s.id s.applications else s.applications;
}

-- The variables of the commit.
pub record Commit : Type 0 where
  pub site : Site
  pub service : Option Process
  pub cli_added : Bool
  pub application_added : Bool
  pub blueprint_published : Bool

-- A step of the commit: its state, and whether it raised.
abbrev pub Action : Type 0
Action = Commit → Commit × Bool

infixl 5 ◌>>◌
abbrev pub ◌>>◌ : Action → Action → Action
(m >> k) c = let (d, raised) = m c in if raised then (d, true) else k d

module _ (w : Around) where
  abbrev pub with_app : (App → App) → Commit → Commit
  with_app f c = record c { site = record c.site { app = f c.site.app } }

  -- `_register_cli`: whether a command was added
  unfoldable pub register_cli : Action
  register_cli c =
      if not (is_cli_available w c.site.app)
      then (c, true)
      else if is_some (Dict.get c.site.commands (text "xxljob"))
      then (c, false)
      else if w.add_command_raises
      then (c, true)
      else (record (with_app add_command c) { cli_added = true }, false)
    where
      add_command : App → App
      add_command a = record a { commands = Dict.put a.commands (text "xxljob") w.xxljob_cli }

  -- lines 219 to 223; other Threads can reach the service from here on
  unfoldable pub publish_runtime : Action
  publish_runtime c = (
    record c {
      site = record c.site {
        app = record c.site.app {
          extensions = Dict.put c.site.extensions extension_key w.runtime_id;
        };
        applications = add c.site.id c.site.applications;
      };
      service = Option.map w.meanwhile c.service;
      application_added = true;
    },
    false,
  )

  -- line 227
  unfoldable pub attach_finalizer : Action
  attach_finalizer c = (c, w.attach_raises)

  -- lines 229 to 244
  abbrev pub publish_blueprint : Commit → Commit
  publish_blueprint c =
      record (with_app
        (λ a. record a { blueprints = Dict.put a.blueprints (blueprint_name a) w.blueprint_id })
        c) { blueprint_published = true }

  abbrev pub publish_as : Publication → Action
  publish_as returns c = (publish_blueprint c, false)
  publish_as raises c = (c, true)
  publish_as raises_published c = (publish_blueprint c, true)

  unfoldable pub register_blueprint : Bool → Action
  register_blueprint enabled c = if enabled then publish_as w.publication c else (c, false)

  -- lines 246 to 250
  abbrev pub activation_raises : Activation → Bool
  activation_raises activated = false
  activation_raises cancelled = false
  activation_raises _ = true

  abbrev pub activate_token : Option ℕ → Option Process → Option Process × Bool
  activate_token (some t) (some p) =
      let (q, a) = activate_prepared_start t p in (some q, activation_raises a)
  activate_token none p = (p, false)
  activate_token (some t) none = (none, false)

  unfoldable pub activate : Option ℕ → Action
  activate token c =
      let (p, raised) = activate_token token c.service in (record c { service = p }, raised)

  -- lines 252 to 261
  unfoldable pub log_info : Action
  log_info c = (c, w.info_raises)

  -- lines 218 to 261
  unfoldable pub commit : Bool → Option ℕ → Action
  commit enabled token =
      register_cli
      >> publish_runtime
      >> attach_finalizer
      >> register_blueprint enabled
      >> activate token
      >> log_info

-- How `init_app` ends: refused by the preflight, failed and closed, failed after the Blueprint was
-- published, failed with an exception of the logger before the cleanup, or initialized. The last four have the resources of the call.
pub data InitOutcome : Type 0 where
  refused : Refusal → InitOutcome
  failed failed_published unclosed initialized : Resources → InitOutcome

-- `_settle_prepared_after_publish_failure`, whose Event is set in the end
abbrev pub settle_token : Option Process → Option ℕ → Option Process
settle_token (some p) (some t) = some (settle_prepared true t p)
settle_token p _ = p

-- lines 262 to 292
abbrev pub with_service : Resources → Option Process → Resources
with_service r p = record r { registry_service = p }

unfoldable pub conclude : Around → Resources → Commit × Bool → Site × InitOutcome
unfolding close_resources close_site
conclude w r (c, false) = (c.site, initialized (with_service r c.service))
conclude w r (c, true) =
    if w.exception_raises
    then (c.site, unclosed (with_service r c.service))
    else if c.blueprint_published
    then (c.site, failed_published (with_service r (settle_token c.service r.prepared)))
    else (
      close_site w r c.cli_added c.application_added (replace w.replacement c.site),
      failed (close_resources (with_service r c.service)),
    )

abbrev pub after_prepare : Around → XxlJobConfig → Site → Resources × Bool → Site × InitOutcome
after_prepare w c s (r, true) =
    if w.exception_raises
    then (s, unclosed r)
    else (close_site w r false false (replace w.replacement s), failed (close_resources r))
after_prepare w c s (r, false) = conclude w r (
    commit w c.enabled r.prepared (record {
      site = s;
      service = r.registry_service;
      cli_added = false;
      application_added = false;
      blueprint_published = false;
    }))

abbrev pub after_preflight : Platform → Around → Site → Preflight → Site × InitOutcome
after_preflight p w s (refuse e) = (s, refused e)
after_preflight p w s (ready c) = after_prepare w c s (prepare p w s.deferred_callbacks c)

-- `FlaskXXLJob.init_app`
unfoldable pub init_app : Platform → Around → Site → Site × InitOutcome
unfolding conclude
init_app p w s = after_preflight p w s (preflight p w s.app)
