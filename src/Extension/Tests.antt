-- ===== src/Extension/Tests.antt =====
-- flask_xxljob/extension.py: applications, and the witnesses.
use flask_xxljob.Base.{
  ℕ, pos, ◌+◌, ◌==◌, true, false, ◌≡◌, refl, none, some, [], ◌∷◌, Text, text, text_eq, is_space,
  strip, inl, if◌then◌else◌, ◌⊎◌,
}
use flask_xxljob.Base.Dict
use flask_xxljob.Base.Dict.{text_key}
use flask_xxljob.Client.Result.{CallResult, local_failure, config}
use flask_xxljob.Client.Post.{join_url}
use flask_xxljob.Client.Callback.{Sent, not_sent}
use flask_xxljob.Model.Value.{Values, int, null}
use flask_xxljob.Callback
use flask_xxljob.Callback.{
  CallbackRegistry, callable, name, mapping, get_run, seed_from, or_else, validate_executor_handler,
  validate_callback, register_run_item, register_run, validate_single,
}
use flask_xxljob.Callback.Items.{requested_run, requested_func}
use flask_xxljob.Config.Keys.{key_name, default_of, merged}
use flask_xxljob.Config.Readers.{
  as_bool, as_str_strict, as_str, as_non_empty_str, upper_char, as_choice, as_str_list,
  as_positive_int, as_non_negative_int, finite_or_overflow, to_float, as_non_negative_float,
}
use flask_xxljob.Config.Prefix.{is_blank, is_forbidden, normalize_prefix}
use flask_xxljob.Config.Address.{
  is_alnum, is_label, is_valid_hostname, is_http, validate_http_url, normalize_address,
  apply_route_prefix,
}
use flask_xxljob.Config.Load.{
  validate_removed_configs, read_limits, read_failover, read_log, read_addresses,
  validate_log_encoding, validate_log_format, validate, build, from_mapping,
}
use flask_xxljob.Config.Validate.{validate_registry, validate_values}
use flask_xxljob.Config.Sample.{python, settings, loaded}
use flask_xxljob.Logging.{redact_text}
use flask_xxljob.Registry.State.{add, discard}
use flask_xxljob.Registry.Sample.{heap, fresh, accepted}
use flask_xxljob.Registry.Lifecycle.{
  prepare_start, publish_prepared, activate_prepared_start, stop_local, commit_activation,
  commit_generation, detach_coordination, cancel_pending, wait_for_active, settle_prepared,
  cancel_prepared_start,
}
use flask_xxljob.Extension.{Callbacks, Site, Resources, no_resources, already_initialized}
use flask_xxljob.Extension.Application.{executor_paths, route_conflicts}
use flask_xxljob.Extension.Init.{
  ready, Around, nothing_replaced, runtime_replaced, raises, returns, raises_published, Publication,
  blueprint_name, is_cli_available, preflight, check_flask, prepare,
}
use flask_xxljob.Extension.Init.Commit.{
  InitOutcome, unclosed, refused, failed, failed_published, initialized, init_app, conclude,
  close_resources, close_site, commit, register_cli, publish_runtime, attach_finalizer,
  register_blueprint, activate, log_info,
}
use flask_xxljob.Extension.Transaction.{AsPromised, init_app-AsPromised, init_app-init_app}
use flask_xxljob.Registry.Steps.{Steps}
use flask_xxljob.Extension.Completion.{IsQuiet, init_app-completes}
use flask_xxljob.Extension.Seeding.{on_run-init_app}
use flask_xxljob.Extension.Starting.{is_renewing, init_app-starts}
use flask_xxljob.Extension.Facade.{
  Extension, Runtime, Answer, ok, registry_of, resolve_app, get_runtime, target_registry,
  registry_for, read_target, write_target, register_on, register_callbacks, on_run, require_int,
}
use flask_xxljob.Extension.Facade.Laws.{register_callbacks-reaches}
use flask_xxljob.Extension.Services.{callback_of}
use flask_xxljob.Extension.Services.Laws.{IsInt, callback_of-ok}

abbrev around : Publication → Around
around publication = record {
  runtime_id = 50;
  blueprint_id = 51;
  xxljob_cli = 1;
  log_manager_raises = false;
  service_raises = false;
  runtime_raises = false;
  thread_starts = true;
  finalizer_raises = false;
  add_command_raises = false;
  attach_raises = false;
  publication = publication;
  info_raises = false;
  exception_raises = false;
  meanwhile = λ p. p;
  replacement = nothing_replaced;
  pid = 7;
  heap = heap;
  patterns = record { private_key = λ s. s; sensitive_assignment = λ s. s };
}

abbrev site : Site
site = record {
  app = record {
    id = 9;
    app_name = text "demo.app";
    config = settings;
    rules = (text "/run", true) ∷ [];
    blueprints = [];
    commands = [];
    extensions = [];
  };
  applications = 4 ∷ [];
  deferred_callbacks = Callback.empty_registry;
}

-- The Blueprint is refused, and meanwhile another Thread has replaced the Runtime.
abbrev replaced : Around
replaced = record (around raises) { replacement = runtime_replaced 77 }

init_app-AsPromised_example : AsPromised replaced site (init_app python replaced site)
init_app-AsPromised_example = init_app-AsPromised python replaced site refl refl

abbrev resources_of : InitOutcome → Resources
resources_of (initialized r) = r
resources_of (failed_published r) = r
resources_of (failed r) = r
resources_of (unclosed r) = r
resources_of (refused e) = no_resources

init_app_returns :
    (init_app python (around returns) site).1
    ≡ initialized (resources_of (init_app python (around returns) site).1)
unfolding init_app preflight check_flask prepare conclude close_resources close_site commit
    register_cli publish_runtime attach_finalizer register_blueprint activate log_info
    blueprint_name is_cli_available executor_paths route_conflicts validate_registry validate_values
    prepare_start publish_prepared activate_prepared_start stop_local commit_activation
    commit_generation detach_coordination cancel_pending wait_for_active settle_prepared
    cancel_prepared_start redact_text add discard Dict.has Dict.put Dict.delete from_mapping merged
    key_name default_of Dict.get text_eq as_bool as_str_strict as_str as_non_empty_str upper_char
    as_choice as_str_list as_positive_int as_non_negative_int finite_or_overflow to_float
    as_non_negative_float is_space is_blank is_forbidden normalize_prefix is_alnum is_label
    is_valid_hostname is_http validate_http_url normalize_address apply_route_prefix join_url strip
    validate_removed_configs read_limits read_failover read_log read_addresses validate_log_encoding
    validate_log_format validate build
init_app_returns = refl

init_app-init_app_example :
    init_app python (around raises_published) (init_app python (around returns) site).0
    ≡ ((init_app python (around returns) site).0, refused already_initialized)
init_app-init_app_example =
    init_app-init_app python python (around returns) (around raises_published) site
      (resources_of (init_app python (around returns) site).1) (inl init_app_returns)

-- A Blueprint that is published by a call that raises, with its Runtime.
init_app_raises_published :
    (init_app python (around raises_published) site).0.app.extensions ≡ (text "xxljob", 50) ∷ []
unfolding init_app preflight check_flask prepare conclude close_resources close_site commit
    register_cli publish_runtime attach_finalizer register_blueprint activate log_info
    blueprint_name is_cli_available executor_paths route_conflicts validate_registry validate_values
    prepare_start publish_prepared activate_prepared_start stop_local commit_activation
    commit_generation detach_coordination cancel_pending wait_for_active settle_prepared
    cancel_prepared_start redact_text add discard Dict.has Dict.put Dict.delete from_mapping merged
    key_name default_of Dict.get text_eq as_bool as_str_strict as_str as_non_empty_str upper_char
    as_choice as_str_list as_positive_int as_non_negative_int finite_or_overflow to_float
    as_non_negative_float is_space is_blank is_forbidden normalize_prefix is_alnum is_label
    is_valid_hostname is_http validate_http_url normalize_address apply_route_prefix join_url strip
    validate_removed_configs read_limits read_failover read_log read_addresses validate_log_encoding
    validate_log_format validate build
init_app_raises_published = refl

-- Runs, idleBeats, kills and logs are numbers here.
abbrev runtime : Runtime ℕ ℕ ℕ ℕ
runtime = record {
  config = loaded;
  callback_registry = Callback.empty_registry;
  registry_service = fresh;
  log_file = none;
}

abbrev two_apps : Extension ℕ ℕ ℕ ℕ
two_apps = record {
  applications = 1 ∷ 2 ∷ [];
  deferred_callbacks = Callback.empty_registry;
  context = none;
  runtimes = λ app. if app == 1 then some runtime else if app == 2 then some runtime else none;
}

abbrev extension_of : Answer (Extension ℕ ℕ ℕ ℕ) → Extension ℕ ℕ ℕ ℕ
extension_of (ok e) = e
extension_of (Answer.raised x) = two_apps

abbrev registered : Answer (Extension ℕ ℕ ℕ ℕ)
registered =
    register_callbacks two_apps (some 1) (some (mapping ((name (text "job"), callable 5) ∷ [])))
      none (some (callable 6)) none false

registered_ok : registered ≡ ok (extension_of registered)
unfolding register_callbacks register_on registry_for get_runtime resolve_app target_registry
    read_target write_target Callback.register_callbacks validate_executor_handler validate_callback
    register_run_item register_run validate_single strip is_space text_eq Dict.has Dict.put Dict.get
registered_ok = refl

register_callbacks-reaches_example :
    ((s : Text)
      → get_run (read_target (extension_of registered) (registry_of 1)) s
        ≡ or_else
            (requested_run (some (mapping ((name (text "job"), callable 5) ∷ []))) s)
            (get_run (read_target two_apps (registry_of 1)) s))
    × ((read_target (extension_of registered) (registry_of 1)).idle_beat
        ≡ or_else (requested_func none) (read_target two_apps (registry_of 1)).idle_beat)
    × ((read_target (extension_of registered) (registry_of 1)).kill
        ≡ or_else (requested_func (some (callable 6))) (read_target two_apps (registry_of 1)).kill)
    × ((read_target (extension_of registered) (registry_of 1)).log
        ≡ or_else (requested_func none) (read_target two_apps (registry_of 1)).log)
    × ((extension_of registered).runtimes 2 ≡ two_apps.runtimes 2)
    × ((extension_of registered).deferred_callbacks ≡ two_apps.deferred_callbacks)
register_callbacks-reaches_example =
    register_callbacks-reaches two_apps (extension_of registered) 1 2
      (some (mapping ((name (text "job"), callable 5) ∷ []))) none (some (callable 6)) none false
      refl registered_ok

abbrev no_apps : Extension ℕ ℕ ℕ ℕ
no_apps = record two_apps { applications = [] }

abbrev waiting : Answer (Extension ℕ ℕ ℕ ℕ)
waiting = on_run no_apps (name (text "job")) (callable 5)

waiting_ok : waiting ≡ ok (extension_of waiting)
unfolding on_run register_callbacks register_on registry_for get_runtime resolve_app target_registry
    read_target write_target Callback.register_callbacks validate_executor_handler validate_callback
    register_run_item register_run validate_single strip is_space text_eq Dict.has Dict.put Dict.get
waiting_ok = refl

abbrev seeded_site : Site
seeded_site = record site { deferred_callbacks = (extension_of waiting).deferred_callbacks }

seeded_site_returns :
    (init_app python (around returns) seeded_site).1
    ≡ initialized (resources_of (init_app python (around returns) seeded_site).1)
unfolding init_app preflight check_flask prepare conclude close_resources close_site commit
    register_cli publish_runtime attach_finalizer register_blueprint activate log_info
    blueprint_name is_cli_available executor_paths route_conflicts validate_registry validate_values
    prepare_start publish_prepared activate_prepared_start stop_local commit_activation
    commit_generation detach_coordination cancel_pending wait_for_active settle_prepared
    cancel_prepared_start redact_text add discard Dict.has Dict.put Dict.delete from_mapping merged
    key_name default_of Dict.get text_eq as_bool as_str_strict as_str as_non_empty_str upper_char
    as_choice as_str_list as_positive_int as_non_negative_int finite_or_overflow to_float
    as_non_negative_float is_space is_blank is_forbidden normalize_prefix is_alnum is_label
    is_valid_hostname is_http validate_http_url normalize_address apply_route_prefix join_url strip
    validate_removed_configs read_limits read_failover read_log read_addresses validate_log_encoding
    validate_log_format validate build
seeded_site_returns = refl

on_run-init_app_example :
    (c : Callbacks) × ((resources_of
        (init_app python (around returns) seeded_site).1).callback_registry
      ≡ some c)
    × (get_run c (text "job") ≡ some 5)
on_run-init_app_example =
    on_run-init_app no_apps (extension_of waiting) (text "job") 5 python (around returns)
      seeded_site (resources_of (init_app python (around returns) seeded_site).1) refl refl
      waiting_ok refl seeded_site_returns

abbrev post : ℕ → Values → CallResult
post app sent = accepted

abbrev called : Answer Sent
called = callback_of post two_apps (int (pos 1)) (int (pos 2)) (int (pos 200)) null (some 1)

abbrev sent_of : Answer Sent → Sent
sent_of (ok x) = x
sent_of (Answer.raised e) = not_sent accepted

called_ok : called ≡ ok (sent_of called)
unfolding callback_of get_runtime resolve_app require_int
called_ok = refl

callback_of-ok_example :
    (found : ℕ × Runtime ℕ ℕ ℕ ℕ) × (get_runtime two_apps (some 1) ≡ ok found)
    × ((found.1.config.enabled ≡ true)
          × IsInt (int (pos 1))
          × IsInt (int (pos 2))
          × IsInt (int (pos 200))
        ⊎ (found.1.config.enabled ≡ false)
          × (sent_of called ≡ not_sent (local_failure (text "Flask-XXLJob is disabled.") config)))
callback_of-ok_example =
    callback_of-ok post two_apps (int (pos 1)) (int (pos 2)) (int (pos 200)) null (some 1)
      (sent_of called) called_ok

quiet : IsQuiet (around returns)
quiet = record {
  log_manager = refl;
  service = refl;
  runtime = refl;
  thread = refl;
  finalizer = refl;
  add_command = refl;
  attach = refl;
  blueprint = refl;
  info = refl;
}

preflight_ready : preflight python (around returns) site.app ≡ ready loaded
unfolding init_app preflight check_flask prepare conclude close_resources close_site commit
    register_cli publish_runtime attach_finalizer register_blueprint activate log_info
    blueprint_name is_cli_available executor_paths route_conflicts validate_registry validate_values
    prepare_start publish_prepared activate_prepared_start stop_local commit_activation
    commit_generation detach_coordination cancel_pending wait_for_active settle_prepared
    cancel_prepared_start redact_text add discard Dict.has Dict.put Dict.delete from_mapping merged
    key_name default_of Dict.get text_eq as_bool as_str_strict as_str as_non_empty_str upper_char
    as_choice as_str_list as_positive_int as_non_negative_int finite_or_overflow to_float
    as_non_negative_float is_space is_blank is_forbidden normalize_prefix is_alnum is_label
    is_valid_hostname is_http validate_http_url normalize_address apply_route_prefix join_url strip
    validate_removed_configs read_limits read_failover read_log read_addresses validate_log_encoding
    validate_log_format validate build
preflight_ready = refl

init_app-completes_example :
    (q : Resources) × ((init_app python (around returns) site).1 ≡ initialized q)
init_app-completes_example =
    init_app-completes (around returns) (λ p. Steps.stay) quiet python site loaded preflight_ready

init_app-starts_example :
    (q : Resources) × ((init_app python (around returns) site).1 ≡ initialized q)
    × (is_renewing q.registry_service (around returns).heap.next ((around returns).heap.next + 1)
        ≡ true)
init_app-starts_example =
    init_app-starts (around returns) (λ p. refl) quiet python site loaded preflight_ready refl
