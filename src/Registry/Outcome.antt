-- ===== src/Registry/Outcome.antt =====
-- registry_service.py: what a result leaves in the status snapshot.
use flask_xxljob.Base.{Bool, true, false, none, some, Text, text, if◌then◌else◌}
use mathlib.Core.Option
use flask_xxljob.Client.Result.{CallResult, config, lifecycle, exception, message, local_failure}
use flask_xxljob.Registry.State.{Process}

-- `_safe_result`
unfoldable pub safe_result : (Text → Text) → CallResult → CallResult
safe_result redact r = record r { msg = Option.map redact r.msg; error = Option.map redact r.error }

-- The `operation` argument of `_record_result_locked`.
pub data Kind : Type 0 where
  worker register remove local : Kind

-- Lines 187 to 196: the registered flag after a result.
unfoldable pub next_registered : Kind → Bool → Bool → Bool
next_registered worker success old = success
next_registered register success old = if success then true else old
next_registered remove success old = if success then false else old
next_registered local success old = old

-- `_record_result_locked`, at the time `now`
unfoldable pub record_result : Process → CallResult → Kind → Text → Process
unfolding safe_result next_registered message
record_result p result kind now =
    let safe : CallResult = safe_result p.redact result in
    record p {
      state = record p.state {
        snapshot = record {
          registered = next_registered kind safe.success p.registered;
          last_result = some safe;
          last_error = if safe.success then none else some safe;
          last_registry_time = some now;
          last_registry_success = some safe.success;
          last_registry_admin_address = safe.address;
          last_registry_error_type = safe.error_type;
          last_registry_message = message safe;
        };
      };
    }

-- `_unexpected_result`: the name of the exception's type is the argument.
abbrev pub unexpected_result : Text → Text → CallResult
unexpected_result error type_name = local_failure error (exception type_name)

abbrev pub registration_error : Text
registration_error = text "Unexpected error during XXL-JOB executor registration."

abbrev pub removal_error : Text
removal_error = text "Unexpected error during XXL-JOB executor removal."

-- `_disabled_result`
abbrev pub disabled_result : CallResult
disabled_result = local_failure (text "Flask-XXLJob is disabled.") config

-- `_internal_operation_result`
abbrev pub internal_operation_result : Text → CallResult
internal_operation_result m = local_failure m lifecycle
