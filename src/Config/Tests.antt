-- ===== src/Config/Tests.antt =====
-- flask_xxljob/config.py: a configuration that is loaded, and its witnesses.
use flask_xxljob.Base.{
  ◌++◌, ◌+◌, ◌-◌, ◌^◌, pos, true, false, ◌≡◌, refl, none, [], ◌∷◌, is_empty, Text, text, text_eq,
  is_space, strip,
}
use flask_xxljob.Base.Dict
use flask_xxljob.Base.Dict.{Dict, text_key}
use flask_xxljob.Client.Post.{join_url}
use flask_xxljob.Model.Value.{finite}
use flask_xxljob.Config.{flag, number, string, Setting, atom, ok, invalid, unexpected, bad_choice}
use flask_xxljob.Config.Keys.{Key, key_name, default_of, merged}
use flask_xxljob.Config.Readers.{
  log_levels, as_bool, as_str_strict, as_str, as_non_empty_str, upper_char, as_choice, as_str_list,
  as_positive_int, as_non_negative_int, finite_or_overflow, to_float, as_non_negative_float,
}
use flask_xxljob.Config.Prefix.{is_blank, is_forbidden, normalize_prefix}
use flask_xxljob.Config.Address.{
  is_alnum, is_label, is_valid_hostname, is_http, validate_http_url, normalize_address,
  apply_route_prefix,
}
use flask_xxljob.Config.Address.Laws.{apply_route_prefix-append}
use flask_xxljob.Config.Load.{
  validate_removed_configs, read_limits, read_failover, read_log, read_addresses,
  validate_log_encoding, validate_log_format, validate, build, from_mapping,
}
use flask_xxljob.Config.Loaded.{IsInRange, from_mapping-IsInRange, from_mapping-disabled}
use flask_xxljob.Config.Sample.{python, settings, loaded}
use flask_xxljob.Config.Validate.{validate_registry}
use flask_xxljob.Config.Validate.Laws.{validate_registry_complete}

from_mapping-settings : from_mapping python settings ≡ ok loaded
unfolding from_mapping merged key_name default_of Dict.get text_eq as_bool as_str_strict as_str
    as_non_empty_str upper_char as_choice as_str_list as_positive_int as_non_negative_int
    finite_or_overflow to_float as_non_negative_float is_space is_blank is_forbidden
    normalize_prefix is_alnum is_label is_valid_hostname is_http validate_http_url normalize_address
    apply_route_prefix join_url strip validate_removed_configs read_limits read_failover read_log
    read_addresses validate_log_encoding validate_log_format validate build
from_mapping-settings = refl

from_mapping-IsInRange_example : IsInRange python loaded
from_mapping-IsInRange_example = from_mapping-IsInRange python settings loaded from_mapping-settings

validate_registry_complete_example : validate_registry python loaded ≡ ok tt
validate_registry_complete_example =
    validate_registry_complete python settings loaded from_mapping-settings refl refl refl refl

-- 10 to the power of 400
abbrev huge : Dict Text Setting
huge = (text "XXL_JOB_ADMIN_RETRY_BACKOFF", atom (number (pos (10 ^ 400)))) ∷ []

-- A format that `Formatter.format` answers with an `OverflowError`.
abbrev thread : Dict Text Setting
thread = (text "XXL_JOB_LOG_FORMAT", atom (string (text "%(thread)c"))) ∷ []

from_mapping-thread : from_mapping python thread ≡ unexpected
unfolding from_mapping merged key_name default_of Dict.get text_eq as_bool as_str_strict as_str
    as_non_empty_str upper_char as_choice as_str_list as_positive_int as_non_negative_int
    finite_or_overflow to_float as_non_negative_float is_space is_blank is_forbidden
    normalize_prefix is_alnum is_label is_valid_hostname is_http validate_http_url normalize_address
    apply_route_prefix join_url strip validate_removed_configs read_limits read_failover read_log
    read_addresses validate_log_encoding validate_log_format validate build
from_mapping-thread = refl

abbrev off : Dict Text Setting
off =
    (text "XXL_JOB_ENABLED", atom (flag false))
    ∷ (text "XXL_JOB_EXECUTOR_ADDRESS", atom (string (text "no address")))
    ∷ []

off_is_disabled : merged off Key.enabled ≡ atom (flag false)
unfolding merged key_name Dict.get text_eq
off_is_disabled = refl

from_mapping-disabled_example :
    from_mapping
      (record python {
        urlsplit = λ s. none;
        is_ip_address = λ s. true;
        idna = λ s. none;
        is_digit = λ c. true;
      })
      off
    ≡ from_mapping python off
from_mapping-disabled_example =
    from_mapping-disabled python off (λ s. none) (λ s. true) (λ s. none) (λ c. true) off_is_disabled

normalize_prefix_job : normalize_prefix (text "job/v1/") ≡ ok (text "/job/v1")
unfolding normalize_prefix is_forbidden is_blank is_space text_eq
normalize_prefix_job = refl

normalize_address_app : is_empty (normalize_address (text "http://app//")) ≡ false
unfolding normalize_address
normalize_address_app = refl

apply_route_prefix-append_example :
    apply_route_prefix (normalize_address (text "http://app//")) (text "/job/v1")
    ≡ normalize_address (text "http://app//") ++ text "/job/v1"
apply_route_prefix-append_example =
    apply_route_prefix-append (text "http://app//") (text "job/v1/") (text "/job/v1")
      normalize_prefix_job normalize_address_app

as_choice_refuses :
    as_choice log_levels (text "K") (atom (string (text "verbose")))
    ≡ invalid (bad_choice (text "K") (text "verbose"))
unfolding as_choice as_str upper_char text_eq
as_choice_refuses = refl

to_float_rounds :
    (to_float (2 ^ 53 + 1) ≡ ok (finite (pos (2 ^ 52)) 1 0))
    × (to_float (2 ^ 1024 - 2 ^ 970) ≡ unexpected)
    × (to_float (2 ^ 1024 - 2 ^ 970 - 1) ≡ ok (finite (pos (2 ^ 53 - 1)) 971 0))
unfolding to_float finite_or_overflow
to_float_rounds = (refl, refl, refl)
