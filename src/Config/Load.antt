-- ===== src/Config/Load.antt =====
-- flask_xxljob/config.py: `XXLJobConfig.from_mapping` and `validate`. The reads are in the order of
-- the code, in groups.
use flask_xxljob.Base.{
  ℤ, Bool, true, false, not, Option, none, some, List, [], ◌∷◌, map, is_empty, strip, Text, text,
  if◌then◌else◌,
}
use flask_xxljob.Base.Dict
use flask_xxljob.Base.Dict.{Dict, text_key}
use flask_xxljob.Model.Value.{Float}
use flask_xxljob.Config.{
  flag, Setting, atom, removed_option, bad_encoding, bad_format, ConfigError, Result, ok, invalid,
  unexpected, ◌>>=◌,
}
use flask_xxljob.Config.Keys.{Key, key_name, merged}
use flask_xxljob.Config.Readers.{
  as_bool, as_str_strict, as_str, as_non_empty_str, as_choice, log_levels, as_str_list,
  as_positive_int, as_non_negative_int, as_non_negative_float,
}
use flask_xxljob.Config.Prefix.{normalize_prefix}
use flask_xxljob.Config.Address.{
  Check, passes, refused, raises, Platform, validate_http_url, normalize_address,
  apply_route_prefix,
}

pub record XxlJobConfig : Type 0 where
  pub enabled : Bool
  pub admin_addresses : List Text
  pub access_token : Text
  pub executor_app_name : Text
  pub executor_address : Text
  pub route_prefix : Text
  pub auto_register : Bool
  pub deregister_on_exit : Bool
  pub registry_interval : ℤ
  pub http_connect_timeout : ℤ
  pub http_read_timeout : ℤ
  pub callback_message_max_length : ℤ
  pub max_request_size : ℤ
  pub max_param_length : ℤ
  pub callback_batch_max_size : ℤ
  pub admin_retry_count : ℤ
  pub admin_retry_backoff : Float
  pub admin_failover_on_http_error : Bool
  pub admin_failover_on_invalid_json : Bool
  pub admin_failover_on_business_error : Bool
  pub log_enabled : Bool
  pub log_file_enabled : Bool
  pub log_console_enabled : Bool
  pub log_level : Text
  pub log_format : Text
  pub log_date_format : Text
  pub log_path : Text
  pub log_filename : Text
  pub log_encoding : Text
  pub log_max_bytes : ℤ
  pub log_backup_count : ℤ
  pub log_propagate : Bool

-- `_validate_removed_configs`
abbrev pub removed_value : Setting → Option Bool
removed_value (atom (flag b)) = some b
removed_value _ = none

unfoldable pub validate_removed_configs : Dict Text Setting → Result {0} Unit
validate_removed_configs config = elim (Dict.get config (text "XXL_JOB_AUTO_REGISTER_ON_INIT")) [
  | none ↦ ok tt
  | some v ↦ invalid (removed_option (removed_value v))
]

-- `reader(merged, key)`
abbrev pub read {ℓ} :
    {A : Type ℓ} → (Text → Setting → Result A) → Dict Text Setting → Key → Result A
read reader config k = reader (key_name k) (merged config k)

pub record Limits : Type 0 where
  pub registry_interval : ℤ
  pub http_connect_timeout : ℤ
  pub http_read_timeout : ℤ
  pub callback_message_max_length : ℤ
  pub max_request_size : ℤ
  pub max_param_length : ℤ
  pub callback_batch_max_size : ℤ
  pub admin_retry_count : ℤ
  pub admin_retry_backoff : Float

-- lines 151 to 165
unfoldable pub read_limits : Dict Text Setting → Result Limits
read_limits config = do
  interval ← read as_positive_int config Key.registry_interval
  connect ← read as_positive_int config Key.http_connect_timeout
  read_timeout ← read as_positive_int config Key.http_read_timeout
  message ← read as_positive_int config Key.callback_message_max_length
  request ← read as_positive_int config Key.max_request_size
  param ← read as_positive_int config Key.max_param_length
  batch ← read as_positive_int config Key.callback_batch_max_size
  retries ← read as_non_negative_int config Key.admin_retry_count
  backoff ← read as_non_negative_float config Key.admin_retry_backoff
  ok (record {
    registry_interval = interval;
    http_connect_timeout = connect;
    http_read_timeout = read_timeout;
    callback_message_max_length = message;
    max_request_size = request;
    max_param_length = param;
    callback_batch_max_size = batch;
    admin_retry_count = retries;
    admin_retry_backoff = backoff;
  })

pub record Failover : Type 0 where
  pub on_http_error : Bool
  pub on_invalid_json : Bool
  pub on_business_error : Bool

-- lines 166 to 174
unfoldable pub read_failover : Dict Text Setting → Result Failover
read_failover config = do
  http ← read as_bool config Key.admin_failover_on_http_error
  json ← read as_bool config Key.admin_failover_on_invalid_json
  business ← read as_bool config Key.admin_failover_on_business_error
  ok (record { on_http_error = http; on_invalid_json = json; on_business_error = business })

pub record LogSettings : Type 0 where
  pub is_on : Bool
  pub file_on : Bool
  pub console_on : Bool
  pub level : Text
  pub format : Text
  pub date_format : Text
  pub path : Text
  pub filename : Text
  pub encoding : Text
  pub max_bytes : ℤ
  pub backup_count : ℤ
  pub propagate : Bool

-- lines 175 to 190
unfoldable pub read_log : Dict Text Setting → Result LogSettings
read_log config = do
  on ← read as_bool config Key.log_enabled
  file ← read as_bool config Key.log_file_enabled
  console ← read as_bool config Key.log_console_enabled
  level ← read (as_choice log_levels) config Key.log_level
  format ← read as_non_empty_str config Key.log_format
  date_format ← read as_str_strict config Key.log_date_format
  path ← read as_non_empty_str config Key.log_path
  filename ← read as_non_empty_str config Key.log_filename
  encoding ← read as_non_empty_str config Key.log_encoding
  max_bytes ← read as_positive_int config Key.log_max_bytes
  backups ← read as_non_negative_int config Key.log_backup_count
  propagate ← read as_bool config Key.log_propagate
  ok (record {
    is_on = on;
    file_on = file;
    console_on = console;
    level = level;
    format = format;
    date_format = date_format;
    path = path;
    filename = filename;
    encoding = encoding;
    max_bytes = max_bytes;
    backup_count = backups;
    propagate = propagate;
  })

pub record Addresses : Type 0 where
  pub prefix : Text
  pub executor : Text
  pub admins : List Text

-- lines 133 to 149
unfoldable pub read_addresses : Bool → Text → Text → List Text → Result Addresses
read_addresses true raw_prefix raw_executor raw_admins = do
  route_prefix ← normalize_prefix raw_prefix
  ok (record {
    prefix = route_prefix;
    executor = apply_route_prefix (normalize_address raw_executor) route_prefix;
    admins = map normalize_address raw_admins;
  })
read_addresses false raw_prefix raw_executor raw_admins =
    ok (record { prefix = raw_prefix; executor = raw_executor; admins = raw_admins })

-- lines 121 and 194 to 227
unfoldable pub build :
    Bool → Bool → Bool → Text → Text → Addresses → Limits → Failover → LogSettings → XxlJobConfig
build on auto deregister token app_name a limits failover log = record {
  enabled = on;
  admin_addresses = a.admins;
  access_token = if is_empty (strip token) then [] else token;
  executor_app_name = app_name;
  executor_address = a.executor;
  route_prefix = a.prefix;
  auto_register = auto;
  deregister_on_exit = deregister;
  registry_interval = limits.registry_interval;
  http_connect_timeout = limits.http_connect_timeout;
  http_read_timeout = limits.http_read_timeout;
  callback_message_max_length = limits.callback_message_max_length;
  max_request_size = limits.max_request_size;
  max_param_length = limits.max_param_length;
  callback_batch_max_size = limits.callback_batch_max_size;
  admin_retry_count = limits.admin_retry_count;
  admin_retry_backoff = limits.admin_retry_backoff;
  admin_failover_on_http_error = failover.on_http_error;
  admin_failover_on_invalid_json = failover.on_invalid_json;
  admin_failover_on_business_error = failover.on_business_error;
  log_enabled = log.is_on;
  log_file_enabled = log.file_on;
  log_console_enabled = log.console_on;
  log_level = log.level;
  log_format = log.format;
  log_date_format = log.date_format;
  log_path = log.path;
  log_filename = log.filename;
  log_encoding = log.encoding;
  log_max_bytes = log.max_bytes;
  log_backup_count = log.backup_count;
  log_propagate = log.propagate;
}

abbrev pub of_check : Check → ConfigError → Result {0} Unit
of_check passes e = ok tt
of_check refused e = invalid e
of_check raises e = unexpected

module _ (p : Platform) where
  -- `_validate_log_encoding`
  unfoldable pub validate_log_encoding : Text → Result {0} Unit
  validate_log_encoding encoding = of_check (p.lookup_codec encoding) (bad_encoding encoding)

  -- `_validate_log_format`
  unfoldable pub validate_log_format : Text → Text → Result {0} Unit
  validate_log_format format date_format = of_check (p.format_record format date_format) bad_format

  -- the loop over the addresses of the Admins
  abbrev pub validate_admins : List Text → Result {0} Unit
  validate_admins [] = ok tt
  validate_admins (a ∷ rest) = do
    _ ← validate_http_url p (key_name Key.admin_addresses) a
    validate_admins rest

  abbrev pub validate_executor : Text → Result {0} Unit
  validate_executor a =
      if is_empty a then ok tt else validate_http_url p (key_name Key.executor_address) a

  -- `XXLJobConfig.validate`
  unfoldable pub validate : XxlJobConfig → Result {0} Unit
  validate c = if not c.enabled then ok tt else validate_enabled
    where
      validate_enabled : Result {0} Unit
      validate_enabled = do
        _ ← validate_admins c.admin_addresses
        validate_executor c.executor_address

  -- `XXLJobConfig.from_mapping`
  unfoldable pub from_mapping : Dict Text Setting → Result XxlJobConfig
  from_mapping config = do
    _ ← validate_removed_configs config
    on ← read as_bool config Key.enabled
    auto ← read as_bool config Key.auto_register
    deregister ← read as_bool config Key.deregister_on_exit
    token ← read as_str config Key.access_token
    app_name ← read as_str config Key.executor_app_name
    raw_prefix ← read as_str_strict config Key.route_prefix
    raw_executor ← read as_str_strict config Key.executor_address
    raw_admins ← read as_str_list config Key.admin_addresses
    a ← read_addresses on raw_prefix raw_executor raw_admins
    limits ← read_limits config
    failover ← read_failover config
    log ← read_log config
    _ ← validate_log_encoding log.encoding
    _ ← validate_log_format log.format log.date_format
    let c = build on auto deregister token app_name a limits failover log
    _ ← validate c
    ok c
