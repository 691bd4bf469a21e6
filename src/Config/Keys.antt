-- ===== src/Config/Keys.antt =====
-- flask_xxljob/config.py: the keys of a configuration, with `DEFAULTS`.
use flask_xxljob.Base.{◌*◌, pos, true, false, none, some, [], Text, text}
use flask_xxljob.Base.Dict
use flask_xxljob.Base.Dict.{Dict, text_key}
use flask_xxljob.Model.Value.{finite}
use flask_xxljob.Config.{flag, number, real, string, Setting, atom, list}

pub data Key : Type 0 where
  enabled : Key
  admin_addresses : Key
  access_token : Key
  executor_app_name : Key
  executor_address : Key
  route_prefix : Key
  auto_register : Key
  deregister_on_exit : Key
  registry_interval : Key
  http_connect_timeout : Key
  http_read_timeout : Key
  callback_message_max_length : Key
  max_request_size : Key
  max_param_length : Key
  callback_batch_max_size : Key
  admin_retry_count : Key
  admin_retry_backoff : Key
  admin_failover_on_http_error : Key
  admin_failover_on_invalid_json : Key
  admin_failover_on_business_error : Key
  log_enabled : Key
  log_file_enabled : Key
  log_console_enabled : Key
  log_level : Key
  log_format : Key
  log_date_format : Key
  log_path : Key
  log_filename : Key
  log_encoding : Key
  log_max_bytes : Key
  log_backup_count : Key
  log_propagate : Key

unfoldable pub key_name : Key → Text
key_name enabled = text "XXL_JOB_ENABLED"
key_name admin_addresses = text "XXL_JOB_ADMIN_ADDRESSES"
key_name access_token = text "XXL_JOB_ACCESS_TOKEN"
key_name executor_app_name = text "XXL_JOB_EXECUTOR_APP_NAME"
key_name executor_address = text "XXL_JOB_EXECUTOR_ADDRESS"
key_name route_prefix = text "XXL_JOB_ROUTE_PREFIX"
key_name auto_register = text "XXL_JOB_AUTO_REGISTER"
key_name deregister_on_exit = text "XXL_JOB_DEREGISTER_ON_EXIT"
key_name registry_interval = text "XXL_JOB_REGISTRY_INTERVAL"
key_name http_connect_timeout = text "XXL_JOB_HTTP_CONNECT_TIMEOUT"
key_name http_read_timeout = text "XXL_JOB_HTTP_READ_TIMEOUT"
key_name callback_message_max_length = text "XXL_JOB_CALLBACK_MESSAGE_MAX_LENGTH"
key_name max_request_size = text "XXL_JOB_MAX_REQUEST_SIZE"
key_name max_param_length = text "XXL_JOB_MAX_PARAM_LENGTH"
key_name callback_batch_max_size = text "XXL_JOB_CALLBACK_BATCH_MAX_SIZE"
key_name admin_retry_count = text "XXL_JOB_ADMIN_RETRY_COUNT"
key_name admin_retry_backoff = text "XXL_JOB_ADMIN_RETRY_BACKOFF"
key_name admin_failover_on_http_error = text "XXL_JOB_ADMIN_FAILOVER_ON_HTTP_ERROR"
key_name admin_failover_on_invalid_json = text "XXL_JOB_ADMIN_FAILOVER_ON_INVALID_JSON"
key_name admin_failover_on_business_error = text "XXL_JOB_ADMIN_FAILOVER_ON_BUSINESS_ERROR"
key_name log_enabled = text "XXL_JOB_LOG_ENABLED"
key_name log_file_enabled = text "XXL_JOB_LOG_FILE_ENABLED"
key_name log_console_enabled = text "XXL_JOB_LOG_CONSOLE_ENABLED"
key_name log_level = text "XXL_JOB_LOG_LEVEL"
key_name log_format = text "XXL_JOB_LOG_FORMAT"
key_name log_date_format = text "XXL_JOB_LOG_DATE_FORMAT"
key_name log_path = text "XXL_JOB_LOG_PATH"
key_name log_filename = text "XXL_JOB_LOG_FILENAME"
key_name log_encoding = text "XXL_JOB_LOG_ENCODING"
key_name log_max_bytes = text "XXL_JOB_LOG_MAX_BYTES"
key_name log_backup_count = text "XXL_JOB_LOG_BACKUP_COUNT"
key_name log_propagate = text "XXL_JOB_LOG_PROPAGATE"

-- `DEFAULTS`
unfoldable pub default_of : Key → Setting
default_of enabled = atom (flag true)
default_of admin_addresses = list []
default_of access_token = atom (string (text ""))
default_of executor_app_name = atom (string (text "flask-xxljob-executor"))
default_of executor_address = atom (string (text ""))
default_of route_prefix = atom (string (text ""))
default_of auto_register = atom (flag true)
default_of deregister_on_exit = atom (flag false)
default_of registry_interval = atom (number (pos 30))
default_of http_connect_timeout = atom (number (pos 3))
default_of http_read_timeout = atom (number (pos 5))
default_of callback_message_max_length = atom (number (pos 10000))
default_of max_request_size = atom (number (pos 1048576))
default_of max_param_length = atom (number (pos 65536))
default_of callback_batch_max_size = atom (number (pos 100))
default_of admin_retry_count = atom (number (pos 0))
default_of admin_retry_backoff = atom (real (finite (pos 0) 0 0))
default_of admin_failover_on_http_error = atom (flag true)
default_of admin_failover_on_invalid_json = atom (flag false)
default_of admin_failover_on_business_error = atom (flag false)
default_of log_enabled = atom (flag false)
default_of log_file_enabled = atom (flag true)
default_of log_console_enabled = atom (flag true)
default_of log_level = atom (string (text "INFO"))
default_of log_format = atom (string (text "%(asctime)s [%(levelname)s] [%(name)s] %(message)s"))
default_of log_date_format = atom (string (text "%Y-%m-%d %H:%M:%S"))
default_of log_path = atom (string (text "./logs"))
default_of log_filename = atom (string (text "flask-xxljob.log"))
default_of log_encoding = atom (string (text "utf-8"))
default_of log_max_bytes = atom (number (pos (10 * 1024 * 1024)))
default_of log_backup_count = atom (number (pos 5))
default_of log_propagate = atom (flag false)

-- `config.get(key, default)` of line 114
unfoldable pub merged : Dict Text Setting → Key → Setting
unfolding key_name default_of
merged config k = elim (Dict.get config (key_name k)) [ none ↦ default_of k | some v ↦ v ]
