-- ===== src/Config/Sample.antt =====
-- flask_xxljob/config.py: a platform and a configuration for the tests.
use flask_xxljob.Base.{
  ℕ, zero, suc, pos, leb, ◌==◌, true, false, ◌&&◌, ◌||◌, Option, none, some, [], ◌∷◌, Text, text,
  text_eq, if◌then◌else◌,
}
use flask_xxljob.Base.Dict.{Dict}
use flask_xxljob.Model.Value.{finite}
use flask_xxljob.Config.{absent, number, string, Setting, atom}
use flask_xxljob.Config.Address.{passes, refused, raises, Parts, Platform}
use flask_xxljob.Config.Load.{XxlJobConfig}

-- A URL `http://` with a host and perhaps a path.
abbrev pub drop : ℕ → Text → Text
drop zero s = s
drop (suc n) [] = []
drop (suc n) (c ∷ s) = drop n s

abbrev pub host_of : Text → Text
host_of [] = []
host_of (c ∷ s) = let rest = host_of s in if c == 58 || c == 47 then [] else c ∷ rest

abbrev pub split_url : Text → Option Parts
split_url s = some (record {
  scheme = text "http";
  hostname = some (host_of (drop 7 s));
  port = none;
  username = none;
  password = none;
  query = [];
  fragment = [];
})

abbrev pub python : Platform
python = record {
  urlsplit = split_url;
  is_ip_address = λ s. false;
  idna = some;
  is_digit = λ c. leb 48 c && leb c 57;
  lookup_codec = λ s. if text_eq s (text "utf-8") then passes else refused;
  format_record = λ f d. if text_eq f (text "%(thread)c") then raises else passes;
}

abbrev pub settings : Dict Text Setting
settings =
    (text "XXL_JOB_ADMIN_ADDRESSES", atom (string (text "http://admin/xxl-job-admin/")))
    ∷ (text "XXL_JOB_EXECUTOR_ADDRESS", atom (string (text "http://app:9000/")))
    ∷ (text "XXL_JOB_ROUTE_PREFIX", atom (string (text "job/")))
    ∷ (text "XXL_JOB_ACCESS_TOKEN", atom absent)
    ∷ (text "XXL_JOB_LOG_LEVEL", atom (string (text "debug")))
    ∷ (text "XXL_JOB_ADMIN_RETRY_BACKOFF", atom (number (pos 2)))
    ∷ []

abbrev pub loaded : XxlJobConfig
loaded = record {
  enabled = true;
  admin_addresses = text "http://admin/xxl-job-admin" ∷ [];
  access_token = [];
  executor_app_name = text "flask-xxljob-executor";
  executor_address = text "http://app:9000/job";
  route_prefix = text "/job";
  auto_register = true;
  deregister_on_exit = false;
  registry_interval = pos 30;
  http_connect_timeout = pos 3;
  http_read_timeout = pos 5;
  callback_message_max_length = pos 10000;
  max_request_size = pos 1048576;
  max_param_length = pos 65536;
  callback_batch_max_size = pos 100;
  admin_retry_count = pos 0;
  admin_retry_backoff = finite (pos 2) 0 0;
  admin_failover_on_http_error = true;
  admin_failover_on_invalid_json = false;
  admin_failover_on_business_error = false;
  log_enabled = false;
  log_file_enabled = true;
  log_console_enabled = true;
  log_level = text "DEBUG";
  log_format = text "%(asctime)s [%(levelname)s] [%(name)s] %(message)s";
  log_date_format = text "%Y-%m-%d %H:%M:%S";
  log_path = text "./logs";
  log_filename = text "flask-xxljob.log";
  log_encoding = text "utf-8";
  log_max_bytes = pos 10485760;
  log_backup_count = pos 5;
  log_propagate = false;
}
