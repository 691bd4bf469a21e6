-- ===== src/Config/Laws.antt =====
-- flask_xxljob/config.py: how the groups of reads end.
use flask_xxljob.Base.{
  true, false, not, ◌≡◌, refl, Option, none, some, List, [], ◌∷◌, any, is_empty, Text, text_eq,
  text,
}
use flask_xxljob.Base.Dict
use flask_xxljob.Base.Dict.{Dict, text_key}
use flask_xxljob.Config.{
  ConfigError, bad_encoding, bad_format, removed_option, Setting, ok, invalid, Ends, >>=-Ends,
  ok-Ends, if-Ends,
}
use flask_xxljob.Config.Keys.{Key, key_name, merged}
use flask_xxljob.Config.Readers.{
  as_bool, as_non_empty_str, as_positive_int, as_non_negative_int, log_levels,
}
use flask_xxljob.Config.Readers.Ends.{
  IsAny, IsPositive, IsNonNegative, IsNonNegativeFloat, Overflows, as_bool-Ends, as_str_strict-Ends,
  as_non_empty_str-Ends, as_positive_int-Ends, as_non_negative_int-Ends, as_choice-Ends,
  as_non_negative_float-Ends,
}
use flask_xxljob.Config.Address.{
  Check, passes, refused, raises, Platform, Parts, check_parts, is_http, validate_http_url,
}
use flask_xxljob.Config.Prefix.{is_blank}
use flask_xxljob.Config.Load.{
  XxlJobConfig, removed_value, validate_removed_configs, read, Limits, read_limits, read_failover,
  LogSettings, read_log, of_check, validate_log_encoding, validate_log_format, validate,
  validate_admins,
}

pub record LimitsInRange (l : Limits) : Type 0 where
  pub interval : IsPositive l.registry_interval
  pub connect : IsPositive l.http_connect_timeout
  pub reading : IsPositive l.http_read_timeout
  pub message_length : IsPositive l.callback_message_max_length
  pub request : IsPositive l.max_request_size
  pub param : IsPositive l.max_param_length
  pub batch : IsPositive l.callback_batch_max_size
  pub retries : IsNonNegative l.admin_retry_count
  pub backoff : IsNonNegativeFloat l.admin_retry_backoff

pub record LogInRange (l : LogSettings) : Type 0 where
  pub level : any (text_eq l.level) log_levels ≡ true
  pub format : is_empty l.format ≡ false
  pub path : is_empty l.path ≡ false
  pub filename : is_empty l.filename ≡ false
  pub encoding : is_empty l.encoding ≡ false
  pub max_bytes : IsPositive l.max_bytes
  pub backups : IsNonNegative l.backup_count

module _ (config : Dict Text Setting) where
  -- Only the backoff is converted to a float.
  abbrev pub Converts : Type 0
  Converts = Overflows (merged config Key.admin_retry_backoff)

  positive : (k : Key) → Ends IsPositive Converts (read as_positive_int config k)
  positive k = as_positive_int-Ends Converts (key_name k) (merged config k)

  non_negative : (k : Key) → Ends IsNonNegative Converts (read as_non_negative_int config k)
  non_negative k = as_non_negative_int-Ends Converts (key_name k) (merged config k)

  pub boolean : (k : Key) → Ends IsAny Converts (read as_bool config k)
  boolean k = as_bool-Ends Converts (key_name k) (merged config k)

  nonempty : (k : Key) → Ends (λ s. is_empty s ≡ false) Converts (read as_non_empty_str config k)
  nonempty k = as_non_empty_str-Ends Converts (key_name k) (merged config k)

  pub read_limits-Ends : Ends LimitsInRange Converts (read_limits config)
  unfolding read_limits
  read_limits-Ends = >>=-Ends _ _ _ _ (positive Key.registry_interval) (λ a1 h1.
      >>=-Ends _ _ _ _ (positive Key.http_connect_timeout) (λ a2 h2.
        >>=-Ends _ _ _ _ (positive Key.http_read_timeout) (λ a3 h3.
          >>=-Ends _ _ _ _ (positive Key.callback_message_max_length) (λ a4 h4.
            >>=-Ends _ _ _ _ (positive Key.max_request_size) (λ a5 h5.
              >>=-Ends _ _ _ _ (positive Key.max_param_length) (λ a6 h6.
                >>=-Ends _ _ _ _ (positive Key.callback_batch_max_size) (λ a7 h7.
                  >>=-Ends _ _ _ _ (non_negative Key.admin_retry_count) (λ a8 h8.
                    >>=-Ends _ _ _ _
                      (as_non_negative_float-Ends (key_name Key.admin_retry_backoff)
                        (merged config Key.admin_retry_backoff))
                      (λ a9 h9. ok-Ends _ _ _ (record {
                        interval = h1;
                        connect = h2;
                        reading = h3;
                        message_length = h4;
                        request = h5;
                        param = h6;
                        batch = h7;
                        retries = h8;
                        backoff = h9;
                      }))))))))))

  pub read_failover-Ends : Ends IsAny Converts (read_failover config)
  unfolding read_failover
  read_failover-Ends = >>=-Ends _ _ _ _ (boolean Key.admin_failover_on_http_error) (λ a1 h1.
      >>=-Ends _ _ _ _ (boolean Key.admin_failover_on_invalid_json) (λ a2 h2.
        >>=-Ends _ _ _ _ (boolean Key.admin_failover_on_business_error)
          (λ a3 h3. ok-Ends _ _ _ tt)))

  pub read_log-Ends : Ends LogInRange Converts (read_log config)
  unfolding read_log
  read_log-Ends = >>=-Ends _ _ _ _ (boolean Key.log_enabled) (λ a1 h1.
      >>=-Ends _ _ _ _ (boolean Key.log_file_enabled) (λ a2 h2.
        >>=-Ends _ _ _ _ (boolean Key.log_console_enabled) (λ a3 h3.
          >>=-Ends _ _ _ _
            (as_choice-Ends _ (key_name Key.log_level) log_levels (merged config Key.log_level))
            (λ a4 level. >>=-Ends _ _ _ _ (nonempty Key.log_format) (λ a5 format.
              >>=-Ends _ _ _ _
                (as_str_strict-Ends _ (key_name Key.log_date_format)
                  (merged config Key.log_date_format))
                (λ a6 h6. >>=-Ends _ _ _ _ (nonempty Key.log_path) (λ a7 path.
                  >>=-Ends _ _ _ _ (nonempty Key.log_filename) (λ a8 filename.
                    >>=-Ends _ _ _ _ (nonempty Key.log_encoding) (λ a9 encoding.
                      >>=-Ends _ _ _ _ (positive Key.log_max_bytes) (λ a10 max_bytes.
                        >>=-Ends _ _ _ _ (non_negative Key.log_backup_count) (λ a11 backups.
                          >>=-Ends _ _ _ _ (boolean Key.log_propagate) (λ a12 h12.
                            ok-Ends _ _ _ (record {
                              level = level;
                              format = format;
                              path = path;
                              filename = filename;
                              encoding = encoding;
                              max_bytes = max_bytes;
                              backups = backups;
                            })))))))))))))

pub validate_removed_configs-Ends :
    (O : Type 0) (config : Dict Text Setting) → Ends IsAny O (validate_removed_configs config)
unfolding validate_removed_configs Ends
validate_removed_configs-Ends O config =
    found (Dict.get config (text "XXL_JOB_AUTO_REGISTER_ON_INIT"))
  where
    found :
        (o : Option Setting)
        → Ends {0} IsAny O
            (elim o [ none ↦ ok tt | some v ↦ invalid (removed_option (removed_value v)) ])
    found none = tt
    found (some v) = tt

module _ (p : Platform) (O : Type 0) where
  of_check-Ends :
      (c : Check) (e : ConfigError) → (c ≡ raises → O) → Ends {0} (λ _. c ≡ passes) O (of_check c e)
  unfolding Ends
  of_check-Ends passes e k = refl
  of_check-Ends refused e k = tt
  of_check-Ends raises e k = k refl

  pub validate_log_encoding-Ends :
      (s : Text)
      → (p.lookup_codec s ≡ raises → O)
      → Ends (λ _. p.lookup_codec s ≡ passes) O (validate_log_encoding p s)
  unfolding validate_log_encoding
  validate_log_encoding-Ends s k = of_check-Ends (p.lookup_codec s) (bad_encoding s) k

  pub validate_log_format-Ends :
      (s d : Text)
      → (p.format_record s d ≡ raises → O)
      → Ends (λ _. p.format_record s d ≡ passes) O (validate_log_format p s d)
  unfolding validate_log_format
  validate_log_format-Ends s d k = of_check-Ends (p.format_record s d) bad_format k

  validate_http_url-Ends : (key value : Text) → Ends IsAny O (validate_http_url p key value)
  unfolding validate_http_url Ends
  validate_http_url-Ends key value =
      if-Ends IsAny O (any is_blank value) _ _ tt (parts (p.urlsplit value))
    where
      parts : (u : Option Parts) → Ends IsAny O (check_parts p key value u)
      parts none = tt
      parts (some u) = if-Ends IsAny O (is_http p value u) _ _ tt tt

  validate_admins-Ends : (addresses : List Text) → Ends IsAny O (validate_admins p addresses)
  validate_admins-Ends [] = ok-Ends IsAny O tt tt
  validate_admins-Ends (a ∷ rest) =
      >>=-Ends _ _ _ _ (validate_http_url-Ends (key_name Key.admin_addresses) a)
        (λ u h. validate_admins-Ends rest)

  pub validate-Ends : (c : XxlJobConfig) → Ends IsAny O (validate p c)
  unfolding validate
  validate-Ends c = if-Ends IsAny O (not c.enabled) _ _ (ok-Ends IsAny O tt tt) (
      >>=-Ends _ _ _ _ (validate_admins-Ends c.admin_addresses) (λ u h.
        if-Ends IsAny O (is_empty c.executor_address) _ _ (ok-Ends IsAny O tt tt)
          (validate_http_url-Ends (key_name Key.executor_address) c.executor_address)))
