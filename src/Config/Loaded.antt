-- ===== src/Config/Loaded.antt =====
-- flask_xxljob/config.py: what holds of a configuration that `from_mapping` returns.
use flask_xxljob.Base.{
  Option, ◌||◌, ℕ, Bool, true, false, ◌≡◌, refl, List, [], ◌∷◌, any, is_empty, Text, text_eq, text,
  strip, Bool-cases, inl, inr, ◌⊎◌, if◌then◌else◌,
}
use flask_xxljob.Base.Dict.{Dict}
use flask_xxljob.Config.{
  flag, atom, Setting, ok, Ends, >>=-Ends, ok-Ends, if-Ends, Ends-self, Ends-ok, Ends-weaken,
}
use flask_xxljob.Config.Keys.{Key, key_name, merged}
use flask_xxljob.Config.Readers.{as_bool, split, log_levels}
use flask_xxljob.Config.Readers.Ends.{
  IsAny, IsPositive, IsNonNegative, IsNonNegativeFloat, Overflows, as_str-Ends, as_str_strict-Ends,
  as_str_list-Ends,
}
use flask_xxljob.Config.Prefix.{
  normalize_prefix, is_forbidden, has_double_slash, is_dot_segment, drop_first_slash,
  drop_last_slash,
}
use flask_xxljob.Config.Prefix.Laws.{IsPrefix, normalize_prefix-IsPrefix}
use flask_xxljob.Config.Address.{passes, raises, Platform, Parts}
use flask_xxljob.Config.Load.{
  XxlJobConfig, Limits, Failover, LogSettings, Addresses, read_log, read_addresses, validate,
  validate_log_encoding, validate_log_format, build, from_mapping,
}
use flask_xxljob.Config.Laws.{
  LimitsInRange, LogInRange, boolean, read_limits-Ends, read_failover-Ends, read_log-Ends,
  validate_removed_configs-Ends, validate_log_encoding-Ends, validate_log_format-Ends,
  validate-Ends,
}

-- the route prefix of an enabled executor
abbrev pub IsRoute : Bool → Text → Type 0
IsRoute true r = IsPrefix r
IsRoute false r = Unit

-- What holds of a loaded configuration: the numbers are in range, the level is a level, the strings
-- that must not be empty are not, the encoding is found and the format formats, a token of white
-- space reads as no token, and the addresses are valid when the executor is enabled.
pub record IsInRange (p : Platform) (c : XxlJobConfig) : Type 0 where
  pub interval : IsPositive c.registry_interval
  pub connect : IsPositive c.http_connect_timeout
  pub reading : IsPositive c.http_read_timeout
  pub message_length : IsPositive c.callback_message_max_length
  pub request : IsPositive c.max_request_size
  pub param : IsPositive c.max_param_length
  pub batch : IsPositive c.callback_batch_max_size
  pub retries : IsNonNegative c.admin_retry_count
  pub backoff : IsNonNegativeFloat c.admin_retry_backoff
  pub level : any (text_eq c.log_level) log_levels ≡ true
  pub format : is_empty c.log_format ≡ false
  pub path : is_empty c.log_path ≡ false
  pub filename : is_empty c.log_filename ≡ false
  pub encoding : is_empty c.log_encoding ≡ false
  pub max_bytes : IsPositive c.log_max_bytes
  pub backups : IsNonNegative c.log_backup_count
  pub codec : p.lookup_codec c.log_encoding ≡ passes
  pub usable : p.format_record c.log_format c.log_date_format ≡ passes
  pub prefix : IsRoute c.enabled c.route_prefix
  pub token : is_empty (strip c.access_token) ≡ is_empty c.access_token
  pub valid : validate p c ≡ ok tt

-- a token of white space only is no token
blank_token :
    (t : Text)
    → is_empty (strip (if is_empty (strip t) then [] else t))
      ≡ is_empty (if is_empty (strip t) then [] else t)
unfolding strip
blank_token [] = refl
blank_token (c ∷ t) = elim (Bool-cases (is_empty (strip (c ∷ t)))) [
  | inl e ↦ rw e refl
  | inr e ↦ rw e e
]

normalize_prefix-IsAny : (O : Type 0) (s : Text) → Ends IsAny O (normalize_prefix s)
unfolding Ends normalize_prefix
normalize_prefix-IsAny O s =
    let t = drop_last_slash (drop_first_slash s) in
    if-Ends IsAny O (is_empty s || text_eq s (text "/")) _ _ tt (
      if-Ends IsAny O (any is_forbidden s) _ _ tt (
        if-Ends IsAny O (has_double_slash s) _ _ tt
          (if-Ends IsAny O (is_empty t || any is_dot_segment (split 47 t)) _ _ tt tt)))

normalize_prefix-Ends : (O : Type 0) (s : Text) → Ends IsPrefix O (normalize_prefix s)
normalize_prefix-Ends O s =
    Ends-self IsAny IsPrefix O (normalize_prefix s) (normalize_prefix-IsAny O s)
      (λ r e any. normalize_prefix-IsPrefix s r e)

read_addresses-Ends :
    (O : Type 0) (on : Bool) (raw_prefix raw_executor : Text) (raw_admins : List Text)
    → Ends (λ a. IsRoute on a.prefix) O (read_addresses on raw_prefix raw_executor raw_admins)
unfolding read_addresses
read_addresses-Ends O true raw_prefix raw_executor raw_admins =
    >>=-Ends _ _ _ _ (normalize_prefix-Ends O raw_prefix) (λ r h. ok-Ends _ _ _ h)
read_addresses-Ends O false raw_prefix raw_executor raw_admins = ok-Ends _ _ _ tt

module _ (p : Platform) where
  build-IsInRange :
      (on auto deregister : Bool) (token app_name : Text) (a : Addresses) (limits : Limits)
      (failover : Failover) (log : LogSettings)
      → IsRoute on a.prefix
      → LimitsInRange limits
      → LogInRange log
      → p.lookup_codec log.encoding ≡ passes
      → p.format_record log.format log.date_format ≡ passes
      → validate p (build on auto deregister token app_name a limits failover log) ≡ ok tt
      → IsInRange p (build on auto deregister token app_name a limits failover log)
  unfolding build
  build-IsInRange on auto deregister token app_name a limits failover log route l g codec usable
        valid =
      record {
        interval = l.interval;
        connect = l.connect;
        reading = l.reading;
        message_length = l.message_length;
        request = l.request;
        param = l.param;
        batch = l.batch;
        retries = l.retries;
        backoff = l.backoff;
        level = g.level;
        format = g.format;
        path = g.path;
        filename = g.filename;
        encoding = g.encoding;
        max_bytes = g.max_bytes;
        backups = g.backups;
        codec = codec;
        usable = usable;
        prefix = route;
        token = blank_token token;
        valid = valid;
      }

  -- An exception that `from_mapping` lets through: a backoff that `float` cannot convert, or one that
  -- the check of the configured encoding or of the configured format raises.
  abbrev pub Escapes : Dict Text Setting → Type 0
  Escapes config =
      Overflows (merged config Key.admin_retry_backoff)
      ⊎ ((log : LogSettings) × (read_log config ≡ ok log)
          × ((p.lookup_codec log.encoding ≡ raises)
              ⊎ (p.format_record log.format log.date_format ≡ raises)))

  from_mapping-Ends :
      (config : Dict Text Setting) → Ends (IsInRange p) (Escapes config) (from_mapping p config)
  unfolding from_mapping
  from_mapping-Ends config = >>=-Ends _ _ _ _ (validate_removed_configs-Ends _ config) (λ u h0.
      >>=-Ends _ _ _ _ (Ends-weaken _ _ _ _ inl (boolean config Key.enabled)) (λ on h1.
        >>=-Ends _ _ _ _ (Ends-weaken _ _ _ _ inl (boolean config Key.auto_register)) (λ auto h2.
          >>=-Ends _ _ _ _ (Ends-weaken _ _ _ _ inl (boolean config Key.deregister_on_exit))
            (λ deregister h3.
              >>=-Ends _ _ _ _
                (as_str-Ends _ (key_name Key.access_token) (merged config Key.access_token))
                (λ token h4.
                  >>=-Ends _ _ _ _
                    (as_str-Ends _ (key_name Key.executor_app_name)
                      (merged config Key.executor_app_name))
                    (λ app_name h5.
                      >>=-Ends _ _ _ _
                        (as_str_strict-Ends _ (key_name Key.route_prefix)
                          (merged config Key.route_prefix))
                        (λ raw_prefix h6.
                          >>=-Ends _ _ _ _
                            (as_str_strict-Ends _ (key_name Key.executor_address)
                              (merged config Key.executor_address))
                            (λ raw_executor h7.
                              >>=-Ends _ _ _ _
                                (as_str_list-Ends _ (key_name Key.admin_addresses)
                                  (merged config Key.admin_addresses))
                                (λ raw_admins h8.
                                  >>=-Ends _ _ _ _
                                    (read_addresses-Ends _ on raw_prefix raw_executor raw_admins)
                                    (λ a route.
                                      >>=-Ends _ _ _ _
                                        (Ends-weaken _ _ _ _ inl (read_limits-Ends config))
                                        (λ limits l.
                                          >>=-Ends _ _ _ _
                                            (Ends-weaken _ _ _ _ inl (read_failover-Ends config))
                                            (λ failover h9.
                                              >>=-Ends _ _ _ _
                                                (Ends-self LogInRange
                                                  (λ log.
                                                    (read_log config ≡ ok log) × LogInRange log)
                                                  _ _
                                                  (Ends-weaken _ _ _ _ inl (read_log-Ends config))
                                                  (λ log e g. (e, g)))
                                                (λ log (here, g).
                                                  >>=-Ends _ _ _ _
                                                    (validate_log_encoding-Ends p _ log.encoding
                                                      (λ e. inr (log, here, inl e)))
                                                    (λ u1 codec.
                                                      >>=-Ends _ _ _ _
                                                        (validate_log_format-Ends p _ log.format
                                                          log.date_format
                                                          (λ e. inr (log, here, inr e)))
                                                        (λ u2 usable.
                                                          let c =
                                                            build on auto deregister token app_name
                                                            a limits failover log in
                                                          >>=-Ends _ _ _ _
                                                            (Ends-self IsAny
                                                            (λ u. validate p c ≡ ok u) _
                                                            (validate p c) (validate-Ends p _ c)
                                                            (λ u e any. e))
                                                            (λ u3 valid. ok-Ends _ _ c (
                                                            build-IsInRange on auto deregister token
                                                            app_name a limits failover log route l g
                                                            codec usable valid)))))))))))))))))

  -- A configuration that `from_mapping` returns is in range: the intervals, the timeouts and the
  -- sizes are positive, the counts and the backoff not negative, the level is one of the five, the
  -- path and the name of the log file are not empty, `codecs.lookup` finds the encoding, a record
  -- is formatted with the format, a token of white space reads as no token, and of an enabled
  -- executor the route prefix is a path and `validate` accepts the addresses.
  pub from_mapping-IsInRange :
      (config : Dict Text Setting) (c : XxlJobConfig) → from_mapping p config ≡ ok c → IsInRange p c
  from_mapping-IsInRange config c h =
      Ends-ok (IsInRange p) (Escapes config) (from_mapping p config) (from_mapping-Ends config) h

-- When `XXL_JOB_ENABLED` is False, no address is parsed: the result does not depend on what the
-- parsers of URLs, of IP addresses and of host names answer.
pub from_mapping-disabled :
    (p : Platform) (config : Dict Text Setting) (url : Text → Option Parts) (ip : Text → Bool)
    (name : Text → Option Text) (digit : ℕ → Bool)
    → merged config Key.enabled ≡ atom (flag false)
    → from_mapping
        (record p { urlsplit = url; is_ip_address = ip; idna = name; is_digit = digit })
        config
      ≡ from_mapping p config
unfolding from_mapping as_bool build validate validate_log_encoding validate_log_format
from_mapping-disabled p config url ip name digit h = rw h refl
