-- ===== src/Config/Validate.antt =====
-- flask_xxljob/config.py: `XXLJobConfig.validate_registry`. The fields have their declared types, so
-- the tests of the types pass.
pub mod Laws
use flask_xxljob.Base.{Bool, List, ℤ, is_empty, if◌then◌else◌}
use flask_xxljob.Model.Value.{Float}
use flask_xxljob.Config.{flag, number, real, atom, missing, Result, ok, invalid, ◌>>=◌}
use flask_xxljob.Config.Keys.{Key, key_name}
use flask_xxljob.Config.Readers.{
  as_bool, as_positive_int, as_non_negative_int, as_non_negative_float,
}
use flask_xxljob.Config.Address.{Platform, validate_http_url}
use flask_xxljob.Config.Load.{XxlJobConfig, validate_admins}

abbrev pub check_positive : Key → ℤ → Result ℤ
check_positive k n = as_positive_int (key_name k) (atom (number n))

abbrev pub check_flag : Key → Bool → Result Bool
check_flag k b = as_bool (key_name k) (atom (flag b))

-- lines 274 to 297
unfoldable pub validate_values : XxlJobConfig → Result {0} Unit
validate_values c = do
  _ ← check_positive Key.registry_interval c.registry_interval
  _ ← check_positive Key.http_connect_timeout c.http_connect_timeout
  _ ← check_positive Key.http_read_timeout c.http_read_timeout
  _ ← as_non_negative_int (key_name Key.admin_retry_count) (atom (number c.admin_retry_count))
  _ ← as_non_negative_float (key_name Key.admin_retry_backoff) (atom (real c.admin_retry_backoff))
  _ ← check_flag Key.admin_failover_on_http_error c.admin_failover_on_http_error
  _ ← check_flag Key.admin_failover_on_invalid_json c.admin_failover_on_invalid_json
  _ ← check_flag Key.admin_failover_on_business_error c.admin_failover_on_business_error
  ok tt

module _ (p : Platform) where
  unfoldable pub validate_registry : XxlJobConfig → Result {0} Unit
  validate_registry c =
      if is_empty c.executor_app_name
      then invalid (missing (key_name Key.executor_app_name))
      else if is_empty c.admin_addresses
      then invalid (missing (key_name Key.admin_addresses))
      else if is_empty c.executor_address
      then invalid (missing (key_name Key.executor_address))
      else validate_rest
    where
      validate_rest : Result {0} Unit
      validate_rest = do
        _ ← validate_admins p c.admin_addresses
        _ ← validate_http_url p (key_name Key.executor_address) c.executor_address
        validate_values c
