-- ===== src/Client/Policy.antt =====
-- flask_xxljob/client/policy.py: `AdminCallPolicy`. The backoff is a wait between two attempts and
-- has no field.
use flask_xxljob.Base.{ℕ, ℤ, pos, negsuc, min, Bool}

pub record AdminCallPolicy : Type 0 where
  pub retry_count : ℕ
  pub failover_on_http_error : Bool
  pub failover_on_invalid_json : Bool
  pub failover_on_business_error : Bool

-- The configuration's part of it.
pub record PolicyConfig : Type 0 where
  pub admin_retry_count : ℤ
  pub admin_failover_on_http_error : Bool
  pub admin_failover_on_invalid_json : Bool
  pub admin_failover_on_business_error : Bool

abbrev pub retry_count_cap : ℕ
retry_count_cap = 10

-- `max(0, min(n, RETRY_COUNT_CAP))`
abbrev pub clamp_retry_count : ℤ → ℕ
clamp_retry_count (pos n) = min n retry_count_cap
clamp_retry_count (negsuc n) = 0

-- `AdminCallPolicy.from_config`
unfoldable pub from_config : PolicyConfig → AdminCallPolicy
from_config c = record {
  retry_count = clamp_retry_count c.admin_retry_count;
  failover_on_http_error = c.admin_failover_on_http_error;
  failover_on_invalid_json = c.admin_failover_on_invalid_json;
  failover_on_business_error = c.admin_failover_on_business_error;
}
