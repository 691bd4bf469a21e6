-- ===== src/Config/Validate/Laws.antt =====
-- flask_xxljob/config.py: a loaded configuration of an enabled executor is complete for the registry
-- once its three fields are there.
use flask_xxljob.Base.{ℤ, pos, negsuc, Bool, true, false, ◌≡◌, refl, is_empty, Text, arith}
use flask_xxljob.Base.Dict.{Dict}
use flask_xxljob.Model.Value.{Float, finite, infinite, nan}
use flask_xxljob.Config.{Setting, atom, number, real, Result, ok, invalid, unexpected, ◌>>=◌}
use flask_xxljob.Config.Keys.{Key, key_name}
use flask_xxljob.Config.Readers.{
  as_bool, as_positive_int, as_non_negative_int, as_non_negative_float,
}
use flask_xxljob.Config.Readers.Ends.{IsPositive, IsNonNegative, IsNonNegativeFloat}
use flask_xxljob.Config.Address.{Platform, validate_http_url}
use flask_xxljob.Config.Load.{
  XxlJobConfig, validate_admins, validate_executor, validate, from_mapping,
}
use flask_xxljob.Config.Loaded.{IsInRange, from_mapping-IsInRange}
use flask_xxljob.Config.Validate.{check_positive, check_flag, validate_values, validate_registry}

check_positive-ok : (k : Key) (n : ℤ) → IsPositive n → check_positive k n ≡ ok n
unfolding as_positive_int
check_positive-ok k n (m, e) = rw e refl

as_non_negative_int-ok :
    (key : Text) (n : ℤ) → IsNonNegative n → as_non_negative_int key (atom (number n)) ≡ ok n
unfolding as_non_negative_int
as_non_negative_int-ok key n (m, e) = rw e refl

as_non_negative_float-ok :
    (key : Text) (x : Float)
    → IsNonNegativeFloat x
    → as_non_negative_float key (atom (real x)) ≡ ok x
unfolding as_non_negative_float
as_non_negative_float-ok key (finite (pos m) up down) h = refl
as_non_negative_float-ok key (finite (negsuc m) up down) h = absurd (h.1 m up down refl)
as_non_negative_float-ok key (infinite true) h = absurd (h.0 refl)
as_non_negative_float-ok key (infinite false) h = refl
as_non_negative_float-ok key nan h = refl

check_flag-ok : (k : Key) (b : Bool) → check_flag k b ≡ ok b
unfolding as_bool
check_flag-ok k b = refl

validate_values-ok : (p : Platform) (c : XxlJobConfig) → IsInRange p c → validate_values c ≡ ok tt
unfolding validate_values as_bool
validate_values-ok p c v =
    rw
      (
        check_positive-ok Key.registry_interval c.registry_interval v.interval,
        check_positive-ok Key.http_connect_timeout c.http_connect_timeout v.connect,
        check_positive-ok Key.http_read_timeout c.http_read_timeout v.reading,
        as_non_negative_int-ok (key_name Key.admin_retry_count) c.admin_retry_count v.retries,
        as_non_negative_float-ok (key_name Key.admin_retry_backoff) c.admin_retry_backoff v.backoff,
      )
      refl

then_ok :
    {A B : Type 0} (m : Result A) (k : Result B) {b : B}
    → (do _ ← m; k) ≡ ok b
    → ((a : A) × (m ≡ ok a)) × (k ≡ ok b)
then_ok (ok a) k h = ((a, refl), h)
then_ok (invalid e) k h = ground arith
then_ok unexpected k h = ground arith

unit_ok : (m : Result {0} Unit) → ((u : Unit {0}) × (m ≡ ok u)) → m ≡ ok tt
unit_ok m (u, e) = e

module _ (p : Platform) where
  enabled-validate :
      (c : XxlJobConfig)
      → c.enabled ≡ true
      → is_empty c.executor_address ≡ false
      → validate p c ≡ ok tt
      → (validate_admins p c.admin_addresses ≡ ok tt)
        × (validate_http_url p (key_name Key.executor_address) c.executor_address ≡ ok tt)
  unfolding validate
  enabled-validate c on address h =
      let (first, second) =
        then_ok (validate_admins p c.admin_addresses) (validate_executor p c.executor_address)
          (ground arith) in
      (unit_ok (validate_admins p c.admin_addresses) first, ground arith)

  -- A configuration that `from_mapping` returns for an enabled executor passes
  -- `validate_registry` when the name, an Admin and the executor's address are given.
  pub validate_registry_complete :
      (config : Dict Text Setting) (c : XxlJobConfig)
      → from_mapping p config ≡ ok c
      → c.enabled ≡ true
      → is_empty c.executor_app_name ≡ false
      → is_empty c.admin_addresses ≡ false
      → is_empty c.executor_address ≡ false
      → validate_registry p c ≡ ok tt
  unfolding validate_registry
  validate_registry_complete config c h on name admins address =
      let v = from_mapping-IsInRange p config c h in
      let (a, e) = enabled-validate c on address v.valid in
      rw (name, admins, address, a, e, validate_values-ok p c v) refl
