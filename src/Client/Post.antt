-- ===== src/Client/Post.antt =====
-- flask_xxljob/client/__init__.py: `post_to_admins`. `requests.post` and the clock are parameters:
-- the reply to the n-th request of a call, and the milliseconds passed when it is there.
pub mod Attempts
pub mod Failover
use flask_xxljob.Base.{
  ℕ, ℤ, pos, negsuc, zero, suc, ◌+◌, Bool, true, false, not, ◌&&◌, ◌||◌, Option, none, some, ◌==◌,
  List, [], ◌∷◌, ◌++◌, is_empty, Text, text, lstrip, rstrip, if◌then◌else◌,
}
use flask_xxljob.Client.Result.{
  CallResult, ErrorType, local_failure, config, network, timeout, http, invalid_json,
  invalid_response, business,
}
use flask_xxljob.Client.Policy.{AdminCallPolicy}
use flask_xxljob.Model.Value.{Value, Fields, lookup, null, int, str, object}

-- How `requests.post` ends; the text of a failure is `{type}: {message}`. A response has a status,
-- and a body where `response.json()` raises no ValueError.
pub data Reply : Type 0 where
  timed_out : Text → Reply
  failed : Text → Reply
  response : ℕ → Option Value → Reply

pub record Transport : Type 0 where
  pub post : ℕ → Text → Reply
  pub elapsed_ms : ℕ → ℕ

-- `join_url`
abbrev pub is_slash : ℕ → Bool
is_slash c = c == 47

unfoldable pub join_url : Text → Text → Text
join_url base path =
    let p = rstrip is_slash (lstrip is_slash path) in
    if is_empty p then rstrip is_slash base else rstrip is_slash base ++ text "/" ++ p

-- `error_type in _RETRYABLE_ERROR_TYPES`
unfoldable pub is_retryable : Option ErrorType → Bool
is_retryable (some network) = true
is_retryable (some timeout) = true
is_retryable (some http) = true
is_retryable _ = false

-- `_should_failover`
unfoldable pub should_failover : Option ErrorType → AdminCallPolicy → Bool
should_failover (some network) policy = true
should_failover (some timeout) policy = true
should_failover (some http) policy = policy.failover_on_http_error
should_failover (some invalid_json) policy = policy.failover_on_invalid_json
should_failover (some invalid_response) policy = policy.failover_on_invalid_json
should_failover (some business) policy = policy.failover_on_business_error
should_failover _ policy = false

-- The policy of a call without one.
abbrev pub default_policy : Bool → AdminCallPolicy
default_policy stop_on_business_response = record {
  retry_count = 0;
  failover_on_http_error = true;
  failover_on_invalid_json = true;
  failover_on_business_error = not stop_on_business_response;
}

-- `code == SUCCESS_CODE`
abbrev pub is_success_code : ℤ → Bool
is_success_code (pos n) = n == 200
is_success_code (negsuc n) = false

-- `address`, `attempts` and `_elapsed_ms()` of a request
module _ (address : Text) (attempts elapsed : ℕ) where
  abbrev pub failure : Text → ErrorType → Option ℕ → CallResult
  failure error error_type status = record (local_failure error error_type) {
    address = some address;
    attempt_count = attempts;
    elapsed_ms = some elapsed;
    http_status = status;
  }

  abbrev pub answer : ℕ → ℤ → Option Text → CallResult
  answer status code msg = record {
    success = is_success_code code;
    code = some code;
    msg = msg;
    address = some address;
    error = none;
    error_type = if is_success_code code then none else some business;
    attempt_count = attempts;
    elapsed_ms = some elapsed;
    http_status = some status;
  }

  abbrev pub bad_fields : ℕ → CallResult
  bad_fields status =
      failure (text "JSON response fields have invalid types") invalid_response (some status)

  -- Lines 245 to 281
  unfoldable pub read_fields : ℕ → Value → Value → CallResult
  read_fields status (int code) null = answer status code none
  read_fields status (int code) (str msg) = answer status code (some msg)
  read_fields status _ _ = bad_fields status

  -- Lines 221 to 281
  unfoldable pub read_body : ℕ → Option Value → CallResult
  unfolding read_fields
  read_body status none = failure (text "invalid JSON response") invalid_json (some status)
  read_body status (some (object d)) =
      read_fields status (lookup d (text "code")) (lookup d (text "msg"))
  read_body status (some _) =
      failure (text "JSON response body must be an object") invalid_response (some status)

  -- Lines 177 to 281: `show` is the decimal of the status.
  unfoldable pub read_reply : (ℕ → Text) → Reply → CallResult
  unfolding read_body
  read_reply show (timed_out error) = failure error timeout none
  read_reply show (failed error) = failure error network none
  read_reply show (response status body) =
      if status == 200
      then read_body status body
      else failure (text "HTTP " ++ show status) http (some status)

module _ (transport : Transport) (show : ℕ → Text) (api_path : Text)
    (policy : AdminCallPolicy) where
  -- The `attempts`-th request of the call.
  unfoldable pub request : Text → ℕ → CallResult
  request address attempts =
      read_reply address attempts (transport.elapsed_ms attempts) show
        (transport.post attempts (join_url address api_path))

  -- The inner loop, lines 175 to 300, with `retries` more than one attempt to go: the last result
  -- and the number of requests made.
  unfoldable pub try_address : ℕ → Text → ℕ → CallResult × ℕ
  try_address zero address attempts = (request address (suc attempts), suc attempts)
  try_address (suc retries) address attempts =
      let rest = try_address retries address (suc attempts) in
      if is_retryable (request address (suc attempts)).error_type
      then rest
      else (request address (suc attempts), suc attempts)

  -- The outer loop, lines 170 to 315
  unfoldable pub try_all : List Text → ℕ → CallResult → CallResult
  try_all [] attempts last = last
  try_all (address ∷ rest) attempts last =
      let (r, made) = try_address policy.retry_count address attempts in
      let next = try_all rest made r in
      if r.success || not (should_failover r.error_type policy) then r else next

  -- `post_to_admins`
  unfoldable pub post_to_admins : List Text → CallResult
  post_to_admins addresses =
      try_all addresses 0 (local_failure (text "no admin address configured") config)
