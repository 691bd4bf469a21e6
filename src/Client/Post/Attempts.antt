-- ===== src/Client/Post/Attempts.antt =====
-- flask_xxljob/client/__init__.py: how many requests `post_to_admins` makes, and which one its
-- result is of.
use flask_xxljob.Base.{
  ℕ, ℤ, pos, negsuc, zero, suc, ◌+◌, ◌*◌, ◌≤◌, ◌<◌, ◌≡◌, ◌⊎◌, inl, inr, refl, true, false, not,
  ◌||◌, Option, none, some, List, [], ◌∷◌, ◌==◌, ==_iff, length, Text, text, arith, Bool-cases,
}
use flask_xxljob.Client.Result.{CallResult, local_failure, config}
use flask_xxljob.Client.Policy.{AdminCallPolicy}
use flask_xxljob.Client.Post.{
  Reply, timed_out, failed, response, Transport, read_fields, read_body, read_reply, request,
  try_address, try_all, post_to_admins, join_url, is_retryable, should_failover, is_success_code,
}
use flask_xxljob.Model.Value.{Value, Fields, lookup, null, int, str, object}

abbrev pub IsOneOf : Text → List Text → Type 0
IsOneOf a [] = ⊥
IsOneOf a (b ∷ bs) = (a ≡ b) ⊎ IsOneOf a bs

-- The Admin has accepted the call: HTTP 200, and the code 200 in a JSON object.
abbrev pub IsAccepted : Reply → Type 0
IsAccepted reply =
    (d : Fields) × (reply ≡ response 200 (some (object d)))
    × (lookup d (text "code") ≡ int (pos 200))

-- The result of a request carries its address and its number, and succeeds only if accepted.
pub record IsResult (reply : Reply) (address : Text) (attempts : ℕ) (r : CallResult) : Type 0 where
  pub count : r.attempt_count ≡ attempts
  pub at : r.address ≡ some address
  pub accepted : r.success ≡ true → IsAccepted reply

is_success_code_sound : (c : ℤ) → is_success_code c ≡ true → c ≡ pos 200
is_success_code_sound (pos n) h = ground arith
is_success_code_sound (negsuc n) h = ground arith

module _ (address : Text) (attempts elapsed : ℕ) where
  read_object :
      (d : Fields) (c m : Value)
      → lookup d (text "code") ≡ c
      → IsResult
          (response 200 (some (object d)))
          address
          attempts
          (read_fields address attempts elapsed 200 c m)
  unfolding read_fields
  read_object d (int c) null e = record {
    count = refl;
    at = refl;
    accepted = λ h. (d, refl, ground (arith, is_success_code_sound c h));
  }
  read_object d (int c) (str m) e = record {
    count = refl;
    at = refl;
    accepted = λ h. (d, refl, ground (arith, is_success_code_sound c h));
  }
  read_object d c m e = record { count = refl; at = refl; accepted = λ h. absurd (ground arith) }

  read_body-IsResult :
      (b : Option Value)
      → IsResult (response 200 b) address attempts (read_body address attempts elapsed 200 b)
  unfolding read_body
  read_body-IsResult none = record {
    count = refl;
    at = refl;
    accepted = λ h. absurd (ground arith);
  }
  read_body-IsResult (some (object d)) = read_object d _ _ refl
  read_body-IsResult (some v) = record {
    count = refl;
    at = refl;
    accepted = λ h. absurd (ground arith);
  }

  read_reply-IsResult :
      (show : ℕ → Text) (reply : Reply)
      → IsResult reply address attempts (read_reply address attempts elapsed show reply)
  unfolding read_reply
  read_reply-IsResult show (timed_out e) = record {
    count = refl;
    at = refl;
    accepted = λ h. absurd (ground arith);
  }
  read_reply-IsResult show (failed e) = record {
    count = refl;
    at = refl;
    accepted = λ h. absurd (ground arith);
  }
  read_reply-IsResult show (response status body) = elim (Bool-cases (status == 200)) [
    | inl e ↦ rw e (at_status ((==_iff status 200).0 e))
    | inr e ↦ rw e (record { count = refl; at = refl; accepted = λ h. absurd (ground arith) })
  ]
    where
      at_status :
          status ≡ 200
          → IsResult
              (response status body)
              address
              attempts
              (read_body address attempts elapsed status body)
      at_status e = rw e (read_body-IsResult body)

module _ (transport : Transport) (show : ℕ → Text) (api_path : Text)
    (policy : AdminCallPolicy) where
  -- The result of the n-th request of the call, made to one of the addresses.
  abbrev IsCall : Text → ℕ → CallResult → Type 0
  IsCall address n r = IsResult (transport.post n (join_url address api_path)) address n r

  request-IsCall :
      (address : Text) (n : ℕ) → IsCall address n (request transport show api_path policy address n)
  unfolding request
  request-IsCall address n = read_reply-IsResult address n (transport.elapsed_ms n) show _

  try_address-IsCall :
      (retries : ℕ) (address : Text) (n : ℕ)
      → IsCall address
          (try_address transport show api_path policy retries address n).1
          (try_address transport show api_path policy retries address n).0
  unfolding try_address
  try_address-IsCall zero address n = request-IsCall address (suc n)
  try_address-IsCall (suc retries) address n =
      elim (Bool-cases
        (is_retryable (request transport show api_path policy address (suc n)).error_type)) [
          | inl e ↦ rw e (try_address-IsCall retries address (suc n))
          | inr e ↦ rw e (request-IsCall address (suc n))
        ]

  try_address-count :
      (retries : ℕ) (address : Text) (n : ℕ)
      → (n < (try_address transport show api_path policy retries address n).1)
        × ((try_address transport show api_path policy retries address n).1 ≤ n + suc retries)
  unfolding try_address
  try_address-count zero address n = omega arith
  try_address-count (suc retries) address n =
      elim (Bool-cases
        (is_retryable (request transport show api_path policy address (suc n)).error_type)) [
          | inl e ↦ rw e (omega (arith, try_address-count retries address (suc n)))
          | inr e ↦ rw e (omega arith)
        ]

  -- The outer loop answers with the result of a request to one of the addresses, or with the
  -- result it started from; the requests are counted on.
  data IsAnswer (addresses : List Text) (last r : CallResult) : Type 0 where
    unchanged : r ≡ last → IsAnswer addresses last r
    called :
        (address : Text) (n : ℕ)
        → IsOneOf address addresses
        → IsCall address n r
        → IsAnswer addresses last r

  try_all-IsAnswer :
      (addresses : List Text) (n : ℕ) (last : CallResult)
      → IsAnswer addresses last (try_all transport show api_path policy addresses n last)
  unfolding try_all
  try_all-IsAnswer [] n last = IsAnswer.unchanged refl
  try_all-IsAnswer (address ∷ rest) n last =
      elim (Bool-cases (r.success || not (should_failover r.error_type policy))) [
        | inl e ↦ rw e (IsAnswer.called address _ (inl refl) made)
        | inr e ↦ rw e (further (try_all-IsAnswer rest _ r))
      ]
    where
      r : CallResult
      r = (try_address transport show api_path policy policy.retry_count address n).0

      made :
          IsCall address
            (try_address transport show api_path policy policy.retry_count address n).1
            r
      made = try_address-IsCall policy.retry_count address n

      further : {q : CallResult} → IsAnswer rest r q → IsAnswer (address ∷ rest) last q
      further (IsAnswer.unchanged same) =
          IsAnswer.called address
            (try_address transport show api_path policy policy.retry_count address n).1 (inl refl)
            (rw same made)
      further (IsAnswer.called a k one call) = IsAnswer.called a k (inr one) call

  try_all-count :
      (addresses : List Text) (n : ℕ) (last : CallResult)
      → last.attempt_count ≤ n
      → (try_all transport show api_path policy addresses n last).attempt_count
        ≤ n + length addresses * suc policy.retry_count
  unfolding try_all
  try_all-count [] n last h = omega (arith, h)
  try_all-count (address ∷ rest) n last h =
      elim (Bool-cases (r.success || not (should_failover r.error_type policy))) [
        | inl e ↦ rw e (omega (arith, made.count, try_address-count policy.retry_count address n))
        | inr e ↦ rw e (
            omega (
              arith,
              try_address-count policy.retry_count address n,
              try_all-count rest m r (omega (arith, made.count)),
            ))
      ]
    where
      r : CallResult
      r = (try_address transport show api_path policy policy.retry_count address n).0

      m : ℕ
      m = (try_address transport show api_path policy policy.retry_count address n).1

      made : IsCall address m r
      made = try_address-IsCall policy.retry_count address n

  -- A call makes at most `retry_count + 1` requests for each address.
  pub post_to_admins-bound :
      (addresses : List Text)
      → (post_to_admins transport show api_path policy addresses).attempt_count
        ≤ length addresses * suc policy.retry_count
  unfolding post_to_admins
  post_to_admins-bound addresses = omega (
    arith,
    try_all-count addresses 0 (local_failure (text "no admin address configured") config)
        (omega arith),
  )

  answer-accepted :
      (addresses : List Text) (last r : CallResult)
      → last.success ≡ false
      → r.success ≡ true
      → IsAnswer addresses last r
      → (address : Text) × IsOneOf address addresses
        × (r.address ≡ some address)
        × IsAccepted (transport.post r.attempt_count (join_url address api_path))
  answer-accepted addresses last r f h (IsAnswer.unchanged same) = absurd (ground arith)
  answer-accepted addresses last r f h (IsAnswer.called a n one call) =
      (a, one, call.at, rw call.count (call.accepted h))

  -- A call that succeeds names one of the given addresses, and the last request that it counts,
  -- made to that address, was answered with HTTP 200 and a JSON object whose code is 200.
  pub post_to_admins-accepted :
      (addresses : List Text)
      → (post_to_admins transport show api_path policy addresses).success ≡ true
      → (address : Text) × IsOneOf address addresses
        × ((post_to_admins transport show api_path policy addresses).address ≡ some address)
        × IsAccepted (
            transport.post
              (post_to_admins transport show api_path policy addresses).attempt_count
              (join_url address api_path))
  unfolding post_to_admins
  post_to_admins-accepted addresses h =
      answer-accepted addresses _ _ refl h (try_all-IsAnswer addresses 0 _)
