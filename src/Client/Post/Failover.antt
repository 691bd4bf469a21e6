-- ===== src/Client/Post/Failover.antt =====
-- flask_xxljob/client/__init__.py: retry and failover of `post_to_admins`.
use flask_xxljob.Base.{
  ℕ, pos, zero, suc, ◌+◌, ◌*◌, ◌≡◌, ◌⊎◌, inl, inr, refl, true, false, not, ◌||◌, some, List, [],
  ◌∷◌, ◌++◌, length, Text, text, arith,
}
use flask_xxljob.Client.Result.{CallResult, local_failure, config}
use flask_xxljob.Client.Policy.{AdminCallPolicy}
use flask_xxljob.Model.Value.{Fields, lookup, null, int, str, object}
use flask_xxljob.Client.Post.{
  join_url, response, read_fields, read_body, Reply, timed_out, failed, Transport, read_reply,
  request, try_address, try_all, post_to_admins, is_retryable, should_failover,
}

-- There was no response.
abbrev pub IsDown : Reply → Type 0
IsDown reply = (e : Text) × ((reply ≡ timed_out e) ⊎ (reply ≡ failed e))

-- What follows from a transient failure, under any policy.
record IsTransient (policy : AdminCallPolicy) (n : ℕ) (r : CallResult) : Type 0 where
  pub count : r.attempt_count ≡ n
  pub success : r.success ≡ false
  pub retry : is_retryable r.error_type ≡ true
  pub failover : should_failover r.error_type policy ≡ true

-- The Admin accepts the call, in a form that the client can read.
abbrev pub IsGood : Reply → Type 0
IsGood reply =
    (d : Fields) × (reply ≡ response 200 (some (object d)))
    × (lookup d (text "code") ≡ int (pos 200))
    × ((lookup d (text "msg") ≡ null) ⊎ ((m : Text) × (lookup d (text "msg") ≡ str m)))

module _ (transport : Transport) (show : ℕ → Text) (api_path : Text)
    (policy : AdminCallPolicy) where
  -- No request for the API at the address is answered; each is accepted.
  abbrev pub IsSilent : Text → Type 0
  IsSilent address = (n : ℕ) → IsDown (transport.post n (join_url address api_path))

  abbrev pub Accepts : Text → Type 0
  Accepts address = (n : ℕ) → IsGood (transport.post n (join_url address api_path))

  abbrev pub AreSilent : List Text → Type 0
  AreSilent [] = Unit
  AreSilent (address ∷ rest) = IsSilent address × AreSilent rest

  read_down :
      (reply : Reply) (address : Text) (n elapsed : ℕ)
      → IsDown reply
      → IsTransient policy n (read_reply address n elapsed show reply)
  unfolding read_reply is_retryable should_failover
  read_down reply address n elapsed (e, inl h) =
      rw h (record { count = refl; success = refl; retry = refl; failover = refl })
  read_down reply address n elapsed (e, inr h) =
      rw h (record { count = refl; success = refl; retry = refl; failover = refl })

  request-IsTransient :
      (address : Text) (n : ℕ)
      → IsSilent address
      → IsTransient policy n (request transport show api_path policy address n)
  unfolding request
  request-IsTransient address n down = read_down _ address n _ (down n)

  try_address-down :
      (retries : ℕ) (address : Text) (n : ℕ)
      → IsSilent address
      → ((try_address transport show api_path policy retries address n).1 ≡ n + suc retries)
        × IsTransient policy
            (n + suc retries)
            (try_address transport show api_path policy retries address n).0
  unfolding try_address
  try_address-down zero address n down =
      let t = request-IsTransient address (suc n) down in
      (
        omega arith,
        record {
          count = omega (arith, t.count);
          success = t.success;
          retry = t.retry;
          failover = t.failover;
        },
      )
  try_address-down (suc retries) address n down =
      let (made, t) = try_address-down retries address (suc n) down in
      rw (request-IsTransient address (suc n) down).retry (
        omega (arith, made),
        record {
          count = omega (arith, t.count);
          success = t.success;
          retry = t.retry;
          failover = t.failover;
        },
      )

  try_all-down :
      (addresses : List Text) (n : ℕ) (last : CallResult)
      → AreSilent addresses
      → last.attempt_count ≡ n
      → (try_all transport show api_path policy addresses n last).attempt_count
        ≡ n + length addresses * suc policy.retry_count
  unfolding try_all
  try_all-down [] n last down h = omega arith
  try_all-down (address ∷ rest) n last (down, others) h =
      let (made, t) = try_address-down policy.retry_count address n down in
      rw (t.success, t.failover)
        (omega (
          arith,
          made,
          try_all-down rest
              (try_address transport show api_path policy policy.retry_count address n).1
              (try_address transport show api_path policy policy.retry_count address n).0 others
              (omega (arith, made, t.count)),
        ))

  -- When no request is answered, a call makes `retry_count + 1` requests for each of the
  -- addresses, whatever the policy is.
  post_to_admins-exhaustive :
      (addresses : List Text)
      → AreSilent addresses
      → (post_to_admins transport show api_path policy addresses).attempt_count
        ≡ length addresses * suc policy.retry_count
  unfolding post_to_admins
  post_to_admins-exhaustive addresses down = omega (
    arith,
    try_all-down addresses 0 (local_failure (text "no admin address configured") config) down refl,
  )

  -- The result of the n-th request, which the Admin at the address accepts.
  record IsReached (address : Text) (n : ℕ) (r : CallResult) : Type 0 where
    pub success : r.success ≡ true
    pub retry : is_retryable r.error_type ≡ false
    pub at : r.address ≡ some address
    pub count : r.attempt_count ≡ n

  read_good :
      (reply : Reply) (address : Text) (n elapsed : ℕ)
      → IsGood reply
      → IsReached address n (read_reply address n elapsed show reply)
  unfolding read_reply read_body read_fields is_retryable
  read_good reply address n elapsed (d, h, code, inl msg) =
      rw (h, code, msg) (record { success = refl; retry = refl; at = refl; count = refl })
  read_good reply address n elapsed (d, h, code, inr (m, msg)) =
      rw (h, code, msg) (record { success = refl; retry = refl; at = refl; count = refl })

  request-IsReached :
      (address : Text) (n : ℕ)
      → Accepts address
      → IsReached address n (request transport show api_path policy address n)
  unfolding request
  request-IsReached address n up = read_good _ address n _ (up n)

  try_address-IsReached :
      (retries : ℕ) (address : Text) (n : ℕ)
      → Accepts address
      → IsReached address (suc n) (try_address transport show api_path policy retries address n).0
  unfolding try_address
  try_address-IsReached zero address n up = request-IsReached address (suc n) up
  try_address-IsReached (suc retries) address n up =
      rw (request-IsReached address (suc n) up).retry (request-IsReached address (suc n) up)

  try_all-IsReached :
      (before after : List Text) (address : Text) (n : ℕ) (last : CallResult)
      → AreSilent before
      → Accepts address
      → IsReached address
          (suc (n + length before * suc policy.retry_count))
          (try_all transport show api_path policy (before ++ (address ∷ after)) n last)
  unfolding try_all
  try_all-IsReached [] after address n last down up =
      let t = try_address-IsReached policy.retry_count address n up in
      rw t.success
        (record { success = t.success; retry = t.retry; at = t.at; count = omega (arith, t.count) })
  try_all-IsReached (b ∷ before) after address n last (silent, others) up =
      let (made, failure) = try_address-down policy.retry_count b n silent in
      let t =
        try_all-IsReached before after address
          (try_address transport show api_path policy policy.retry_count b n).1
          (try_address transport show api_path policy policy.retry_count b n).0 others up in
      rw (failure.success, failure.failover)
        (record {
          success = t.success;
          retry = t.retry;
          at = t.at;
          count = omega (arith, t.count, made);
        })

  -- Each Admin address is tried in its turn: when the API is not answered at the addresses in front
  -- of one, and accepts there, the call succeeds at that address, with its first request to it,
  -- after `retry_count + 1` requests for each address in front, whatever the policy is and
  -- whatever addresses follow.
  pub post_to_admins-reaches :
      (before after : List Text) (address : Text)
      → AreSilent before
      → Accepts address
      → ((post_to_admins transport show api_path policy (before ++ (address ∷ after))).success
          ≡ true)
        × ((post_to_admins transport show api_path policy (before ++ (address ∷ after))).address
            ≡ some address)
        × ((post_to_admins transport show api_path policy
              (before ++ (address ∷ after))).attempt_count
            ≡ length before * suc policy.retry_count + 1)
  unfolding post_to_admins
  post_to_admins-reaches before after address down up =
      let t =
        try_all-IsReached before after address 0
          (local_failure (text "no admin address configured") config) down up in
      (t.success, t.at, omega (arith, t.count))

  -- The first address is decisive unless its last failure is one that the policy fails over on: the
  -- other addresses then make no difference to the result.
  pub post_to_admins-decisive :
      (address : Text) (rest : List Text)
      → ((try_address transport show api_path policy policy.retry_count address 0).0.success
          || not (
              should_failover
                (try_address transport show api_path policy policy.retry_count address
                  0).0.error_type
                policy))
        ≡ true
      → post_to_admins transport show api_path policy (address ∷ rest)
        ≡ post_to_admins transport show api_path policy (address ∷ [])
  unfolding post_to_admins try_all
  post_to_admins-decisive address rest h = rw h refl
