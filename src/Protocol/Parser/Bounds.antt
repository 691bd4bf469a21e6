-- ===== src/Protocol/Parser/Bounds.antt =====
-- flask_xxljob/protocol/parser.py and validator.py: what is accepted.
use flask_xxljob.Base.{
  ℕ, zero, suc, ◌+◌, ◌-◌, ◌≤◌, ◌≡◌, ◌↔◌, ◌⊎◌, inl, refl, true, Option, none, some, List, [], ◌∷◌,
  ◌++◌, ◌==◌, ◌||◌, length, length-append, is_empty, Text, text_eq_iff, strip, arith, if◌then◌else◌,
}
use flask_xxljob.Protocol.Parser.{
  body, read_chunks, read_limited_body, check_access_token, is_token,
}

module _ {S : Type 0} (read : S → ℕ → List ℕ × S) where
  -- More turns than there are bytes to read make no difference.
  read_chunks-fuel :
      (fuel more : ℕ) (s : S) (remaining : ℕ)
      → remaining ≤ fuel
      → remaining ≤ more
      → read_chunks read fuel s remaining ≡ read_chunks read more s remaining
  unfolding read_chunks
  read_chunks-fuel zero zero s remaining h g = refl
  read_chunks-fuel zero (suc more) s remaining h g = ground arith
  read_chunks-fuel (suc fuel) zero s remaining h g = ground arith
  read_chunks-fuel (suc fuel) (suc more) s remaining h g =
      go (read s remaining).0
        (read_chunks-fuel fuel more (read s remaining).1 (remaining - length (read s remaining).0))
    where
      go :
          (chunk : List ℕ) {x y : List ℕ}
          → (remaining - length chunk ≤ fuel → remaining - length chunk ≤ more → x ≡ y)
          → (if remaining == 0 || is_empty chunk then [] else chunk ++ x)
            ≡ (if remaining == 0 || is_empty chunk then [] else chunk ++ y)
      go [] ih = ground arith
      go (b ∷ bs) ih = ground (arith, ih)

module _ {S : Type 0} (read : S → ℕ → List ℕ × S)
    (bounded : (s : S) (n : ℕ) → length (read s n).0 ≤ n) where
  length-read_chunks :
      (fuel : ℕ) (s : S) (remaining : ℕ) → length (read_chunks read fuel s remaining) ≤ remaining
  unfolding read_chunks
  length-read_chunks zero s remaining = omega arith
  length-read_chunks (suc fuel) s remaining =
      let ih =
        length-read_chunks fuel (read s remaining).1 (remaining - length (read s remaining).0) in
      let app =
        length-append (read s remaining).0
          (read_chunks read fuel (read s remaining).1 (remaining - length (read s remaining).0)) in
      ground (arith, ih, app, bounded s remaining)

module _ {S : Type 0} (read : S → ℕ → List ℕ × S) where
  -- The loop that reads a request body ends: it makes at most as many turns as the number of bytes
  -- that it may read, since further ones would change nothing. A body that is accepted has at most
  -- `max_request_size` bytes, whatever the stream returns.
  pub read_limited_body-bound :
      (s : S) (content_length : Option ℕ) (max_request_size more : ℕ) (b : List ℕ)
      → read_limited_body read s content_length max_request_size ≡ body b
      → max_request_size + 1 ≤ more
      → (length b ≤ max_request_size) × (b ≡ read_chunks read more s (max_request_size + 1))
  unfolding read_limited_body
  read_limited_body-bound s none n more b h m =
      ground (arith, read_chunks-fuel read (n + 1) more s (n + 1))
  read_limited_body-bound s (some k) n more b h m =
      ground (arith, read_chunks-fuel read (n + 1) more s (n + 1))

  -- From a stream that returns no more bytes than asked for, one byte more than the accepted size
  -- is buffered at most, however long the body is.
  pub read_chunks-bound :
      (bounded : (s : S) (n : ℕ) → length (read s n).0 ≤ n) (s : S) (max_request_size : ℕ)
      → length (read_chunks read (max_request_size + 1) s (max_request_size + 1))
        ≤ max_request_size + 1
  read_chunks-bound bounded s n = length-read_chunks read bounded (n + 1) s (n + 1)

-- The access check passes exactly when no token is configured, or a blank one, or when the header
-- is the configured token.
pub check_access_token_iff :
    (configured : Text) (token : Option Text)
    → (check_access_token configured token ≡ true)
      ↔ ((strip configured ≡ []) ⊎ (token ≡ some configured))
unfolding check_access_token strip
check_access_token_iff [] token = (λ h. inl refl, λ h. refl)
check_access_token_iff (c ∷ s) token = go (strip (c ∷ s)) token
  where
    go :
        (stripped : Text) (token : Option Text)
        → ((if is_empty stripped then true else is_token (c ∷ s) token) ≡ true)
          ↔ ((stripped ≡ []) ⊎ (token ≡ some (c ∷ s)))
    go [] token = (λ h. inl refl, λ h. refl)
    go (x ∷ xs) none = ground arith
    go (x ∷ xs) (some t) = ground (arith, text_eq_iff (c ∷ s) t)
