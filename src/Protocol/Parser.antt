-- ===== src/Protocol/Parser.antt =====
-- flask_xxljob/protocol/parser.py and validator.py. The request stream and
-- `json.loads(raw_body.decode("utf-8"))` are parameters.
use flask_xxljob.Base.{
  ℕ, zero, suc, ◌+◌, ◌-◌, ltb, ◌==◌, Bool, true, false, ◌||◌, Option, none, some, List, [], ◌++◌,
  is_empty, length, Text, text, text_eq, strip, if◌then◌else◌,
}
use flask_xxljob.Model.Value.{Value, Fields, lookup, str, object}
pub mod Bounds

-- `RequestParseError`
pub data RequestParseError : Type 0 where
  too_large empty_body not_an_object : RequestParseError
  invalid_body : Text → RequestParseError

-- `str(exc)`
unfoldable pub parse_error_text : RequestParseError → Text
parse_error_text too_large = text "request body exceeds the maximum allowed size"
parse_error_text empty_body = text "request body is empty"
parse_error_text not_an_object = text "request body must be a JSON object"
parse_error_text (invalid_body kind) = text "invalid JSON request body: " ++ kind

pub data Body {ℓ} (A : Type ℓ) : Type ℓ where
  body : A → Body A
  rejected : RequestParseError → Body A

-- `json.loads(raw_body.decode("utf-8"))`: a value, or the type of the exception
pub data Loaded : Type 0 where
  loaded : Value → Loaded
  not_loaded : Text → Loaded

-- A stream in a state of type `S`: `read(n)` returns bytes and leaves the next state.
module _ {S : Type 0} (read : S → ℕ → List ℕ × S) where
  -- The loop of `_read_limited_body`, lines 37 to 46. A turn that goes on reads a byte or more, so
  -- `remaining` turns are enough.
  unfoldable pub read_chunks : ℕ → S → ℕ → List ℕ
  read_chunks zero s remaining = []
  read_chunks (suc fuel) s remaining =
      let (chunk, next) = read s remaining in
      let rest = read_chunks fuel next (remaining - length chunk) in
      if remaining == 0 || is_empty chunk then [] else chunk ++ rest

  -- `_read_limited_body`
  unfoldable pub read_limited_body : S → Option ℕ → ℕ → Body (List ℕ)
  read_limited_body s content_length max_request_size =
      let raw_body = read_chunks (max_request_size + 1) s (max_request_size + 1) in
      if is_over content_length
      then rejected too_large
      else if ltb max_request_size (length raw_body)
      then rejected too_large
      else body raw_body
    where
      is_over : Option ℕ → Bool
      is_over none = false
      is_over (some n) = ltb max_request_size n

abbrev pub as_object : Loaded → Body Fields
as_object (not_loaded kind) = rejected (invalid_body kind)
as_object (loaded (object d)) = body d
as_object (loaded _) = rejected not_an_object

-- `parse_json_object`
unfoldable pub parse_json_object : (List ℕ → Loaded) → List ℕ → ℕ → Body Fields
parse_json_object loads raw_body max_request_size =
    if is_empty raw_body
    then rejected empty_body
    else if ltb max_request_size (length raw_body)
    then rejected too_large
    else as_object (loads raw_body)

-- `check_param_length`
abbrev pub exceeds : Value → ℕ → Bool
exceeds (str s) n = ltb n (length s)
exceeds _ n = false

unfoldable pub check_param_length : Fields → ℕ → Option Text
check_param_length fields max_param_length =
    if exceeds (lookup fields (text "executorParams")) max_param_length
    then some (text "executorParams exceeds the maximum allowed length")
    else none

-- `check_access_token`: two texts have the same UTF-8 bytes when they are equal.
abbrev pub is_token : Text → Option Text → Bool
is_token configured none = false
is_token configured (some token) = text_eq configured token

unfoldable pub check_access_token : Text → Option Text → Bool
check_access_token configured_token request_token =
    if is_empty configured_token || is_empty (strip configured_token)
    then true
    else is_token configured_token request_token
