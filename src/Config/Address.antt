-- ===== src/Config/Address.antt =====
-- flask_xxljob/config.py: the addresses. What Python's urllib, ipaddress, codecs and logging answer
-- is a parameter, `Platform`.
pub mod Laws
use flask_xxljob.Base.{
  ℕ, ◌+◌, ltb, leb, ◌==◌, Bool, true, false, not, ◌&&◌, ◌||◌, Option, none, some, is_some, List, [],
  ◌∷◌, any, all, is_empty, length, rstrip, Text, text, text_eq, if◌then◌else◌,
}
use flask_xxljob.Client.Post.{is_slash, join_url}
use flask_xxljob.Config.{Result, ok, invalid, bad_characters, bad_host_or_port, bad_url}
use flask_xxljob.Config.Readers.{split}
use flask_xxljob.Config.Prefix.{is_blank}

-- The result of `urlsplit(value)`, with its properties.
pub record Parts : Type 0 where
  pub scheme : Text
  pub hostname : Option Text
  pub port : Option ℕ
  pub username : Option Text
  pub password : Option Text
  pub query : Text
  pub fragment : Text

-- How a check by the standard library ends: it returns, it raises an exception that the code turns
-- into an `XXLJobConfigError`, or another one.
pub data Check : Type 0 where
  passes refused raises : Check

pub record Platform : Type 0 where
  -- `urlsplit` and the properties of its result: `none` for a `ValueError`
  pub urlsplit : Text → Option Parts
  -- `ipaddress.ip_address(hostname)` returns
  pub is_ip_address : Text → Bool
  -- `hostname.encode("idna").decode("ascii")`: `none` for a `UnicodeError`
  pub idna : Text → Option Text
  -- `str.isdigit` of one character
  pub is_digit : ℕ → Bool
  -- `codecs.lookup(encoding)`, refused by a `LookupError`
  pub lookup_codec : Text → Check
  -- a record is formatted with the format and the date format, refused by a `KeyError`, a
  -- `TypeError` or a `ValueError`
  pub format_record : Text → Text → Check

-- `str.isalnum` of an ASCII character
unfoldable pub is_alnum : ℕ → Bool
is_alnum c = (leb 48 c && leb c 57) || (leb 65 c && leb c 90) || (leb 97 c && leb c 122)

-- `label[-1]`, of a label that is not empty
abbrev pub last_of : ℕ → Text → ℕ
last_of c [] = c
last_of c (d ∷ s) = last_of d s

abbrev pub is_label_char : ℕ → Bool
is_label_char c = is_alnum c || c == 45

-- a turn of the loop over the labels
unfoldable pub is_label : Text → Bool
is_label [] = false
is_label (c ∷ s) =
    leb (length (c ∷ s)) 63 && is_alnum c && is_alnum (last_of c s) && all is_label_char (c ∷ s)

-- `s[:-1]` when `s` ends with a dot
abbrev pub drop_last_dot : Text → Text
drop_last_dot [] = []
drop_last_dot (c ∷ []) = if c == 46 then [] else c ∷ []
drop_last_dot (c ∷ d ∷ s) = c ∷ drop_last_dot (d ∷ s)

abbrev pub is_dns_name : Text → Bool
is_dns_name s = not (is_empty s) && leb (length s) 253 && all is_label (split 46 s)

-- lines 520 to 536
abbrev pub is_ascii_name : Option Text → Bool
is_ascii_name none = false
is_ascii_name (some s) = is_dns_name (drop_last_dot s)

-- `str.lower` of a scheme, which is ASCII
abbrev pub lower : Text → Text
lower [] = []
lower (c ∷ s) = (if leb 65 c && leb c 90 then c + 32 else c) ∷ lower s

module _ (p : Platform) where
  -- `_is_valid_hostname`
  unfoldable pub is_valid_hostname : Text → Bool
  unfolding is_label
  is_valid_hostname hostname =
      if p.is_ip_address hostname
      then true
      else if all (λ c. p.is_digit c || c == 46) hostname
      then false
      else is_ascii_name (p.idna hostname)

  abbrev pub has_host : Option Text → Bool
  has_host none = false
  has_host (some h) = not (is_empty h) && is_valid_hostname h

  abbrev pub is_zero : Option ℕ → Bool
  is_zero none = false
  is_zero (some n) = n == 0

  -- not `invalid` of lines 488 to 499
  unfoldable pub is_http : Text → Parts → Bool
  is_http value u =
      (text_eq (lower u.scheme) (text "http") || text_eq (lower u.scheme) (text "https"))
      && has_host u.hostname
      && not (is_zero u.port)
      && not (is_some u.username)
      && not (is_some u.password)
      && is_empty u.query
      && is_empty u.fragment
      && not (any (λ c. c == 63) value)
      && not (any (λ c. c == 35) value)

  abbrev pub check_parts : Text → Text → Option Parts → Result {0} Unit
  check_parts key value none = invalid (bad_host_or_port key)
  check_parts key value (some u) = if is_http value u then ok tt else invalid (bad_url key)

  -- `_validate_http_url`
  unfoldable pub validate_http_url : Text → Text → Result {0} Unit
  unfolding is_http
  validate_http_url key value =
      if any is_blank value
      then invalid (bad_characters key)
      else check_parts key value (p.urlsplit value)

-- `_normalize_address`
unfoldable pub normalize_address : Text → Text
normalize_address s = if is_empty s then [] else rstrip is_slash s

-- `_apply_route_prefix`
unfoldable pub apply_route_prefix : Text → Text → Text
apply_route_prefix address route_prefix =
    if is_empty address || is_empty route_prefix then address else join_url address route_prefix
