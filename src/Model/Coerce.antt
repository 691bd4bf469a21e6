-- ===== src/Model/Coerce.antt =====
-- flask_xxljob/model/coerce.py: `coerce_str` and `coerce_int`, with what `int(s)`, `str.strip` and
-- `float.is_integer` do.
use flask_xxljob.Base.{
  ℕ, ℤ, pos, negsuc, neg, zero, suc, ◌+◌, ◌-◌, ◌*◌, ◌/◌, ◌%◌, ◌^◌, leb, Bool, true, false, not,
  ◌&&◌, ◌==◌, Option, none, some, List, [], ◌∷◌, ◌++◌, is_empty, length, Text, text, strip,
  if◌then◌else◌,
}
use mathlib.Core.Option
use flask_xxljob.Model.Value.{
  Value, null, bool, int, float, str, list, object, Float, finite, infinite, nan,
}
pub mod Laws

-- `ModelParseError`, by its cause.
pub data ParseError : Type 0 where
  got_bool fractional non_numeric : Text → ParseError
  not_a_string not_an_integer : Text → Text → ParseError

-- `type(value).__name__`
abbrev pub type_name : Value → Text
type_name null = text "NoneType"
type_name (bool b) = text "bool"
type_name (int n) = text "int"
type_name (float x) = text "float"
type_name (str s) = text "str"
type_name (list vs) = text "list"
type_name (object d) = text "dict"

-- `str(exc)`
abbrev pub describe : Text → Text → Text
describe field end = text "field '" ++ field ++ text "' must be " ++ end

unfoldable pub error_text : ParseError → Text
error_text (got_bool field) = describe field (text "an integer, got bool")
error_text (fractional field) = describe field (text "an integer, got a fractional number")
error_text (non_numeric field) = describe field (text "an integer, got a non-numeric string")
error_text (not_a_string field kind) = describe field (text "a string, got " ++ kind)
error_text (not_an_integer field kind) = describe field (text "an integer, got " ++ kind)

pub data Parsed {ℓ} (A : Type ℓ) : Type ℓ where
  parsed : A → Parsed A
  refused : ParseError → Parsed A

infixl 20 ◌>>=◌
abbrev pub ◌>>=◌ {ℓ κ} : {A : Type ℓ} {B : Type κ} → Parsed A → (A → Parsed B) → Parsed B
parsed a >>= f = f a
refused e >>= f = refused e

-- `coerce_str`
unfoldable pub coerce_str : Value → Text → Text → Parsed Text
coerce_str null field default = parsed default
coerce_str (str s) field default = parsed s
coerce_str v field default = refused (not_a_string field (type_name v))

-- The zeros of the runs of ten decimal digits of Unicode.
abbrev pub later_zeros : List ℕ
later_zeros =
    0x660 ∷ 0x6f0 ∷ 0x7c0 ∷ 0x966 ∷ 0x9e6 ∷ 0xa66 ∷ 0xae6 ∷ 0xb66 ∷ 0xbe6 ∷ 0xc66 ∷ 0xce6 ∷ 0xd66
    ∷ 0xde6 ∷ 0xe50 ∷ 0xed0 ∷ 0xf20 ∷ 0x1040 ∷ 0x1090 ∷ 0x17e0 ∷ 0x1810 ∷ 0x1946 ∷ 0x19d0 ∷ 0x1a80
    ∷ 0x1a90 ∷ 0x1b50 ∷ 0x1bb0 ∷ 0x1c40 ∷ 0x1c50 ∷ 0xa620 ∷ 0xa8d0 ∷ 0xa900 ∷ 0xa9d0 ∷ 0xa9f0
    ∷ 0xaa50 ∷ 0xabf0 ∷ 0xff10 ∷ 0x104a0 ∷ 0x10d30 ∷ 0x11066 ∷ 0x110f0 ∷ 0x11136 ∷ 0x111d0 ∷ 0x112f0
    ∷ 0x11450 ∷ 0x114d0 ∷ 0x11650 ∷ 0x116c0 ∷ 0x11730 ∷ 0x118e0 ∷ 0x11950 ∷ 0x11c50 ∷ 0x11d50
    ∷ 0x11da0 ∷ 0x16a60 ∷ 0x16ac0 ∷ 0x16b50 ∷ 0x1d7ce ∷ 0x1d7d8 ∷ 0x1d7e2 ∷ 0x1d7ec ∷ 0x1d7f6
    ∷ 0x1e140 ∷ 0x1e2f0 ∷ 0x1e950 ∷ 0x1fbf0 ∷ []

abbrev pub digit_zeros : List ℕ
digit_zeros = 0x30 ∷ later_zeros

abbrev pub find_digit : List ℕ → ℕ → Option ℕ
find_digit [] c = none
find_digit (z ∷ zs) c =
    let rest = find_digit zs c in if leb z c && leb c (z + 9) then some (c - z) else rest

-- The decimal value of a character.
unfoldable pub digit_value : ℕ → Option ℕ
digit_value c = find_digit digit_zeros c

-- The digits of a number, most significant first: an underscore may stand between two digits.
-- `after` says that a digit has just been read.
abbrev pub cons_digit : Option ℕ → Option (List ℕ) → Option (List ℕ)
cons_digit (some d) (some ds) = some (d ∷ ds)
cons_digit _ _ = none

unfoldable pub read_digits : Bool → Text → Option (List ℕ)
unfolding digit_value
read_digits after [] = if after then some [] else none
read_digits after (c ∷ s) =
    let rest = read_digits (not (c == 95)) s in
    if c == 95 then (if after then rest else none) else cons_digit (digit_value c) rest

abbrev pub of_digits : ℕ → List ℕ → ℕ
of_digits n [] = n
of_digits n (d ∷ ds) = of_digits (n * 10 + d) ds

-- `sys.int_info.default_max_str_digits`
abbrev pub max_str_digits : ℕ
max_str_digits = 4300

abbrev pub limit_digits : Option (List ℕ) → Option ℕ
limit_digits none = none
limit_digits (some ds) = if leb (length ds) max_str_digits then some (of_digits 0 ds) else none

unfoldable pub magnitude : Text → Option ℕ
magnitude s = limit_digits (read_digits false s)

-- `int(s)` of a text without white space at its ends
unfoldable pub parse_int : Text → Option ℤ
unfolding magnitude
parse_int [] = none
parse_int (c ∷ s) =
    if c == 45
    then Option.map neg (magnitude s)
    else if c == 43
    then Option.map pos (magnitude s)
    else Option.map pos (magnitude (c ∷ s))

-- `value.is_integer()`, and then `int(value)`
abbrev pub scale : (ℕ → ℤ) → ℕ → ℕ → Option ℤ
scale sign m down = if m % 2 ^ down == 0 then some (sign (m / 2 ^ down)) else none

unfoldable pub float_to_int : Float → Option ℤ
float_to_int (infinite negative) = none
float_to_int nan = none
float_to_int (finite (pos m) up down) = scale pos (m * 2 ^ up) down
float_to_int (finite (negsuc m) up down) = scale neg (suc m * 2 ^ up) down

abbrev pub or_refuse : Option ℤ → ParseError → Parsed ℤ
or_refuse (some n) e = parsed n
or_refuse none e = refused e

-- `coerce_int`
unfoldable pub coerce_int : Value → Text → ℤ → Parsed ℤ
unfolding parse_int float_to_int
coerce_int null field default = parsed default
coerce_int (bool b) field default = refused (got_bool field)
coerce_int (int n) field default = parsed n
coerce_int (float x) field default = or_refuse (float_to_int x) (fractional field)
coerce_int (str s) field default =
    if is_empty (strip s)
    then parsed default
    else or_refuse (parse_int (strip s)) (non_numeric field)
coerce_int v field default = refused (not_an_integer field (type_name v))
