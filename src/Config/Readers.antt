-- ===== src/Config/Readers.antt =====
-- flask_xxljob/config.py: the readers `_as_bool` to `_as_non_negative_float`, of the value `config[key]`.
pub mod Ends
use flask_xxljob.Base.{
  ℕ, zero, suc, ◌+◌, ◌-◌, ◌*◌, ◌/◌, ◌%◌, ◌^◌, ℤ, pos, negsuc, ltb, leb, ◌==◌, Bool, true, false,
  ◌&&◌, ◌||◌, Option, none, some, List, [], ◌∷◌, ◌++◌, any, is_empty, Text, text, text_eq,
  if◌then◌else◌,
}
use flask_xxljob.Model.Value.{Float, finite, infinite, nan}
use flask_xxljob.Config.{
  absent, flag, number, real, string, Atom, atom_type, Setting, atom, list, tuple, type_name,
  ConfigError, not_a_boolean, not_a_string, not_an_integer, not_a_number, not_a_string_list,
  not_a_string_item, empty_string, bad_choice, out_of_range, negative_float, Result, ok, invalid,
  unexpected, ◌>>=◌,
}

-- `_as_bool`
unfoldable pub as_bool : Text → Setting → Result Bool
as_bool key (atom (flag b)) = ok b
as_bool key v = invalid (not_a_boolean key (type_name v))

-- `_as_str_strict`
unfoldable pub as_str_strict : Text → Setting → Result Text
as_str_strict key (atom (string s)) = ok s
as_str_strict key v = invalid (not_a_string key (type_name v))

-- `_as_str`: `None` reads as the empty string
unfoldable pub as_str : Text → Setting → Result Text
as_str key (atom absent) = ok []
as_str key (atom (string s)) = ok s
as_str key v = invalid (not_a_string key (type_name v))

-- `_as_non_empty_str`
unfoldable pub as_non_empty_str : Text → Setting → Result Text
as_non_empty_str key v = do
  s ← as_str key v
  if is_empty s then invalid (empty_string key) else ok s

-- `str.upper` of one character, where the result is ASCII: the letters, the dotless i, the long s,
-- the sharp s and the Latin ligatures. The others stay as they are, neither of which is in a level.
unfoldable pub upper_char : ℕ → Text
upper_char c =
    if leb 97 c && leb c 122
    then (c - 32) ∷ []
    else if c == 0x131
    then text "I"
    else if c == 0x17f
    then text "S"
    else if c == 0xdf
    then text "SS"
    else if c == 0xfb00
    then text "FF"
    else if c == 0xfb01
    then text "FI"
    else if c == 0xfb02
    then text "FL"
    else if c == 0xfb03
    then text "FFI"
    else if c == 0xfb04
    then text "FFL"
    else if c == 0xfb05 || c == 0xfb06
    then text "ST"
    else c ∷ []

abbrev pub upper : Text → Text
upper [] = []
upper (c ∷ s) = upper_char c ++ upper s

-- `LOG_LEVELS`
abbrev pub log_levels : List Text
log_levels = text "DEBUG" ∷ text "INFO" ∷ text "WARNING" ∷ text "ERROR" ∷ text "CRITICAL" ∷ []

-- `_as_choice` with `case="upper"`, the only case in use
unfoldable pub as_choice : List Text → Text → Setting → Result Text
as_choice allowed key v = do
  s ← as_str key v
  if any (text_eq (upper s)) allowed then ok (upper s) else invalid (bad_choice key s)

-- `s.split(sep)`, for a separator of one character
abbrev pub push_first : ℕ → List Text → List Text
push_first c [] = (c ∷ []) ∷ []
push_first c (w ∷ ws) = (c ∷ w) ∷ ws

abbrev pub split : ℕ → Text → List Text
split sep [] = [] ∷ []
split sep (c ∷ s) = let rest = split sep s in if c == sep then [] ∷ rest else push_first c rest

-- The items of a list must be strings.
abbrev pub string_items : Text → List Atom → Result (List Text)
string_items key [] = ok []
string_items key (string s ∷ xs) = do rest ← string_items key xs; ok (s ∷ rest)
string_items key (x ∷ xs) = invalid (not_a_string_item key (atom_type x))

-- `[item for item in items if item != ""]`
abbrev pub drop_empty : List Text → List Text
drop_empty [] = []
drop_empty ([] ∷ ws) = drop_empty ws
drop_empty ((c ∷ w) ∷ ws) = (c ∷ w) ∷ drop_empty ws

-- `_as_str_list`
unfoldable pub as_str_list : Text → Setting → Result (List Text)
as_str_list key (atom (string s)) = ok (drop_empty (split 44 s))
as_str_list key (list xs) = do items ← string_items key xs; ok (drop_empty items)
as_str_list key (tuple xs) = do items ← string_items key xs; ok (drop_empty items)
as_str_list key v = invalid (not_a_string_list key (type_name v))

-- `_as_positive_int`
unfoldable pub as_positive_int : Text → Setting → Result ℤ
as_positive_int key (atom (number (pos zero))) = invalid (out_of_range key (pos 0))
as_positive_int key (atom (number (pos (suc n)))) = ok (pos (suc n))
as_positive_int key (atom (number (negsuc n))) = invalid (out_of_range key (negsuc n))
as_positive_int key v = invalid (not_an_integer key (type_name v))

-- `_as_non_negative_int`
unfoldable pub as_non_negative_int : Text → Setting → Result ℤ
as_non_negative_int key (atom (number (pos n))) = ok (pos n)
as_non_negative_int key (atom (number (negsuc n))) = invalid (out_of_range key (negsuc n))
as_non_negative_int key v = invalid (not_an_integer key (type_name v))

-- `float(n)`: 53 bits of `n`, rounded to the nearest and to the even one of two, unless that is
-- 2 ^ 1024 or more. `dropped_bits fuel n` halves `n` until 53 bits are left; a number below
-- 2 ^ 1024 needs fewer turns than the fuel.
abbrev pub dropped_bits : ℕ → ℕ → ℕ
dropped_bits zero n = 0
dropped_bits (suc fuel) n =
    let rest = dropped_bits fuel (n / 2) in if ltb n (2 ^ 53) then 0 else suc rest

abbrev pub round_half_even : ℕ → ℕ → ℕ
round_half_even n d =
    if ltb (2 * (n % d)) d || (2 * (n % d) == d && (n / d) % 2 == 0) then n / d else suc (n / d)

unfoldable pub finite_or_overflow : ℕ → ℕ → Result Float
finite_or_overflow q shift =
    if leb (2 ^ 1024) (q * 2 ^ shift) then unexpected else ok (finite (pos q) shift 0)

unfoldable pub to_float : ℕ → Result Float
to_float n =
    let shift = dropped_bits 972 n in finite_or_overflow (round_half_even n (2 ^ shift)) shift

-- `_as_non_negative_float`: NaN and infinity are not less than 0
unfoldable pub as_non_negative_float : Text → Setting → Result Float
as_non_negative_float key (atom (number (pos n))) = to_float n
as_non_negative_float key (atom (number (negsuc n))) = invalid (negative_float key)
as_non_negative_float key (atom (real (finite (pos m) up down))) = ok (finite (pos m) up down)
as_non_negative_float key (atom (real (finite (negsuc m) up down))) = invalid (negative_float key)
as_non_negative_float key (atom (real (infinite true))) = invalid (negative_float key)
as_non_negative_float key (atom (real (infinite false))) = ok (infinite false)
as_non_negative_float key (atom (real nan)) = ok nan
as_non_negative_float key v = invalid (not_a_number key (type_name v))
