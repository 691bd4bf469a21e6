-- ===== src/Model/Coerce/Laws.antt =====
-- flask_xxljob/model/coerce.py: the laws of `coerce_int`.
use flask_xxljob.Base.{
  is_space, lstrip, rstrip, push_unless_end, ◌-◌, ℕ, ℤ, pos, ◌+◌, ◌≤◌, ◌<◌, ◌≡◌, ◌∙◌, refl, ap,
  true, false, ◌==◌, some, List, [], ◌∷◌, length, Text, strip, arith,
}
use flask_xxljob.Model.Value.{str}
use flask_xxljob.Model.Coerce.{
  parsed, coerce_int, parse_int, magnitude, read_digits, digit_value, of_digits, max_str_digits,
  find_digit, later_zeros,
}

-- The text of decimal digits.
abbrev pub render : List ℕ → Text
render [] = []
render (d ∷ ds) = (48 + d) ∷ render ds

abbrev pub IsDecimal : List ℕ → Type 0
IsDecimal [] = Unit
IsDecimal (d ∷ ds) = (d < 10) × IsDecimal ds

find_digit-head : (z c : ℕ) (zs : List ℕ) → z ≤ c → c ≤ z + 9 → find_digit (z ∷ zs) c ≡ some (c - z)
find_digit-head z c zs l h = ground arith

digit_value-digit : (d : ℕ) → d < 10 → digit_value (48 + d) ≡ some d
unfolding digit_value
digit_value-digit d h =
    find_digit-head 48 (48 + d) later_zeros (omega arith) (omega arith) ∙ ap some (omega arith)

is_space-digit : (d : ℕ) → d < 10 → is_space (48 + d) ≡ false
unfolding is_space
is_space-digit d h = ground arith

lstrip-render : (ds : List ℕ) → IsDecimal ds → lstrip is_space (render ds) ≡ render ds
lstrip-render [] h = refl
lstrip-render (d ∷ ds) (h, hs) = rw (is_space-digit d h) refl

rstrip-render : (ds : List ℕ) → IsDecimal ds → rstrip is_space (render ds) ≡ render ds
rstrip-render [] h = refl
rstrip-render (d ∷ ds) (h, hs) = rw (rstrip-render ds hs) (push ds)
  where
    push : (ds : List ℕ) → push_unless_end is_space (48 + d) (render ds) ≡ (48 + d) ∷ render ds
    push [] = rw (is_space-digit d h) refl
    push (e ∷ es) = refl

strip-render : (ds : List ℕ) → IsDecimal ds → strip (render ds) ≡ render ds
unfolding strip
strip-render ds h = rw (lstrip-render ds h) (rstrip-render ds h)

read_digits-render : (ds : List ℕ) → IsDecimal ds → read_digits true (render ds) ≡ some ds
unfolding read_digits
read_digits-render [] h = refl
read_digits-render (d ∷ ds) (h, hs) =
    rw (not_underscore, digit_value-digit d h, read_digits-render ds hs) refl
  where
    not_underscore : (48 + d == 95) ≡ false
    not_underscore = ground arith

magnitude-render :
    (d : ℕ) (ds : List ℕ)
    → IsDecimal (d ∷ ds)
    → length (d ∷ ds) ≤ max_str_digits
    → magnitude (render (d ∷ ds)) ≡ some (of_digits 0 (d ∷ ds))
unfolding magnitude read_digits
magnitude-render d ds (h, hs) l =
    rw (not_underscore, digit_value-digit d h, read_digits-render ds hs) (ground arith)
  where
    not_underscore : (48 + d == 95) ≡ false
    not_underscore = ground arith

-- `coerce_int` reads the decimal digits of a number as the number, up to the 4300 digits that
-- Python converts.
pub coerce_int-render :
    (d : ℕ) (ds : List ℕ) (field : Text) (default : ℤ)
    → IsDecimal (d ∷ ds)
    → length (d ∷ ds) ≤ max_str_digits
    → coerce_int (str (render (d ∷ ds))) field default ≡ parsed (pos (of_digits 0 (d ∷ ds)))
unfolding coerce_int parse_int
coerce_int-render d ds field default h l =
    rw (strip-render (d ∷ ds) h, minus, plus, magnitude-render d ds h l) refl
  where
    minus : (48 + d == 45) ≡ false
    minus = ground arith

    plus : (48 + d == 43) ≡ false
    plus = ground arith
