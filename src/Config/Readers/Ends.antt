-- ===== src/Config/Readers/Ends.antt =====
-- flask_xxljob/config.py: how the readers end.
use flask_xxljob.Base.{
  ℕ, suc, leb, ◌*◌, ◌^◌, ◌⊎◌, ℤ, pos, negsuc, true, false, ◌≡◌, ◌≢◌, refl, List, [], ◌∷◌, any,
  is_empty, if◌then◌else◌, Text, text_eq, arith, Bool-cases, inl, inr,
}
use flask_xxljob.Model.Value.{Float, finite, infinite, nan}
use flask_xxljob.Config.{
  flag, number, real, string, Atom, Setting, atom, list, tuple, Result, ok, invalid, unexpected,
  empty_string, bad_choice, Ends, >>=-Ends,
}
use flask_xxljob.Config.Readers.{
  as_bool, as_str_strict, as_str, as_non_empty_str, as_choice, string_items, as_str_list, upper,
  as_positive_int, as_non_negative_int, to_float, finite_or_overflow, round_half_even, dropped_bits,
  as_non_negative_float,
}

abbrev pub IsAny {ℓ} : {A : Type ℓ} → A → Type 0
IsAny a = Unit

abbrev pub IsPositive : ℤ → Type 0
IsPositive n = (m : ℕ) × (n ≡ pos (suc m))

abbrev pub IsNonNegative : ℤ → Type 0
IsNonNegative n = (m : ℕ) × (n ≡ pos m)

-- not less than 0: NaN is not
abbrev pub IsNonNegativeFloat : Float → Type 0
IsNonNegativeFloat x = (x ≢ infinite true) × ((m up down : ℕ) → x ≢ finite (negsuc m) up down)

-- A configured number that `float` cannot convert.
abbrev pub Overflows : Setting → Type 0
Overflows v = (n : ℕ) × (v ≡ atom (number (pos n))) × (to_float n ≡ unexpected)

module _ (O : Type 0) (key : Text) where
  pub as_bool-Ends : (v : Setting) → Ends IsAny O (as_bool key v)
  unfolding Ends as_bool
  as_bool-Ends (atom (flag b)) = tt
  as_bool-Ends v = tt

  pub as_str-Ends : (v : Setting) → Ends IsAny O (as_str key v)
  unfolding Ends as_str
  as_str-Ends (atom (string s)) = tt
  as_str-Ends v = tt

  pub as_str_strict-Ends : (v : Setting) → Ends IsAny O (as_str_strict key v)
  unfolding Ends as_str_strict
  as_str_strict-Ends (atom (string s)) = tt
  as_str_strict-Ends v = tt

  string_items-Ends : (xs : List Atom) → Ends IsAny O (string_items key xs)
  unfolding Ends
  string_items-Ends [] = tt
  string_items-Ends (string s ∷ xs) =
      >>=-Ends IsAny O (string_items key xs) _ (string_items-Ends xs) (λ rest h. tt)
  string_items-Ends (x ∷ xs) = tt

  pub as_str_list-Ends : (v : Setting) → Ends IsAny O (as_str_list key v)
  unfolding Ends as_str_list
  as_str_list-Ends (atom (string s)) = tt
  as_str_list-Ends (list xs) =
      >>=-Ends IsAny O (string_items key xs) _ (string_items-Ends xs) (λ items h. tt)
  as_str_list-Ends (tuple xs) =
      >>=-Ends IsAny O (string_items key xs) _ (string_items-Ends xs) (λ items h. tt)
  as_str_list-Ends v = tt

  pub as_non_empty_str-Ends :
      (v : Setting) → Ends (λ s. is_empty s ≡ false) O (as_non_empty_str key v)
  unfolding Ends as_non_empty_str
  as_non_empty_str-Ends v =
      >>=-Ends (λ s. is_empty s ≡ false) O (as_str key v) _ (as_str-Ends v) (λ s h. nonempty s)
    where
      nonempty :
          (s : Text)
          → Ends
              (λ s. is_empty s ≡ false)
              O
              (if is_empty s then invalid (empty_string key) else ok s)
      nonempty [] = tt
      nonempty (c ∷ s) = refl

  pub as_positive_int-Ends : (v : Setting) → Ends IsPositive O (as_positive_int key v)
  unfolding Ends as_positive_int
  as_positive_int-Ends (atom (number (pos (suc n)))) = (n, refl)
  as_positive_int-Ends v = tt

  pub as_non_negative_int-Ends : (v : Setting) → Ends IsNonNegative O (as_non_negative_int key v)
  unfolding Ends as_non_negative_int
  as_non_negative_int-Ends (atom (number (pos n))) = (n, refl)
  as_non_negative_int-Ends v = tt

  pub as_choice-Ends :
      (allowed : List Text) (v : Setting)
      → Ends (λ s. any (text_eq s) allowed ≡ true) O (as_choice allowed key v)
  unfolding Ends as_choice
  as_choice-Ends allowed v = >>=-Ends IsAllowed O (as_str key v) _ (as_str-Ends v) (λ s h. chosen s)
    where
      IsAllowed : Text → Type 0
      IsAllowed s = any (text_eq s) allowed ≡ true

      chosen :
          (s : Text)
          → Ends IsAllowed O
              (if any (text_eq (upper s)) allowed then ok (upper s) else invalid (bad_choice key s))
      chosen s = elim (Bool-cases (any (text_eq (upper s)) allowed)) [
        | inl e ↦ rw e e
        | inr e ↦ rw e tt
      ]

finite-IsNonNegativeFloat : (m up down : ℕ) → IsNonNegativeFloat (finite (pos m) up down)
finite-IsNonNegativeFloat m up down = (λ e. ground arith, λ a b c e. ground arith)

abbrev FloatEnd : Result Float → Type 0
FloatEnd r = (r ≡ unexpected) ⊎ ((x : Float) × (r ≡ ok x) × IsNonNegativeFloat x)

finite_or_overflow-FloatEnd : (q shift : ℕ) → FloatEnd (finite_or_overflow q shift)
unfolding finite_or_overflow
finite_or_overflow-FloatEnd q shift = elim (Bool-cases (leb (2 ^ 1024) (q * 2 ^ shift))) [
  | inl e ↦ inl (rw e refl)
  | inr e ↦ inr (finite (pos q) shift 0, rw e refl, finite-IsNonNegativeFloat q shift 0)
]

to_float-FloatEnd : (n : ℕ) → FloatEnd (to_float n)
unfolding to_float
to_float-FloatEnd n =
    finite_or_overflow-FloatEnd (round_half_even n (2 ^ dropped_bits 972 n)) (dropped_bits 972 n)

FloatEnd-Ends :
    (O : Type 0) (r : Result Float)
    → FloatEnd r
    → (r ≡ unexpected → O)
    → Ends IsNonNegativeFloat O r
unfolding Ends
FloatEnd-Ends O r (inl e) h = rw e (h e)
FloatEnd-Ends O r (inr (x, e, v)) h = rw e v

pub as_non_negative_float-Ends :
    (key : Text) (v : Setting) → Ends IsNonNegativeFloat (Overflows v) (as_non_negative_float key v)
unfolding Ends as_non_negative_float
as_non_negative_float-Ends key (atom (number (pos n))) =
    FloatEnd-Ends (Overflows (atom (number (pos n)))) (to_float n) (to_float-FloatEnd n)
      (λ e. (n, refl, e))
as_non_negative_float-Ends key (atom (real (finite (pos m) up down))) =
    finite-IsNonNegativeFloat m up down
as_non_negative_float-Ends key (atom (real (infinite false))) =
    (λ e. ground arith, λ a b c e. ground arith)
as_non_negative_float-Ends key (atom (real nan)) = (λ e. ground arith, λ a b c e. ground arith)
as_non_negative_float-Ends key v = tt
