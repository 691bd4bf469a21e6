-- ===== src/Config/Prefix/Laws.antt =====
-- flask_xxljob/config.py: what `_normalize_prefix` accepts.
use flask_xxljob.Base.{
  ℕ, Bool, false, ◌||◌, ◌≡◌, refl, [], ◌∷◌, any, is_empty, Text, text, text_eq, arith, is_space,
  Bool-cases, ◌⊎◌, inl, inr,
}
use flask_xxljob.Config.{ok}
use flask_xxljob.Config.Readers.{split}
use flask_xxljob.Config.Prefix.{
  is_blank, is_forbidden, starts_with_slash, has_double_slash, drop_first_slash, drop_last_slash,
  is_dot_segment, check_segments, normalize_prefix,
}

-- A path of segments without a dot segment, without a forbidden character, an empty segment or a
-- slash at its end.
pub record IsPath (s : Text) : Type 0 where
  pub nonempty : is_empty s ≡ false
  pub plain : any is_forbidden s ≡ false
  pub single : has_double_slash (47 ∷ s) ≡ false
  pub no_end : drop_last_slash s ≡ s
  pub no_dots : any is_dot_segment (split 47 s) ≡ false

abbrev pub IsPrefix : Text → Type 0
IsPrefix r = (r ≡ []) ⊎ ((s : Text) × (r ≡ 47 ∷ s) × IsPath s)

any-drop_last_slash :
    (p : ℕ → Bool) (s : Text) → any p s ≡ false → any p (drop_last_slash s) ≡ false
any-drop_last_slash p [] h = refl
any-drop_last_slash p (c ∷ []) h = ground arith
any-drop_last_slash p (c ∷ d ∷ s) h = ground (arith, any-drop_last_slash p (d ∷ s))

starts_with_slash-drop_last_slash :
    (s : Text) → starts_with_slash s ≡ false → starts_with_slash (drop_last_slash s) ≡ false
starts_with_slash-drop_last_slash [] h = refl
starts_with_slash-drop_last_slash (c ∷ []) h = ground arith
starts_with_slash-drop_last_slash (c ∷ d ∷ s) h = h

has_double_slash-drop_last_slash :
    (s : Text) → has_double_slash s ≡ false → has_double_slash (drop_last_slash s) ≡ false
has_double_slash-drop_last_slash [] h = refl
has_double_slash-drop_last_slash (c ∷ []) h = ground arith
has_double_slash-drop_last_slash (c ∷ d ∷ s) h =
    ground
      (arith, has_double_slash-drop_last_slash (d ∷ s), starts_with_slash-drop_last_slash (d ∷ s))

-- Without two slashes in a row, one slash at the end is all there is.
drop_last_slash_idem :
    (s : Text)
    → has_double_slash s ≡ false
    → drop_last_slash (drop_last_slash s) ≡ drop_last_slash s
drop_last_slash_idem [] h = refl
drop_last_slash_idem (c ∷ []) h = ground arith
drop_last_slash_idem (c ∷ d ∷ []) h = ground arith
drop_last_slash_idem (c ∷ d ∷ e ∷ s) h = ground (arith, drop_last_slash_idem (d ∷ e ∷ s))

any-drop_first_slash :
    (p : ℕ → Bool) (s : Text) → any p s ≡ false → any p (drop_first_slash s) ≡ false
any-drop_first_slash p [] h = refl
any-drop_first_slash p (c ∷ s) h = ground arith

has_double_slash-drop_first_slash :
    (s : Text)
    → has_double_slash s ≡ false
    → (has_double_slash (drop_first_slash s) ≡ false)
      × (starts_with_slash (drop_first_slash s) ≡ false)
has_double_slash-drop_first_slash [] h = (refl, refl)
has_double_slash-drop_first_slash (c ∷ s) h = ground arith

check_segments-ok :
    (s r : Text)
    → check_segments s ≡ ok r
    → (r ≡ 47 ∷ s) × (is_empty s ≡ false) × (any is_dot_segment (split 47 s) ≡ false)
check_segments-ok s r h = ground arith

stripped-IsPath :
    (s r : Text)
    → any is_forbidden s ≡ false
    → has_double_slash s ≡ false
    → check_segments (drop_last_slash (drop_first_slash s)) ≡ ok r
    → IsPrefix r
stripped-IsPath s r plain single h =
    let t = drop_first_slash s in
    let (single_t, no_start) = has_double_slash-drop_first_slash s single in
    let (e, nonempty, no_dots) = check_segments-ok (drop_last_slash t) r h in
    inr (
      drop_last_slash t,
      e,
      record {
        nonempty = nonempty;
        plain = any-drop_last_slash is_forbidden t (any-drop_first_slash is_forbidden s plain);
        single = ground (
          arith,
          has_double_slash-drop_last_slash t single_t,
          starts_with_slash-drop_last_slash t no_start,
        );
        no_end = drop_last_slash_idem t single_t;
        no_dots = no_dots;
      },
    )

-- A prefix that `_normalize_prefix` returns is empty, or a slash before a path that does not end
-- with a slash, has no two slashes in a row, no forbidden character and no segment `.` or `..`.
pub normalize_prefix-IsPrefix : (s r : Text) → normalize_prefix s ≡ ok r → IsPrefix r
unfolding normalize_prefix
normalize_prefix-IsPrefix s r h = elim (Bool-cases (is_empty s || text_eq s (text "/"))) [
  | inl e ↦ inl (ground arith)
  | inr e ↦ elim (Bool-cases (any is_forbidden s)) [
    | inl f ↦ ground arith
    | inr f ↦ elim (Bool-cases (has_double_slash s)) [
      | inl d ↦ ground arith
      | inr d ↦ stripped-IsPath s r f d (ground arith)
    ]
  ]
]

text_eq-slash : (s : Text) → text_eq (47 ∷ s) (text "/") ≡ is_empty s
unfolding text_eq
text_eq-slash [] = refl
text_eq-slash (c ∷ s) = refl

is_forbidden-slash : is_forbidden 47 ≡ false
unfolding is_forbidden is_blank is_space
is_forbidden-slash = refl

IsPath-normalize_prefix : (s : Text) → IsPath s → normalize_prefix (47 ∷ s) ≡ ok (47 ∷ s)
unfolding normalize_prefix
IsPath-normalize_prefix s v =
    rw
      (
        text_eq-slash s,
        v.nonempty,
        is_forbidden-slash,
        v.plain,
        v.single,
        v.no_end,
        v.nonempty,
        v.no_dots,
      )
      refl

-- `_normalize_prefix` leaves a prefix that it has returned as it is.
normalize_prefix_idem : (s r : Text) → normalize_prefix s ≡ ok r → normalize_prefix r ≡ ok r
unfolding normalize_prefix
normalize_prefix_idem s r h = elim (normalize_prefix-IsPrefix s r h) [
  | inl e ↦ ground arith
  | inr (t, e, v) ↦ ground (arith, IsPath-normalize_prefix t v)
]
