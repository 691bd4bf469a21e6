-- ===== src/Config/Prefix.antt =====
-- flask_xxljob/config.py: `_normalize_prefix`.
use flask_xxljob.Base.{
  ℕ, ltb, ◌==◌, Bool, true, false, ◌&&◌, ◌||◌, List, [], ◌∷◌, any, is_empty, is_space, Text, text,
  text_eq, if◌then◌else◌,
}
use flask_xxljob.Config.{Result, ok, invalid, prefix_characters, prefix_slashes, prefix_segments}
use flask_xxljob.Config.Readers.{split}
pub mod Laws

-- `ord(character) < 0x20 or ord(character) == 0x7F or character.isspace()`
unfoldable pub is_blank : ℕ → Bool
is_blank c = ltb c 0x20 || c == 0x7f || is_space c

-- one of ? # % \ < >, or a blank
unfoldable pub is_forbidden : ℕ → Bool
unfolding is_blank
is_forbidden c = c == 63 || c == 35 || c == 37 || c == 92 || c == 60 || c == 62 || is_blank c

abbrev pub starts_with_slash : Text → Bool
starts_with_slash [] = false
starts_with_slash (c ∷ s) = c == 47

-- `"//" in s`
abbrev pub has_double_slash : Text → Bool
has_double_slash [] = false
has_double_slash (c ∷ s) = (c == 47 && starts_with_slash s) || has_double_slash s

-- `s[1:]` after a slash, and `s[:-1]` before one
abbrev pub drop_first_slash : Text → Text
drop_first_slash [] = []
drop_first_slash (c ∷ s) = if c == 47 then s else c ∷ s

abbrev pub drop_last_slash : Text → Text
drop_last_slash [] = []
drop_last_slash (c ∷ []) = if c == 47 then [] else c ∷ []
drop_last_slash (c ∷ d ∷ s) = c ∷ drop_last_slash (d ∷ s)

-- `segment in {".", ".."}`
abbrev pub is_dot_segment : Text → Bool
is_dot_segment w = text_eq w (text ".") || text_eq w (text "..")

-- lines 563 to 575
abbrev pub check_segments : Text → Result Text
check_segments s =
    if is_empty s || any is_dot_segment (split 47 s) then invalid prefix_segments else ok (47 ∷ s)

unfoldable pub normalize_prefix : Text → Result Text
normalize_prefix s =
    if is_empty s || text_eq s (text "/")
    then ok []
    else if any is_forbidden s
    then invalid prefix_characters
    else if has_double_slash s
    then invalid prefix_slashes
    else check_segments (drop_last_slash (drop_first_slash s))
