-- ===== src/Callback/Items.antt =====
-- flask_xxljob/callback/registry.py: the items of a batch of `run` callbacks.
use flask_xxljob.Base.{
  ◌≡◌, ◌∙◌, sym, refl, Bool, true, false, Option, none, some, is_empty, List, [], ◌∷◌, Text,
  text_eq, text_eq_iff, strip, if◌then◌else◌, arith, ◌⊎◌, Bool-cases, inl, inr,
}
use flask_xxljob.Base.Dict
use flask_xxljob.Base.Dict.{Dict, text_key, get-put}
use flask_xxljob.Callback.{
  Func, callable, Key, name, Run, mapping, not_a_mapping, Result, ok, and_then,
  validate_executor_handler, validate_callback, validate_single, register_run_item, register_run,
  register_optional_run, set_default, seed_run, or_else,
}

pub and_then-ok :
    {A B : Type 0} (x : Result A) (f : A → Result B) (b : B)
    → and_then x f ≡ ok b
    → (a : A) × (x ≡ ok a) × (f a ≡ ok b)
and_then-ok (Result.ok a) f b h = (a, refl, h)
and_then-ok (Result.raised e) f b h = absurd (ground arith)

-- A name that can be registered: not empty, and without white space at its ends.
abbrev pub IsName : Text → Type 0
IsName s = (is_empty s ≡ false) × (strip s ≡ s)

module _ {R : Type 0} where
  -- What the items ask for a name: the callable of the last one of that name.
  abbrev pub requested : List (Key × Func R) → Text → Option R
  requested [] s = none
  requested ((name t, callable f) ∷ items) s =
      or_else (requested items s) (if text_eq t s then some f else none)
  requested (_ ∷ items) s = requested items s

  -- An item that is accepted.
  record IsItem (run r : Dict Text R) (key : Key) (func : Func R) (replace : Bool) : Type 0 where
    pub label : Text
    pub callback : R
    pub key_is : key ≡ name label
    pub func_is : func ≡ callable callback
    pub valid : IsName label
    pub free : (replace ≡ true) ⊎ (Dict.get run label ≡ none)
    pub written : r ≡ Dict.put run label callback

  register_run_item-IsItem :
      (run r : Dict Text R) (key : Key) (func : Func R) (replace : Bool)
      → register_run_item run key func replace ≡ ok r
      → IsItem run r key func replace
  unfolding register_run_item validate_executor_handler validate_callback Dict.has
  register_run_item-IsItem run r (name t) (callable f) replace h = record {
    label = t;
    callback = f;
    key_is = refl;
    func_is = refl;
    valid = ground (arith, text_eq_iff (strip t) t);
    free = ground arith;
    written = ground arith;
  }
  register_run_item-IsItem run r key func replace h = absurd (ground arith)

  set_default-get :
      (run : Dict Text R) (t : Text) (f : R) (s : Text)
      → Dict.get (set_default run t f) s
        ≡ or_else (Dict.get run s) (if text_eq t s then some f else none)
  unfolding Dict.has
  set_default-get run t f s = ground (arith, get-put run t s f, text_eq_iff t s)

  item-get :
      (run r : Dict Text R) (key : Key) (func : Func R) (replace : Bool)
      → IsItem run r key func replace
      → (items : List (Key × Func R)) (s : Text)
      → or_else (requested items s) (Dict.get r s)
        ≡ or_else (requested ((key, func) ∷ items) s) (Dict.get run s)
  item-get run r key func replace i items s =
      rw (i.key_is, i.func_is, i.written, get-put run i.label s i.callback)
        (choose (requested items s) (text_eq i.label s))
    where
      choose :
          (o : Option R) (b : Bool)
          → or_else o (if b then some i.callback else Dict.get run s)
            ≡ or_else (or_else o (if b then some i.callback else none)) (Dict.get run s)
      choose none true = refl
      choose none false = refl
      choose (some x) b = refl

  register_run-get :
      (run r : Dict Text R) (items : List (Key × Func R)) (replace : Bool)
      → register_run run items replace ≡ ok r
      → (s : Text) → Dict.get r s ≡ or_else (requested items s) (Dict.get run s)
  unfolding register_run
  register_run-get run r [] replace h s = ground arith
  register_run-get run r ((key, func) ∷ items) replace h s =
      let (q, first, rest) = and_then-ok (register_run_item run key func replace) _ r h in
      register_run-get q r items replace rest s
      ∙ item-get run q key func replace (register_run_item-IsItem run q key func replace first)
          items s

  -- A name keeps its callback, unless replacing is allowed.
  register_run-keeps :
      (run r : Dict Text R) (items : List (Key × Func R))
      → register_run run items false ≡ ok r
      → (s : Text) (f : R) → Dict.get run s ≡ some f
      → Dict.get r s ≡ some f
  unfolding register_run
  register_run-keeps run r [] h s f e = ground arith
  register_run-keeps run r ((key, func) ∷ items) h s f e =
      let (q, first, rest) = and_then-ok (register_run_item run key func false) _ r h in
      register_run-keeps q r items rest s f
        (kept (register_run_item-IsItem run q key func false first))
    where
      kept : {q : Dict Text R} → IsItem run q key func false → Dict.get q s ≡ some f
      kept i =
          rw (i.written, get-put run i.label s i.callback)
            (ground (arith, i.free, e, text_eq_iff i.label s))

  -- Every name of the registry is one that could be registered.
  unfoldable pub AllNamed : Dict Text R → Type 0
  AllNamed run = (s : Text) (f : R) → Dict.get run s ≡ some f → IsName s

  other_name :
      (run q : Dict Text R) (t s : Text) (c f : R) {b : Bool}
      → q ≡ Dict.put run t c
      → Dict.get (Dict.put run t c) s ≡ (if b then some c else Dict.get run s)
      → b ≡ false
      → Dict.get q s ≡ some f
      → Dict.get run s ≡ some f
  other_name run q t s c f w g n e = ground arith

  register_run-AllNamed :
      (run r : Dict Text R) (items : List (Key × Func R)) (replace : Bool)
      → register_run run items replace ≡ ok r
      → AllNamed run
      → AllNamed r
  unfolding register_run AllNamed
  register_run-AllNamed run r [] replace h v = λ s f e. v s f (ground arith)
  register_run-AllNamed run r ((key, func) ∷ items) replace h v =
      let (q, first, rest) = and_then-ok (register_run_item run key func replace) _ r h in
      register_run-AllNamed q r items replace rest
        (named (register_run_item-IsItem run q key func replace first))
    where
      named : {q : Dict Text R} → IsItem run q key func replace → AllNamed q
      named i s f e = elim (Bool-cases (text_eq i.label s)) [
        | inl same ↦ rw (sym ((text_eq_iff i.label s).0 same)) i.valid
        | inr other ↦ v s f (
            other_name run _ i.label s i.callback f i.written (get-put run i.label s i.callback)
              other e)
      ]

  or_else-none : (o : Option R) → o ≡ or_else o none
  or_else-none none = refl
  or_else-none (some x) = refl

  pub seed_run-get :
      (run other : Dict Text R) (s : Text)
      → Dict.get (seed_run run other) s ≡ or_else (Dict.get run s) (Dict.get other s)
  unfolding Dict.get
  seed_run-get run [] s = or_else-none (Dict.get run s)
  seed_run-get run ((t, f) ∷ d) s =
      rw (seed_run-get (set_default run t f) d s, set_default-get run t f s)
        (choose (Dict.get run s) (text_eq t s))
    where
      choose :
          (o : Option R) (b : Bool)
          → or_else (or_else o (if b then some f else none)) (Dict.get d s)
            ≡ or_else o (if b then some f else Dict.get d s)
      choose none true = refl
      choose none false = refl
      choose (some x) b = refl

abbrev pub requested_func : {F : Type 0} → Option (Func F) → Option F
requested_func (some (callable f)) = some f
requested_func _ = none

pub validate_single-ok :
    {F : Type 0} (label : Text) (func : Option (Func F)) (old q : Option F) (replace : Bool)
    → validate_single label func old replace ≡ ok q
    → q ≡ or_else (requested_func func) old
unfolding validate_single validate_callback
validate_single-ok label func old q replace h = ground arith

module _ {R : Type 0} where
  abbrev pub requested_run : Option (Run R) → Text → Option R
  requested_run (some (mapping items)) s = requested items s
  requested_run _ s = none

  pub optional_run-get :
      (run q : Dict Text R) (items : Option (Run R)) (replace : Bool)
      → register_optional_run run items replace ≡ ok q
      → (s : Text) → Dict.get q s ≡ or_else (requested_run items s) (Dict.get run s)
  optional_run-get run q none replace h s = ground arith
  optional_run-get run q (some not_a_mapping) replace h s = absurd (ground arith)
  optional_run-get run q (some (mapping items)) replace h s =
      register_run-get run q items replace h s

  pub optional_run-keeps :
      (run q : Dict Text R) (items : Option (Run R))
      → register_optional_run run items false ≡ ok q
      → (s : Text) (f : R) → Dict.get run s ≡ some f
      → Dict.get q s ≡ some f
  optional_run-keeps run q none h s f e = ground arith
  optional_run-keeps run q (some not_a_mapping) h s f e = absurd (ground arith)
  optional_run-keeps run q (some (mapping items)) h s f e = register_run-keeps run q items h s f e

  pub optional_run-AllNamed :
      (run q : Dict Text R) (items : Option (Run R)) (replace : Bool)
      → register_optional_run run items replace ≡ ok q
      → AllNamed run
      → AllNamed q
  unfolding AllNamed
  optional_run-AllNamed run q none replace h v = λ s f e. v s f (ground arith)
  optional_run-AllNamed run q (some not_a_mapping) replace h v = absurd (ground arith)
  optional_run-AllNamed run q (some (mapping items)) replace h v =
      register_run-AllNamed run q items replace h v
