-- ===== src/Logging/Handlers.antt =====
-- flask_xxljob/_logging.py: the lists of handlers.
use flask_xxljob.Base.{
  ℕ, ◌==◌, ==_refl, Bool, false, not, ◌||◌, ◌≡◌, refl, ap, sym, ◌∙◌, List, [], ◌∷◌, ◌++◌, any,
  arith, Bool-cases, inl, inr,
}
use flask_xxljob.Registry.State.{add, discard}
use flask_xxljob.Logging.{add_handlers, remove_handlers, stale_handlers}

-- a handler is in a list
abbrev pub mem : ℕ → List ℕ → Bool
mem h hs = any (λ k. k == h) hs

pub append_nil : (xs : List ℕ) → xs ++ [] ≡ xs
append_nil [] = refl
append_nil (x ∷ xs) = ap (λ t. x ∷ t) (append_nil xs)

append_append : (xs ys zs : List ℕ) → (xs ++ ys) ++ zs ≡ xs ++ (ys ++ zs)
append_append [] ys zs = refl
append_append (x ∷ xs) ys zs = ap (λ t. x ∷ t) (append_append xs ys zs)

mem-append : (h : ℕ) (xs ys : List ℕ) → mem h (xs ++ ys) ≡ (mem h xs || mem h ys)
mem-append h [] ys = refl
mem-append h (x ∷ xs) ys = ground (arith, mem-append h xs ys)

add-fresh : (h : ℕ) (xs : List ℕ) → mem h xs ≡ false → add h xs ≡ xs ++ h ∷ []
unfolding add
add-fresh h [] e = refl
add-fresh h (x ∷ xs) e = ground (arith, add-fresh h xs)

discard-append : (h : ℕ) (xs ys : List ℕ) → discard h (xs ++ ys) ≡ discard h xs ++ discard h ys
unfolding discard
discard-append h [] ys = refl
discard-append h (x ∷ xs) ys = ground (arith, discard-append h xs ys)

discard-absent : (h : ℕ) (xs : List ℕ) → mem h xs ≡ false → discard h xs ≡ xs
unfolding discard
discard-absent h [] e = refl
discard-absent h (x ∷ xs) e = ground (arith, discard-absent h xs)

-- no handler of the first list is in the second
abbrev pub IsApart : List ℕ → List ℕ → Type 0
IsApart [] xs = Unit
IsApart (h ∷ hs) xs = (mem h xs ≡ false) × IsApart hs xs

pub remove_handlers-append :
    (hs xs ys : List ℕ)
    → IsApart hs xs
    → remove_handlers hs (xs ++ ys) ≡ xs ++ remove_handlers hs ys
remove_handlers-append [] xs ys a = refl
remove_handlers-append (h ∷ hs) xs ys (e, a) =
    rw (discard-append h xs ys, discard-absent h xs e)
      (remove_handlers-append hs xs (discard h ys) a)

pub stale_handlers-IsApart :
    (p : ℕ → Bool) (hs xs : List ℕ) → IsApart hs xs → IsApart (stale_handlers p hs) xs
stale_handlers-IsApart p [] xs a = tt
stale_handlers-IsApart p (h ∷ hs) xs (e, a) = elim (Bool-cases (p h)) [
  | inl s ↦ rw s (e, stale_handlers-IsApart p hs xs a)
  | inr s ↦ rw s (stale_handlers-IsApart p hs xs a)
]

abbrev pub IsDistinct : List ℕ → Type 0
IsDistinct [] = Unit
IsDistinct (h ∷ hs) = (mem h hs ≡ false) × IsDistinct hs

IsApart-snoc :
    (hs xs : List ℕ) (h : ℕ) → IsApart hs xs → mem h hs ≡ false → IsApart hs (xs ++ h ∷ [])
IsApart-snoc [] xs h a e = tt
IsApart-snoc (k ∷ hs) xs h (b, a) e =
    (ground (arith, mem-append k xs (h ∷ [])), IsApart-snoc hs xs h a (ground arith))

pub add_handlers-append :
    (hs xs : List ℕ) → IsApart hs xs → IsDistinct hs → add_handlers hs xs ≡ xs ++ hs
add_handlers-append [] xs a d = sym (append_nil xs)
add_handlers-append (h ∷ hs) xs (e, a) (f, d) = rw (add-fresh h xs e) (
    add_handlers-append hs (xs ++ h ∷ []) (IsApart-snoc hs xs h a f) d
    ∙ append_append xs (h ∷ []) hs)

-- The handlers that a configuration creates: a file, a console, both or none.
pub data IsCreated (f c : ℕ) : List ℕ → Type 0 where
  nothing : IsCreated f c []
  file : IsCreated f c (f ∷ [])
  console : IsCreated f c (c ∷ [])
  both : IsCreated f c (f ∷ c ∷ [])

-- what is left when the stale handlers and then the others are removed
abbrev pub leaves : (ℕ → Bool) → List ℕ → List ℕ
leaves p hs =
    remove_handlers (stale_handlers (λ h. not (p h)) hs) (remove_handlers (stale_handlers p hs) hs)

module _ (p : ℕ → Bool) (f c : ℕ) (distinct : (c == f) ≡ false) where
  pub leaves-nothing : (hs : List ℕ) → IsCreated f c hs → leaves p hs ≡ []
  unfolding discard
  leaves-nothing hs nothing = refl
  leaves-nothing hs file = elim (Bool-cases (p f)) [
    | inl e ↦ rw (e, ==_refl f) refl
    | inr e ↦ rw (e, ==_refl f) refl
  ]
  leaves-nothing hs console = elim (Bool-cases (p c)) [
    | inl e ↦ rw (e, ==_refl c) refl
    | inr e ↦ rw (e, ==_refl c) refl
  ]
  leaves-nothing hs both = elim (Bool-cases (p f)) [
    | inl e ↦ elim (Bool-cases (p c)) [
      | inl d ↦ rw (e, d) (ground arith)
      | inr d ↦ rw (e, d) (ground arith)
    ]
    | inr e ↦ elim (Bool-cases (p c)) [
      | inl d ↦ rw (e, d) (ground arith)
      | inr d ↦ rw (e, d) (ground arith)
    ]
  ]

  pub created-IsDistinct : (hs : List ℕ) → IsCreated f c hs → IsDistinct hs
  created-IsDistinct hs nothing = tt
  created-IsDistinct hs file = (refl, tt)
  created-IsDistinct hs console = (refl, tt)
  created-IsDistinct hs both = (ground arith, (refl, tt))

pub created-IsApart :
    (f c : ℕ) (hs xs : List ℕ)
    → IsCreated f c hs
    → mem f xs ≡ false
    → mem c xs ≡ false
    → IsApart hs xs
created-IsApart f c hs xs nothing a b = tt
created-IsApart f c hs xs file a b = (a, tt)
created-IsApart f c hs xs console a b = (b, tt)
created-IsApart f c hs xs both a b = (a, (b, tt))
