-- ===== src/Base/Dict.antt =====
-- Python's `dict`: an association list in insertion order, over keys whose equality is tested.
-- A key that is written again keeps its place.
use mathlib.Core.Path.{◌≡◌, refl}
use mathlib.Core.Logic.{◌↔◌}
use mathlib.Core.Bool.{Bool, true, false}
use mathlib.Core.Option.{Option, none, some}
use mathlib.Core.List.{List, [], ◌∷◌}
use native.Mathlib.Omega.{arith}
use Prim.Native.Nat.{ℕ}
use flask_xxljob.Base.Tests.{if◌then◌else◌, ==_iff}
use flask_xxljob.Base.Tests
use flask_xxljob.Base.Strings.{Text, text_eq, text_eq_iff}

pub record Eq {ℓ} (A : Type ℓ) : Type ℓ where
  pub beq : A → A → Bool
  pub beq_iff : (a b : A) → (beq a b ≡ true) ↔ (a ≡ b)

instance abbrev pub nat_eq : Eq ℕ
nat_eq = record { beq = Tests.◌==◌; beq_iff = ==_iff }

instance abbrev pub text_key : Eq Text
text_key = record { beq = text_eq; beq_iff = text_eq_iff }

abbrev pub Dict {ℓ κ} : Type ℓ → Type κ → Type (ℓ ⊔ κ)
Dict K V = List (K × V)

module _ {ℓ κ} {K : Type ℓ} {V : Type κ} ⦃e : Eq K⦄ where
  -- `d.get(k)`
  unfoldable pub get : Dict K V → K → Option V
  get [] k = none
  get ((h, v) ∷ d) k = if e.beq h k then some v else get d k

  -- `d[k] = v`
  unfoldable pub put : Dict K V → K → V → Dict K V
  put [] k v = (k, v) ∷ []
  put ((h, w) ∷ d) k v = if e.beq h k then (h, v) ∷ d else (h, w) ∷ put d k v

  -- `del d[k]`
  unfoldable pub delete : Dict K V → K → Dict K V
  delete [] k = []
  delete ((h, v) ∷ d) k = let rest = delete d k in if e.beq h k then rest else (h, v) ∷ rest

  -- `k in d`
  unfoldable pub has : Dict K V → K → Bool
  unfolding get
  has d k = elim (get d k) [ none ↦ false | some v ↦ true ]

  pub get-put :
      (d : Dict K V) (k j : K) (v : V) → get (put d k v) j ≡ (if e.beq k j then some v else get d j)
  unfolding get put
  get-put [] k j v = refl
  get-put ((h, w) ∷ d) k j v =
      ground (arith, e.beq_iff h k, e.beq_iff h j, e.beq_iff k j, get-put d k j v)

  pub get-delete :
      (d : Dict K V) (k j : K) → get (delete d k) j ≡ (if e.beq k j then none else get d j)
  unfolding get delete
  get-delete [] k j = ground arith
  get-delete ((h, w) ∷ d) k j =
      ground (arith, e.beq_iff h k, e.beq_iff h j, e.beq_iff k j, get-delete d k j)

  -- A key that was not there is gone again.
  pub delete-put : (d : Dict K V) (k : K) (v : V) → get d k ≡ none → delete (put d k v) k ≡ d
  unfolding get put delete
  delete-put [] k v h = ground (arith, e.beq_iff k k)
  delete-put ((j, w) ∷ d) k v h = ground (arith, delete-put d k v)

  -- What was written last stays.
  pub put-put : (d : Dict K V) (k : K) (v w : V) → put (put d k v) k w ≡ put d k w
  unfolding put
  put-put [] k v w = ground (arith, e.beq_iff k k)
  put-put ((j, u) ∷ d) k v w = ground (arith, put-put d k v w)

  pub get-put_self : (d : Dict K V) (k : K) (v : V) → get (put d k v) k ≡ some v
  get-put_self d k v = rw (get-put d k k v, (e.beq_iff k k).1 refl) refl
