-- ===== src/Config.antt =====
-- flask_xxljob/config.py: the values of a configuration, and how reading one ends.
use mathlib.Core.Path.{subst}
use flask_xxljob.Base.{
  arith, ◌≡◌, refl, true, false, if◌then◌else◌, ℕ, ℤ, Bool, Option, List, Text, text,
}
use flask_xxljob.Model.Value.{Float}
pub mod Keys
pub mod Readers
pub mod Prefix
pub mod Address
pub mod Load
pub mod Laws
pub mod Loaded
pub mod Validate
pub mod Sample
mod Tests

-- A Python object without parts that the readers look at; any other object by the name of its type.
pub data Atom : Type 0 where
  absent : Atom
  flag : Bool → Atom
  number : ℤ → Atom
  real : Float → Atom
  string : Text → Atom
  other : Text → Atom

-- A configured value: an atom, or a list or a tuple with its items.
pub data Setting : Type 0 where
  atom : Atom → Setting
  list tuple : List Atom → Setting

-- `type(value).__name__`
abbrev pub atom_type : Atom → Text
atom_type absent = text "NoneType"
atom_type (flag b) = text "bool"
atom_type (number n) = text "int"
atom_type (real x) = text "float"
atom_type (string s) = text "str"
atom_type (other kind) = kind

abbrev pub type_name : Setting → Text
type_name (atom a) = atom_type a
type_name (list xs) = text "list"
type_name (tuple xs) = text "tuple"

-- An `XXLJobConfigError`, by its cause with the key, the type or the value that it names.
pub data ConfigError : Type 0 where
  removed_option : Option Bool → ConfigError
  not_a_boolean not_a_string not_an_integer not_a_number not_a_string_list :
      Text → Text → ConfigError
  not_a_string_item : Text → Text → ConfigError
  empty_string : Text → ConfigError
  bad_choice : Text → Text → ConfigError
  out_of_range : Text → ℤ → ConfigError
  negative_float : Text → ConfigError
  bad_characters bad_host_or_port bad_url : Text → ConfigError
  prefix_characters prefix_slashes prefix_segments : ConfigError
  bad_encoding : Text → ConfigError
  bad_format : ConfigError
  missing : Text → ConfigError

-- A result: a value, an `XXLJobConfigError`, or an exception of another class.
pub data Result {ℓ} (A : Type ℓ) : Type ℓ where
  ok : A → Result A
  invalid : ConfigError → Result A
  unexpected : Result A

infixl 20 ◌>>=◌
abbrev pub ◌>>=◌ {ℓ κ} : {A : Type ℓ} {B : Type κ} → Result A → (A → Result B) → Result B
ok a >>= f = f a
invalid e >>= f = invalid e
unexpected >>= f = unexpected

-- How a result may end: with a value that has a property, with an error, or with another
-- exception under a condition.
unfoldable pub Ends {ℓ} : {A : Type ℓ} → (A → Type 0) → Type 0 → Result A → Type 0
Ends P O (ok a) = P a
Ends P O (invalid e) = Unit
Ends P O unexpected = O

pub >>=-Ends {ℓ κ} :
    {A : Type ℓ} {B : Type κ} {P : A → Type 0} (Q : B → Type 0) (O : Type 0) (m : Result A)
    (f : A → Result B)
    → Ends P O m
    → ((a : A) → P a → Ends Q O (f a))
    → Ends Q O (m >>= f)
unfolding Ends
>>=-Ends Q O (ok a) f h k = k a h
>>=-Ends Q O (invalid e) f h k = tt
>>=-Ends Q O unexpected f h k = h

pub ok-Ends {ℓ} : {A : Type ℓ} (P : A → Type 0) (O : Type 0) (a : A) → P a → Ends P O (ok a)
unfolding Ends
ok-Ends P O a h = h

-- the returned value of a result whose ends are known, with where it comes from
pub Ends-self {ℓ} :
    {A : Type ℓ} (P : A → Type 0) (Q : A → Type 0) (O : Type 0) (m : Result A)
    → Ends P O m
    → ((a : A) → m ≡ ok a → P a → Q a)
    → Ends Q O m
unfolding Ends
Ends-self P Q O (ok a) h k = k a refl h
Ends-self P Q O (invalid e) h k = tt
Ends-self P Q O unexpected h k = h

-- a weaker condition
pub Ends-weaken {ℓ} :
    {A : Type ℓ} (P : A → Type 0) (O U : Type 0) (m : Result A) → (O → U) → Ends P O m → Ends P U m
unfolding Ends
Ends-weaken P O U (ok a) k h = h
Ends-weaken P O U (invalid e) k h = tt
Ends-weaken P O U unexpected k h = k h

pub if-Ends {ℓ} :
    {A : Type ℓ} (P : A → Type 0) (O : Type 0) (b : Bool) (x y : Result A)
    → Ends P O x
    → Ends P O y
    → Ends P O (if b then x else y)
if-Ends P O true x y h k = h
if-Ends P O false x y h k = k

-- A result that is returned has the property, and another exception the condition.
pub Ends-ok {ℓ} :
    {A : Type ℓ} (P : A → Type 0) (O : Type 0) (m : Result A) {a : A} → Ends P O m → m ≡ ok a → P a
unfolding Ends
Ends-ok P O m {a} h e = subst (Ends P O) e h

pub Ends-unexpected {ℓ} :
    {A : Type ℓ} (P : A → Type 0) (O : Type 0) (m : Result A) → Ends P O m → m ≡ unexpected → O
unfolding Ends
Ends-unexpected P O (ok b) h e = ground arith
Ends-unexpected P O (invalid x) h e = ground arith
Ends-unexpected P O unexpected h e = h
