-- ===== src/Model/Value.antt =====
-- What `json.loads` returns: the values of JSON as Python objects.
use flask_xxljob.Base.{ℕ, ℤ, Bool, Text, text_eq, if◌then◌else◌}

-- A float: an integer times a power of two over a power of two, an infinity (negative or
-- not), or NaN.
pub data Float : Type 0 where
  finite : ℤ → ℕ → ℕ → Float
  infinite : Bool → Float
  nan : Float

mutual
  pub data Value : Type 0 where
    null : Value
    bool : Bool → Value
    int : ℤ → Value
    float : Float → Value
    str : Text → Value
    list : Values → Value
    object : Fields → Value

  pub data Values : Type 0 where
    no_values : Values
    value : Value → Values → Values

  -- A `dict` with string keys.
  pub data Fields : Type 0 where
    no_fields : Fields
    field : Text → Value → Fields → Fields

-- `data.get(key)`: a missing key reads as `None`.
abbrev pub lookup : Fields → Text → Value
lookup no_fields k = null
lookup (field h v d) k = if text_eq h k then v else lookup d k
