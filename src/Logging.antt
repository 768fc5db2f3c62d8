-- ===== src/Logging.antt =====
-- app/observability.py: what a log line may hold. The search of `SECRET_FIELD_RE` in a key is an
-- argument; so is the JSON text, which is the values' order and content.
pub mod Format
mod Tests
use ai_serving_backend.Prelude.{
  ℕ, String, ◌≡◌, refl, Bool, true, false, Option, none, some, List, [], ◌∷◌, arith, Bool-cases,
  inl, inr, if◌then◌else◌, str_eq, eq_iff,
}
use ai_serving_backend.Prelude.Dict
use ai_serving_backend.Prelude.Dict.{Dict}

mutual
  -- a value in `extra_fields`: None, a dictionary, a list or tuple, or anything else
  pub data Value : Type 0 where
    null : Value
    scalar : String → Value
    dict : Fields → Value
    seq : Values → Value

  pub data Fields : Type 0 where
    no_fields : Fields
    field : String → Value → Fields → Fields

  pub data Values : Type 0 where
    no_values : Values
    value : Value → Values → Values

abbrev is_null : Value → Bool
is_null null = true
is_null (scalar _) = false
is_null (dict _) = false
is_null (seq _) = false

module _ (is_secret : String → Bool) where
  unfoldable mutual
    pub sanitize_value : Value → Value
    sanitize_value null = null
    sanitize_value (scalar s) = scalar s
    sanitize_value (dict fields) = dict (sanitize_fields fields)
    sanitize_value (seq values) = seq (sanitize_values values)

    pub sanitize_fields : Fields → Fields
    sanitize_fields no_fields = no_fields
    sanitize_fields (field key v fields) =
        let rest = sanitize_fields fields in
        let v' = sanitize_value v in
        if is_null v then rest else if is_secret key then rest else field key v' rest

    sanitize_values : Values → Values
    sanitize_values no_values = no_values
    sanitize_values (value v values) = value (sanitize_value v) (sanitize_values values)

  -- No dictionary in the value, however deep, has a key that is secret.
  unfoldable mutual
    pub IsClean : Value → Type 0
    IsClean null = Unit
    IsClean (scalar s) = Unit
    IsClean (dict fields) = AreClean fields
    IsClean (seq values) = AllClean values

    pub AreClean : Fields → Type 0
    AreClean no_fields = Unit
    AreClean (field key v fields) = (is_secret key ≡ false) × IsClean v × AreClean fields

    pub AllClean : Values → Type 0
    AllClean no_values = Unit
    AllClean (value v values) = IsClean v × AllClean values

  mutual
    unfolding sanitize_value sanitize_fields sanitize_values IsClean AreClean AllClean

    sanitize_value-IsClean : (v : Value) → IsClean (sanitize_value v)
    sanitize_value-IsClean null = tt
    sanitize_value-IsClean (scalar s) = tt
    sanitize_value-IsClean (dict fields) = sanitize_fields-AreClean fields
    sanitize_value-IsClean (seq values) = sanitize_values-AllClean values

    sanitize_fields-AreClean : (fields : Fields) → AreClean (sanitize_fields fields)
    sanitize_fields-AreClean no_fields = tt
    sanitize_fields-AreClean (field key v fields) =
        ground (arith, sanitize_value-IsClean v, sanitize_fields-AreClean fields)

    sanitize_values-AllClean : (values : Values) → AllClean (sanitize_values values)
    sanitize_values-AllClean no_values = tt
    sanitize_values-AllClean (value v values) =
        (sanitize_value-IsClean v, sanitize_values-AllClean values)

  -- The fields that a log line gets have no key that the secret pattern finds, at any depth: in nested
  -- dictionaries and in lists too.
  pub sanitize-AreClean : (fields : Fields) → AreClean (sanitize_fields fields)
  sanitize-AreClean fields = sanitize_fields-AreClean fields
