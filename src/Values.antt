-- ===== src/Values.antt =====
-- The values that cross the serializable boundaries (pmqa/workflow/models.py, pmqa/run/models.py):
-- Python values as trees. A container that holds itself has no such tree.
use native.Mathlib.Decide.{ℕ_discrete}
pub mod Within
use pmqa.Base.{
  ℕ, ◌/◌, ◌%◌, ◌^◌, String, inl, inr, Bool, true, false, not, Option, none, some, str_eq, eq_iff,
  ◌==◌, if◌then◌else◌, Bool-cases,
}

-- Python's unbounded integers; `negsuc n` is -(n + 1).
pub data ℤ : Type 0 where
  pos negsuc : ℕ → ℤ

-- A key of a dictionary: a string, or any other object, known by its identity.
pub data Key : Type 0 where
  name : String → Key
  other : ℕ → Key

-- `float` holds the 64 bits of the number. `frozen` is an instance of a `_FrozenDict`, a subclass
-- of `dict`. `object` is any other runtime object, known by its identity.
mutual
  pub data Value : Type 0 where
    null : Value
    bool : Bool → Value
    int : ℤ → Value
    float : ℕ → Value
    text : String → Value
    list : Items → Value
    tuple : Items → Value
    dict : Entries → Value
    frozen : Entries → Value
    object : ℕ → Value

  pub data Items : Type 0 where
    nil : Items
    cons : Value → Items → Items

  pub data Entries : Type 0 where
    end : Entries
    entry : Key → Value → Entries → Entries

-- `math.isfinite` on the bits of a binary64 number: its exponent is not all ones.
unfoldable pub is_finite : ℕ → Bool
is_finite bits = not (bits / 2 ^ 52 % 2048 == 2047)

unfoldable pub is_string_keyed : Entries → Bool
is_string_keyed end = true
is_string_keyed (entry (name key) item rest) = is_string_keyed rest
is_string_keyed (entry (other id) item rest) = false

-- What pydantic accepts for `Mapping[str, Any]`.
unfoldable pub is_mapping : Value → Bool
unfolding is_string_keyed
is_mapping (dict entries) = is_string_keyed entries
is_mapping (frozen entries) = is_string_keyed entries
is_mapping _ = false

unfoldable pub get_entry : String → Entries → Option Value
get_entry key end = none
get_entry key (entry (name k) item rest) = if str_eq k key then some item else get_entry key rest
get_entry key (entry (other id) item rest) = get_entry key rest

-- `value[key]` of a mapping, or nothing where the key is missing.
unfoldable pub get_item : String → Value → Option Value
unfolding get_entry
get_item key (dict entries) = get_entry key entries
get_item key (frozen entries) = get_entry key entries
get_item key _ = none

pub String-discrete : Discrete String
String-discrete s t = elim (Bool-cases (str_eq s t)) [
  | inl e ↦ yes ((eq_iff s t).0 e)
  | inr e ↦ no (λ p. cc ((eq_iff s t).1 p))
]

pub Value-discrete : Discrete Value
Value-discrete = hlevel (ℕ_discrete, String-discrete)
