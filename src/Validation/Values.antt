-- ===== src/Validation/Values.antt =====
-- The values that a record carries (what psycopg or the feeds' cast hands back), and `matches_type`
-- of airflow/plugins/nordbank_ops/validation.py, which says whether one is of its declared type.
use nordbank_data_platform.Common.{
  ℕ, String, Bool, true, false, not, ◌&&◌, ◌||◌, Option, none, some, List, [], ◌∷◌, ◌==◌, str_eq,
  has_name, if◌then◌else◌, before_paren, strip, lower, Result, ok, err, unknown_type, unhashable,
}
use nordbank_data_platform.Common.Int.{ℤ, pos, ◌*ℤ◌, eqb_ℤ}
use text.Mathlib.Text.{starts_with}

-- A number with a fraction is `numerator / denominator`, in lowest digits as received: a decimal's
-- denominator is a power of ten, a float's a power of two. Dates are ordinals and timestamps are
-- microseconds. A list or a mapping is carried as its JSON text, which nothing here looks into.
pub data Value : Type 0 where
  null : Value
  str : String → Value
  integer : ℤ → Value
  boolean : Bool → Value
  decimal : ℤ → ℕ → Value
  float : ℤ → ℕ → Value
  date : ℕ → Value
  timestamp : ℕ → Value
  array : String → Value
  mapping : String → Value

abbrev pub is_null : Value → Bool
is_null null = true
is_null _ = false

-- `isinstance(value, T)` for the types that the gate names. In Python a `bool` is an `int` and a
-- `datetime` is a `date`.
abbrev is_str : Value → Bool
is_str (str _) = true
is_str _ = false

abbrev is_int : Value → Bool
is_int (integer _) = true
is_int (boolean _) = true
is_int _ = false

abbrev is_bool : Value → Bool
is_bool (boolean _) = true
is_bool _ = false

abbrev is_decimal : Value → Bool
is_decimal (decimal _ _) = true
is_decimal _ = false

abbrev is_float : Value → Bool
is_float (float _ _) = true
is_float _ = false

abbrev is_datetime : Value → Bool
is_datetime (timestamp _) = true
is_datetime _ = false

abbrev is_date : Value → Bool
is_date (date _) = true
is_date v = is_datetime v

abbrev pub is_list_or_dict : Value → Bool
is_list_or_dict (array _) = true
is_list_or_dict (mapping _) = true
is_list_or_dict _ = false

abbrev pub textual : List String
textual = "character varying" ∷ "character" ∷ "text" ∷ []

abbrev pub integral : List String
integral = "smallint" ∷ "integer" ∷ "bigint" ∷ []

abbrev pub decimals : List String
decimals = "numeric" ∷ "decimal" ∷ []

-- `character varying(34)` becomes `character varying`
unfoldable pub base_type : String → String
unfolding strip lower
base_type declared = lower (strip (before_paren declared))

-- The ladder of `matches_type`, on the base type.
unfoldable pub matches_base : Value → String → String → Result Bool
matches_base v declared base =
    if has_name base textual
    then ok (is_str v)
    else if has_name base integral
    then ok (is_int v && not (is_bool v))
    else if has_name base decimals
    then ok ((is_decimal v || is_int v) && not (is_bool v))
    else if str_eq base "boolean"
    then ok (is_bool v)
    else if str_eq base "date"
    then ok (is_date v && not (is_datetime v))
    else if starts_with base "timestamp"
    then ok (is_datetime v)
    else if has_name base ("double precision" ∷ "real" ∷ [])
    then ok ((is_float v || is_int v) && not (is_bool v))
    else if str_eq base "json"
    then ok (is_list_or_dict v)
    else err (unknown_type declared)

unfoldable pub matches_type : Value → String → Result Bool
unfolding matches_base base_type
matches_type v declared = matches_base v declared (base_type declared)

-- The number that a value is to Python's `==`, as a numerator and a denominator.
abbrev as_number : Value → Option (ℤ × ℕ)
as_number (integer n) = some (n, 1)
as_number (boolean true) = some (pos 1, 1)
as_number (boolean false) = some (pos 0, 1)
as_number (decimal n d) = some (n, d)
as_number (float n d) = some (n, d)
as_number _ = none

same_number : Option (ℤ × ℕ) → Option (ℤ × ℕ) → Bool
same_number (some (a, b)) (some (c, d)) = eqb_ℤ (a *ℤ pos d) (c *ℤ pos b)
same_number _ _ = false

-- Python's `==`, on the values that can stand in a set.
unfoldable pub value_eq : Value → Value → Bool
unfolding same_number ◌*ℤ◌
value_eq null null = true
value_eq (str s) (str t) = str_eq s t
value_eq (date a) (date b) = a == b
value_eq (timestamp a) (timestamp b) = a == b
value_eq v w = same_number (as_number v) (as_number w)

-- `hash(value)` raises for a list or a mapping.
unfoldable pub hashable : Value → Result Bool
hashable v = if is_list_or_dict v then err unhashable else ok true
