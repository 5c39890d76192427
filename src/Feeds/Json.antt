-- ===== src/Feeds/Json.antt =====
-- A parsed JSON value, as `json.loads` gives it with `parse_float=Decimal`: a number with a fraction
-- is a decimal and any other an integer, each in the digits received.
use nordbank_data_platform.Common.{
  String, Bool, true, false, Option, none, some, List, [], ◌∷◌, ◌||◌, str_eq, if◌then◌else◌,
}

mutual
  pub data Json : Type 0 where
    null : Json
    boolean : Bool → Json
    integer : String → Json
    decimal : String → Json
    text : String → Json
    array : Elements → Json
    object : Members → Json

  pub data Elements : Type 0 where
    empty : Elements
    element : Json → Elements → Elements

  pub data Members : Type 0 where
    end : Members
    member : String → Json → Members → Members

abbrev pub value_of : String → Members → Option Json
value_of key end = none
value_of key (member k v ms) = if str_eq k key then some v else value_of key ms

abbrev pub names : Members → List String
names end = []
names (member k v ms) = k ∷ names ms

-- `type(value).__name__`
abbrev pub type_name : Json → String
type_name null = "NoneType"
type_name (boolean _) = "bool"
type_name (integer _) = "int"
type_name (decimal _) = "Decimal"
type_name (text _) = "str"
type_name (array _) = "list"
type_name (object _) = "dict"

-- `_is_kind`
abbrev is_number : Json → Bool
is_number (integer _) = true
is_number (decimal _) = true
is_number _ = false

abbrev is_text : Json → Bool
is_text (text _) = true
is_text _ = false

abbrev is_object : Json → Bool
is_object (object _) = true
is_object _ = false

abbrev is_array : Json → Bool
is_array (array _) = true
is_array _ = false

unfoldable pub is_kind : Json → String → Bool
is_kind v kind =
    if str_eq kind "number"
    then is_number v
    else if str_eq kind "string" || str_eq kind "date"
    then is_text v
    else if str_eq kind "object"
    then is_object v
    else if str_eq kind "array"
    then is_array v
    else false
