-- ===== src/Core/Values.antt =====
-- service.go: what the service asks of a dynamic value. `fmt.Sprintf("%v", …)` is a parameter.
pub mod Validate
use getdata.Base.{
  ℕ, String, Bool, true, false, ◌&&◌, ◌||◌, not, Option, none, some, List, [], ◌∷◌, ◌==◌,
  if◌then◌else◌, Result, ok, err, unknown_thing_property, invalid_thing_model, ◌>>◌,
}
use getdata.Base.Words.{ℤ, pos}
use getdata.Model.{
  Value, Float64, null, bool, float, float32, int, uint, str, arr, obj, eq_float, le_float,
  lt_float, is_whole, float_of_int,
}

-- isNumber
unfoldable pub is_number : Value → Bool
is_number (float x) = true
is_number (float32 x) = true
is_number (int n) = true
is_number (uint n) = true
is_number _ = false

-- isIntegralNumber
unfoldable pub is_integral_number : Value → Bool
unfolding is_whole
is_integral_number (int n) = true
is_integral_number (uint n) = true
is_integral_number (float x) = is_whole x
is_integral_number (float32 x) = is_whole x
is_integral_number _ = false

-- toFloat64
unfoldable pub to_float64 : Value → Option Float64
unfolding float_of_int
to_float64 (float x) = some x
to_float64 (float32 x) = some x
to_float64 (int n) = some (float_of_int n)
to_float64 (uint n) = some (float_of_int (pos n))
to_float64 _ = none

abbrev pub is_bool : Value → Bool
is_bool (bool b) = true
is_bool _ = false

abbrev pub is_string : Value → Bool
is_string (str s) = true
is_string _ = false

abbrev pub is_object : Value → Bool
is_object (obj fs) = true
is_object _ = false

-- The kinds of an enum: string, float64, int, int32, int64.
abbrev pub is_enum : Value → Bool
is_enum (str s) = true
is_enum (float x) = true
is_enum (int n) = true
is_enum _ = false

-- matchesThingDataType
unfoldable pub matches_thing_data_type : String → Value → Bool
unfolding is_number is_integral_number
matches_thing_data_type data_type value =
    if data_type == "bool"
    then is_bool value
    else if data_type == "text"
    then is_string value
    else if data_type == "object"
    then is_object value
    else if data_type == "enum"
    then is_enum value
    else if data_type == "float" || data_type == "double"
    then is_number value
    else if data_type == "int"
    then is_integral_number value
    else true

abbrev pub float_eq? : Float64 → Option Float64 → Bool
float_eq? x none = false
float_eq? x (some y) = eq_float x y

abbrev pub bool_eq : Bool → Bool → Bool
bool_eq true b = b
bool_eq false b = not b

module _ (sprint : Value → String) where
  -- valuesEqual
  unfoldable pub values_equal : Value → Value → Bool
  unfolding to_float64 eq_float
  values_equal (float x) right = float_eq? x (to_float64 right)
  values_equal (float32 x) right = float_eq? x (to_float64 right)
  values_equal (bool a) (bool b) = bool_eq a b
  values_equal (bool a) _ = false
  values_equal (str s) (str t) = s == t
  values_equal (str s) _ = false
  values_equal left right = sprint left == sprint right

  -- The comparison of two numbers by an operator that asks for numbers.
  abbrev compare_numbers : (Float64 → Float64 → Bool) → Option Float64 → Option Float64 → Bool
  compare_numbers test none right = false
  compare_numbers test (some x) none = false
  compare_numbers test (some x) (some y) = test x y

  -- matchesRuleCondition
  unfoldable pub matches_rule_condition : String → Value → Value → Bool
  unfolding values_equal to_float64 le_float lt_float
  matches_rule_condition operator left right =
      if operator == "eq"
      then values_equal left right
      else if operator == "neq"
      then not (values_equal left right)
      else if operator == "gt"
      then compare_numbers (λ x y. lt_float y x) (to_float64 left) (to_float64 right)
      else if operator == "gte"
      then compare_numbers (λ x y. le_float y x) (to_float64 left) (to_float64 right)
      else if operator == "lt"
      then compare_numbers lt_float (to_float64 left) (to_float64 right)
      else if operator == "lte"
      then compare_numbers le_float (to_float64 left) (to_float64 right)
      else false
