-- ===== src/Orchestration/Validation/Checks.antt =====
-- ValidateArguments of src/internal/orchestration/validation.go and its check of an enumeration. The
-- entries of the arguments are in the order in which `range` visits them.
use gocodemunch_mcp.Base.{
  Text, codes, text_eq, is_empty, Map, lookup, Bool, true, false, not, ◌&&◌, ◌||◌, Option, none,
  some, List, [], ◌∷◌, if◌then◌else◌,
}
use gocodemunch_mcp.Base.Int.{int_eq}
use gocodemunch_mcp.Orchestration.Validation.{
  Value, null, bool, integer, float, text, array, object, Values, no_values, value, Entries,
  no_entries, entry, type_named, ValidationError, is_required, must_be, must_be_one_of, Floats,
  field, schema_properties, schema_string, schema_strings, matches_type,
}

abbrev pub bool_eq : Bool → Bool → Bool
bool_eq true b = b
bool_eq false b = not b

module _ {F : Type 0} (floats : Floats F) where
  -- reflect.DeepEqual
  unfoldable mutual
    pub value_eq : Value F → Value F → Bool
    value_eq null null = true
    value_eq (bool a) (bool b) = bool_eq a b
    value_eq (integer a) (integer b) = int_eq a b
    value_eq (float a) (float b) = floats.float_eq a b
    value_eq (text a) (text b) = text_eq a b
    value_eq (array a) (array b) = values_eq a b
    value_eq (object a) (object b) = entries_eq a b
    value_eq _ _ = false

    pub values_eq : Values F → Values F → Bool
    values_eq no_values no_values = true
    values_eq (value a as') (value b bs) = value_eq a b && values_eq as' bs
    values_eq _ _ = false

    pub entries_eq : Entries F → Entries F → Bool
    entries_eq no_entries no_entries = true
    entries_eq (entry j a es) (entry k b fs) = text_eq j k && value_eq a b && entries_eq es fs
    entries_eq _ _ = false

  unfoldable pub to_float64 : Value F → Option F
  to_float64 (integer n) = some (floats.from_int n)
  to_float64 (float x) = some x
  to_float64 _ = none

  abbrev pub both_equal : Option F → Option F → Bool
  both_equal (some a) (some b) = floats.float_eq a b
  both_equal _ _ = false

  unfoldable pub enum_matches : Value F → Value F → Bool
  unfolding value_eq to_float64
  enum_matches v enum_value =
      value_eq v enum_value || both_equal (to_float64 v) (to_float64 enum_value)

  unfoldable pub matches_one_of : Value F → Values F → Bool
  unfolding enum_matches
  matches_one_of v no_values = false
  matches_one_of v (value e es) = enum_matches v e || matches_one_of v es

  -- `property["enum"].([]any)`, of which an empty one is no constraint
  unfoldable pub allowed : Value F → Option (Value F) → Bool
  unfolding matches_one_of
  allowed v (some (array no_values)) = true
  allowed v (some (array (value e es))) = matches_one_of v (value e es)
  allowed v _ = true

  unfoldable pub validate_enum_constraint : Text → Value F → Entries F → Option ValidationError
  unfolding field allowed
  validate_enum_constraint key v property =
      if allowed v (field (codes "enum") property) then none else some (must_be_one_of key)

  abbrev pub is_given : Option (Value F) → Bool
  is_given none = false
  is_given (some null) = false
  is_given (some _) = true

  unfoldable pub validate_required : List Text → Entries F → Option ValidationError
  unfolding field
  validate_required [] arguments = none
  validate_required (key ∷ keys) arguments =
      let rest = validate_required keys arguments in
      if is_given (field key arguments) then rest else some (is_required key)

  unfoldable pub validate_argument : Text → Value F → Option (Entries F) → Option ValidationError
  unfolding validate_enum_constraint type_named schema_string
  validate_argument key v none = none
  validate_argument key v (some property) =
      let type_name = schema_string property (codes "type") in
      if is_empty type_name
      then none
      else if not (matches_type floats v (type_named type_name))
      then some (must_be key type_name)
      else validate_enum_constraint key v property

  unfoldable pub validate_entries : Map (Entries F) → Entries F → Option ValidationError
  unfolding validate_argument
  validate_entries props no_entries = none
  validate_entries props (entry k v arguments) =
      let rest = validate_entries props arguments in
      elim (validate_argument k v (lookup k props)) [ none ↦ rest | some e ↦ some e ]

  unfoldable pub validate_arguments : Entries F → Entries F → Option ValidationError
  unfolding validate_required validate_entries schema_strings schema_properties
  validate_arguments arguments schema =
      let entries = validate_entries (schema_properties schema) arguments in
      elim (validate_required (schema_strings schema (codes "required")) arguments) [
        | none ↦ entries
        | some e ↦ some e
      ]
