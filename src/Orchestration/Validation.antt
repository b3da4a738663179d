-- ===== src/Orchestration/Validation.antt =====
-- The arguments of a tool call, checked against the tool's schema:
-- src/internal/orchestration/validation.go. A float is a parameter, with strconv.ParseFloat, the
-- comparison of floats, the conversion from an integer and the test that a float is integral.
-- The entries of an object are in the order of their keys, so that reflect.DeepEqual compares them in
-- turn. All kinds of Go integers are one.
pub mod Checks
pub mod Coercion
pub mod Types
pub mod Acceptance
use gocodemunch_mcp.Base.{
  Text, codes, text_eq, trim_space, to_lower, is_empty, Map, lookup, Bool, true, false, not, ◌&&◌,
  ◌||◌, Option, none, some, List, [], ◌∷◌, if◌then◌else◌, member,
}
use gocodemunch_mcp.Base.Int.{ℤ, int_eq}
use gocodemunch_mcp.Base.Decimal.{atoi}

mutual
  pub data Value (F : Type 0) : Type 0 where
    null : Value F
    bool : Bool → Value F
    integer : ℤ → Value F
    float : F → Value F
    text : Text → Value F
    array : Values F → Value F
    object : Entries F → Value F

  pub data Values (F : Type 0) : Type 0 where
    no_values : Values F
    value : Value F → Values F → Values F

  pub data Entries (F : Type 0) : Type 0 where
    no_entries : Entries F
    entry : Text → Value F → Entries F → Entries F

-- The cases of the switch statements on a type name.
pub data TypeName : Type 0 where
  string_type boolean_type integer_type number_type array_type object_type any_type : TypeName

unfoldable pub type_named : Text → TypeName
type_named name =
    if text_eq name (codes "string")
    then string_type
    else if text_eq name (codes "boolean")
    then boolean_type
    else if text_eq name (codes "integer")
    then integer_type
    else if text_eq name (codes "number")
    then number_type
    else if text_eq name (codes "array")
    then array_type
    else if text_eq name (codes "object")
    then object_type
    else any_type

pub data ValidationError : Type 0 where
  is_required : Text → ValidationError
  must_be : Text → Text → ValidationError
  must_be_one_of : Text → ValidationError

abbrev pub bool_true : List Text
bool_true = codes "true" ∷ codes "1" ∷ codes "yes" ∷ codes "on" ∷ []

abbrev pub bool_false : List Text
bool_false = codes "false" ∷ codes "0" ∷ codes "no" ∷ codes "off" ∷ []

pub record Floats (F : Type 0) : Type 0 where
  pub parse_float : Text → Option F
  pub float_eq : F → F → Bool
  pub from_int : ℤ → F
  pub is_integral : F → Bool

module _ {F : Type 0} where
  -- `m[key]` of a decoded object
  unfoldable pub field : Text → Entries F → Option (Value F)
  field key no_entries = none
  field key (entry k v es) = if text_eq k key then some v else field key es

  unfoldable pub object_fields : Option (Value F) → Option (Entries F)
  object_fields (some (object es)) = some es
  object_fields _ = none

  unfoldable pub properties_of : Entries F → Map (Entries F)
  properties_of no_entries = []
  properties_of (entry k (object es) rest) = (k, es) ∷ properties_of rest
  properties_of (entry k _ rest) = properties_of rest

  unfoldable pub schema_properties : Entries F → Map (Entries F)
  unfolding field object_fields properties_of
  schema_properties schema = elim (object_fields (field (codes "properties") schema)) [
    | none ↦ []
    | some es ↦ properties_of es
  ]

  -- The zero string where there is no string.
  unfoldable pub text_or_empty : Option (Value F) → Text
  text_or_empty (some (text s)) = s
  text_or_empty _ = []

  unfoldable pub schema_string : Entries F → Text → Text
  unfolding field text_or_empty
  schema_string schema key = text_or_empty (field key schema)

  unfoldable pub texts_of : Values F → List Text
  texts_of no_values = []
  texts_of (value (text s) vs) = s ∷ texts_of vs
  texts_of (value _ vs) = texts_of vs

  unfoldable pub array_texts : Option (Value F) → List Text
  unfolding texts_of
  array_texts (some (array vs)) = texts_of vs
  array_texts _ = []

  unfoldable pub schema_strings : Entries F → Text → List Text
  unfolding field array_texts
  schema_strings schema key = array_texts (field key schema)

  module _ (floats : Floats F) where
    -- A value of the type in place of a string that spells one.
    unfoldable pub parse_boolean : Text → Option (Value F)
    parse_boolean raw =
        let key = to_lower (trim_space raw) in
        if member key bool_true
        then some (bool true)
        else if member key bool_false
        then some (bool false)
        else none

    abbrev pub as_integer : Option ℤ → Option (Value F)
    as_integer none = none
    as_integer (some n) = some (integer n)

    abbrev pub as_float : Option F → Option (Value F)
    as_float none = none
    as_float (some x) = some (float x)

    unfoldable pub parse_as : TypeName → Text → Option (Value F)
    unfolding parse_boolean
    parse_as boolean_type raw = parse_boolean raw
    parse_as integer_type raw = as_integer (atoi (trim_space raw))
    parse_as number_type raw = as_float (floats.parse_float (trim_space raw))
    parse_as _ raw = none

    -- `none` where the value is not changed
    unfoldable pub coerce_value : Value F → TypeName → Option (Value F)
    unfolding parse_as
    coerce_value (text raw) type_name = parse_as type_name raw
    coerce_value _ type_name = none

    unfoldable pub coerce_argument : Option (Entries F) → Value F → Value F
    unfolding coerce_value type_named schema_string
    coerce_argument none v = v
    coerce_argument (some property) v =
        elim (coerce_value v (type_named (schema_string property (codes "type")))) [
          | none ↦ v
          | some coerced ↦ coerced
        ]

    unfoldable pub coerce_entries : Map (Entries F) → Entries F → Entries F
    unfolding coerce_argument
    coerce_entries props no_entries = no_entries
    coerce_entries props (entry k v rest) =
        entry k (coerce_argument (lookup k props) v) (coerce_entries props rest)

    unfoldable pub coerce_arguments : Entries F → Entries F → Entries F
    unfolding coerce_entries schema_properties
    coerce_arguments arguments schema = coerce_entries (schema_properties schema) arguments

    unfoldable pub matches_type : Value F → TypeName → Bool
    matches_type (text s) string_type = true
    matches_type v string_type = false
    matches_type (bool b) boolean_type = true
    matches_type v boolean_type = false
    matches_type (integer n) integer_type = true
    matches_type (float x) integer_type = floats.is_integral x
    matches_type v integer_type = false
    matches_type (integer n) number_type = true
    matches_type (float x) number_type = true
    matches_type v number_type = false
    matches_type (array vs) array_type = true
    matches_type v array_type = false
    matches_type (object es) object_type = true
    matches_type v object_type = false
    matches_type v any_type = true
