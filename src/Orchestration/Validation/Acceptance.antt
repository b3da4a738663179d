-- ===== src/Orchestration/Validation/Acceptance.antt =====
-- Which arguments ValidateArguments of src/internal/orchestration/validation.go lets through, said
-- without the order in which it looks at them.
use gocodemunch_mcp.Base.{Text, codes, Map, lookup, Option, none, some, [], ◌≡◌, ◌≢◌, ◌⊎◌}
use gocodemunch_mcp.Orchestration.Validation.{
  Value, null, array, Values, no_values, value, Entries, no_entries, entry, type_named, Floats,
  field, schema_string,
}
use gocodemunch_mcp.Orchestration.Validation.Types.{IsOfType, IsSameValue}

module _ {F : Type 0} (floats : Floats F) where
  -- A required argument is there and is not null.
  abbrev pub IsGiven : Entries F → Text → Type 0
  IsGiven arguments key = (v : Value F) × (field key arguments ≡ some v) × (v ≢ null)

  -- One of the values of an enumeration equals the argument.
  abbrev pub IsOneOf : Value F → Values F → Type 0
  IsOneOf v no_values = ⊥
  IsOneOf v (value e es) = IsSameValue floats v e ⊎ IsOneOf v es

  -- A property with a type, and perhaps with an enumeration, takes the argument.
  abbrev pub IsAllowed : Value F → Option (Value F) → Type 0
  IsAllowed v (some (array no_values)) = Unit
  IsAllowed v (some (array (value e es))) = IsOneOf v (value e es)
  IsAllowed v _ = Unit

  abbrev pub Fits : Value F → Option (Entries F) → Type 0
  Fits v none = Unit
  Fits v (some property) =
      (schema_string property (codes "type") ≡ [])
      ⊎ (IsOfType floats v (type_named (schema_string property (codes "type")))
          × IsAllowed v (field (codes "enum") property))

  abbrev pub AllFit : Map (Entries F) → Entries F → Type 0
  AllFit props no_entries = Unit
  AllFit props (entry k v es) = Fits v (lookup k props) × AllFit props es
