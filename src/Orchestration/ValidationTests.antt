-- ===== src/Orchestration/ValidationTests.antt =====
-- The theorems on the validation of arguments at concrete inputs; a float is a number here.
use gocodemunch_mcp.Base.{
  ℕ, Text, codes, trim_space, to_lower, text_eq, member, true, none, some, ◌≡◌, ◌↔◌, refl, ◌==◌,
}
use gocodemunch_mcp.Base.Int.{pos_part}
use gocodemunch_mcp.Orchestration.Validation.{
  Value, bool, text, array, object, no_values, value, Entries, no_entries, entry, boolean_type,
  Floats, parse_as, parse_boolean, coerce_value,
}
use gocodemunch_mcp.Orchestration.Validation.Coercion.{Spells, coerce_value_iff}

abbrev floats : Floats ℕ
floats = record {
  parse_float = λ s. none;
  float_eq = λ a b. a == b;
  from_int = λ n. pos_part n;
  is_integral = λ x. true;
}

abbrev typed : Text → Value ℕ
typed name = object (entry (codes "type") (text name) no_entries)

abbrev schema : Entries ℕ
schema =
    entry (codes "properties")
      (object (
        entry (codes "deep") (typed (codes "boolean"))
          (entry (codes "max") (typed (codes "integer")) no_entries)))
      (entry (codes "required") (array (value (text (codes "max")) no_values)) no_entries)

abbrev arguments : Entries ℕ
arguments =
    entry (codes "deep") (text (codes " Yes")) (entry (codes "max") (text (codes "12")) no_entries)

reads_yes : coerce_value floats (text (codes " Yes")) boolean_type ≡ some (bool true)
unfolding coerce_value parse_as parse_boolean to_lower trim_space member text_eq
reads_yes = refl

coerce_value_iff_example :
    (coerce_value floats (text (codes " Yes")) boolean_type ≡ some (bool true))
    ↔ Spells floats (codes " Yes") boolean_type (bool true)
coerce_value_iff_example = coerce_value_iff floats (codes " Yes") boolean_type (bool true)
