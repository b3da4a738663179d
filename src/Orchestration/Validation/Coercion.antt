-- ===== src/Orchestration/Validation/Coercion.antt =====
-- What CoerceArguments of src/internal/orchestration/validation.go does to the arguments.
use gocodemunch_mcp.Base.{
  Text, codes, trim_space, to_lower, text_eq, text_eq_iff, Map, lookup, Bool, true, false, Option,
  none, some, ◌≡◌, refl, sym, ap, ap₂, subst, ◌∙◌, arith, Option-cases, Bool-cases, inl, inr, ◌⊎◌,
  ◌↔◌, member,
}
use gocodemunch_mcp.Base.Decimal.{atoi}
use gocodemunch_mcp.Base.Int.{ℤ}
use gocodemunch_mcp.Orchestration.Validation.{
  Value, null, bool, integer, float, text, array, object, Entries, no_entries, entry, TypeName,
  string_type, boolean_type, integer_type, number_type, array_type, object_type, any_type,
  type_named, Floats, field, schema_properties, schema_string, parse_boolean, parse_as, bool_true,
  bool_false, as_integer, as_float, coerce_value, coerce_argument, coerce_entries, coerce_arguments,
  matches_type,
}

module _ {F : Type 0} (floats : Floats F) where
  -- A value that a string is changed into is of the type, and no string any more.
  abbrev pub IsCoerced : Value F → TypeName → Type 0
  IsCoerced v t = (matches_type floats v t ≡ true) × (coerce_value floats v t ≡ none)

  bool-IsCoerced : (b : Bool) → IsCoerced (bool b) boolean_type
  unfolding matches_type coerce_value
  bool-IsCoerced b = (refl, refl)

  integer-IsCoerced : (n : ℤ) → IsCoerced (integer n) integer_type
  unfolding matches_type coerce_value
  integer-IsCoerced n = (refl, refl)

  float-IsCoerced : (x : F) → IsCoerced (float x) number_type
  unfolding matches_type coerce_value
  float-IsCoerced x = (refl, refl)

  parse_boolean-bool :
      (raw : Text) (v : Value F) → parse_boolean floats raw ≡ some v → (b : Bool) × (bool b ≡ v)
  unfolding parse_boolean
  parse_boolean-bool raw v h = elim (Bool-cases (member (to_lower (trim_space raw)) bool_true)) [
    | inl e ↦ (true, ground (arith, h, e))
    | inr e ↦ (false, ground (arith, h, e))
  ]

  as_integer-integer :
      (o : Option ℤ) (v : Value F) → as_integer floats o ≡ some v → (n : ℤ) × (integer n ≡ v)
  as_integer-integer none v h = absurd (ground (arith, h))
  as_integer-integer (some n) v h = (n, ground (arith, h))

  as_float-float :
      (o : Option F) (v : Value F) → as_float floats o ≡ some v → (x : F) × (float x ≡ v)
  as_float-float none v h = absurd (ground (arith, h))
  as_float-float (some x) v h = (x, ground (arith, h))

  parse_as-IsCoerced :
      (t : TypeName) (raw : Text) (v : Value F) → parse_as floats t raw ≡ some v → IsCoerced v t
  unfolding parse_as
  parse_as-IsCoerced string_type raw v h = absurd (ground (arith, h))
  parse_as-IsCoerced boolean_type raw v h =
      let (b, e) = parse_boolean-bool raw v h in
      subst (λ w. IsCoerced w boolean_type) e (bool-IsCoerced b)
  parse_as-IsCoerced integer_type raw v h =
      let (n, e) = as_integer-integer (atoi (trim_space raw)) v h in
      subst (λ w. IsCoerced w integer_type) e (integer-IsCoerced n)
  parse_as-IsCoerced number_type raw v h =
      let (x, e) = as_float-float (floats.parse_float (trim_space raw)) v h in
      subst (λ w. IsCoerced w number_type) e (float-IsCoerced x)
  parse_as-IsCoerced array_type raw v h = absurd (ground (arith, h))
  parse_as-IsCoerced object_type raw v h = absurd (ground (arith, h))
  parse_as-IsCoerced any_type raw v h = absurd (ground (arith, h))

  -- What a string is coerced into passes the check of the type that it was coerced to, and is not
  -- coerced any further.
  pub coerce_value-IsCoerced :
      (v w : Value F) (t : TypeName) → coerce_value floats v t ≡ some w → IsCoerced w t
  unfolding coerce_value
  coerce_value-IsCoerced (text raw) w t h = parse_as-IsCoerced t raw w h
  coerce_value-IsCoerced null w t h = absurd (ground (arith, h))
  coerce_value-IsCoerced (bool b) w t h = absurd (ground (arith, h))
  coerce_value-IsCoerced (integer n) w t h = absurd (ground (arith, h))
  coerce_value-IsCoerced (float x) w t h = absurd (ground (arith, h))
  coerce_value-IsCoerced (array vs) w t h = absurd (ground (arith, h))
  coerce_value-IsCoerced (object es) w t h = absurd (ground (arith, h))

  -- The words for the truth values, without blanks around them and in any case.
  abbrev pub IsTrueWord : Text → Type 0
  IsTrueWord word =
      (word ≡ codes "true") ⊎ (word ≡ codes "1") ⊎ (word ≡ codes "yes") ⊎ (word ≡ codes "on")

  abbrev pub IsFalseWord : Text → Type 0
  IsFalseWord word =
      (word ≡ codes "false") ⊎ (word ≡ codes "0") ⊎ (word ≡ codes "no") ⊎ (word ≡ codes "off")

  -- What a string spells as a value of a type: a truth value, an integer or a float.
  abbrev pub Spells : Text → TypeName → Value F → Type 0
  Spells raw boolean_type w =
      (IsTrueWord (to_lower (trim_space raw)) × (w ≡ bool true))
      ⊎ (IsFalseWord (to_lower (trim_space raw)) × (w ≡ bool false))
  Spells raw integer_type w = (n : ℤ) × (atoi (trim_space raw) ≡ some n) × (w ≡ integer n)
  Spells raw number_type w =
      (x : F) × (floats.parse_float (trim_space raw) ≡ some x) × (w ≡ float x)
  Spells raw t w = ⊥

  true_word : (word : Text) → member word bool_true ≡ true → IsTrueWord word
  unfolding member
  true_word word h = ground (
    arith,
    h,
    text_eq_iff (codes "true") word,
    text_eq_iff (codes "1") word,
    text_eq_iff (codes "yes") word,
    text_eq_iff (codes "on") word,
  )

  false_word : (word : Text) → member word bool_false ≡ true → IsFalseWord word
  unfolding member
  false_word word h = ground (
    arith,
    h,
    text_eq_iff (codes "false") word,
    text_eq_iff (codes "0") word,
    text_eq_iff (codes "no") word,
    text_eq_iff (codes "off") word,
  )

  true-member : (word : Text) → IsTrueWord word → member word bool_true ≡ true
  unfolding member text_eq
  true-member word (inl e) = rw e refl
  true-member word (inr (inl e)) = rw e refl
  true-member word (inr (inr (inl e))) = rw e refl
  true-member word (inr (inr (inr e))) = rw e refl

  false-member :
      (word : Text)
      → IsFalseWord word
      → (member word bool_true ≡ false) × (member word bool_false ≡ true)
  unfolding member text_eq
  false-member word (inl e) = rw e (refl, refl)
  false-member word (inr (inl e)) = rw e (refl, refl)
  false-member word (inr (inr (inl e))) = rw e (refl, refl)
  false-member word (inr (inr (inr e))) = rw e (refl, refl)

  parse_boolean_iff :
      (raw : Text) (w : Value F) → (parse_boolean floats raw ≡ some w) ↔ Spells raw boolean_type w
  unfolding parse_boolean
  parse_boolean_iff raw w = (
    λ h. elim (Bool-cases (member (to_lower (trim_space raw)) bool_true)) [
      | inl e ↦ inl (true_word (to_lower (trim_space raw)) e, ground (arith, h, e))
      | inr e ↦ elim (Bool-cases (member (to_lower (trim_space raw)) bool_false)) [
        | inl d ↦ inr (false_word (to_lower (trim_space raw)) d, ground (arith, h, e, d))
        | inr d ↦ absurd (ground (arith, h, e, d))
      ]
    ],
    λ h. elim h [
      | inl (t, q) ↦ rw (true-member (to_lower (trim_space raw)) t, q) refl
      | inr (f, q) ↦
          let (not_true, is_false) = false-member (to_lower (trim_space raw)) f in
          rw (not_true, is_false, q) refl
    ],
  )

  -- A string is coerced exactly to what it spells as a value of the type, and not at all where it
  -- spells none or the type is not one of a truth value, an integer or a number.
  pub coerce_value_iff :
      (raw : Text) (t : TypeName) (w : Value F)
      → (coerce_value floats (text raw) t ≡ some w) ↔ Spells raw t w
  unfolding coerce_value parse_as
  coerce_value_iff raw string_type w = (λ h. ground (arith, h), λ h. absurd h)
  coerce_value_iff raw boolean_type w = parse_boolean_iff raw w
  coerce_value_iff raw integer_type w = (
    λ h. elim (Option-cases (atoi (trim_space raw))) [
      | inl e ↦ absurd (ground (arith, h, e))
      | inr (m, e) ↦ (m, e, ground (arith, h, e))
    ],
    λ (m, e, q). rw (e, q) refl,
  )
  coerce_value_iff raw number_type w = (
    λ h. elim (Option-cases (floats.parse_float (trim_space raw))) [
      | inl e ↦ absurd (ground (arith, h, e))
      | inr (x, e) ↦ (x, e, ground (arith, h, e))
    ],
    λ (x, e, q). rw (e, q) refl,
  )
  coerce_value_iff raw array_type w = (λ h. ground (arith, h), λ h. absurd h)
  coerce_value_iff raw object_type w = (λ h. ground (arith, h), λ h. absurd h)
  coerce_value_iff raw any_type w = (λ h. ground (arith, h), λ h. absurd h)

  unchanged :
      (property : Entries F) (v : Value F)
      → coerce_value floats v (type_named (schema_string property (codes "type"))) ≡ none
      → coerce_argument floats (some property) v ≡ v
  unfolding coerce_argument
  unchanged property v e = rw (e, coerce_argument) refl

  changed :
      (property : Entries F) (v w : Value F)
      → coerce_value floats v (type_named (schema_string property (codes "type"))) ≡ some w
      → coerce_argument floats (some property) v ≡ w
  unfolding coerce_argument
  changed property v w e = rw (e, coerce_argument) refl

  coerce_argument-twice :
      (o : Option (Entries F)) (v : Value F)
      → coerce_argument floats o (coerce_argument floats o v) ≡ coerce_argument floats o v
  unfolding coerce_argument
  coerce_argument-twice none v = refl
  coerce_argument-twice (some property) v =
      elim (Option-cases
        (coerce_value floats v (type_named (schema_string property (codes "type"))))) [
          | inl e ↦ ap (coerce_argument floats (some property)) (unchanged property v e)
          | inr (w, e) ↦
              ap (coerce_argument floats (some property)) (changed property v w e)
              ∙ unchanged property w (coerce_value-IsCoerced v w _ e).1
              ∙ sym (changed property v w e)
        ]

  coerce_entries-twice :
      (props : Map (Entries F)) (es : Entries F)
      → coerce_entries floats props (coerce_entries floats props es)
        ≡ coerce_entries floats props es
  unfolding coerce_entries
  coerce_entries-twice props no_entries = refl
  coerce_entries-twice props (entry k v rest) =
      ap₂ (entry k) (coerce_argument-twice (lookup k props) v) (coerce_entries-twice props rest)

  abbrev pub map_option : (Value F → Value F) → Option (Value F) → Option (Value F)
  map_option f none = none
  map_option f (some v) = some (f v)

  coerce_entries-field :
      (props : Map (Entries F)) (es : Entries F) (key : Text)
      → field key (coerce_entries floats props es)
        ≡ map_option (coerce_argument floats (lookup key props)) (field key es)
  unfolding coerce_entries field
  coerce_entries-field props no_entries key = refl
  coerce_entries-field props (entry k v rest) key = elim (Bool-cases (text_eq k key)) [
    | inl e ↦ rw (e, (text_eq_iff k key).0 e) refl
    | inr e ↦ rw e (coerce_entries-field props rest key)
  ]

  -- Coercing changes each argument by its own property alone, keeps the names of the arguments, and a
  -- second time changes nothing.
  pub coerce_arguments-field :
      (arguments schema : Entries F) (key : Text)
      → (field key (coerce_arguments floats arguments schema)
          ≡ map_option
              (coerce_argument floats (lookup key (schema_properties schema)))
              (field key arguments))
        × (coerce_arguments floats (coerce_arguments floats arguments schema) schema
            ≡ coerce_arguments floats arguments schema)
  unfolding coerce_arguments
  coerce_arguments-field arguments schema key = (
    coerce_entries-field (schema_properties schema) arguments key,
    coerce_entries-twice (schema_properties schema) arguments,
  )
