-- ===== src/Orchestration/Validation/Types.antt =====
-- What it means for an argument to be of a type, and to equal a value of an enumeration, said without
-- the tests of src/internal/orchestration/validation.go.
use gocodemunch_mcp.Base.{
  Text, Bool, true, false, some, ◌≡◌, ◌↔◌, ◌⊎◌, refl, sym, subst, arith, Option-cases, inl, inr,
  ◌||◌,
}
use gocodemunch_mcp.Base.Int.{ℤ}
use gocodemunch_mcp.Orchestration.Validation.{
  Value, null, bool, integer, float, text, array, object, Values, Entries, TypeName, string_type,
  boolean_type, integer_type, number_type, array_type, object_type, any_type, Floats, matches_type,
}
use gocodemunch_mcp.Orchestration.Validation.Checks.{value_eq, to_float64, both_equal, enum_matches}

module _ {F : Type 0} (floats : Floats F) where
  -- The values of a type. A whole float is an integer too; a name that the schema language does not
  -- have takes any value.
  abbrev pub IsOfType : Value F → TypeName → Type 0
  IsOfType v string_type = (s : Text) × (v ≡ text s)
  IsOfType v boolean_type = (b : Bool) × (v ≡ bool b)
  IsOfType v integer_type =
      ((n : ℤ) × (v ≡ integer n)) ⊎ ((x : F) × (v ≡ float x) × (floats.is_integral x ≡ true))
  IsOfType v number_type = ((n : ℤ) × (v ≡ integer n)) ⊎ ((x : F) × (v ≡ float x))
  IsOfType v array_type = (vs : Values F) × (v ≡ array vs)
  IsOfType v object_type = (es : Entries F) × (v ≡ object es)
  IsOfType v any_type = Unit

  -- A number, as a float.
  abbrev pub IsNumber : Value F → F → Type 0
  IsNumber v x = (v ≡ float x) ⊎ ((n : ℤ) × (v ≡ integer n) × (x ≡ floats.from_int n))

  -- Two values are equal as JSON, or they are numbers that are equal as floats.
  abbrev pub IsSameValue : Value F → Value F → Type 0
  IsSameValue v e =
      (value_eq floats v e ≡ true)
      ⊎ ((x : F) × (y : F) × IsNumber v x × IsNumber e y × (floats.float_eq x y ≡ true))

  pub matches_type_iff :
      (v : Value F) (t : TypeName) → (matches_type floats v t ≡ true) ↔ IsOfType v t
  unfolding matches_type
  matches_type_iff null string_type =
      (λ h. absurd (ground (arith, h)), λ h. absurd (ground (arith, h.1)))
  matches_type_iff (bool b) string_type =
      (λ h. absurd (ground (arith, h)), λ h. absurd (ground (arith, h.1)))
  matches_type_iff (integer n) string_type =
      (λ h. absurd (ground (arith, h)), λ h. absurd (ground (arith, h.1)))
  matches_type_iff (float x) string_type =
      (λ h. absurd (ground (arith, h)), λ h. absurd (ground (arith, h.1)))
  matches_type_iff (text s) string_type = (λ h. (s, refl), λ h. refl)
  matches_type_iff (array vs) string_type =
      (λ h. absurd (ground (arith, h)), λ h. absurd (ground (arith, h.1)))
  matches_type_iff (object es) string_type =
      (λ h. absurd (ground (arith, h)), λ h. absurd (ground (arith, h.1)))
  matches_type_iff null boolean_type =
      (λ h. absurd (ground (arith, h)), λ h. absurd (ground (arith, h.1)))
  matches_type_iff (bool b) boolean_type = (λ h. (b, refl), λ h. refl)
  matches_type_iff (integer n) boolean_type =
      (λ h. absurd (ground (arith, h)), λ h. absurd (ground (arith, h.1)))
  matches_type_iff (float x) boolean_type =
      (λ h. absurd (ground (arith, h)), λ h. absurd (ground (arith, h.1)))
  matches_type_iff (text s) boolean_type =
      (λ h. absurd (ground (arith, h)), λ h. absurd (ground (arith, h.1)))
  matches_type_iff (array vs) boolean_type =
      (λ h. absurd (ground (arith, h)), λ h. absurd (ground (arith, h.1)))
  matches_type_iff (object es) boolean_type =
      (λ h. absurd (ground (arith, h)), λ h. absurd (ground (arith, h.1)))
  matches_type_iff null integer_type = (
    λ h. absurd (ground (arith, h)),
    λ h. elim h [
      | inl (m, e) ↦ absurd (ground (arith, e))
      | inr (y, e, w) ↦ absurd (ground (arith, e))
    ],
  )
  matches_type_iff (bool b) integer_type = (
    λ h. absurd (ground (arith, h)),
    λ h. elim h [
      | inl (m, e) ↦ absurd (ground (arith, e))
      | inr (y, e, w) ↦ absurd (ground (arith, e))
    ],
  )
  matches_type_iff (integer n) integer_type = (λ h. inl (n, refl), λ h. refl)
  matches_type_iff (float x) integer_type = (
    λ h. inr (x, refl, h),
    λ h. elim h [
      | inl (m, e) ↦ absurd (ground (arith, e))
      | inr (y, e, w) ↦
          let q : x ≡ y = ground (arith, e) in subst (λ z. floats.is_integral z ≡ true) (sym q) w
    ],
  )
  matches_type_iff (text s) integer_type = (
    λ h. absurd (ground (arith, h)),
    λ h. elim h [
      | inl (m, e) ↦ absurd (ground (arith, e))
      | inr (y, e, w) ↦ absurd (ground (arith, e))
    ],
  )
  matches_type_iff (array vs) integer_type = (
    λ h. absurd (ground (arith, h)),
    λ h. elim h [
      | inl (m, e) ↦ absurd (ground (arith, e))
      | inr (y, e, w) ↦ absurd (ground (arith, e))
    ],
  )
  matches_type_iff (object es) integer_type = (
    λ h. absurd (ground (arith, h)),
    λ h. elim h [
      | inl (m, e) ↦ absurd (ground (arith, e))
      | inr (y, e, w) ↦ absurd (ground (arith, e))
    ],
  )
  matches_type_iff null number_type = (
    λ h. absurd (ground (arith, h)),
    λ h. elim h [ inl (m, e) ↦ absurd (ground (arith, e)) | inr r ↦ absurd (ground (arith, r.1)) ],
  )
  matches_type_iff (bool b) number_type = (
    λ h. absurd (ground (arith, h)),
    λ h. elim h [ inl (m, e) ↦ absurd (ground (arith, e)) | inr r ↦ absurd (ground (arith, r.1)) ],
  )
  matches_type_iff (integer n) number_type = (λ h. inl (n, refl), λ h. refl)
  matches_type_iff (float x) number_type = (λ h. inr (x, refl), λ h. refl)
  matches_type_iff (text s) number_type = (
    λ h. absurd (ground (arith, h)),
    λ h. elim h [ inl (m, e) ↦ absurd (ground (arith, e)) | inr r ↦ absurd (ground (arith, r.1)) ],
  )
  matches_type_iff (array vs) number_type = (
    λ h. absurd (ground (arith, h)),
    λ h. elim h [ inl (m, e) ↦ absurd (ground (arith, e)) | inr r ↦ absurd (ground (arith, r.1)) ],
  )
  matches_type_iff (object es) number_type = (
    λ h. absurd (ground (arith, h)),
    λ h. elim h [ inl (m, e) ↦ absurd (ground (arith, e)) | inr r ↦ absurd (ground (arith, r.1)) ],
  )
  matches_type_iff null array_type =
      (λ h. absurd (ground (arith, h)), λ h. absurd (ground (arith, h.1)))
  matches_type_iff (bool b) array_type =
      (λ h. absurd (ground (arith, h)), λ h. absurd (ground (arith, h.1)))
  matches_type_iff (integer n) array_type =
      (λ h. absurd (ground (arith, h)), λ h. absurd (ground (arith, h.1)))
  matches_type_iff (float x) array_type =
      (λ h. absurd (ground (arith, h)), λ h. absurd (ground (arith, h.1)))
  matches_type_iff (text s) array_type =
      (λ h. absurd (ground (arith, h)), λ h. absurd (ground (arith, h.1)))
  matches_type_iff (array vs) array_type = (λ h. (vs, refl), λ h. refl)
  matches_type_iff (object es) array_type =
      (λ h. absurd (ground (arith, h)), λ h. absurd (ground (arith, h.1)))
  matches_type_iff null object_type =
      (λ h. absurd (ground (arith, h)), λ h. absurd (ground (arith, h.1)))
  matches_type_iff (bool b) object_type =
      (λ h. absurd (ground (arith, h)), λ h. absurd (ground (arith, h.1)))
  matches_type_iff (integer n) object_type =
      (λ h. absurd (ground (arith, h)), λ h. absurd (ground (arith, h.1)))
  matches_type_iff (float x) object_type =
      (λ h. absurd (ground (arith, h)), λ h. absurd (ground (arith, h.1)))
  matches_type_iff (text s) object_type =
      (λ h. absurd (ground (arith, h)), λ h. absurd (ground (arith, h.1)))
  matches_type_iff (array vs) object_type =
      (λ h. absurd (ground (arith, h)), λ h. absurd (ground (arith, h.1)))
  matches_type_iff (object es) object_type = (λ h. (es, refl), λ h. refl)
  matches_type_iff null any_type = (λ h. tt, λ h. refl)
  matches_type_iff (bool b) any_type = (λ h. tt, λ h. refl)
  matches_type_iff (integer n) any_type = (λ h. tt, λ h. refl)
  matches_type_iff (float x) any_type = (λ h. tt, λ h. refl)
  matches_type_iff (text s) any_type = (λ h. tt, λ h. refl)
  matches_type_iff (array vs) any_type = (λ h. tt, λ h. refl)
  matches_type_iff (object es) any_type = (λ h. tt, λ h. refl)

  pub or_iff : {P : Type 0} (a b : Bool) → ((b ≡ true) ↔ P) → ((a || b) ≡ true) ↔ ((a ≡ true) ⊎ P)
  or_iff true b i = (λ h. inl refl, λ h. refl)
  or_iff false b i =
      (λ h. inr (i.0 h), λ h. elim h [ inl e ↦ absurd (ground (arith, e)) | inr p ↦ i.1 p ])

  to_float64_iff : (v : Value F) (x : F) → (to_float64 floats v ≡ some x) ↔ IsNumber v x
  unfolding to_float64
  to_float64_iff null x = (
    λ h. absurd (ground (arith, h)),
    λ h. elim h [ inl e ↦ absurd (ground (arith, e)) | inr (m, e, q) ↦ absurd (ground (arith, e)) ],
  )
  to_float64_iff (bool b) x = (
    λ h. absurd (ground (arith, h)),
    λ h. elim h [ inl e ↦ absurd (ground (arith, e)) | inr (m, e, q) ↦ absurd (ground (arith, e)) ],
  )
  to_float64_iff (integer n) x = (
    λ h. inr (n, refl, ground (arith, h)),
    λ h. elim h [
      | inl e ↦ absurd (ground (arith, e))
      | inr (m, e, q) ↦ let same : n ≡ m = ground (arith, e) in rw (same, q) refl
    ],
  )
  to_float64_iff (float y) x = (
    λ h. inl (ground (arith, h)),
    λ h. elim h [ inl e ↦ ground (arith, e) | inr (m, e, q) ↦ absurd (ground (arith, e)) ],
  )
  to_float64_iff (text s) x = (
    λ h. absurd (ground (arith, h)),
    λ h. elim h [ inl e ↦ absurd (ground (arith, e)) | inr (m, e, q) ↦ absurd (ground (arith, e)) ],
  )
  to_float64_iff (array vs) x = (
    λ h. absurd (ground (arith, h)),
    λ h. elim h [ inl e ↦ absurd (ground (arith, e)) | inr (m, e, q) ↦ absurd (ground (arith, e)) ],
  )
  to_float64_iff (object es) x = (
    λ h. absurd (ground (arith, h)),
    λ h. elim h [ inl e ↦ absurd (ground (arith, e)) | inr (m, e, q) ↦ absurd (ground (arith, e)) ],
  )

  AreSameNumber : Value F → Value F → Type 0
  AreSameNumber v e = (x : F) × (y : F) × IsNumber v x × IsNumber e y × (floats.float_eq x y ≡ true)

  both_equal_iff :
      (v e : Value F)
      → (both_equal floats (to_float64 floats v) (to_float64 floats e) ≡ true) ↔ AreSameNumber v e
  unfolding AreSameNumber
  both_equal_iff v e = (
    λ h. elim (Option-cases (to_float64 floats v)) [
      | inl a ↦ absurd (ground (arith, h, a))
      | inr (x, a) ↦ elim (Option-cases (to_float64 floats e)) [
        | inl b ↦ absurd (ground (arith, h, a, b))
        | inr (y, b) ↦
            (x, y, (to_float64_iff v x).0 a, (to_float64_iff e y).0 b, ground (arith, h, a, b))
      ]
    ],
    λ (x, y, a, b, c). rw ((to_float64_iff v x).1 a, (to_float64_iff e y).1 b) c,
  )

  pub enum_matches_iff : (v e : Value F) → (enum_matches floats v e ≡ true) ↔ IsSameValue v e
  unfolding enum_matches AreSameNumber
  enum_matches_iff v e = or_iff (value_eq floats v e) _ (both_equal_iff v e)
