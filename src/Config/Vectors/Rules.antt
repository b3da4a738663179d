-- ===== src/Config/Vectors/Rules.antt =====
-- Runs of the blocks of applyVectorEnvOverrides, src/internal/config/config.go: what they keep.
use gocodemunch_mcp.Base.{
  Text, Bool, true, false, Option, none, some, List, [], ◌∷◌, ◌++◌, ◌≡◌, refl, sym, ◌∙◌, ap, All,
  subst, ◌≢◌, arith, Bool-cases, inl, inr, if◌then◌else◌,
}
use gocodemunch_mcp.Config.Parsing.{getenv_trimmed}
use gocodemunch_mcp.Config.Vectors.{
  Url, ConfigProblem, VectorConfig, Numbers, Effect, keep, change, complain, read_number,
  apply_effect, override, note, require, Rule, variable, condition, apply_rule, apply_rules,
}

-- What holds of the settings behind an effect.
abbrev pub After : {F : Type 0} → (VectorConfig F → Type 0) → Effect F → Type 0
After P keep = Unit
After P (change cfg) = P cfg
After P (complain e) = Unit

-- An effect under a test, and one that has to be read first.
pub if-After :
    {F : Type 0} (P : VectorConfig F → Type 0) (b : Bool) (cfg : VectorConfig F) (e : ConfigProblem)
    → (b ≡ true → P cfg)
    → After P (if b then change cfg else complain e)
if-After P true cfg e p = p refl
if-After P false cfg e p = tt

pub read_number-After :
    {F A : Type 0} (P : VectorConfig F → Type 0) (o : Option A) (is_bad : A → Bool)
    (with_number : A → VectorConfig F) (e : ConfigProblem)
    → ((n : A) → is_bad n ≡ false → P (with_number n))
    → After P (read_number o is_bad with_number e)
unfolding read_number
read_number-After P none is_bad with_number e p = tt
read_number-After P (some n) is_bad with_number e p = elim (Bool-cases (is_bad n)) [
  | inl bad ↦ rw bad tt
  | inr good ↦ rw good (p n good)
]

append_ne {ℓ} : {A : Type ℓ} (xs : List A) (x : A) → xs ++ (x ∷ []) ≡ [] → xs ≡ []
append_ne [] x h = refl
append_ne (y ∷ xs) x h = absurd (ground (arith, h))

module _ {F : Type 0} (numbers : Numbers F) (parse_url : Text → Option Url) where
  abbrev pub Keeps : (VectorConfig F → Type 0) → Rule numbers parse_url → Type 0
  Keeps P (variable key f) = (raw : Text) (cfg : VectorConfig F) → P cfg → After P (f raw cfg)
  Keeps P (condition test) = Unit

  abbrev Run : Type 0
  Run = VectorConfig F × List ConfigProblem

  apply_effect-Keeps :
      (P : VectorConfig F → Type 0) (e : Effect F) (s : Run)
      → P s.0
      → After P e
      → P (apply_effect numbers parse_url e s).0
  unfolding apply_effect
  apply_effect-Keeps P keep s p q = p
  apply_effect-Keeps P (change cfg) s p q = q
  apply_effect-Keeps P (complain e) s p q = p

  override-Keeps :
      (P : VectorConfig F → Type 0) (o : Option Text) (f : Text → VectorConfig F → Effect F)
      (s : Run)
      → P s.0
      → ((raw : Text) (cfg : VectorConfig F) → P cfg → After P (f raw cfg))
      → P (override numbers parse_url o f s).0
  unfolding override
  override-Keeps P none f s p q = p
  override-Keeps P (some raw) f s p q = apply_effect-Keeps P (f raw s.0) s p (q raw s.0 p)

  note-same : (o : Option ConfigProblem) (s : Run) → (note numbers parse_url o s).0 ≡ s.0
  unfolding note
  note-same none s = refl
  note-same (some e) s = refl

  module _ (lookup_env : Text → Option Text) where
    -- What every block keeps holds behind a run.
    pub apply_rules-Keeps :
        (P : VectorConfig F → Type 0) (rules : List (Rule numbers parse_url)) (s : Run)
        → All (Keeps P) rules
        → P s.0
        → P (apply_rules numbers parse_url lookup_env rules s).0
    unfolding apply_rules apply_rule require
    apply_rules-Keeps P [] s k p = p
    apply_rules-Keeps P (variable key f ∷ rules) s (k, ks) p =
        apply_rules-Keeps P rules (override numbers parse_url (getenv_trimmed lookup_env key) f s)
          ks (override-Keeps P (getenv_trimmed lookup_env key) f s p k)
    apply_rules-Keeps P (condition test ∷ rules) s (k, ks) p =
        apply_rules-Keeps P rules (note numbers parse_url (test s.0) s) ks
          (subst P (sym (note-same (test s.0) s)) p)

    pub apply_rules-append :
        (first rest : List (Rule numbers parse_url)) (s : Run)
        → apply_rules numbers parse_url lookup_env (first ++ rest) s
          ≡ apply_rules numbers parse_url lookup_env rest
              (apply_rules numbers parse_url lookup_env first s)
    unfolding apply_rules
    apply_rules-append [] rest s = refl
    apply_rules-append (r ∷ first) rest s =
        apply_rules-append first rest (apply_rule numbers parse_url lookup_env r s)

    -- A message stays.
    apply_effect_errors :
        (e : Effect F) (s : Run) → (apply_effect numbers parse_url e s).1 ≡ [] → s.1 ≡ []
    unfolding apply_effect
    apply_effect_errors keep s h = h
    apply_effect_errors (change cfg) s h = h
    apply_effect_errors (complain e) s h = append_ne s.1 e h

    override_errors :
        (o : Option Text) (f : Text → VectorConfig F → Effect F) (s : Run)
        → (override numbers parse_url o f s).1 ≡ []
        → s.1 ≡ []
    unfolding override
    override_errors none f s h = h
    override_errors (some raw) f s h = apply_effect_errors (f raw s.0) s h

    note_errors :
        (o : Option ConfigProblem) (s : Run) → (note numbers parse_url o s).1 ≡ [] → s.1 ≡ []
    unfolding note
    note_errors none s h = h
    note_errors (some e) s h = append_ne s.1 e h

    append_some : (xs : List ConfigProblem) (x : ConfigProblem) → xs ++ (x ∷ []) ≢ []
    append_some [] x h = ground (arith, h)
    append_some (y ∷ xs) x h = ground (arith, h)

    note-none :
        (o : Option ConfigProblem) (s : Run) → (note numbers parse_url o s).1 ≡ [] → o ≡ none
    unfolding note
    note-none none s h = refl
    note-none (some e) s h = absurd (append_some s.1 e h)

    apply_rule_errors :
        (r : Rule numbers parse_url) (s : Run)
        → (apply_rule numbers parse_url lookup_env r s).1 ≡ []
        → s.1 ≡ []
    unfolding apply_rule require
    apply_rule_errors (variable key f) s h = override_errors (getenv_trimmed lookup_env key) f s h
    apply_rule_errors (condition test) s h = note_errors (test s.0) s h

    pub apply_rules_errors :
        (rules : List (Rule numbers parse_url)) (s : Run)
        → (apply_rules numbers parse_url lookup_env rules s).1 ≡ []
        → s.1 ≡ []
    unfolding apply_rules
    apply_rules_errors [] s h = h
    apply_rules_errors (r ∷ rules) s h =
        apply_rule_errors r s
          (apply_rules_errors rules (apply_rule numbers parse_url lookup_env r s) h)

    -- A condition holds behind a run without messages, if what comes behind it keeps it.
    pub apply_rules-condition :
        (test : VectorConfig F → Option ConfigProblem) (rules : List (Rule numbers parse_url))
        (s : Run)
        → All (Keeps (λ cfg. test cfg ≡ none)) rules
        → (apply_rules numbers parse_url lookup_env (condition test ∷ rules) s).1 ≡ []
        → test (apply_rules numbers parse_url lookup_env (condition test ∷ rules) s).0 ≡ none
    unfolding apply_rules apply_rule require
    apply_rules-condition test rules s k h =
        let next = apply_rule numbers parse_url lookup_env (condition test) s in
        apply_rules-Keeps (λ cfg. test cfg ≡ none) rules next k
          (ap test (note-same (test s.0) s)
            ∙ note-none (test s.0) s (apply_rules_errors rules next h))
