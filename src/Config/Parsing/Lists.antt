-- ===== src/Config/Parsing/Lists.antt =====
-- Loops with a set of what they have seen, such as the one of normalizeLanguageList of
-- src/internal/config/config.go, give lists in which nothing stands twice.
use gocodemunch_mcp.Base.{
  Text, text_eq, text_eq_iff, trim_space, to_lower, is_empty, member, true, false, ◌||◌, List, [],
  ◌∷◌, ◌≡◌, refl, subst, Bool-cases, inl, inr, arith, IsSimple, All,
}
use gocodemunch_mcp.Config.Parsing.{language_loop, normalize_language_list}

-- Nothing stands twice in the list, and nothing that has been seen.
abbrev pub IsNew : List Text → List Text → Type 0
IsNew seen xs = IsSimple xs × ((z : Text) → member z xs ≡ true → member z seen ≡ false)

pub nil-IsNew : (seen : List Text) → IsNew seen []
unfolding member
nil-IsNew seen = (tt, λ z h. absurd (ground (arith, h)))

pub cons-IsNew :
    (x : Text) (seen xs : List Text)
    → member x seen ≡ false
    → IsNew (x ∷ seen) xs
    → IsNew seen (x ∷ xs)
unfolding member
cons-IsNew x seen xs m (s, f) = (
  (
    elim (Bool-cases (member x xs)) [
      | inl e ↦ absurd (ground (arith, f x e, (text_eq_iff x x).1 refl))
      | inr e ↦ e
    ],
    s,
  ),
  λ z h. elim (Bool-cases (text_eq x z)) [
    | inl e ↦ subst (λ y. member y seen ≡ false) ((text_eq_iff x z).0 e) m
    | inr e ↦ ground (arith, h, e, f z)
  ],
)

abbrev pub IsLanguage : Text → Type 0
IsLanguage x = is_empty x ≡ false

pub language_loop-IsNew :
    (seen raw : List Text)
    → IsNew seen (language_loop seen raw) × All IsLanguage (language_loop seen raw)
unfolding language_loop
language_loop-IsNew seen [] = (nil-IsNew seen, tt)
language_loop-IsNew seen (value ∷ raw) =
    let language = to_lower (trim_space value) in
    elim (Bool-cases (is_empty language || member language seen)) [
      | inl e ↦ rw e (language_loop-IsNew seen raw)
      | inr e ↦
          let (new, all) = language_loop-IsNew (language ∷ seen) raw in
          rw e (
            cons-IsNew language seen (language_loop (language ∷ seen) raw) (ground (arith, e)) new,
            (ground (arith, e), all),
          )
    ]

-- Which languages are listed: those that some entry spells.
abbrev pub spells : List Text → List Text
spells [] = []
spells (value ∷ raw) = to_lower (trim_space value) ∷ spells raw

member-language_loop :
    (z : Text) (seen raw : List Text)
    → is_empty z ≡ false
    → member z seen ≡ false
    → member z (language_loop seen raw) ≡ member z (spells raw)
unfolding language_loop member
member-language_loop z seen [] n m = refl
member-language_loop z seen (value ∷ raw) n m =
    let language = to_lower (trim_space value) in
    elim (Bool-cases (text_eq language z)) [
      | inl e ↦
          let q : language ≡ z = (text_eq_iff language z).0 e in
          let free : (is_empty language || member language seen) ≡ false =
            rw q (ground (arith, n, m)) in
          rw (free, e) (unfold member in ground (arith, e))
      | inr e ↦ elim (Bool-cases (is_empty language || member language seen)) [
        | inl skip ↦ rw (skip, e) (member-language_loop z seen raw n m)
        | inr take ↦
            rw (take, e)
              (unfold member in
                ground (arith, e, m, member-language_loop z (language ∷ seen) raw n))
      ]
    ]

-- The languages are the entries in lower case, each once, and none of them is empty.
pub normalize_language_list-IsSimple :
    (raw : List Text)
    → IsSimple (normalize_language_list raw)
      × All IsLanguage (normalize_language_list raw)
      × ((z : Text)
          → is_empty z ≡ false
          → member z (normalize_language_list raw) ≡ member z (spells raw))
unfolding normalize_language_list
normalize_language_list-IsSimple raw =
    let (new, all) = language_loop-IsNew [] raw in
    (new.0, all, λ z n. member-language_loop z [] raw n (unfold member in refl))
