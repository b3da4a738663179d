-- ===== src/Base/Split.antt =====
-- strings.Split and strings.Join with a separator of one byte.
use Prim.Native.Nat.{ℕ, ◌+◌}
use mathlib.Core.Path.{◌≡◌, refl, ap, ◌∙◌}
use mathlib.Core.Logic.{◌≢◌}
use mathlib.Core.List.{List, [], ◌∷◌, ◌++◌}
use native.Mathlib.Omega.{arith}
use gocodemunch_mcp.Base.Tests.{◌==◌, if◌then◌else◌}
use gocodemunch_mcp.Base.Lists.{length, length-append, All}
use gocodemunch_mcp.Base.Strings.{Text}

-- A byte in front of the first part.
push_byte : ℕ → List Text → List Text
push_byte c [] = (c ∷ []) ∷ []
push_byte c (p ∷ ps) = (c ∷ p) ∷ ps

unfoldable pub split : ℕ → Text → List Text
unfolding push_byte
split sep [] = [] ∷ []
split sep (c ∷ s) = let parts = split sep s in if c == sep then [] ∷ parts else push_byte c parts

unfoldable pub join : ℕ → List Text → Text
join sep [] = []
join sep (p ∷ []) = p
join sep (p ∷ q ∷ ps) = p ++ (sep ∷ join sep (q ∷ ps))

pub split-ne-nil : (sep : ℕ) (s : Text) → split sep s ≢ []
unfolding split push_byte
split-ne-nil sep [] = λ e. cc
split-ne-nil sep (c ∷ s) = ground (arith, split-ne-nil sep s)

join-push_byte :
    (sep c : ℕ) (ps : List Text) → ps ≢ [] → join sep (push_byte c ps) ≡ c ∷ join sep ps
unfolding join push_byte
join-push_byte sep c [] h = absurd (h refl)
join-push_byte sep c (p ∷ []) h = refl
join-push_byte sep c (p ∷ q ∷ ps) h = refl

join-nil-cons : (sep : ℕ) (ps : List Text) → ps ≢ [] → join sep ([] ∷ ps) ≡ sep ∷ join sep ps
unfolding join
join-nil-cons sep [] h = absurd (h refl)
join-nil-cons sep (q ∷ ps) h = refl

-- Joining the parts gives the text back.
pub join-split : (sep : ℕ) (s : Text) → join sep (split sep s) ≡ s
unfolding split
join-split sep [] = unfold join in refl
join-split sep (c ∷ s) = ground (
  arith,
  join-push_byte sep c (split sep s),
  join-nil-cons sep (split sep s),
  split-ne-nil sep s,
  join-split sep s,
)

-- No byte of the text is the separator.
abbrev pub Lacks : ℕ → Text → Type 0
Lacks sep = All (λ c. c ≢ sep)

-- A text without the separator is one part, and in front of the separator it is the first.
pub split-Lacks : (sep : ℕ) (p : Text) → Lacks sep p → split sep p ≡ p ∷ []
unfolding split push_byte
split-Lacks sep [] h = refl
split-Lacks sep (c ∷ p) h = ground (arith, h, split-Lacks sep p h.1)

pub split-append :
    (sep : ℕ) (p s : Text) → Lacks sep p → split sep (p ++ (sep ∷ s)) ≡ p ∷ split sep s
unfolding split push_byte
split-append sep [] s h = ground arith
split-append sep (c ∷ p) s h = ground (arith, h, split-append sep p s h.1)

-- Splitting a join gives the parts back, if there is one and none holds the separator.
pub split-join :
    (sep : ℕ) (ps : List Text) → ps ≢ [] → All (Lacks sep) ps → split sep (join sep ps) ≡ ps
unfolding join
split-join sep [] h a = absurd (h refl)
split-join sep (p ∷ []) h a = split-Lacks sep p a.0
split-join sep (p ∷ q ∷ ps) h a =
    split-append sep p (join sep (q ∷ ps)) a.0
    ∙ ap (λ r. p ∷ r) (split-join sep (q ∷ ps) (λ e. cc) a.1)

-- The bytes of a join beyond those of its parts.
pub length-join_cons :
    (sep : ℕ) (p q : Text) (ps : List Text)
    → length (join sep (p ∷ q ∷ ps)) ≡ length p + 1 + length (join sep (q ∷ ps))
unfolding join
length-join_cons sep p q ps = omega (arith, length-append p (sep ∷ join sep (q ∷ ps)))
