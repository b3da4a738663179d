-- ===== src/Base/Strings/Trim.antt =====
-- When TrimSpace leaves a text alone.
use Prim.Native.Nat.{ℕ, zero, suc, ◌<◌}
use mathlib.Core.Path.{◌≡◌, refl, ◌∙◌, ap}
use mathlib.Core.Bool.{Bool}
use mathlib.Core.List.{List, [], ◌∷◌, reverse, reverse-cons, reverse-reverse}
use mathlib.Core.Option.{none}
use native.Mathlib.Omega.{arith}
use gocodemunch_mcp.Base.Lists.{length, All, All-append}
use gocodemunch_mcp.Base.Strings.{
  Text, is_space1, is_space2, is_space3, first_space, second_space, third_space, strip_spaces,
  trim_left, trim_right, trim_space,
}

-- A visible ASCII character.
abbrev pub IsPlain : ℕ → Type 0
IsPlain c = (32 < c) × (c < 128)

pub All-reverse {ℓ κ} : {A : Type ℓ} (P : A → Type κ) (xs : List A) → All P xs → All P (reverse xs)
All-reverse P [] h = tt
All-reverse P (x ∷ xs) h =
    rw (reverse-cons x xs) (All-append P (reverse xs) (x ∷ []) (All-reverse P xs h.1) (h.0, tt))

module _ (two : ℕ → ℕ → Bool) (three : ℕ → ℕ → ℕ → Bool) where
  strip_spaces-none :
      (n : ℕ) (s : Text) → first_space two three s ≡ none → strip_spaces two three n s ≡ s
  unfolding strip_spaces
  strip_spaces-none zero s h = refl
  strip_spaces-none (suc n) s h = rw (h, strip_spaces)

front-plain : (s : Text) → All IsPlain s → first_space is_space2 is_space3 s ≡ none
unfolding first_space second_space third_space is_space1 is_space2 is_space3
front-plain [] h = refl
front-plain (a ∷ []) h = ground (arith, h)
front-plain (a ∷ b ∷ []) h = ground (arith, h)
front-plain (a ∷ b ∷ c ∷ s) h = ground (arith, h)

back-plain :
    (s : Text)
    → All IsPlain s
    → first_space (λ b a. is_space2 a b) (λ c b a. is_space3 a b c) s ≡ none
unfolding first_space second_space third_space is_space1 is_space2 is_space3
back-plain [] h = refl
back-plain (a ∷ []) h = ground (arith, h)
back-plain (a ∷ b ∷ []) h = ground (arith, h)
back-plain (a ∷ b ∷ c ∷ s) h = ground (arith, h)

trim_right-plain : (s : Text) → All IsPlain s → trim_right s ≡ s
unfolding trim_right
trim_right-plain s h =
    ap reverse (
      strip_spaces-none (λ b a. is_space2 a b) (λ c b a. is_space3 a b c) (length s) (reverse s)
        (back-plain (reverse s) (All-reverse IsPlain s h)))
    ∙ reverse-reverse s

trim_left-plain : (s : Text) → All IsPlain s → trim_left s ≡ s
unfolding trim_left
trim_left-plain s h = strip_spaces-none is_space2 is_space3 (length s) s (front-plain s h)

trim_left-space : (s : Text) → All IsPlain s → trim_left (32 ∷ s) ≡ s
unfolding trim_left
trim_left-space s h = strip_spaces-none is_space2 is_space3 (length s) s (front-plain s h)

-- A text of visible characters has nothing to trim.
pub trim_space-plain : (s : Text) → All IsPlain s → trim_space s ≡ s
trim_space-plain s h =
    unfold trim_space in ap trim_right (trim_left-plain s h) ∙ trim_right-plain s h

-- Nor has it more than a space in front of it.
pub trim_space-space : (s : Text) → All IsPlain s → trim_space (32 ∷ s) ≡ s
trim_space-space s h =
    unfold trim_space in ap trim_right (trim_left-space s h) ∙ trim_right-plain s h
