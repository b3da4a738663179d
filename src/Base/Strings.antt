-- ===== src/Base/Strings.antt =====
-- Go strings as lists of bytes: equality, the order of `<`, and the functions of package strings
-- that the program calls on the texts of this development.
pub mod Trim
pub mod Search
use Prim.Native.Nat.{ℕ, zero, suc, ◌+◌, ◌<◌}
use Prim.Native.Char.{code}
use Prim.Native.String.{String}
use mathlib.Core.Path.{◌≡◌, refl}
use mathlib.Core.Logic.{◌↔◌, inl, inr}
use mathlib.Core.Bool.{Bool, true, false, ◌&&◌, ◌||◌}
use mathlib.Core.List.{List, [], ◌∷◌, map, reverse}
use mathlib.Core.Option.{Option, none, some}
use native.Mathlib.Omega.{arith}
use gocodemunch_mcp.Base.Tests.{ltb, leb, ◌==◌, if◌then◌else◌, Option-cases}
use gocodemunch_mcp.Base.Lists.{length}

abbrev pub Text : Type 0
Text = List ℕ

-- The bytes of an ASCII literal.
abbrev pub codes : String → Text
codes String.[] = []
codes (String.◌∷◌ c s) = code c ∷ codes s

unfoldable pub text_eq : Text → Text → Bool
text_eq [] [] = true
text_eq [] (y ∷ ys) = false
text_eq (x ∷ xs) [] = false
text_eq (x ∷ xs) (y ∷ ys) = (x == y) && text_eq xs ys

text_eq_sound : (s t : Text) → text_eq s t ≡ true → s ≡ t
unfolding text_eq
text_eq_sound [] [] h = refl
text_eq_sound [] (y ∷ ys) h = cc
text_eq_sound (x ∷ xs) [] h = cc
text_eq_sound (x ∷ xs) (y ∷ ys) h = ground (arith, text_eq_sound xs ys)

pub text_eq_refl : (s : Text) → text_eq s s ≡ true
unfolding text_eq
text_eq_refl [] = refl
text_eq_refl (x ∷ xs) = ground (arith, text_eq_refl xs)

pub text_eq_iff : (s t : Text) → (text_eq s t ≡ true) ↔ (s ≡ t)
text_eq_iff s t = (text_eq_sound s t, λ e. rw e (text_eq_refl t))

-- `s < t` of Go: the bytes are compared in order.
unfoldable pub text_less : Text → Text → Bool
text_less s [] = false
text_less [] (y ∷ ys) = true
text_less (x ∷ xs) (y ∷ ys) = ltb x y || ((x == y) && text_less xs ys)

pub text_less_irrefl : (s : Text) → text_less s s ≡ false
unfolding text_less
text_less_irrefl [] = refl
text_less_irrefl (x ∷ xs) = ground (arith, text_less_irrefl xs)

pub text_less_trans :
    (s t u : Text) → text_less s t ≡ true → text_less t u ≡ true → text_less s u ≡ true
unfolding text_less
text_less_trans s [] u h k = cc
text_less_trans s (y ∷ t) [] h k = cc
text_less_trans [] (y ∷ t) (z ∷ u) h k = refl
text_less_trans (x ∷ s) (y ∷ t) (z ∷ u) h k = ground (arith, text_less_trans s t u)

pub text_less_total : (s t : Text) → text_less s t ≡ false → text_less t s ≡ false → s ≡ t
unfolding text_less
text_less_total [] [] h k = refl
text_less_total [] (y ∷ t) h k = cc
text_less_total (x ∷ s) [] h k = cc
text_less_total (x ∷ s) (y ∷ t) h k = ground (arith, text_less_total s t)

-- White space of `unicode.IsSpace` in UTF-8, by the number of bytes of the character.
is_space1 : ℕ → Bool
is_space1 a = (leb 9 a && leb a 13) || (a == 32)

is_space2 : ℕ → ℕ → Bool
is_space2 a b = (a == 0xC2) && ((b == 0x85) || (b == 0xA0))

is_space3 : ℕ → ℕ → ℕ → Bool
is_space3 a b c =
    ((a == 0xE1) && (b == 0x9A) && (c == 0x80))
    || ((a == 0xE2)
        && (b == 0x80)
        && ((leb 0x80 c && leb c 0x8A) || (c == 0xA8) || (c == 0xA9) || (c == 0xAF)))
    || ((a == 0xE2) && (b == 0x81) && (c == 0x9F))
    || ((a == 0xE3) && (b == 0x80) && (c == 0x80))

module _ (two : ℕ → ℕ → Bool) (three : ℕ → ℕ → ℕ → Bool) where
  third_space : ℕ → ℕ → Text → Option Text
  third_space a b [] = none
  third_space a b (c ∷ s) = if three a b c then some s else none

  second_space : ℕ → Text → Option Text
  second_space a [] = none
  second_space a (b ∷ s) = if two a b then some s else third_space a b s

  -- What stands behind one white-space character at the front.
  first_space : Text → Option Text
  first_space [] = none
  first_space (a ∷ s) = if is_space1 a then some s else second_space a s

  -- As many as the fuel; a text as long as the fuel has no more.
  strip_spaces : ℕ → Text → Text
  strip_spaces zero s = s
  strip_spaces (suc n) s = elim (first_space s) [ none ↦ s | some r ↦ strip_spaces n r ]

  first_space-lt-length : (s r : Text) → first_space s ≡ some r → length r < length s
  unfolding first_space second_space third_space
  first_space-lt-length [] r h = cc
  first_space-lt-length (a ∷ []) r h = ground arith
  first_space-lt-length (a ∷ b ∷ []) r h = ground arith
  first_space-lt-length (a ∷ b ∷ c ∷ s) r h = ground arith

  -- With the text's length as fuel nothing is left to strip.
  first_space-strip_spaces :
      (n : ℕ) (s : Text) → length s < suc n → first_space (strip_spaces n s) ≡ none
  unfolding strip_spaces
  first_space-strip_spaces zero [] h = unfold first_space in refl
  first_space-strip_spaces zero (c ∷ s) h = absurd (omega arith)
  first_space-strip_spaces (suc n) s h = elim (Option-cases (first_space s)) [
    | inl e ↦ rw (e, strip_spaces) e
    | inr (r, e) ↦
        rw (e, strip_spaces)
          (first_space-strip_spaces n r (omega (arith, first_space-lt-length s r e)))
  ]

trim_left : Text → Text
unfolding strip_spaces first_space second_space third_space is_space1 is_space2 is_space3
trim_left s = strip_spaces is_space2 is_space3 (length s) s

trim_right : Text → Text
unfolding strip_spaces first_space second_space third_space is_space1 is_space2 is_space3
trim_right s =
    reverse (strip_spaces (λ b a. is_space2 a b) (λ c b a. is_space3 a b c) (length s) (reverse s))

-- strings.TrimSpace
unfoldable pub trim_space : Text → Text
unfolding trim_left trim_right
trim_space s = trim_right (trim_left s)

trim_space_runs : trim_space (codes "\t a b \n") ≡ codes "a b"
unfolding trim_space
trim_space_runs = refl

-- unicode.ToLower of an ASCII byte; other bytes are left alone.
pub lower : ℕ → ℕ
lower c = if leb b'A' c && leb c b'Z' then c + 32 else c

-- strings.ToLower of an ASCII text
unfoldable pub to_lower : Text → Text
unfolding lower
to_lower s = map lower s

-- A non-empty text, as `s != ""`.
abbrev pub is_empty : Text → Bool
is_empty [] = true
is_empty (c ∷ s) = false

-- strings.HasPrefix
unfoldable pub has_prefix : Text → Text → Bool
has_prefix s [] = true
has_prefix [] (p ∷ ps) = false
has_prefix (c ∷ s) (p ∷ ps) = (c == p) && has_prefix s ps
