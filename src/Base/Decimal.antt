-- ===== src/Base/Decimal.antt =====
-- strconv.Itoa of a number that is not negative, and strconv.Atoi, on 64 bits.
use Prim.Native.Nat.{ℕ, zero, suc, ◌+◌, ◌-◌, ◌*◌, ◌/◌, ◌%◌, ◌^◌, ◌≤◌}
use mathlib.Core.Path.{◌≡◌, refl, ◌∙◌, ap}
use mathlib.Core.Bool.{Bool, true, false, ◌&&◌}
use mathlib.Core.List.{[], ◌∷◌}
use mathlib.Core.Logic.{◌≢◌}
use mathlib.Core.Option.{Option, none, some}
use native.Mathlib.Omega.{arith}
use gocodemunch_mcp.Base.Tests.{leb, ◌==◌, if◌then◌else◌}
use gocodemunch_mcp.Base.Lists.{All}
use gocodemunch_mcp.Base.Strings.{Text, is_empty}
use gocodemunch_mcp.Base.Int.{ℤ, pos, sub_ℕ}

digit_loop : ℕ → ℕ → Text → Text
digit_loop zero n out = out
digit_loop (suc fuel) n out = elim (n == 0) [
  | true ↦ out
  | false ↦ digit_loop fuel (n / 10) ((b'0' + n % 10) ∷ out)
]

unfoldable pub itoa : ℕ → Text
unfolding digit_loop
itoa n = if n == 0 then b'0' ∷ [] else digit_loop n n []

abbrev pub IsDigit : ℕ → Type 0
IsDigit c = (b'0' ≤ c) × (c ≤ b'9')

unfoldable pub all_digits : Text → Bool
all_digits [] = true
all_digits (c ∷ s) = (leb b'0' c && leb c b'9') && all_digits s

-- The number that digits spell behind `n`.
unfoldable pub value : Text → ℕ → ℕ
value [] n = n
value (c ∷ s) n = value s (n * 10 + (c - b'0'))

abbrev pub max_int : ℕ
max_int = 2 ^ 63 - 1

-- The digits of a number up to a bound.
parse_digits : ℕ → Text → Option ℕ
parse_digits bound s =
    if is_empty s
    then none
    else if all_digits s && leb (value s 0) bound
    then some (value s 0)
    else none

as_pos : Option ℕ → Option ℤ
as_pos none = none
as_pos (some n) = some (pos n)

as_neg : Option ℕ → Option ℤ
as_neg none = none
as_neg (some n) = some (sub_ℕ 0 n)

unfoldable pub atoi : Text → Option ℤ
unfolding parse_digits as_pos as_neg all_digits value
atoi [] = none
atoi (c ∷ s) =
    if c == b'-'
    then as_neg (parse_digits (suc max_int) s)
    else if c == b'+'
    then as_pos (parse_digits max_int s)
    else as_pos (parse_digits max_int (c ∷ s))

value-digit_loop :
    (fuel n : ℕ) (out : Text) → n ≤ fuel → value (digit_loop fuel n out) 0 ≡ value out n
unfolding digit_loop value
value-digit_loop zero n out h = let e : n ≡ 0 = omega arith in rw e
value-digit_loop (suc fuel) n out h =
    ground (arith, value-digit_loop fuel (n / 10) ((b'0' + n % 10) ∷ out))

digit_loop-digits :
    (fuel n : ℕ) (out : Text) → All IsDigit out → All IsDigit (digit_loop fuel n out)
unfolding digit_loop
digit_loop-digits zero n out h = h
digit_loop-digits (suc fuel) n out h =
    ground (arith, digit_loop-digits fuel (n / 10) ((b'0' + n % 10) ∷ out), h)

digit_loop-ne-nil : (fuel n : ℕ) (out : Text) → out ≢ [] → digit_loop fuel n out ≢ []
unfolding digit_loop
digit_loop-ne-nil zero n out h = h
digit_loop-ne-nil (suc fuel) n out h =
    ground (arith, digit_loop-ne-nil fuel (n / 10) ((b'0' + n % 10) ∷ out))

pub itoa-digits : (n : ℕ) → All IsDigit (itoa n)
unfolding itoa
itoa-digits n = ground (arith, digit_loop-digits n n [])

pub itoa-ne-nil : (n : ℕ) → itoa n ≢ []
unfolding itoa
itoa-ne-nil zero = ground arith
itoa-ne-nil (suc n) = ground (arith, digit_loop-ne-nil n (suc n / 10) ((b'0' + suc n % 10) ∷ []))

pub value-itoa : (n : ℕ) → value (itoa n) 0 ≡ n
unfolding itoa value
value-itoa n = ground (arith, value-digit_loop n n [])

all_digits_complete : (s : Text) → All IsDigit s → all_digits s ≡ true
unfolding all_digits
all_digits_complete [] h = refl
all_digits_complete (c ∷ s) h = ground (arith, h, all_digits_complete s h.1)

atoi_digits :
    (s : Text) → s ≢ [] → All IsDigit s → value s 0 ≤ max_int → atoi s ≡ some (pos (value s 0))
unfolding atoi
atoi_digits [] h d b = absurd (h refl)
atoi_digits (c ∷ s) h d b = ground (arith, all_digits_complete s d.1, d.0, b)

-- Atoi reads back what Itoa writes.
pub atoi-itoa : (n : ℕ) → n ≤ max_int → atoi (itoa n) ≡ some (pos n)
atoi-itoa n h =
    atoi_digits (itoa n) (itoa-ne-nil n) (itoa-digits n) (omega (arith, value-itoa n))
    ∙ ap (λ v. some (pos v)) (value-itoa n)
