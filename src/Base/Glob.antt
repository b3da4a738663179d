-- ===== src/Base/Glob.antt =====
-- path.Match: a pattern is read into its items, and a bad pattern matches nothing, as the callers
-- take an error for no match. A character is a byte here.
use Prim.Native.Nat.{ℕ, zero, suc}
use mathlib.Core.Path.{◌≡◌, refl}
use mathlib.Core.Bool.{Bool, true, false, not, ◌&&◌, ◌||◌}
use mathlib.Core.List.{List, [], ◌∷◌}
use mathlib.Core.Option.{Option, none, some}
use gocodemunch_mcp.Base.Tests.{if◌then◌else◌, ◌==◌, leb, ◌>>=◌}
use gocodemunch_mcp.Base.Lists.{length}
use gocodemunch_mcp.Base.Strings.{Text, is_empty, codes}

pub data GlobItem : Type 0 where
  any_run any_one : GlobItem
  class : Bool → List (ℕ × ℕ) → GlobItem
  literal : ℕ → GlobItem

-- getEsc: a byte of a class, with a backslash taken off, and what stands behind it, which must be
-- something.
get_esc : Text → Option (ℕ × Text)
get_esc [] = none
get_esc (c ∷ []) = none
get_esc (c ∷ d ∷ p) =
    if c == b'-' || c == b']'
    then none
    else if c == b'\\'
    then (if is_empty p then none else some (d, p))
    else some (c, d ∷ p)

-- One range of a class.
get_range : Text → Option ((ℕ × ℕ) × Text)
unfolding get_esc
get_range p = elim (get_esc p) [
  | none ↦ none
  | some (low, []) ↦ none
  | some (low, c ∷ rest) ↦
      if c == b'-'
      then elim (get_esc rest) [ none ↦ none | some (high, rest') ↦ some ((low, high), rest') ]
      else some ((low, low), c ∷ rest)
]

-- The ranges up to the closing bracket, of which there is at least one; `some_read` once one is read.
get_ranges : ℕ → Bool → Text → Option (List (ℕ × ℕ) × Text)
unfolding get_range
get_ranges zero some_read p = none
get_ranges (suc fuel) some_read [] = none
get_ranges (suc fuel) some_read (c ∷ p) = elim (c == b']' && some_read) [
  | true ↦ some ([], p)
  | false ↦ do
    (range, rest) ← get_range (c ∷ p)
    (ranges, rest') ← get_ranges fuel true rest
    some (range ∷ ranges, rest')
]

class_of : Bool → Option (List (ℕ × ℕ) × Text) → Option (GlobItem × Text)
class_of negated none = none
class_of negated (some (ranges, rest)) = some (class negated ranges, rest)

-- A `[`, with or without the `^` that negates.
get_class : Text → Option (GlobItem × Text)
unfolding get_ranges class_of
get_class [] = none
get_class (c ∷ p) =
    if c == b'^'
    then class_of true (get_ranges (length p) false p)
    else class_of false (get_ranges (suc (length p)) false (c ∷ p))

-- The item at the front of a pattern.
get_item : ℕ → Text → Option (GlobItem × Text)
unfolding get_class
get_item c p =
    if c == b'*'
    then some (any_run, p)
    else if c == b'?'
    then some (any_one, p)
    else if c == b'['
    then get_class p
    else if c == b'\\'
    then elim p [ [] ↦ none | d ∷ q ↦ some (literal d, q) ]
    else some (literal c, p)

-- A fuel as long as the pattern is enough, since an item takes at least one byte.
get_items : ℕ → Text → Option (List GlobItem)
unfolding get_item
get_items fuel [] = some []
get_items zero (c ∷ p) = none
get_items (suc fuel) (c ∷ p) = do
  (item, rest) ← get_item c p
  items ← get_items fuel rest
  some (item ∷ items)

in_ranges : ℕ → List (ℕ × ℕ) → Bool
in_ranges c [] = false
in_ranges c ((low, high) ∷ ranges) = (leb low c && leb c high) || in_ranges c ranges

-- Any bytes but '/', then the rest of the pattern.
run_then : (Text → Bool) → Text → Bool
run_then rest [] = rest []
run_then rest (c ∷ s) = let more = run_then rest s in rest (c ∷ s) || (not (c == b'/') && more)

one_then : (ℕ → Bool) → (Text → Bool) → Text → Bool
one_then test rest [] = false
one_then test rest (c ∷ s) = test c && rest s

unfoldable pub match_items : List GlobItem → Text → Bool
unfolding run_then one_then in_ranges
match_items [] s = is_empty s
match_items (any_run ∷ items) s = run_then (match_items items) s
match_items (any_one ∷ items) s = one_then (λ c. not (c == b'/')) (match_items items) s
match_items (class negated ranges ∷ items) s =
    one_then (λ c. if negated then not (in_ranges c ranges) else in_ranges c ranges)
      (match_items items) s
match_items (literal d ∷ items) s = one_then (λ c. c == d) (match_items items) s

-- `ok, err := path.Match(pattern, name)`, as `err == nil && ok`
unfoldable pub path_match : Text → Text → Bool
unfolding get_items match_items
path_match pattern name = elim (get_items (length pattern) pattern) [
  | none ↦ false
  | some items ↦ match_items items name
]

glob_runs :
    (path_match (codes "*.g[a-m]") (codes "main.go") ≡ false)
    × (path_match (codes "*.[a-m]o") (codes "main.go") ≡ true)
    × (path_match (codes "a/*/c") (codes "a/b/c") ≡ true)
    × (path_match (codes "a*") (codes "a/b") ≡ false)
    × (path_match (codes "[^a]?") (codes "bc") ≡ true)
    × (path_match (codes "[b-") (codes "b") ≡ false)
unfolding path_match
glob_runs = (refl, refl, refl, refl, refl, refl)
