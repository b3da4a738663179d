-- ===== src/Base/Strings/Search.antt =====
-- More of package strings, and the functions of packages path and filepath that look at a text only:
-- path.Base and filepath.Ext.
use Prim.Native.Nat.{ℕ}
use mathlib.Core.Bool.{Bool, false, not, ◌&&◌, ◌||◌}
use mathlib.Core.List.{List, [], ◌∷◌, map, reverse}
use gocodemunch_mcp.Base.Tests.{if◌then◌else◌, ◌==◌}
use gocodemunch_mcp.Base.Lists.{length, drop}
use gocodemunch_mcp.Base.Strings.{Text, has_prefix, is_empty}
use gocodemunch_mcp.Base.Split.{split}

-- strings.HasSuffix
unfoldable pub has_suffix : Text → Text → Bool
has_suffix s suffix = has_prefix (reverse s) (reverse suffix)

-- strings.TrimPrefix
unfoldable pub trim_prefix : Text → Text → Text
trim_prefix s prefix = if has_prefix s prefix then drop (length prefix) s else s

-- strings.TrimSuffix of one byte
unfoldable pub trim_last : ℕ → Text → Text
trim_last c [] = []
trim_last c (x ∷ []) = if x == c then [] else x ∷ []
trim_last c (x ∷ y ∷ s) = x ∷ trim_last c (y ∷ s)

-- strings.TrimLeft and strings.Trim of one byte
unfoldable pub trim_left_byte : ℕ → Text → Text
trim_left_byte c [] = []
trim_left_byte c (x ∷ s) = let rest = trim_left_byte c s in if x == c then rest else x ∷ s

unfoldable pub trim_byte : ℕ → Text → Text
unfolding trim_left_byte
trim_byte c s = reverse (trim_left_byte c (reverse (trim_left_byte c s)))

-- strings.ReplaceAll of one byte by another
unfoldable pub replace_byte : ℕ → ℕ → Text → Text
replace_byte old new s = map (λ c. if c == old then new else c) s

-- strings.Contains
unfoldable pub contains : Text → Text → Bool
contains [] part = is_empty part
contains (c ∷ s) part = let rest = contains s part in has_prefix (c ∷ s) part || rest

-- strings.IndexByte(s, c) >= 0
unfoldable pub has_byte : ℕ → Text → Bool
has_byte c [] = false
has_byte c (x ∷ s) = (x == c) || has_byte c s

-- strings.Count of one byte
unfoldable pub count_byte : ℕ → Text → ℕ
count_byte c [] = 0
count_byte c (x ∷ s) = let rest = count_byte c s in if x == c then ℕ.suc rest else rest

last_part : List Text → Text
last_part [] = []
last_part (p ∷ []) = p
last_part (p ∷ q ∷ ps) = last_part (q ∷ ps)

-- path.Base
unfoldable pub base : Text → Text
unfolding last_part trim_left_byte
base [] = b'.' ∷ []
base (c ∷ s) =
    let stripped = reverse (trim_left_byte b'/' (reverse (c ∷ s))) in
    if is_empty stripped then b'/' ∷ [] else last_part (split b'/' stripped)

-- filepath.Ext: from the last dot on, if no separator stands behind it
unfoldable pub ext : Text → Text
unfolding has_byte
ext [] = []
ext (c ∷ s) =
    let rest = ext s in
    if not (is_empty rest) then rest else if c == b'.' && not (has_byte b'/' s) then c ∷ s else []
