-- ===== src/Orchestration/Indexing/Below.antt =====
-- That a path which normalizeRemoteTreePath of src/internal/orchestration/handlers_indexing.go lets
-- through stays below the root of the tree.
use mathlib.Core.List.{reverse, reverse-append, reverse-reverse}
use gocodemunch_mcp.Base.{
  ℕ, Text, codes, text_eq, text_eq_iff, trim_space, is_empty, has_prefix, trim_prefix, trim_byte,
  trim_left_byte, replace_byte, split, join, Lacks, All, All-reverse, Bool, true, false, ◌||◌, List,
  [], ◌∷◌, ◌++◌, ◌≡◌, ◌≢◌, ◌⊎◌, refl, sym, ap, subst, ◌∙◌, ◌==◌, arith, Bool-cases, inl, inr,
}
use gocodemunch_mcp.Watcher.Paths.{
  slash, dots, is_abs, up_segment, push_segment, push_segments, clean, path_text, relative_text,
}
use gocodemunch_mcp.Watcher.Paths.Segments.{clean-AllLacks}
use gocodemunch_mcp.Orchestration.Indexing.Screening.{path, normalize_remote_tree_path}

trim_left_byte-suffix : (c : ℕ) (s : Text) → (v : Text) × (s ≡ v ++ trim_left_byte c s)
unfolding trim_left_byte
trim_left_byte-suffix c [] = ([], refl)
trim_left_byte-suffix c (x ∷ s) = elim (Bool-cases (x == c)) [
  | inl e ↦
      let (v, q) = trim_left_byte-suffix c s in (x ∷ v, rw (e, trim_left_byte) (ap (λ t. x ∷ t) q))
  | inr e ↦ ([], rw (e, trim_left_byte) refl)
]

trim_left_byte-not_abs : (s : Text) → is_abs (trim_left_byte slash s) ≡ false
unfolding trim_left_byte
trim_left_byte-not_abs [] = refl
trim_left_byte-not_abs (x ∷ s) = ground (arith, trim_left_byte-not_abs s)

front-not_abs : (u w : Text) → is_abs (u ++ w) ≡ false → is_abs u ≡ false
front-not_abs [] w h = refl
front-not_abs (c ∷ u) w h = h

trim_byte-not_abs : (s : Text) → is_abs (trim_byte slash s) ≡ false
unfolding trim_byte
trim_byte-not_abs s =
    let (v, e) = trim_left_byte-suffix slash (reverse (trim_left_byte slash s)) in
    front-not_abs (reverse (trim_left_byte slash (reverse (trim_left_byte slash s)))) (reverse v) (
      ap is_abs
        (sym (sym (reverse-reverse (trim_left_byte slash s)) ∙ ap reverse e ∙ reverse-append v _))
      ∙ trim_left_byte-not_abs s)

-- A segment that names something below the folder it stands in.
abbrev pub IsDown : Text → Type 0
IsDown s = (is_empty s ≡ false) × (s ≢ dots)

-- The segments so far, newest first: none leads up, or the first of them does.
abbrev IsStack : List Text → Type 0
IsStack stack = All IsDown stack ⊎ ((rest : List Text) × (stack ≡ rest ++ (dots ∷ [])))

pop-IsStack :
    (s : Text) (stack : List Text) → text_eq s dots ≡ false → IsStack (s ∷ stack) → IsStack stack
pop-IsStack s stack h (inl a) = inl a.1
pop-IsStack s stack h (inr ([], e)) =
    absurd (let q : s ≡ dots = cc in ground (arith, h, (text_eq_iff s dots).1 q))
pop-IsStack s stack h (inr (r ∷ rest, e)) = inr (rest, cc)

up_segment-IsStack : (stack : List Text) → IsStack stack → IsStack (up_segment false stack)
unfolding up_segment
up_segment-IsStack [] h = inr ([], refl)
up_segment-IsStack (s ∷ stack) h = elim (Bool-cases (text_eq s dots)) [
  | inl e ↦ rw (e, up_segment) (add_up ((text_eq_iff s dots).0 e) h)
  | inr e ↦ rw (e, up_segment) (pop-IsStack s stack e h)
]
  where
    add_up : s ≡ dots → IsStack (s ∷ stack) → IsStack (dots ∷ s ∷ stack)
    add_up q (inl a) = absurd (a.0.1 q)
    add_up q (inr (rest, k)) = inr (dots ∷ rest, ap (λ t. dots ∷ t) k)

down-IsStack :
    (s : Text) (stack : List Text)
    → is_empty s ≡ false
    → text_eq s dots ≡ false
    → IsStack stack
    → IsStack (s ∷ stack)
down-IsStack s stack e k (inl a) = inl ((e, λ q. ground (arith, k, (text_eq_iff s dots).1 q)), a)
down-IsStack s stack e k (inr (rest, q)) = inr (s ∷ rest, ap (λ t. s ∷ t) q)

push_segment-IsStack :
    (stack : List Text) (s : Text) → IsStack stack → IsStack (push_segment false stack s)
unfolding push_segment
push_segment-IsStack stack s h = elim (Bool-cases (is_empty s || text_eq s (b'.' ∷ []))) [
  | inl e ↦ rw (e, push_segment) h
  | inr e ↦ elim (Bool-cases (text_eq s dots)) [
    | inl k ↦ rw (e, k, push_segment) (up_segment-IsStack stack h)
    | inr k ↦ rw (e, k, push_segment) (down-IsStack s stack (ground (arith, e)) k h)
  ]
]

push_segments-IsStack :
    (stack parts : List Text) → IsStack stack → IsStack (push_segments false stack parts)
unfolding push_segments
push_segments-IsStack stack [] h = h
push_segments-IsStack stack (s ∷ parts) h =
    push_segments-IsStack (push_segment false stack s) parts (push_segment-IsStack stack s h)

-- The segments in order: all lead down, or the first leads up.
segments_cases :
    (p : Text)
    → is_abs p ≡ false
    → All IsDown (clean p).segments ⊎ ((rest : List Text) × ((clean p).segments ≡ dots ∷ rest))
unfolding clean
segments_cases p h = rw h (ordered (push_segments-IsStack [] (split slash p) (inl tt)))
  where
    ordered :
        {stack : List Text}
        → IsStack stack
        → All IsDown (reverse stack) ⊎ ((rest : List Text) × (reverse stack ≡ dots ∷ rest))
    ordered (inl a) = inl (All-reverse IsDown _ a)
    ordered (inr (rest, e)) = inr (reverse rest, ap reverse e ∙ reverse-append rest (dots ∷ []))

-- A text that the checks refuse.
abbrev leads_up : Text → Bool
leads_up s = text_eq s (codes ".") || text_eq s dots || has_prefix s (codes "../")

up-leads_up : (rest : List Text) → leads_up (relative_text (dots ∷ rest)) ≡ true
unfolding relative_text join text_eq has_prefix
up-leads_up [] = refl
up-leads_up (s ∷ rest) = refl

nowhere-leads_up : leads_up (relative_text []) ≡ true
unfolding relative_text text_eq
nowhere-leads_up = refl

-- A path of the tree, said by its segments.
abbrev pub IsBelow : Text → Type 0
IsBelow p =
    (first : Text) × (rest : List Text) × (p ≡ join slash (first ∷ rest))
    × All IsDown (first ∷ rest)
    × All (Lacks slash) (first ∷ rest)

relative_text-IsBelow :
    (segments : List Text)
    → All IsDown segments ⊎ ((rest : List Text) × (segments ≡ dots ∷ rest))
    → All (Lacks slash) segments
    → leads_up (relative_text segments) ≡ false
    → IsBelow (relative_text segments)
relative_text-IsBelow segments (inr (rest, e)) l h =
    absurd (ground (arith, h, up-leads_up rest, ap (λ s. leads_up (relative_text s)) e))
relative_text-IsBelow [] (inl a) l h = absurd (ground (arith, h, nowhere-leads_up))
relative_text-IsBelow (s ∷ segments) (inl a) l h = unfold relative_text in (s, segments, refl, a, l)

path_text-relative :
    (p : Text) → is_abs p ≡ false → path_text (clean p) ≡ relative_text (clean p).segments
unfolding path_text clean
path_text-relative p h = rw (h, path_text) refl

-- Whatever name a tree gives a file, a path that is let through is that of a file below the root: it is
-- not empty, does not begin at the root, and none of its segments is empty or leads up.
pub normalize_remote_tree_path-IsBelow :
    (raw p : Text) → normalize_remote_tree_path raw ≡ path p → IsBelow p
unfolding normalize_remote_tree_path
normalize_remote_tree_path-IsBelow raw p h =
    let trimmed : Text =
      trim_byte slash (trim_prefix (trim_space (replace_byte b'\\' slash raw)) (codes "./")) in
    let not_abs =
      trim_byte-not_abs (trim_prefix (trim_space (replace_byte b'\\' slash raw)) (codes "./")) in
    let same : path_text (clean trimmed) ≡ p = ground (arith, h) in
    let let_through : leads_up (path_text (clean trimmed)) ≡ false = ground (arith, h) in
    let relative = path_text-relative trimmed not_abs in
    subst IsBelow (sym relative ∙ same) (
      relative_text-IsBelow (clean trimmed).segments (segments_cases trimmed not_abs)
        (clean-AllLacks trimmed) (sym (ap leads_up relative) ∙ let_through))
