-- ===== src/Watcher/Paths/Segments.antt =====
-- The segments of paths: none holds a separator, and the way from one path to another.
use gocodemunch_mcp.Base.{
  Text, text_eq, text_eq_iff, split, Lacks, All, All-reverse, Bool, Option, none, some, List, [],
  ◌∷◌, ◌++◌, ◌≡◌, sym, ap₂, subst, ◌⊎◌, inl, inr, Bool-cases, arith,
}
use gocodemunch_mcp.Watcher.Paths.{
  slash, CleanPath, dots, is_abs, up_segment, push_segment, push_segments, clean, absolute, ups,
  climb, relative_segments,
}

split-AllLacks : (s : Text) → All (Lacks slash) (split slash s)
unfolding split
split-AllLacks [] = (tt, tt)
split-AllLacks (c ∷ s) = ground (arith, split-AllLacks s)

push_segment-AllLacks :
    (rooted : Bool) (stack : List Text) (s : Text)
    → All (Lacks slash) stack
    → Lacks slash s
    → All (Lacks slash) (push_segment rooted stack s)
unfolding push_segment up_segment
push_segment-AllLacks rooted [] s h hs = ground (arith, h, hs)
push_segment-AllLacks rooted (t ∷ stack) s h hs = ground (arith, h, hs)

push_segments-AllLacks :
    (rooted : Bool) (stack parts : List Text)
    → All (Lacks slash) stack
    → All (Lacks slash) parts
    → All (Lacks slash) (push_segments rooted stack parts)
unfolding push_segments
push_segments-AllLacks rooted stack [] h hp = h
push_segments-AllLacks rooted stack (s ∷ parts) h hp =
    push_segments-AllLacks rooted (push_segment rooted stack s) parts
      (push_segment-AllLacks rooted stack s h hp.0) hp.1

pub clean-AllLacks : (path : Text) → All (Lacks slash) (clean path).segments
clean-AllLacks path =
    unfold clean in
    All-reverse (Lacks slash) _
      (push_segments-AllLacks (is_abs path) [] (split slash path) tt (split-AllLacks path))

All-suffix {ℓ κ} : {A : Type ℓ} (P : A → Type κ) (xs ys : List A) → All P (xs ++ ys) → All P ys
All-suffix P [] ys h = h
All-suffix P (x ∷ xs) ys h = All-suffix P xs ys h.1

-- The way to a path leads down, or its first step is up.
climb_cases :
    (b : Text) (base target segments : List Text)
    → climb (b ∷ base) target ≡ some segments
    → (rest : List Text) × (segments ≡ dots ∷ rest)
unfolding climb ups
climb_cases b base target segments h = (ups base target, ground (arith, h))

pub relative_segments_cases :
    (base target segments : List Text)
    → relative_segments base target ≡ some segments
    → (target ≡ base ++ segments) ⊎ ((rest : List Text) × (segments ≡ dots ∷ rest))
unfolding relative_segments climb
relative_segments_cases [] target segments h = inl (ground (arith, h))
relative_segments_cases (b ∷ base) [] segments h = inr (climb_cases b base [] segments h)
relative_segments_cases (b ∷ base) (t ∷ target) segments h = elim (Bool-cases (text_eq b t)) [
  | inr e ↦ inr (climb_cases b base (t ∷ target) segments (ground (arith, h, e)))
  | inl e ↦ elim (relative_segments_cases base target segments (ground (arith, h, e))) [
    | inl down ↦ inl (ap₂ (λ x xs. x ∷ xs) (sym ((text_eq_iff b t).0 e)) down)
    | inr up ↦ inr up
  ]
]

pub All-suffix-of :
    (path base segments : List Text)
    → path ≡ base ++ segments
    → All (Lacks slash) path
    → All (Lacks slash) segments
All-suffix-of path base segments e h =
    All-suffix (Lacks slash) base segments (subst (All (Lacks slash)) e h)

absolute-clean :
    (cwd : Option Text) (p : Text) (path : CleanPath)
    → absolute cwd p ≡ some path
    → (raw : Text) × (clean raw ≡ path)
unfolding absolute
absolute-clean none p path h = (p, ground (arith, h))
absolute-clean (some d) p path h = elim (Bool-cases (is_abs p)) [
  | inl e ↦ (p, ground (arith, h, e))
  | inr e ↦ (d ++ (slash ∷ p), ground (arith, h, e))
]

pub absolute-AllLacks :
    (cwd : Option Text) (p : Text) (path : CleanPath)
    → absolute cwd p ≡ some path
    → All (Lacks slash) path.segments
absolute-AllLacks cwd p path h =
    let (raw, e) = absolute-clean cwd p path h in
    subst (λ (q : CleanPath). All (Lacks slash) q.segments) e (clean-AllLacks raw)
