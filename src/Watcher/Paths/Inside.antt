-- ===== src/Watcher/Paths/Inside.antt =====
-- A change that is let through lies in the folder, below no hidden segment.
use gocodemunch_mcp.Base.{
  ℕ, Text, trim_space, text_eq, has_prefix, split, join, split-join, Lacks, All, true, false,
  Option, none, some, List, [], ◌∷◌, ◌++◌, if◌then◌else◌, ◌≡◌, ◌≢◌, refl, ap₂, subst, ◌⊎◌, inl, inr,
  Option-cases, arith,
}
use gocodemunch_mcp.Watcher.{WatcherChange}
use gocodemunch_mcp.Watcher.Paths.{
  slash, CleanPath, dots, is_abs, clean, relative_text, path_text, join_paths, absolute,
  relative_segments, relative, is_hidden_segment, any_hidden, has_hidden_path_segment, is_refused,
  accepted, located, normalize_watcher_change,
}
use gocodemunch_mcp.Watcher.Paths.Segments.{
  relative_segments_cases, All-suffix-of, absolute-AllLacks,
}

-- A segment that is not hidden: it does not begin with a dot, but for the dot alone, also where it
-- has blanks in front.
abbrev pub IsVisible : Text → Type 0
IsVisible part = (c : ℕ) (s : Text) → trim_space part ≢ b'.' ∷ c ∷ s

-- One segment of a path.
abbrev pub IsSegment : Text → Type 0
IsSegment = Lacks slash

visible_lem : (part : Text) → is_hidden_segment part ≡ false → IsVisible part
unfolding is_hidden_segment has_prefix text_eq
visible_lem part h c s e = ground (arith, h, e)

any_hidden-false : (parts : List Text) → any_hidden parts ≡ false → All IsVisible parts
unfolding any_hidden
any_hidden-false [] h = tt
any_hidden-false (part ∷ parts) h =
    (visible_lem part (ground (arith, h)), any_hidden-false parts (ground (arith, h)))

up_refused : (rest : List Text) → is_refused (relative_text (dots ∷ rest)) ≡ true
unfolding is_refused relative_text join text_eq has_prefix
up_refused [] = refl
up_refused (s ∷ rest) = refl

self_refused : is_refused (relative_text []) ≡ true
unfolding is_refused relative_text text_eq
self_refused = refl

visible :
    (segments : List Text)
    → All (Lacks slash) segments
    → is_refused (relative_text segments) ≡ false
    → (segments ≢ []) × All IsVisible segments
unfolding is_refused relative_text
visible [] h ok = absurd (ground (arith, ok, self_refused))
visible (s ∷ segments) h ok = (
  (λ e. ground (arith, e)),
  any_hidden-false (s ∷ segments) (
      subst (λ parts. any_hidden parts ≡ false)
        (split-join slash (s ∷ segments) (λ e. ground (arith, e)) h) not_hidden),
)
  where
    not_hidden : any_hidden (split slash (join slash (s ∷ segments))) ≡ false
    not_hidden = unfold has_hidden_path_segment in ground (arith, ok)

pub relative_cases :
    (root path : CleanPath) (rel : Text)
    → relative root path ≡ some rel
    → (segments : List Text) × (rel ≡ relative_text segments)
      × (path.rooted ≡ root.rooted)
      × ((path.segments ≡ root.segments ++ segments)
          ⊎ ((rest : List Text) × (segments ≡ dots ∷ rest)))
unfolding relative
relative_cases root path rel h =
    elim (Option-cases (relative_segments root.segments path.segments)) [
      | inl e ↦ absurd (ground (arith, h, e))
      | inr (segments, e) ↦ (
        segments,
        ground (arith, h, e),
        ground (arith, h, e),
        relative_segments_cases root.segments path.segments segments e,
      )
    ]

-- A path of the folder, with the segments below it.
abbrev pub below : Text → List Text → Text
below folder segments =
    path_text
      (record { rooted = (clean folder).rooted; segments = (clean folder).segments ++ segments })

abbrev pub IsInside : Text → WatcherChange → WatcherChange → Type 0
IsInside folder change normalized =
    (segments : List Text) × (normalized.path ≡ below folder segments)
    × (segments ≢ [])
    × All IsSegment segments
    × All IsVisible segments
    × (normalized.change_type ≡ change.change_type)
    × (normalized.old_hash ≡ trim_space change.old_hash)

-- What is let through is below the folder.
down-IsInside :
    (folder : Text) (change : WatcherChange) (path : CleanPath) (segments : List Text)
    → All (Lacks slash) path.segments
    → is_refused (relative_text segments) ≡ false
    → path.rooted ≡ (clean folder).rooted
    → (path.segments ≡ (clean folder).segments ++ segments)
      ⊎ ((rest : List Text) × (segments ≡ dots ∷ rest))
    → IsInside folder change (record {
      change_type = change.change_type;
      path = path_text path;
      old_hash = trim_space change.old_hash;
    })
down-IsInside folder change path segments lacks ok rooted (inr (rest, e)) =
    absurd (ground (arith, up_refused rest, subst (λ r. is_refused (relative_text r) ≡ false) e ok))
down-IsInside folder change path segments lacks ok rooted (inl e) =
    let all_segments = All-suffix-of path.segments _ segments e lacks in
    let (some_segment, all_visible) = visible segments all_segments ok in
    (
      segments,
      ap₂ (λ r ss. path_text (record { rooted = r; segments = ss })) rooted e,
      some_segment,
      all_segments,
      all_visible,
      refl,
      refl,
    )

accepted-IsInside :
    (folder : Text) (change normalized : WatcherChange) (path : CleanPath) (rel : Text)
    → All (Lacks slash) path.segments
    → relative (clean folder) path ≡ some rel
    → accepted change path (some rel) ≡ some normalized
    → IsInside folder change normalized
accepted-IsInside folder change normalized path rel lacks way h =
    let (segments, e, rooted, cases) = relative_cases (clean folder) path rel way in
    let ok : is_refused rel ≡ false = unfold accepted in ground (arith, h) in
    let same : record {
      change_type = change.change_type;
      path = path_text path;
      old_hash = trim_space change.old_hash;
    }
        ≡ normalized =
      unfold accepted in ground (arith, h, ok) in
    subst (IsInside folder change) same (
      down-IsInside folder change path segments lacks (subst (λ r. is_refused r ≡ false) e ok)
        rooted cases)

located-IsInside :
    (folder : Text) (change normalized : WatcherChange) (o : Option CleanPath)
    → ((path : CleanPath) → o ≡ some path → All (Lacks slash) path.segments)
    → located change (clean folder) o ≡ some normalized
    → IsInside folder change normalized
located-IsInside folder change normalized none lacks h =
    absurd (unfold located in ground (arith, h))
located-IsInside folder change normalized (some path) lacks h =
    elim (Option-cases (relative (clean folder) path)) [
      | inl e ↦ absurd (unfold located accepted in ground (arith, h, e))
      | inr (rel, e) ↦
          accepted-IsInside folder change normalized path rel (lacks path refl) e
            (unfold located in ground (arith, h, e))
    ]

-- A change that is let through keeps its type and its trimmed hash, and its path is the watched
-- folder's with at least one segment more, none of them hidden: it lies in the folder, whatever ".."
-- the reported path had.
pub normalize_watcher_change-IsInside :
    (cwd : Option Text) (folder : Text) (change normalized : WatcherChange)
    → normalize_watcher_change cwd folder change ≡ some normalized
    → IsInside folder change normalized
normalize_watcher_change-IsInside cwd folder change normalized h =
    located-IsInside folder change normalized (absolute cwd raw) (absolute-AllLacks cwd raw)
      (unfold normalize_watcher_change in ground (arith, h))
  where
    raw : Text
    raw =
        if is_abs (trim_space change.path)
        then trim_space change.path
        else join_paths folder (trim_space change.path)
