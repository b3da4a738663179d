-- ===== src/Watcher/Snapshots/Diff.antt =====
-- The difference of two snapshots: which change stands at each path, and that the result depends
-- only on what the two maps hold.
use gocodemunch_mcp.Base.Int.{int_eq, int_eq_iff}
use gocodemunch_mcp.Base.{
  Bool, true, false, not, ◌||◌, ◌↔◌, ◌⊎◌, inl, inr, refl, ap, subst, Bool-cases, Text, text_eq,
  text_eq_iff, text_eq_refl, Map, lookup, Distinct, ◌≡◌, sym, ◌∙◌, ap₂, ◌≢◌, Option, none, some,
  List, [], ◌∷◌, ◌++◌, if◌then◌else◌, arith,
}
use gocodemunch_mcp.Watcher.{added, modified, deleted, WatcherChange}
use gocodemunch_mcp.Watcher.Changes.Sorted.{
  find_change, find_change-append, DistinctPaths, Ascending, sort_changes-Ascending,
  sort_changes-ext, find_change-sort_changes,
}
use gocodemunch_mcp.Watcher.Snapshots.{
  FileSnapshot, is_unchanged, change_of, present_change, present_changes, absent_change,
  absent_changes, diff_folder_snapshots,
}

-- Whether two states of a file differ, in size or in time.
abbrev pub is_changed : FileSnapshot → FileSnapshot → Bool
is_changed prev next =
    not (int_eq prev.size next.size) || not (int_eq prev.mod_unix_nanos next.mod_unix_nanos)

-- The change that a file's two states call for.
abbrev pub expected_change : Text → Option FileSnapshot → Option FileSnapshot → Option WatcherChange
expected_change p none none = none
expected_change p none (some next) = some (change_of added p)
expected_change p (some prev) none = some (change_of deleted p)
expected_change p (some prev) (some next) =
    if is_changed prev next then some (change_of modified p) else none

same_state : (prev next : FileSnapshot) → is_changed prev next ≡ false → prev ≡ next
same_state prev next h =
    ap₂ (λ a b. record { size = a; mod_unix_nanos = b })
      ((int_eq_iff prev.size next.size).0 (ground (arith, h)))
      ((int_eq_iff prev.mod_unix_nanos next.mod_unix_nanos).0 (ground (arith, h)))

pub is_changed_iff : (prev next : FileSnapshot) → (is_changed prev next ≡ true) ↔ (prev ≢ next)
is_changed_iff prev next = (
  λ h e. ground (
    arith,
    h,
    int_eq_iff prev.size next.size,
    int_eq_iff prev.mod_unix_nanos next.mod_unix_nanos,
    ap (λ (x : FileSnapshot). x.size) e,
    ap (λ (x : FileSnapshot). x.mod_unix_nanos) e,
  ),
  λ ne. elim (Bool-cases (is_changed prev next)) [
    | inl h ↦ h
    | inr h ↦ absurd (ne (same_state prev next h))
  ],
)

-- What the difference may say of a path, given the file's two states: that it is added, that it is
-- deleted, that it is modified exactly when the states are not equal, or nothing.
abbrev pub IsCalledFor :
    Text → Option FileSnapshot → Option FileSnapshot → Option WatcherChange → Type 0
IsCalledFor p none none c = c ≡ none
IsCalledFor p none (some next) c = c ≡ some (change_of added p)
IsCalledFor p (some prev) none c = c ≡ some (change_of deleted p)
IsCalledFor p (some prev) (some next) c =
    ((prev ≡ next) × (c ≡ none)) ⊎ ((prev ≢ next) × (c ≡ some (change_of modified p)))

expected_change-IsCalledFor :
    (p : Text) (prev next : Option FileSnapshot)
    → IsCalledFor p prev next (expected_change p prev next)
expected_change-IsCalledFor p none none = refl
expected_change-IsCalledFor p none (some next) = refl
expected_change-IsCalledFor p (some prev) none = refl
expected_change-IsCalledFor p (some prev) (some next) = elim (Bool-cases (is_changed prev next)) [
  | inl h ↦ inr ((is_changed_iff prev next).0 h, rw h refl)
  | inr h ↦ inl (same_state prev next h, rw h refl)
]

abbrev if_present : Text → Option FileSnapshot → Option FileSnapshot → Option WatcherChange
if_present p prev none = none
if_present p prev (some next) = expected_change p prev (some next)

abbrev if_absent : Text → Option FileSnapshot → Option FileSnapshot → Option WatcherChange
if_absent p none next = none
if_absent p (some prev) (some next) = none
if_absent p (some prev) none = some (change_of deleted p)

find-present_change :
    (p q : Text) (prev : Option FileSnapshot) (next : FileSnapshot)
    → find_change p (present_change prev q next)
      ≡ (if text_eq q p then expected_change q prev (some next) else none)
unfolding find_change present_change change_of is_unchanged
find-present_change p q prev next = ground arith

find-absent_change :
    (p q : Text) (prev : FileSnapshot) (next : Option FileSnapshot)
    → find_change p (absent_change next q)
      ≡ (if text_eq q p then if_absent q (some prev) next else none)
unfolding find_change absent_change change_of
find-absent_change p q prev next = ground arith

find-present_changes :
    (p : Text) (before after : Map FileSnapshot)
    → Distinct after
    → find_change p (present_changes before after) ≡ if_present p (lookup p before) (lookup p after)
unfolding present_changes lookup
find-present_changes p before [] d = unfold find_change in ground arith
find-present_changes p before ((q, next) ∷ after) d = ground (
  arith,
  find_change-append p (present_change (lookup q before) q next) (present_changes before after),
  find-present_change p q (lookup q before) next,
  find-present_changes p before after d.1,
  text_eq_iff q p,
)

find-absent_changes :
    (p : Text) (before after : Map FileSnapshot)
    → Distinct before
    → find_change p (absent_changes before after) ≡ if_absent p (lookup p before) (lookup p after)
unfolding absent_changes lookup
find-absent_changes p [] after d = unfold find_change in ground arith
find-absent_changes p ((q, prev) ∷ before) after d = ground (
  arith,
  find_change-append p (absent_change (lookup q after) q) (absent_changes before after),
  find-absent_change p q prev (lookup q after),
  find-absent_changes p before after d.1,
  text_eq_iff q p,
)

DistinctPaths-append :
    (xs ys : List WatcherChange)
    → DistinctPaths xs
    → DistinctPaths ys
    → ((p : Text) → find_change p xs ≢ none → find_change p ys ≡ none)
    → DistinctPaths (xs ++ ys)
unfolding find_change
DistinctPaths-append [] ys dx dy apart = dy
DistinctPaths-append (x ∷ xs) ys dx dy apart = (
  ground (arith, find_change-append x.path xs ys, dx.0, apart x.path, text_eq_refl x.path),
  DistinctPaths-append xs ys dx.1 dy (λ p h. ground (arith, apart p, h, text_eq_iff x.path p)),
)

present_changes-DistinctPaths :
    (before after : Map FileSnapshot)
    → Distinct after
    → DistinctPaths (present_changes before after)
unfolding present_changes
present_changes-DistinctPaths before [] d = tt
present_changes-DistinctPaths before ((q, next) ∷ after) d =
    DistinctPaths-append _ _ (one-DistinctPaths (lookup q before))
      (present_changes-DistinctPaths before after d.1)
      (λ p h. ground (
        arith,
        h,
        find-present_change p q (lookup q before) next,
        text_eq_iff q p,
        find-present_changes p before after d.1,
        d.0,
      ))
  where
    one-DistinctPaths : (prev : Option FileSnapshot) → DistinctPaths (present_change prev q next)
    one-DistinctPaths prev = unfold present_change find_change in ground arith

absent_changes-DistinctPaths :
    (before after : Map FileSnapshot)
    → Distinct before
    → DistinctPaths (absent_changes before after)
unfolding absent_changes
absent_changes-DistinctPaths [] after d = tt
absent_changes-DistinctPaths ((q, prev) ∷ before) after d =
    DistinctPaths-append _ _ (one-DistinctPaths (lookup q after))
      (absent_changes-DistinctPaths before after d.1)
      (λ p h. ground (
        arith,
        h,
        find-absent_change p q prev (lookup q after),
        text_eq_iff q p,
        find-absent_changes p before after d.1,
        d.0,
      ))
  where
    one-DistinctPaths : (next : Option FileSnapshot) → DistinctPaths (absent_change next q)
    one-DistinctPaths next = unfold absent_change find_change in ground arith

module _ (before after : Map FileSnapshot) (distinct_before : Distinct before)
    (distinct_after : Distinct after) where
  present_or_absent :
      (p : Text)
      → find_change p (present_changes before after ++ absent_changes before after)
        ≡ expected_change p (lookup p before) (lookup p after)
  present_or_absent p = ground (
    arith,
    find_change-append p (present_changes before after) (absent_changes before after),
    find-present_changes p before after distinct_after,
    find-absent_changes p before after distinct_before,
  )

  changes-DistinctPaths :
      DistinctPaths (present_changes before after ++ absent_changes before after)
  changes-DistinctPaths =
      DistinctPaths-append _ _ (present_changes-DistinctPaths before after distinct_after)
        (absent_changes-DistinctPaths before after distinct_before)
        (λ p h. ground (
          arith,
          h,
          find-present_changes p before after distinct_after,
          find-absent_changes p before after distinct_before,
        ))

  -- The difference is strictly ascending by path, and holds at every path the expected change.
  pub diff_folder_snapshots-expected :
      Ascending (diff_folder_snapshots before after)
      × ((p : Text)
          → find_change p (diff_folder_snapshots before after)
            ≡ expected_change p (lookup p before) (lookup p after))
  unfolding diff_folder_snapshots
  diff_folder_snapshots-expected = (
    sort_changes-Ascending _ changes-DistinctPaths,
    λ p. find_change-sort_changes p _ changes-DistinctPaths ∙ present_or_absent p,
  )

  -- At every path the difference says that the file is added, that it is deleted, that it is modified
  -- exactly when its two states are not equal, and otherwise nothing. It is strictly ascending by
  -- path, so it holds nothing else. (No path stands twice in either snapshot.)
  pub diff_folder_snapshots_lem :
      Ascending (diff_folder_snapshots before after)
      × ((p : Text)
          → IsCalledFor p
              (lookup p before)
              (lookup p after)
              (find_change p (diff_folder_snapshots before after)))
  diff_folder_snapshots_lem =
      let (ascending, at) = diff_folder_snapshots-expected in
      (
        ascending,
        λ p.
            subst (IsCalledFor p (lookup p before) (lookup p after)) (sym (at p))
              (expected_change-IsCalledFor p (lookup p before) (lookup p after)),
      )

-- The difference depends only on what the two maps hold, not on the order in which `range` visits
-- them.
pub diff_folder_snapshots-ext :
    (before after before' after' : Map FileSnapshot)
    → Distinct before
    → Distinct after
    → Distinct before'
    → Distinct after'
    → ((p : Text) → lookup p before ≡ lookup p before')
    → ((p : Text) → lookup p after ≡ lookup p after')
    → diff_folder_snapshots before after ≡ diff_folder_snapshots before' after'
unfolding diff_folder_snapshots
diff_folder_snapshots-ext before after before' after' db da db' da' eb ea =
    sort_changes-ext _ _ (changes-DistinctPaths before after db da)
      (changes-DistinctPaths before' after' db' da')
      (λ p.
        present_or_absent before after db da p
        ∙ ap₂ (expected_change p) (eb p) (ea p)
        ∙ sym (present_or_absent before' after' db' da' p))
