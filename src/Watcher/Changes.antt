-- ===== src/Watcher/Changes.antt =====
-- Pending changes of the folder loop: collapseChangeTypes, mergePendingChange and
-- sortedPendingChanges of src/internal/watcher/embedded_worker.go.
pub mod Sorted
pub mod Net
use mathlib.Core.List.{foldr}
use gocodemunch_mcp.Base.{
  Text, text_eq, text_less, trim_space, is_empty, Map, lookup, insert, delete, Bool, true, false,
  Option, none, some, List, [], ◌∷◌, if◌then◌else◌, map,
}
use gocodemunch_mcp.Watcher.{
  ChangeType, added, modified, deleted, other, change_text, WatcherChange,
}

-- `none` is the result `("", false)`: the two changes cancel.
unfoldable pub collapse_change_types : ChangeType → ChangeType → Option ChangeType
collapse_change_types added deleted = none
collapse_change_types added added = some added
collapse_change_types added modified = some added
collapse_change_types added (other t) = some (other t)
collapse_change_types modified deleted = some deleted
collapse_change_types modified added = some modified
collapse_change_types modified modified = some modified
collapse_change_types modified (other t) = some (other t)
collapse_change_types deleted added = some modified
collapse_change_types deleted deleted = some deleted
collapse_change_types deleted modified = some deleted
collapse_change_types deleted (other t) = some (other t)
collapse_change_types (other t) next = some next

-- The old hash that a merged entry keeps.
merged_hash : WatcherChange → WatcherChange → Text
merged_hash current next =
    let hash = trim_space current.old_hash in
    if is_empty hash then trim_space next.old_hash else hash

unfoldable pub merge_pending_change : Map WatcherChange → WatcherChange → Map WatcherChange
unfolding merged_hash
merge_pending_change pending next = elim (lookup next.path pending) [
  | none ↦ insert next.path next pending
  | some current ↦ elim (collapse_change_types current.change_type next.change_type) [
    | none ↦ delete next.path pending
    | some merged ↦
        insert next.path
          (record { change_type = merged; path = next.path; old_hash = merged_hash current next })
          pending
  ]
]

-- The comparison that `sort.Slice` is given.
unfoldable pub change_less : WatcherChange → WatcherChange → Bool
change_less a b =
    if text_eq a.path b.path
    then text_less (change_text a.change_type) (change_text b.change_type)
    else text_less a.path b.path

insert_sorted : WatcherChange → List WatcherChange → List WatcherChange
insert_sorted c [] = c ∷ []
insert_sorted c (d ∷ l) = if change_less c d then c ∷ d ∷ l else d ∷ insert_sorted c l

-- `sort.Slice` with that comparison.
unfoldable pub sort_changes : List WatcherChange → List WatcherChange
unfolding insert_sorted
sort_changes [] = []
sort_changes (c ∷ l) = insert_sorted c (sort_changes l)

unfoldable pub sorted_pending_changes : Map WatcherChange → List WatcherChange
sorted_pending_changes pending = sort_changes (map (λ e. e.1) pending)
