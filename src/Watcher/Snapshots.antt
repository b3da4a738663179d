-- ===== src/Watcher/Snapshots.antt =====
-- Snapshots of a polled folder and their difference: fileSnapshot and diffFolderSnapshots of
-- src/internal/watcher/polling_source.go. A map is visited in the order of its list.
pub mod Diff
pub mod Polls
use gocodemunch_mcp.Base.{
  Text, Map, lookup, Bool, ◌&&◌, Option, none, some, List, [], ◌∷◌, ◌++◌, if◌then◌else◌,
}
use gocodemunch_mcp.Base.Int.{ℤ, int_eq}
use gocodemunch_mcp.Watcher.{ChangeType, added, modified, deleted, WatcherChange}
use gocodemunch_mcp.Watcher.Changes.{sort_changes}

pub record FileSnapshot : Type 0 where
  pub size : ℤ
  pub mod_unix_nanos : ℤ

unfoldable pub is_unchanged : FileSnapshot → FileSnapshot → Bool
is_unchanged prev next =
    int_eq prev.size next.size && int_eq prev.mod_unix_nanos next.mod_unix_nanos

unfoldable pub change_of : ChangeType → Text → WatcherChange
change_of t p = record { change_type = t; path = p; old_hash = [] }

-- One round of the first loop: what is appended for a file that is there now.
unfoldable pub present_change : Option FileSnapshot → Text → FileSnapshot → List WatcherChange
present_change none p next = change_of added p ∷ []
present_change (some prev) p next = if is_unchanged prev next then [] else change_of modified p ∷ []

-- The first loop, over the files that are there now.
unfoldable pub present_changes : Map FileSnapshot → Map FileSnapshot → List WatcherChange
present_changes before [] = []
present_changes before ((p, next) ∷ after) =
    present_change (lookup p before) p next ++ present_changes before after

-- One round of the second loop.
unfoldable pub absent_change : Option FileSnapshot → Text → List WatcherChange
absent_change none p = change_of deleted p ∷ []
absent_change (some s) p = []

-- The second loop, over the files that were there before.
unfoldable pub absent_changes : Map FileSnapshot → Map FileSnapshot → List WatcherChange
absent_changes [] after = []
absent_changes ((p, prev) ∷ before) after =
    absent_change (lookup p after) p ++ absent_changes before after

unfoldable pub diff_folder_snapshots : Map FileSnapshot → Map FileSnapshot → List WatcherChange
diff_folder_snapshots before after =
    sort_changes (present_changes before after ++ absent_changes before after)

-- The goroutine of Open: what each tick's scan finds, `none` where it fails, which ends the polling.
-- The changes are those that are sent, as long as the context lives.
unfoldable pub poll : Map FileSnapshot → List (Option (Map FileSnapshot)) → List WatcherChange
poll current [] = []
poll current (none ∷ ticks) = []
poll current (some next ∷ ticks) = diff_folder_snapshots current next ++ poll next ticks
