-- ===== src/Watcher/Snapshots/Polls.antt =====
-- What a window of polls comes to, once its changes are merged.
use gocodemunch_mcp.Base.{
  Text, Map, lookup, Distinct, ◌||◌, Bool, true, false, Option, none, some, List, [], ◌∷◌,
}
use gocodemunch_mcp.Watcher.{ChangeType, WatcherChange}
use gocodemunch_mcp.Watcher.Snapshots.{FileSnapshot}
use gocodemunch_mcp.Watcher.Snapshots.Diff.{is_changed}

-- The last snapshot that was taken.
abbrev pub last_scan : Map FileSnapshot → List (Option (Map FileSnapshot)) → Map FileSnapshot
last_scan current [] = current
last_scan current (none ∷ ticks) = current
last_scan current (some next ∷ ticks) = last_scan next ticks

abbrev pub AllDistinct : List (Option (Map FileSnapshot)) → Type 0
AllDistinct [] = Unit
AllDistinct (none ∷ ticks) = AllDistinct ticks
AllDistinct (some next ∷ ticks) = Distinct next × AllDistinct ticks

abbrev is_some {ℓ} : {A : Type ℓ} → Option A → Bool
is_some none = false
is_some (some a) = true

abbrev pub is_there : Text → Map FileSnapshot → Bool
is_there p m = is_some (lookup p m)

-- Whether a file's states in two snapshots that follow one another differ.
abbrev pub differs : Option FileSnapshot → Option FileSnapshot → Bool
differs none none = false
differs none (some next) = true
differs (some prev) none = true
differs (some prev) (some next) = is_changed prev next

-- Whether some snapshot shows another state of the file than the one before it.
abbrev pub is_seen_changing : Text → Map FileSnapshot → List (Option (Map FileSnapshot)) → Bool
is_seen_changing p current [] = false
is_seen_changing p current (none ∷ ticks) = false
is_seen_changing p current (some next ∷ ticks) =
    differs (lookup p current) (lookup p next) || is_seen_changing p next ticks

abbrev types : Option WatcherChange → List ChangeType
types none = []
types (some c) = c.change_type ∷ []
