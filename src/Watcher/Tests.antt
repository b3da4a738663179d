-- ===== src/Watcher/Tests.antt =====
-- The theorems on batches, snapshots and paths at concrete inputs.
use gocodemunch_mcp.Base.{
  ℕ, Text, codes, split, join, has_prefix, text_eq, trim_space, Map, lookup, Distinct, ◌≡◌, refl,
  true, false, Option, none, some, List, [], ◌∷◌,
}
use gocodemunch_mcp.Base.Int.{pos}
use gocodemunch_mcp.Watcher.{ChangeType, added, modified, deleted, WatcherChange}
use gocodemunch_mcp.Watcher.Changes.Net.{merge_all, type_at, history, merge_all-net}
use gocodemunch_mcp.Watcher.Changes.Sorted.{Ascending, find_change}
use gocodemunch_mcp.Watcher.Snapshots.{FileSnapshot, diff_folder_snapshots}
use gocodemunch_mcp.Watcher.Snapshots.Diff.{IsCalledFor, diff_folder_snapshots_lem}
use gocodemunch_mcp.Watcher.Worker.{processed, Input, event, debounce_fired, start_loop, run, step}
use gocodemunch_mcp.Watcher.Worker.Loop.{
  IsBatch, IsLoop, window, run-start-IsLoop, run-debounce_fired,
}
use gocodemunch_mcp.Watcher.Paths.{normalize_watcher_change, clean, is_hidden_segment}
use gocodemunch_mcp.Watcher.Paths.Inside.{IsInside, normalize_watcher_change-IsInside}

abbrev file_a : Text
file_a = codes "/w/a.go"

abbrev file_b : Text
file_b = codes "/w/b.go"

abbrev change : ChangeType → Text → WatcherChange
change t p = record { change_type = t; path = p; old_hash = codes "h" }

-- One file comes and goes, another is modified twice.
abbrev changes : List WatcherChange
changes =
    change modified file_b
    ∷ change added file_a
    ∷ change modified file_b
    ∷ change deleted file_a
    ∷ []

merge_all-net_example : type_at file_a (merge_all [] changes) ≡ none
unfolding history text_eq
merge_all-net_example = merge_all-net file_a false changes tt

abbrev one_order : List WatcherChange
one_order = change added file_a ∷ change deleted file_b ∷ []

abbrev other_order : List WatcherChange
other_order = change deleted file_b ∷ change added file_a ∷ []

abbrev file : ℕ → FileSnapshot
file n = record { size = pos n; mod_unix_nanos = pos 7 }

abbrev before : Map FileSnapshot
before = (file_a, file 1) ∷ (file_b, file 2) ∷ []

abbrev after : Map FileSnapshot
after = (file_b, file 3) ∷ []

before-Distinct : Distinct before
unfolding lookup text_eq
before-Distinct = (refl, (refl, tt))

after-Distinct : Distinct after
unfolding lookup text_eq
after-Distinct = (refl, tt)

diff_folder_snapshots_lem_example :
    Ascending (diff_folder_snapshots before after)
    × ((p : Text)
        → IsCalledFor p
            (lookup p before)
            (lookup p after)
            (find_change p (diff_folder_snapshots before after)))
diff_folder_snapshots_lem_example =
    diff_folder_snapshots_lem before after before-Distinct after-Distinct

-- Changes of the folder "/w" are taken as they are.
abbrev as_it_is : WatcherChange → Option WatcherChange
as_it_is c = some c

abbrev inputs : List Input
inputs = event (change added file_a) ∷ event (change modified file_b) ∷ []

still_running : (run as_it_is start_loop inputs).running ≡ true
unfolding run step start_loop
still_running = refl

run-start-IsLoop_example :
    IsLoop as_it_is (run as_it_is start_loop inputs) (window as_it_is [] inputs)
run-start-IsLoop_example = run-start-IsLoop as_it_is inputs still_running

run-debounce_fired_example :
    let fired = step as_it_is (run as_it_is start_loop inputs) (debounce_fired processed) in
    IsBatch as_it_is (merge_all [] (window as_it_is [] inputs)) fired.1.batch
    × (fired.0.pending ≡ [])
    × (fired.0.running ≡ true)
run-debounce_fired_example = run-debounce_fired as_it_is inputs processed still_running

-- A relative path is one of the folder, and its ".." stays in it.
abbrev reported : WatcherChange
reported = record { change_type = added; path = codes " pkg/../a.go"; old_hash = codes " h " }

reported_as : normalize_watcher_change none (codes "/w/") reported ≡ some (change added file_a)
unfolding normalize_watcher_change trim_space text_eq clean split join has_prefix is_hidden_segment
reported_as = refl

normalize_watcher_change-IsInside_example : IsInside (codes "/w/") reported (change added file_a)
normalize_watcher_change-IsInside_example =
    normalize_watcher_change-IsInside none (codes "/w/") reported (change added file_a) reported_as

-- Hidden files and files outside of the folder are refused.
hidden_refused :
    normalize_watcher_change none (codes "/w") (change added (codes "/w/.git/x")) ≡ none
unfolding normalize_watcher_change trim_space text_eq clean split join has_prefix is_hidden_segment
hidden_refused = refl

outside_refused :
    normalize_watcher_change none (codes "/w") (change added (codes "/w/../v/x")) ≡ none
unfolding normalize_watcher_change trim_space text_eq clean split join has_prefix is_hidden_segment
outside_refused = refl

abbrev later : Map FileSnapshot
later = (file_a, file 1) ∷ []
