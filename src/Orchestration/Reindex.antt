-- ===== src/Orchestration/Reindex.antt =====
-- Reindexing under the watcher's eyes: src/internal/orchestration/watcher_lifecycle.go and
-- watcher_batch_processor.go. The watcher is a record of the calls that are made of it; the mutex of
-- the repository makes a run with its marks one step for this repository.
pub mod Marks
use gocodemunch_mcp.Base.{
  Text, codes, trim_space, is_empty, length, Bool, true, false, not, Option, none, some, List, [],
  ◌∷◌, if◌then◌else◌,
}
use gocodemunch_mcp.Watcher.{ChangeType, WatcherChange}

-- What is read of a tool's answer. `success` is `none` where the key is absent or no Boolean,
-- `error_value` where the key is absent, and a text is `none` where the value is no string.
pub record ToolPayload : Type 0 where
  pub success : Option Bool
  pub error_value : Option (Option Text)
  pub message : Option Text

abbrev is_absent {ℓ} : {A : Type ℓ} → Option A → Bool
is_absent none = true
is_absent (some a) = false

-- A nil map has failed; without a Boolean "success" the key "error" decides.
unfoldable pub tool_succeeded : Option ToolPayload → Bool
tool_succeeded none = false
tool_succeeded (some payload) = elim payload.success [
  | some success ↦ success
  | none ↦ is_absent payload.error_value
]

abbrev pub reindex_failed_text : Text
reindex_failed_text = codes "reindex failed"

-- The value as a text that is not blank, or what comes next.
or_else_text : Option Text → Text → Text
or_else_text none next = next
or_else_text (some value) next = if is_empty (trim_space value) then next else trim_space value

string_of : Option (Option Text) → Option Text
string_of none = none
string_of (some value) = value

unfoldable pub reindex_failure_message : Option ToolPayload → Text
unfolding or_else_text string_of
reindex_failure_message none = reindex_failed_text
reindex_failure_message (some payload) =
    or_else_text (string_of payload.error_value) (or_else_text payload.message reindex_failed_text)

-- watcher.ReindexLifecycle on a state.
pub record ReindexLifecycle (S : Type 0) : Type 0 where
  pub mark_start : Text → S → S
  pub mark_done : Text → S → S
  pub mark_failed : Text → Text → S → S

-- The watcher: its Start, and its lifecycle where it has one.
pub record ReindexWatcher (S : Type 0) : Type 0 where
  pub start_watch : Text → S → Option Text × S
  pub lifecycle : Option (ReindexLifecycle S)

-- A tool's payload and error.
abbrev pub RunResult : Type 0
RunResult = Option ToolPayload × Option Text

module _ {S : Type 0} where
  -- What is marked behind the run.
  unfoldable pub mark_end : ReindexLifecycle S → Text → RunResult → S → S
  mark_end marks repo (payload, some message) s = marks.mark_failed repo message s
  mark_end marks repo (payload, none) s =
      if tool_succeeded payload
      then marks.mark_done repo s
      else marks.mark_failed repo (reindex_failure_message payload) s

  unfoldable pub marked_run :
      Option (ReindexLifecycle S) → Text → (S → RunResult × S) → S → RunResult × S
  unfolding mark_end
  marked_run none repo run s = run s
  marked_run (some marks) repo run s =
      let (result, s') = run (marks.mark_start repo s) in (result, mark_end marks repo result s')

  unfoldable pub start_first : Option (ReindexWatcher S) → Text → S → Option Text × S
  start_first none folder s = (none, s)
  start_first (some w) folder s = if is_empty folder then (none, s) else w.start_watch folder s

  unfoldable pub lifecycle_of : Option (ReindexWatcher S) → Option (ReindexLifecycle S)
  lifecycle_of none = none
  lifecycle_of (some w) = w.lifecycle

  unfoldable pub run_with_reindex_lifecycle :
      Option (ReindexWatcher S) → Text → Text → (S → RunResult × S) → S → RunResult × S
  unfolding marked_run start_first lifecycle_of
  run_with_reindex_lifecycle watcher repo watch_folder run s =
      let (error, s') = start_first watcher (trim_space watch_folder) s in
      elim error [
        | some message ↦ ((none, some message), s')
        | none ↦
            if is_empty (trim_space repo)
            then run s'
            else marked_run (lifecycle_of watcher) (trim_space repo) run s'
      ]

-- One entry of "changed_paths".
pub record ChangedPath : Type 0 where
  pub change_type : ChangeType
  pub path : Text
  pub old_hash : Text

-- Entries without a path are left out.
unfoldable pub changed_paths : List WatcherChange → List ChangedPath
changed_paths [] = []
changed_paths (change ∷ changes) =
    let rest = changed_paths changes in
    if is_empty (trim_space change.path)
    then rest
    else record {
      change_type = change.change_type;
      path = trim_space change.path;
      old_hash = trim_space change.old_hash;
    }
      ∷ rest

-- The arguments of "index_folder", which is always incremental; without an entry the key
-- "changed_paths" is absent.
pub record IndexArgs : Type 0 where
  pub folder : Text
  pub incremental : Bool
  pub paths : Option (List ChangedPath)

some_paths : List ChangedPath → Option (List ChangedPath)
some_paths [] = none
some_paths (p ∷ ps) = some (p ∷ ps)

-- WatcherBatchProcessor: the context in front of the call and behind it, and the tool, are
-- arguments. The result is the error.
unfoldable pub watcher_batch_processor :
    Option Text
    → Option Text
    → (IndexArgs → Option ToolPayload)
    → Text
    → List WatcherChange
    → Option Text
unfolding some_paths
watcher_batch_processor before after call_tool folder changes =
    if is_empty (trim_space folder)
    then some (codes "watch batch folder is required")
    else elim before [
      | some message ↦ some message
      | none ↦ elim after [
        | some message ↦ some message
        | none ↦
            let payload = call_tool (record {
              folder = trim_space folder;
              incremental = true;
              paths = some_paths (changed_paths changes);
            }) in
            if tool_succeeded payload then none else some (reindex_failure_message payload)
      ]
    ]
