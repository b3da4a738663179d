-- ===== src/Watcher/Worker.antt =====
-- The embedded worker: src/internal/watcher/embedded_worker.go. `Loop` is what runFolderLoop keeps
-- for one folder; a step takes what one `select` receives. A channel that has been closed is never
-- received from again. `normalize` is normalizeWatcherChange for the folder.
pub mod Loop
pub mod Lifecycle
use gocodemunch_mcp.Base.{
  ℕ, Text, trim_space, Map, length, ltb, Bool, true, false, Option, none, some, List, [], ◌∷◌,
  if◌then◌else◌,
}
use gocodemunch_mcp.Watcher.{WatcherChange, RuntimeBackpressure}
use gocodemunch_mcp.Watcher.Changes.{merge_pending_change, sorted_pending_changes}

-- How ProcessBatch ends; a cancellation is not reported as an error.
pub data ProcessResult : Type 0 where
  processed canceled : ProcessResult
  process_failed : Text → ProcessResult

pub data Input : Type 0 where
  context_done errs_closed nil_error events_closed : Input
  source_error : Text → Input
  event : WatcherChange → Input
  debounce_fired : ProcessResult → Input

pub record FolderLoop : Type 0 where
  pub pending : Map WatcherChange
  pub last_error : Text
  pub debounce_armed : Bool
  pub events_open : Bool
  pub errs_open : Bool
  pub running : Bool

-- What a step does outside the loop: the snapshots that it publishes, in order, and the batch that
-- it hands to the processor.
pub record Effects : Type 0 where
  pub published : List RuntimeBackpressure
  pub batch : Option (List WatcherChange)

abbrev pub no_effects : Effects
no_effects = record { published = []; batch = none }

unfoldable pub start_loop : FolderLoop
start_loop = record {
  pending = [];
  last_error = [];
  debounce_armed = false;
  events_open = true;
  errs_open = true;
  running = true;
}

-- The snapshot that is published for the pending changes.
unfoldable pub pending_snapshot : Map WatcherChange → Text → RuntimeBackpressure
pending_snapshot pending last_error = record {
  pending_events = length pending;
  pending_batch = ltb 0 (length pending);
  in_flight = false;
  last_error = last_error;
}

unfoldable pub batch_snapshot : Bool → Text → RuntimeBackpressure
batch_snapshot in_flight last_error = record {
  pending_events = 0;
  pending_batch = false;
  in_flight = in_flight;
  last_error = last_error;
}

-- `stopDebounce(); return`
stop_loop : FolderLoop → FolderLoop
stop_loop l = record l { debounce_armed = false; running = false }

process_error : ProcessResult → Text
process_error processed = []
process_error canceled = []
process_error (process_failed message) = trim_space message

-- A normalized change is merged; the timer is started anew, or stopped if nothing is left.
receive : WatcherChange → FolderLoop → FolderLoop × Effects
unfolding pending_snapshot
receive change l =
    let pending = merge_pending_change l.pending change in
    (
      record l { pending = pending; debounce_armed = ltb 0 (length pending) },
      record { published = pending_snapshot pending l.last_error ∷ []; batch = none },
    )

-- The timer has fired.
flush : ProcessResult → FolderLoop → FolderLoop × Effects
unfolding process_error batch_snapshot
flush result l =
    if ltb 0 (length l.pending)
    then (
      record l { pending = []; debounce_armed = false; last_error = process_error result },
      record {
        published =
            batch_snapshot true l.last_error ∷ batch_snapshot false (process_error result) ∷ [];
        batch = some (sorted_pending_changes l.pending);
      },
    )
    else (record l { debounce_armed = false }, no_effects)

module _ (normalize : WatcherChange → Option WatcherChange) where
  running_step : Input → FolderLoop → FolderLoop × Effects
  unfolding stop_loop receive flush pending_snapshot
  running_step context_done l = (stop_loop l, no_effects)
  running_step errs_closed l =
      if l.events_open
      then (record l { errs_open = false }, no_effects)
      else (stop_loop (record l { errs_open = false }), no_effects)
  running_step nil_error l = (l, no_effects)
  running_step (source_error message) l = (
    stop_loop (record l { last_error = trim_space message }),
    record { published = pending_snapshot l.pending (trim_space message) ∷ []; batch = none },
  )
  running_step events_closed l =
      if l.errs_open
      then (record l { events_open = false }, no_effects)
      else (stop_loop (record l { events_open = false }), no_effects)
  running_step (event change) l = elim (normalize change) [
    | none ↦ (l, no_effects)
    | some normalized ↦ receive normalized l
  ]
  running_step (debounce_fired result) l = flush result l

  -- A loop that has returned does nothing more.
  unfoldable pub step : FolderLoop → Input → FolderLoop × Effects
  unfolding running_step
  step l input = if l.running then running_step input l else (l, no_effects)

  unfoldable pub run : FolderLoop → List Input → FolderLoop
  unfolding step
  run l [] = l
  run l (input ∷ inputs) = run (step l input).0 inputs
