-- ===== src/Watcher/Worker/Lifecycle.antt =====
-- Start and Stop of the embedded worker: src/internal/watcher/embedded_worker.go. The controller is
-- an argument: its Start and Stop on a state, with the error that they return.
pub mod Watches
use mathlib.Core.List.{reverse}
use gocodemunch_mcp.Base.{
  Text, Bool, true, false, Option, none, some, List, [], ◌∷◌, ◌++◌, if◌then◌else◌,
}

-- `folders` are the normalized folders, `started` those that this worker has started.
pub record EmbeddedWorker : Type 0 where
  pub folders : List Text
  pub running : Bool
  pub started : List Text

-- The methods of the controller that the worker calls.
pub record WatchController (S : Type 0) : Type 0 where
  pub start_watch : Text → S → Option Text × S
  pub stop_watch : Text → S → Option Text × S

-- A start that failed at a folder, and what was started before it, newest first.
pub data StartResult : Type 0 where
  all_started : StartResult
  failed_at : Text → Text → StartResult

module _ {S : Type 0} (c : WatchController S) where
  -- The loop of Start over the folders, with those started so far, newest first.
  unfoldable pub start_folders : List Text → List Text → S → StartResult × List Text × S
  start_folders [] started s = (all_started, started, s)
  start_folders (f ∷ fs) started s =
      let (error, s') = c.start_watch f s in
      elim error [
        | none ↦ start_folders fs (f ∷ started) s'
        | some message ↦ (failed_at f message, started, s')
      ]

  -- Stops in the order of the list, and gathers the errors.
  unfoldable pub stop_folders : List Text → S → List Text × S
  stop_folders [] s = ([], s)
  stop_folders (f ∷ fs) s =
      let (error, s') = c.stop_watch f s in
      let (errors, s'') = stop_folders fs s' in
      (elim error [ none ↦ errors | some message ↦ message ∷ errors ], s'')

  finish_start : EmbeddedWorker → StartResult × List Text × S → StartResult × EmbeddedWorker × S
  finish_start w (all_started, started, s) =
      (all_started, record w { running = true; started = reverse started }, s)
  finish_start w (failed_at f message, started, s) =
      (failed_at f message, record w { running = false }, (stop_folders started s).1)

  unfoldable pub start : EmbeddedWorker → S → StartResult × EmbeddedWorker × S
  unfolding finish_start
  start w s =
      if w.running then (all_started, w, s) else finish_start w (start_folders w.folders [] s)

  -- The result is the list of errors, which errors.Join joins.
  unfoldable pub stop : EmbeddedWorker → S → List Text × EmbeddedWorker × S
  stop w s =
      let (errors, s') = stop_folders (reverse w.started) s in
      if w.running then (errors, record w { running = false; started = [] }, s') else ([], w, s)

  -- Run: Start, and Stop once the context has ended; the loops change nothing of the controller's
  -- watches in between.
  unfoldable pub run_worker : EmbeddedWorker → S → StartResult × List Text × EmbeddedWorker × S
  unfolding start stop
  run_worker w s =
      let (result, w', s') = start w s in
      elim result [
        | failed_at f message ↦ (failed_at f message, [], w', s')
        | all_started ↦ let (errors, w'', s'') = stop w' s' in (all_started, errors, w'', s'')
      ]
