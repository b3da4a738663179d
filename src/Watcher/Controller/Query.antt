-- ===== src/Watcher/Controller/Query.antt =====
-- What the controller answers: statusFromState, Query, WaitForFresh and Backpressure of
-- src/internal/watcher/state_controller.go.
use gocodemunch_mcp.Base.{
  ℕ, ◌+◌, ◌-◌, ◌*◌, ◌/◌, ◌%◌, ◌^◌, Text, trim_space, is_empty, Map, lookup, length, Bool, true,
  false, not, ◌&&◌, ◌||◌, Option, none, some, [], ◌∷◌, if◌then◌else◌, ltb, leb,
}
use gocodemunch_mcp.Base.Int.{ℤ, pos, negsuc, is_pos}
use gocodemunch_mcp.Watcher.{Status, RuntimeBackpressure}
use gocodemunch_mcp.Watcher.Controller.{
  RepoState, Controller, WatchError, repo_required, deadline_exceeded, context_ended, with_repo,
}

abbrev pub is_set : Option ℕ → Bool
is_set none = false
is_set (some t) = true

-- time.Since in whole milliseconds, and no less than 0
unfoldable pub stale_ms : ℕ → Option ℕ → Option ℕ
stale_ms now none = none
stale_ms now (some since) = some ((now - since) / 1_000_000)

unfoldable pub fresh_status : Text → Status
fresh_status repo = record {
  repo = repo;
  fresh = true;
  index_stale = false;
  reindex_in_progress = false;
  stale_since_ms = none;
  last_error = [];
  reindex_failures = 0;
}

unfoldable pub status_from_state : ℕ → Text → RepoState → Bool → Status
unfolding stale_ms
status_from_state now repo s wait_semantics =
    let index_stale = s.reindexing || is_set s.stale_since in
    let status : Status = record {
      repo = repo;
      fresh = not index_stale;
      index_stale = index_stale;
      reindex_in_progress = s.reindexing;
      stale_since_ms = stale_ms now s.stale_since;
      last_error = [];
      reindex_failures = 0;
    } in
    if wait_semantics && not s.reindexing && ltb s.consecutive_failure 2
    then record status { fresh = true }
    else if leb 2 s.consecutive_failure && not (is_empty s.last_error)
    then record status {
      last_error = s.last_error;
      reindex_failures = s.consecutive_failure;
      fresh = if wait_semantics then false else status.fresh;
    }
    else status

abbrev pub status_of : ℕ → Text → Bool → Option RepoState → Status
status_of now repo wait_semantics none = fresh_status repo
status_of now repo wait_semantics (some s) = status_from_state now repo s wait_semantics

pub data Answer : Type 0 where
  status : Status → Answer
  failed : Status → WatchError → Answer

-- The empty status that stands beside an error.
unfoldable pub no_status : Status
unfolding fresh_status
no_status = record (fresh_status []) { fresh = false }

unfoldable pub query : ℕ → Text → Controller → Answer
unfolding status_from_state fresh_status no_status
query now repo c =
    with_repo repo (failed no_status repo_required)
      λ r. status (status_of now r false (lookup r c.states))

-- A caller that is blocked in WaitForFresh: the channel that it read under the lock, the status
-- that it read with it, and its repository.
pub record Waiter : Type 0 where
  pub repo : Text
  pub wait_ch : ℕ
  pub snapshot : Status

pub data WaitBegin : Type 0 where
  returned : Answer → WaitBegin
  blocked : Waiter → WaitBegin

-- The timeout as a time.Duration: a negative one is 0, and the product with time.Millisecond wraps.
unfoldable pub timeout_of : ℤ → ℤ
timeout_of (negsuc n) = pos 0
timeout_of (pos ms) =
    let nanoseconds = ms * 1000000 % 2 ^ 64 in
    if ltb nanoseconds (2 ^ 63) then pos nanoseconds else negsuc (2 ^ 64 - nanoseconds - 1)

-- WaitForFresh up to its `select`.
unfoldable pub wait_begin : ℕ → Text → ℤ → Controller → WaitBegin
unfolding status_from_state fresh_status no_status
wait_begin now repo timeout_ms c = with_repo repo (returned (failed no_status repo_required)) λ r.
    elim (lookup r c.states) [
      | none ↦ returned (status (fresh_status r))
      | some s ↦
          let snapshot = status_from_state now r s true in
          if not snapshot.reindex_in_progress
          then returned (status snapshot)
          else if is_pos (timeout_of timeout_ms)
          then blocked (record { repo = r; wait_ch = s.wait_ch; snapshot = snapshot })
          else returned (failed snapshot deadline_exceeded)
    ]

-- The case of the `select` that is taken.
pub data Wake : Type 0 where
  context_done : Text → Wake
  timer_fired signalled : Wake

-- WaitForFresh from its `select` on. `signalled` can be taken once the channel is closed.
unfoldable pub wait_end : ℕ → Waiter → Wake → Controller → Answer
unfolding status_from_state fresh_status
wait_end now w (context_done message) c = failed w.snapshot (context_ended message)
wait_end now w timer_fired c =
    failed (status_of now w.repo true (lookup w.repo c.states)) deadline_exceeded
wait_end now w signalled c = status (status_of now w.repo true (lookup w.repo c.states))

pub record BackpressureSummary : Type 0 where
  pub watched_repo_count : ℕ
  pub active_reindex_count : ℕ
  pub any_reindex_in_progress : Bool
  pub watcher_pending_events : ℕ
  pub watcher_pending_batches : ℕ
  pub watcher_batches_inflight : ℕ
  pub watcher_runtime_errors : ℕ

-- The number of entries that pass a test, as the loops of Backpressure count them.
unfoldable pub count_values {ℓ} : {V : Type ℓ} → (V → Bool) → Map V → ℕ
count_values p [] = 0
count_values p ((k, v) ∷ m) = (if p v then 1 else 0) + count_values p m

unfoldable pub sum_values {ℓ} : {V : Type ℓ} → (V → ℕ) → Map V → ℕ
sum_values f [] = 0
sum_values f ((k, v) ∷ m) = f v + sum_values f m

unfoldable pub backpressure : Controller → BackpressureSummary
unfolding count_values sum_values
backpressure c =
    let active = count_values (λ (s : RepoState). s.reindexing) c.states in
    record {
      watched_repo_count = length c.watched;
      active_reindex_count = active;
      any_reindex_in_progress = ltb 0 active;
      watcher_pending_events = sum_values (λ (r : RuntimeBackpressure). r.pending_events) c.runtime;
      watcher_pending_batches =
          count_values (λ (r : RuntimeBackpressure). r.pending_batch) c.runtime;
      watcher_batches_inflight = count_values (λ (r : RuntimeBackpressure). r.in_flight) c.runtime;
      watcher_runtime_errors =
          count_values (λ (r : RuntimeBackpressure). not (is_empty (trim_space r.last_error)))
            c.runtime;
    }
