-- ===== src/Watcher/StateTests.antt =====
-- The theorems on the state controller at concrete inputs.
use gocodemunch_mcp.Base.{
  Text, codes, text_eq, trim_space, is_empty, lookup, insert, ◌≡◌, refl, true, false, none, some,
  [], ◌∷◌, inl,
}
use gocodemunch_mcp.Base.Int.{pos}
use gocodemunch_mcp.Watcher.Controller.{
  RepoState, Controller, new_state_controller, mark_reindex_start, mark_reindex_done, update_state,
  make_channel, reindex_start, reindex_done, ensure_state,
}
use gocodemunch_mcp.Watcher.Controller.Query.{
  query, status, blocked, Waiter, wait_begin, timeout_of, status_from_state, stale_ms,
}
use gocodemunch_mcp.Watcher.Controller.Invariant.{IsController}
use gocodemunch_mcp.Watcher.Controller.Steps.{Call, run, step, run-new-IsController}
use gocodemunch_mcp.Watcher.Controller.Refinement.{query-run_refines}
use gocodemunch_mcp.Watcher.Controller.Waiting.{wait_begin-wakes}

abbrev repo : Text
repo = codes "r"

-- One reindex is active.
abbrev busy : Controller
busy = run new_state_controller (Call.start 5 repo ∷ [])

busy-IsController : IsController busy
busy-IsController = run-new-IsController (Call.start 5 repo ∷ [])

run-new-IsController_example :
    IsController
      (run new_state_controller (Call.start 5 repo ∷ Call.watching repo ∷ Call.done repo ∷ []))
run-new-IsController_example =
    run-new-IsController (Call.start 5 repo ∷ Call.watching repo ∷ Call.done repo ∷ [])

abbrev waiter : Waiter
waiter = record {
  repo = repo;
  wait_ch = 1;
  snapshot = record {
    repo = repo;
    fresh = false;
    index_stale = true;
    reindex_in_progress = true;
    stale_since_ms = some 0;
    last_error = [];
    reindex_failures = 0;
  };
}

blocks : wait_begin 5 repo (pos 100) busy ≡ blocked waiter
unfolding wait_begin timeout_of run step mark_reindex_start update_state reindex_start
    new_state_controller lookup insert text_eq trim_space make_channel ensure_state
    status_from_state
blocks = refl

abbrev done_state : RepoState
done_state = record {
  active_reindexes = 0;
  reindexing = false;
  stale_since = none;
  last_error = [];
  consecutive_failure = 0;
  wait_ch = 1;
}

ended : lookup repo (run busy (Call.done repo ∷ [])).states ≡ some done_state
unfolding run step mark_reindex_start mark_reindex_done update_state reindex_start reindex_done
    new_state_controller lookup insert text_eq trim_space make_channel ensure_state
ended = refl

wait_begin-wakes_example : (run busy (Call.done repo ∷ [])).channels.closed 1 ≡ true
wait_begin-wakes_example =
    wait_begin-wakes 5 repo (pos 100) busy waiter (Call.done repo ∷ []) done_state busy-IsController
      blocks ended (inl refl)

named : is_empty (trim_space repo) ≡ false
unfolding trim_space
named = refl

query-run_refines_example :
    query 9 (codes " r ") (
      run new_state_controller (
        Call.start 5 repo
        ∷ Call.start 6 (codes "q")
        ∷ Call.fail 7 repo (codes "no")
        ∷ Call.done (codes "q")
        ∷ []))
    ≡ status (record {
      repo = repo;
      fresh = false;
      index_stale = true;
      reindex_in_progress = false;
      stale_since_ms = some 0;
      last_error = [];
      reindex_failures = 0;
    })
unfolding trim_space text_eq stale_ms
query-run_refines_example = query-run_refines 9 (codes " r ") (
    Call.start 5 repo
    ∷ Call.start 6 (codes "q")
    ∷ Call.fail 7 repo (codes "no")
    ∷ Call.done (codes "q")
    ∷ [])
