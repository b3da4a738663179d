-- ===== src/Orchestration/Tests.antt =====
-- The theorems on chunks, retries, batches and reindexing at concrete inputs.
use gocodemunch_mcp.Base.{
  ℕ, suc, subst, Text, codes, trim_space, ◌≤◌, ◌<◌, ◌≡◌, ◌≢◌, refl, true, false, Option, none, some,
  [], ◌∷◌, ◌⊎◌, inl, ltb, if◌then◌else◌, arith, ◌==◌, lookup, insert, text_eq,
}
use gocodemunch_mcp.Orchestration.Resilience.{
  VectorError, is_retryable_vector_error, Environment, run_vector_operation_with_retry,
}
use gocodemunch_mcp.Orchestration.Resilience.Retry.{
  attempts, FailsRetryably, run_vector_operation_with_retry_lem,
}
use gocodemunch_mcp.Orchestration.Dependencies.{
  Adjacency, neighbors_of, visit_neighbor, visit_neighbors, bfs_round, bfs_loop, targets, start_bfs,
  bfs_dependency_graph,
}
use gocodemunch_mcp.Orchestration.Dependencies.Rounds.{has}
use gocodemunch_mcp.Orchestration.Dependencies.Closed.{
  bfs_dependency_graph-closed, bfs_dependency_graph-parent,
}
use gocodemunch_mcp.Orchestration.Reindex.{
  RunResult, run_with_reindex_lifecycle, start_first, tool_succeeded, reindex_failure_message,
  reindex_failed_text,
}
use gocodemunch_mcp.Orchestration.Reindex.Marks.{
  controller_watcher, failure_of, run_with_reindex_lifecycle-done,
  run_with_reindex_lifecycle-failed,
}
use gocodemunch_mcp.Watcher.{Status}
use gocodemunch_mcp.Watcher.Controller.{
  Controller, new_state_controller, mark_reindex_start, update_state, make_channel, reindex_start,
  ensure_state,
}
use gocodemunch_mcp.Watcher.Controller.Query.{query, status, fresh_status}
use gocodemunch_mcp.Watcher.Controller.Freshness.{state_of}

-- A timeout of the first attempt only.
abbrev timeout_error : VectorError
timeout_error = record {
  message = codes "timeout";
  is_canceled = false;
  is_deadline = false;
  retryable = none;
  timeout = some true;
  temporary = none;
}

abbrev second_works : Environment
second_works = record {
  context_error = λ n. none;
  runner = λ n. if n == 1 then some timeout_error else none;
  wait_error = λ n delay. none;
}

first_fails : (j : ℕ) → 1 ≤ j → j < 2 → FailsRetryably (second_works.runner j)
unfolding is_retryable_vector_error
first_fails j low high =
    subst (λ n. FailsRetryably (second_works.runner n)) {x = 1} {y = j} (omega arith) refl

run_vector_operation_with_retry_lem_example :
    ((run_vector_operation_with_retry second_works).error ≡ none)
    × (attempts (run_vector_operation_with_retry second_works).events ≡ 2)
run_vector_operation_with_retry_lem_example =
    run_vector_operation_with_retry_lem second_works (λ n. refl) (λ n delay. refl) 2 (omega arith)
      (omega arith) first_fails (inl tt)

abbrev repo : Text
repo = codes "r"

abbrev no_watch : Text → Controller → Option Text × Controller
no_watch folder c = (none, c)

abbrev good : RunResult
good = (some (record { success = some true; error_value = none; message = none }), none)

abbrev bad : RunResult
bad = (some (record { success = none; error_value = some none; message = none }), none)

abbrev answers : RunResult → Controller → RunResult × Controller
answers r c = (r, c)

abbrev started : Controller
started = mark_reindex_start 5 repo new_state_controller

named : trim_space repo ≡ repo
unfolding trim_space
named = refl

not_watched :
    start_first (controller_watcher no_watch 5 6) (trim_space []) new_state_controller
    ≡ (none, new_state_controller)
unfolding start_first trim_space
not_watched = refl

one_active : (state_of started repo).active_reindexes ≤ 1
unfolding mark_reindex_start update_state reindex_start new_state_controller lookup insert text_eq
    trim_space make_channel ensure_state
one_active = ground arith

good_done : failure_of good ≡ none
unfolding tool_succeeded
good_done = refl

bad_failed : failure_of bad ≡ some reindex_failed_text
unfolding tool_succeeded reindex_failure_message
bad_failed = refl

run_with_reindex_lifecycle-done_example :
    let r =
      run_with_reindex_lifecycle
        (controller_watcher no_watch 5 6)
        repo
        []
        (answers good)
        new_state_controller in
    (query 9 repo r.1 ≡ status (fresh_status repo)) × (r.0 ≡ good)
run_with_reindex_lifecycle-done_example =
    run_with_reindex_lifecycle-done no_watch 5 6 9 repo [] new_state_controller new_state_controller
      started (answers good) good refl named not_watched refl one_active good_done

run_with_reindex_lifecycle-failed_example :
    let r =
      run_with_reindex_lifecycle
        (controller_watcher no_watch 5 6)
        repo
        []
        (answers bad)
        new_state_controller in
    (st : Status) × (query 9 repo r.1 ≡ status st)
    × (st.fresh ≡ false)
    × (st.index_stale ≡ true)
    × (st.reindex_in_progress ≡ false)
    × (st.last_error ≡ (
        if ltb (state_of started repo).consecutive_failure 1
        then []
        else trim_space reindex_failed_text))
    × (r.0 ≡ bad)
run_with_reindex_lifecycle-failed_example =
    run_with_reindex_lifecycle-failed no_watch 5 6 9 repo [] new_state_controller
      new_state_controller started (answers bad) bad refl named not_watched refl one_active
      reindex_failed_text bad_failed

-- "a" imports "b", which imports "c" and "a".
abbrev imports : Adjacency
imports = (codes "a", codes "b" ∷ []) ∷ (codes "b", codes "c" ∷ codes "a" ∷ []) ∷ []

b_visited : lookup (codes "b") (bfs_dependency_graph (codes "a") imports 2).visited ≡ some 1
unfolding bfs_dependency_graph bfs_loop bfs_round visit_neighbors visit_neighbor neighbors_of
    targets start_bfs lookup insert text_eq
b_visited = refl

c_imported : has (codes "c") (neighbors_of imports (codes "b")) ≡ true
unfolding has neighbors_of lookup text_eq
c_imported = refl

bfs_dependency_graph-closed_example :
    lookup (codes "c") (bfs_dependency_graph (codes "a") imports 2).nodes ≢ none
bfs_dependency_graph-closed_example =
    bfs_dependency_graph-closed (codes "a") imports 2 (codes "b") (codes "c") 1 b_visited
      (omega arith) c_imported

c_found : lookup (codes "c") (bfs_dependency_graph (codes "a") imports 2).nodes ≢ none
unfolding bfs_dependency_graph bfs_loop bfs_round visit_neighbors visit_neighbor neighbors_of
    targets start_bfs lookup insert text_eq
c_found = λ e. ground (arith, e)

bfs_dependency_graph-parent_example :
    (l : ℕ) × (lookup (codes "c") (bfs_dependency_graph (codes "a") imports 2).visited ≡ some l)
    × (((codes "c" ≡ codes "a") × (l ≡ 0))
        ⊎ ((u : Text) × (k : ℕ) × (l ≡ suc k)
            × (k < 2)
            × (lookup u (bfs_dependency_graph (codes "a") imports 2).visited ≡ some k)
            × (has (codes "c") (neighbors_of imports u) ≡ true)))
bfs_dependency_graph-parent_example =
    bfs_dependency_graph-parent (codes "a") imports 2 (codes "c") c_found
