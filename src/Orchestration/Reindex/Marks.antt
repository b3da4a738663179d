-- ===== src/Orchestration/Reindex/Marks.antt =====
-- What the state controller answers behind a run: the controller's methods as the watcher's marks.
use gocodemunch_mcp.Base.{
  ℕ, ◌≤◌, Text, trim_space, is_empty, ◌≡◌, refl, ap, ◌∙◌, subst, true, false, Option, none, some,
  Bool-cases, inl, inr, [], ltb, arith, if◌then◌else◌,
}
use gocodemunch_mcp.Watcher.{Status}
use gocodemunch_mcp.Watcher.Controller.{
  Controller, mark_reindex_start, mark_reindex_done, mark_reindex_failed,
}
use gocodemunch_mcp.Watcher.Controller.Query.{query, status, fresh_status}
use gocodemunch_mcp.Watcher.Controller.Freshness.{
  state_of, query-mark_reindex_done, query-mark_reindex_failed,
}
use gocodemunch_mcp.Orchestration.Reindex.{
  tool_succeeded, reindex_failure_message, ReindexLifecycle, ReindexWatcher, RunResult, mark_end,
  marked_run, start_first, lifecycle_of, run_with_reindex_lifecycle,
}

-- The state controller, with the clock at each mark.
abbrev pub controller_marks : ℕ → ℕ → ReindexLifecycle Controller
controller_marks started ended = record {
  mark_start = mark_reindex_start started;
  mark_done = mark_reindex_done;
  mark_failed = mark_reindex_failed ended;
}

-- How a run has ended for the watcher: `none` if well, or the message of the failure.
abbrev pub failure_of : RunResult → Option Text
failure_of (payload, some message) = some message
failure_of (payload, none) =
    if tool_succeeded payload then none else some (reindex_failure_message payload)

-- The watcher that these are the marks of.
abbrev pub controller_watcher :
    (Text → Controller → Option Text × Controller) → ℕ → ℕ → Option (ReindexWatcher Controller)
controller_watcher start_watch started ended =
    some (record { start_watch = start_watch; lifecycle = some (controller_marks started ended) })

marked_run-end :
    {S : Type 0} (marks : ReindexLifecycle S) (repo : Text) (run : S → RunResult × S) (s s' : S)
    (result : RunResult)
    → run (marks.mark_start repo s) ≡ (result, s')
    → marked_run (some marks) repo run s ≡ (result, mark_end marks repo result s')
unfolding marked_run
marked_run-end marks repo run s s' result runs = rw runs refl

run_with_reindex_lifecycle-marked :
    {S : Type 0} (w : ReindexWatcher S) (repo folder : Text) (run : S → RunResult × S) (s s' : S)
    → is_empty repo ≡ false
    → trim_space repo ≡ repo
    → start_first (some w) (trim_space folder) s ≡ (none, s')
    → run_with_reindex_lifecycle (some w) repo folder run s ≡ marked_run w.lifecycle repo run s'
unfolding run_with_reindex_lifecycle lifecycle_of
run_with_reindex_lifecycle-marked w repo folder run s s' named trimmed watching =
    ground (arith, named, trimmed, watching)

mark_end-done :
    {S : Type 0} (marks : ReindexLifecycle S) (repo : Text) (result : RunResult) (s : S)
    → failure_of result ≡ none
    → mark_end marks repo result s ≡ marks.mark_done repo s
unfolding mark_end
mark_end-done marks repo (payload, none) s well = ground (arith, well)
mark_end-done marks repo (payload, some message) s well = absurd (ground (arith, well))

mark_end-failed :
    {S : Type 0} (marks : ReindexLifecycle S) (repo message : Text) (result : RunResult) (s : S)
    → failure_of result ≡ some message
    → mark_end marks repo result s ≡ marks.mark_failed repo message s
unfolding mark_end
mark_end-failed marks repo message (payload, none) s bad =
    elim (Bool-cases (tool_succeeded payload)) [
      | inl e ↦ absurd (ground (arith, bad, e))
      | inr e ↦ rw e (ap (λ m. marks.mark_failed repo m s) (ground (arith, bad, e)))
    ]
mark_end-failed marks repo message (payload, some m) s bad =
    ap (λ n. marks.mark_failed repo n s) (ground (arith, bad))

-- A run of a repository whose name is not blank, with the state controller as the watcher: the
-- watch has been started, and no other reindex of the repository is active when the run ends.
module _ (start_watch : Text → Controller → Option Text × Controller) (started ended now : ℕ)
    (repo folder : Text) (c watched after : Controller) (run : Controller → RunResult × Controller)
    (result : RunResult) (named : is_empty repo ≡ false) (trimmed : trim_space repo ≡ repo)
    (watching : start_first (controller_watcher start_watch started ended) (trim_space folder) c
      ≡ (none, watched))
    (runs : run (mark_reindex_start started repo watched) ≡ (result, after))
    (alone : (state_of after repo).active_reindexes ≤ 1) where
  marked_end :
      run_with_reindex_lifecycle (controller_watcher start_watch started ended) repo folder run c
      ≡ (result, mark_end (controller_marks started ended) repo result after)
  marked_end =
      run_with_reindex_lifecycle-marked _ repo folder run c watched named trimmed watching
      ∙ marked_run-end (controller_marks started ended) repo run watched after result runs

  -- Behind a run that ended well Query finds the repository fresh, and the run's answer is returned
  -- as it is.
  pub run_with_reindex_lifecycle-done :
      failure_of result ≡ none
      → (query now repo
            (run_with_reindex_lifecycle
              (controller_watcher start_watch started ended)
              repo
              folder
              run
              c).1
          ≡ status (fresh_status repo))
        × ((run_with_reindex_lifecycle
              (controller_watcher start_watch started ended)
              repo
              folder
              run
              c).0
            ≡ result)
  run_with_reindex_lifecycle-done well = (
    ap (λ x. query now repo x.1) marked_end
        ∙ (ap (λ x. query now repo x)
              (mark_end-done (controller_marks started ended) repo result after well)
            ∙ subst (λ r. query now repo (mark_reindex_done repo after) ≡ status (fresh_status r))
                trimmed
                (query-mark_reindex_done now repo after (rw trimmed named) (rw trimmed alone))),
    ap (λ x. x.0) marked_end,
  )

  -- Behind a run that failed Query finds the repository stale and no longer reindexing, and the
  -- run's answer is returned as it is. The message is reported from the second failure in a row on.
  pub run_with_reindex_lifecycle-failed :
      (message : Text)
      → failure_of result ≡ some message
      → (st : Status) × (query now repo
            (run_with_reindex_lifecycle
              (controller_watcher start_watch started ended)
              repo
              folder
              run
              c).1
          ≡ status st)
        × (st.fresh ≡ false)
        × (st.index_stale ≡ true)
        × (st.reindex_in_progress ≡ false)
        × (st.last_error
            ≡ (if ltb (state_of after repo).consecutive_failure 1 then [] else trim_space message))
        × ((run_with_reindex_lifecycle
              (controller_watcher start_watch started ended)
              repo
              folder
              run
              c).0
            ≡ result)
  run_with_reindex_lifecycle-failed message bad =
      let (st, answer, stale, index, progress, reported) =
        query-mark_reindex_failed ended now repo message after (rw trimmed named)
          (rw trimmed alone) in
      (
        st,
        ap (λ x. query now repo x.1) marked_end
            ∙ (ap (λ x. query now repo x)
                  (mark_end-failed (controller_marks started ended) repo message result after bad)
                ∙ answer),
        stale,
        index,
        progress,
        subst
            (λ r.
              st.last_error
              ≡ (if ltb (state_of after r).consecutive_failure 1 then [] else trim_space message))
            trimmed reported,
        ap (λ x. x.0) marked_end,
      )
