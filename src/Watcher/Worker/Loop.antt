-- ===== src/Watcher/Worker/Loop.antt =====
-- What the folder loop keeps pending, and what it hands to the processor.
use mathlib.Core.List.{foldl}
use gocodemunch_mcp.Base.{
  Text, text_eq_refl, lookup, sym, subst, ◌≢◌, Map, length, ltb, ◌≡◌, refl, ◌∙◌, ap, true, false,
  Bool-cases, Option, none, some, Option-cases, List, [], ◌∷◌, ◌++◌, append-nil, if◌then◌else◌, inl,
  inr, arith,
}
use gocodemunch_mcp.Watcher.{WatcherChange}
use gocodemunch_mcp.Watcher.Changes.{merge_pending_change, sorted_pending_changes}
use gocodemunch_mcp.Watcher.Changes.Net.{
  merge_all, IsPending, merge_all-IsPending, empty-IsPending, sorted_pending_changes_batch,
}
use gocodemunch_mcp.Watcher.Changes.Sorted.{Ascending, find_change}
use gocodemunch_mcp.Watcher.Worker.{
  ProcessResult, Input, context_done, errs_closed, nil_error, events_closed, source_error, event,
  debounce_fired, FolderLoop, Effects, no_effects, start_loop, step, run,
}

empty_of : (m : Map WatcherChange) → ltb 0 (length m) ≡ false → m ≡ []
empty_of [] h = refl
empty_of (e ∷ m) h = ground arith

module _ (normalize : WatcherChange → Option WatcherChange) where
  abbrev as_list : Option WatcherChange → List WatcherChange
  as_list none = []
  as_list (some c) = c ∷ []

  -- The normalized changes that have arrived since the last batch.
  abbrev pub window_step : List WatcherChange → Input → List WatcherChange
  window_step w (event change) = w ++ as_list (normalize change)
  window_step w (debounce_fired result) = []
  window_step w context_done = w
  window_step w errs_closed = w
  window_step w nil_error = w
  window_step w events_closed = w
  window_step w (source_error message) = w

  abbrev pub window : List WatcherChange → List Input → List WatcherChange
  window = foldl window_step

  -- While the loop runs, the map holds the merged window, and the timer is armed exactly while it
  -- holds a change.
  pub record IsLoop (l : FolderLoop) (w : List WatcherChange) : Type 0 where
    pub merged : l.pending ≡ merge_all [] w
    pub armed : l.debounce_armed ≡ ltb 0 (length l.pending)

  merge_all-snoc :
      (m : Map WatcherChange) (w : List WatcherChange) (c : WatcherChange)
      → merge_all m (w ++ c ∷ []) ≡ merge_pending_change (merge_all m w) c
  merge_all-snoc m [] c = refl
  merge_all-snoc m (d ∷ w) c = merge_all-snoc (merge_pending_change m d) w c

  step-IsLoop :
      (l : FolderLoop) (w : List WatcherChange) (input : Input)
      → l.running ≡ true
      → IsLoop l w
      → (step normalize l input).0.running ≡ true
      → IsLoop (step normalize l input).0 (window_step w input)
  unfolding step
  step-IsLoop l w (event change) on v still = elim (Option-cases (normalize change)) [
    | inl e ↦ ground (arith, on, e, append-nil w, v)
    | inr (c, e) ↦ ground (arith, on, e, merge_all-snoc [] w c, v)
  ]
  step-IsLoop l w (debounce_fired result) on v still = ground (arith, on, v, empty_of l.pending)
  step-IsLoop l w context_done on v still = ground (arith, on, v, still)
  step-IsLoop l w errs_closed on v still = ground (arith, on, v, still)
  step-IsLoop l w nil_error on v still = ground (arith, on, v, still)
  step-IsLoop l w events_closed on v still = ground (arith, on, v, still)
  step-IsLoop l w (source_error message) on v still = ground (arith, on, v, still)

  stopped-step :
      (l : FolderLoop) (input : Input)
      → l.running ≡ false
      → step normalize l input ≡ (l, no_effects)
  unfolding step
  stopped-step l input off = simp off

  stopped-run :
      (l : FolderLoop) (inputs : List Input)
      → l.running ≡ false
      → (run normalize l inputs).running ≡ false
  unfolding run
  stopped-run l [] off = off
  stopped-run l (input ∷ inputs) off =
      ap (λ (x : FolderLoop × Effects). (run normalize x.0 inputs).running)
        (stopped-step l input off)
      ∙ stopped-run l inputs off

  run-IsLoop :
      (l : FolderLoop) (w : List WatcherChange) (inputs : List Input)
      → l.running ≡ true
      → IsLoop l w
      → (run normalize l inputs).running ≡ true
      → IsLoop (run normalize l inputs) (window w inputs)
  unfolding run
  run-IsLoop l w [] on v still = v
  run-IsLoop l w (input ∷ inputs) on v still =
      elim (Bool-cases (step normalize l input).0.running) [
        | inl goes ↦
            run-IsLoop (step normalize l input).0 (window_step w input) inputs goes
              (step-IsLoop l w input on v goes) still
        | inr stops ↦
            absurd (unfold run in cc (still, stopped-run (step normalize l input).0 inputs stops))
      ]

  -- As long as the folder loop runs, the pending map is the merge of exactly the normalized changes
  -- that have arrived since the last batch, and the debounce timer is armed if and only if the map
  -- holds a change: none waits without a timer.
  pub run-start-IsLoop :
      (inputs : List Input)
      → (run normalize start_loop inputs).running ≡ true
      → IsLoop (run normalize start_loop inputs) (window [] inputs)
  run-start-IsLoop inputs still =
      run-IsLoop start_loop [] inputs (unfold start_loop in refl)
        (unfold start_loop in record { merged = refl; armed = refl }) still

  -- The batch of a pending map: none where it is empty, and otherwise one that is not empty, is
  -- strictly ascending by path, and holds at each path exactly the entry of the map.
  abbrev pub IsBatch : Map WatcherChange → Option (List WatcherChange) → Type 0
  IsBatch m none = m ≡ []
  IsBatch m (some batch) =
      (m ≢ []) × (batch ≢ []) × Ascending batch × ((p : Text) → find_change p batch ≡ lookup p m)

  head_there :
      (k : Text) (c : WatcherChange) (m : Map WatcherChange) → lookup k ((k, c) ∷ m) ≡ some c
  unfolding lookup
  head_there k c m = rw (text_eq_refl k) refl

  found_some :
      (p : Text) (c : WatcherChange) (l : List WatcherChange) → find_change p l ≡ some c → l ≢ []
  unfolding find_change
  found_some p c [] h e = ground (arith, h)
  found_some p c (d ∷ l) h e = ground (arith, e)

  sorted-IsBatch :
      (m : Map WatcherChange)
      → IsPending m
      → IsBatch m (if ltb 0 (length m) then some (sorted_pending_changes m) else none)
  sorted-IsBatch [] v = refl
  sorted-IsBatch ((k, c) ∷ m) v =
      let (ascending, at) = sorted_pending_changes_batch ((k, c) ∷ m) v in
      let some_pending : ltb 0 (length ((k, c) ∷ m)) ≡ true = ground arith in
      rw some_pending
        ((λ e. ground (arith, e)), found_some k c _ (at k ∙ head_there k c m), ascending, at)

  fired_batch :
      (inputs : List Input) (result : ProcessResult)
      → (run normalize start_loop inputs).running ≡ true
      → let m = merge_all [] (window [] inputs) in
        (step normalize (run normalize start_loop inputs) (debounce_fired result)).1.batch
        ≡ (if ltb 0 (length m) then some (sorted_pending_changes m) else none)
  unfolding step
  fired_batch inputs result still =
      let v = run-start-IsLoop inputs still in ground (arith, still, v.merged)

  -- When the timer of a running loop fires, the batch is strictly ascending by path, holds at every
  -- path the merge of the changes since the last batch and is not empty; where nothing is pending no
  -- batch is processed. In both cases the loop goes on with nothing pending.
  pub run-debounce_fired :
      (inputs : List Input) (result : ProcessResult)
      → (run normalize start_loop inputs).running ≡ true
      → let after = step normalize (run normalize start_loop inputs) (debounce_fired result) in
        IsBatch (merge_all [] (window [] inputs)) after.1.batch
        × (after.0.pending ≡ [])
        × (after.0.running ≡ true)
  unfolding step
  run-debounce_fired inputs result still =
      let v = run-start-IsLoop inputs still in
      let m = merge_all [] (window [] inputs) in
      (
        subst (IsBatch m) (sym (fired_batch inputs result still))
            (sorted-IsBatch m (merge_all-IsPending [] (window [] inputs) empty-IsPending)),
        ground (arith, still, empty_of (run normalize start_loop inputs).pending),
        ground (arith, still),
      )
