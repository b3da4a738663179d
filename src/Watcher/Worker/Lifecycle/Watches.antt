-- ===== src/Watcher/Worker/Lifecycle/Watches.antt =====
-- What a run of the embedded worker leaves watched, with the program's own controller and its folder
-- locks: src/internal/watcher/embedded_worker.go over state_controller.go.
use mathlib.Core.List.{reverse-reverse}
use gocodemunch_mcp.Base.{
  Text, text_eq, trim_space, is_empty, lookup-insert, lookup-delete, member, ◌≡◌, refl, sym, ◌∙◌,
  ap, subst, Bool, true, false, ◌||◌, Option, none, some, Option-cases, Bool-cases, List, [], ◌∷◌,
  if◌then◌else◌, ◌⊎◌, inl, inr, arith,
}
use gocodemunch_mcp.Base.Int.{ℤ}
use gocodemunch_mcp.Watcher.Controller.{
  Controller, WatchError, is_watched, mark_watched, update_state, watch, unwatch,
}
use gocodemunch_mcp.Watcher.Lock.{AcquireFaults, ReleaseFault}
use gocodemunch_mcp.Watcher.Ownership.{Owner}
use gocodemunch_mcp.Watcher.Ownership
use gocodemunch_mcp.Watcher.Ownership.Calls.{start-watch, stop-unwatch}
use gocodemunch_mcp.Watcher.Worker.Lifecycle.{
  EmbeddedWorker, WatchController, StartResult, all_started, failed_at, start_folders, stop_folders,
  finish_start, start, stop, run_worker,
}

abbrev pub names : List Text → List Text
names [] = []
names (f ∷ fs) = trim_space f ∷ names fs

is_watched-watch :
    (r f : Text) (c : Controller)
    → text_eq (trim_space f) r ≡ false
    → is_watched r (watch f c) ≡ is_watched r c
unfolding watch mark_watched update_state
is_watched-watch r f c h = elim (Bool-cases (is_empty (trim_space f))) [
  | inl e ↦ rw e refl
  | inr e ↦ elim (Option-cases (is_watched (trim_space f) c)) [
    | inl free ↦ rw (e, free) (lookup-insert (trim_space f) r tt c.watched ∙ rw h refl)
    | inr (w, taken) ↦ rw (e, taken) refl
  ]
]

nobody : (s r : Text) → is_empty s ≡ true → is_empty r ≡ false → text_eq s r ≡ false
unfolding text_eq
nobody [] [] h k = ground (arith, k)
nobody [] (x ∷ r) h k = refl
nobody (x ∷ s) r h k = ground (arith, h)

is_watched-unwatch :
    (r f : Text) (c : Controller)
    → is_empty r ≡ false
    → is_watched r (unwatch f c) ≡ (if text_eq (trim_space f) r then none else is_watched r c)
unfolding unwatch
is_watched-unwatch r f c n = elim (Bool-cases (is_empty (trim_space f))) [
  | inl e ↦ rw (e, nobody (trim_space f) r e n) refl
  | inr e ↦ rw e (lookup-delete (trim_space f) r c.watched)
]

-- A controller whose Start of a folder that succeeds may mark that folder's repository only, whose Start
-- that fails changes no mark, and whose Stop takes the mark of that folder's repository away.
module _ {S : Type 0} (c : WatchController S) (r : Text) (mark : S → Option (Unit {0}))
    (started_mark : (f : Text) (s : S)
      → text_eq (trim_space f) r ≡ false
      → mark (c.start_watch f s).1 ≡ mark s)
    (failed_mark : (f message : Text) (s : S)
      → (c.start_watch f s).0 ≡ some message
      → mark (c.start_watch f s).1 ≡ mark s)
    (stopped_mark : (f : Text) (s : S)
      → mark (c.stop_watch f s).1 ≡ (if text_eq (trim_space f) r then none else mark s)) where
  stop_folders-mark :
      (fs : List Text) (s : S)
      → mark (stop_folders c fs s).1 ≡ (if member r (names fs) then none else mark s)
  unfolding stop_folders member
  stop_folders-mark [] s = refl
  stop_folders-mark (f ∷ fs) s =
      ground (arith, stop_folders-mark fs (c.stop_watch f s).1, stopped_mark f s)

  -- What has been started stays in the list.
  start_folders-member :
      (fs started : List Text) (s : S)
      → member r (names started) ≡ true
      → member r (names (start_folders c fs started s).1) ≡ true
  unfolding start_folders member
  start_folders-member [] started s h = h
  start_folders-member (f ∷ fs) started s h =
      ground (arith, h, start_folders-member fs (f ∷ started) (c.start_watch f s).1)

  -- What is in the list has been asked for.
  start_folders-asked :
      (fs started : List Text) (s : S)
      → member r (names (start_folders c fs started s).1) ≡ true
      → (member r (names fs) || member r (names started)) ≡ true
  unfolding start_folders member
  start_folders-asked [] started s h = h
  start_folders-asked (f ∷ fs) started s h =
      ground (arith, h, start_folders-asked fs (f ∷ started) (c.start_watch f s).1)

  -- What is not in the list has not been touched.
  start_folders-mark :
      (fs started : List Text) (s : S)
      → member r (names (start_folders c fs started s).1) ≡ false
      → mark (start_folders c fs started s).2 ≡ mark s
  unfolding start_folders member
  start_folders-mark [] started s h = refl
  start_folders-mark (f ∷ fs) started s h = elim (Option-cases (c.start_watch f s).0) [
    | inl e ↦ ground (
      arith,
      h,
      e,
      start_folders-mark fs (f ∷ started) (c.start_watch f s).1,
      started_mark f s,
      start_folders-member fs (f ∷ started) (c.start_watch f s).1,
    )
    | inr (text, e) ↦ ground (arith, e, failed_mark f text s e)
  ]

  -- The mark is as before, or it is taken away from a repository of the worker.
  abbrev IsLeft : List Text → Option (Unit {0}) → Option (Unit {0}) → Type 0
  IsLeft fs before after = (after ≡ before) ⊎ ((after ≡ none) × (member r (names fs) ≡ true))

  undone :
      (fs : List Text) (s : S)
      → IsLeft fs (mark s) (
          if member r (names (start_folders c fs [] s).1)
          then none
          else mark (start_folders c fs [] s).2)
  undone fs s = elim (Bool-cases (member r (names (start_folders c fs [] s).1))) [
    | inl e ↦ rw e (inr (refl, unfold member in ground (arith, start_folders-asked fs [] s e)))
    | inr e ↦ rw e (inl (start_folders-mark fs [] s e))
  ]

  -- The worker and the controller behind a Start, and behind the Stop after one that succeeds.
  after_start : StartResult × EmbeddedWorker × S → EmbeddedWorker × S
  after_start (all_started, w, s) = ((stop c w s).1, (stop c w s).2)
  after_start (failed_at f message, w, s) = (w, s)

  finish_start-mark :
      (w : EmbeddedWorker) (x : StartResult × List Text × S) (fs : List Text)
      (before : Option (Unit {0}))
      → IsLeft fs before (if member r (names x.1) then none else mark x.2)
      → IsLeft fs before (mark (after_start (finish_start c w x)).1)
        × ((after_start (finish_start c w x)).0.running ≡ false)
  unfolding after_start finish_start stop
  finish_start-mark w (all_started, started, s) fs before h = (
    subst (IsLeft fs before)
        (sym (
          ap (λ l. mark (stop_folders c l s).1) (reverse-reverse started)
          ∙ stop_folders-mark started s))
        h,
    refl,
  )
  finish_start-mark w (failed_at f message, started, s) fs before h =
      (subst (IsLeft fs before) (sym (stop_folders-mark started s)) h, refl)

  run_worker-after_start :
      (w : EmbeddedWorker) (s : S)
      → ((run_worker c w s).3 ≡ (after_start (start c w s)).1)
        × ((run_worker c w s).2 ≡ (after_start (start c w s)).0)
  unfolding run_worker
  run_worker-after_start w s = ended (start c w s)
    where
      ended :
          (x : StartResult × EmbeddedWorker × S)
          → let y : StartResult × List Text × EmbeddedWorker × S = elim x.0 [
            | failed_at f message ↦ (failed_at f message, [], x.1, x.2)
            | all_started ↦
                let (errors, w'', s'') = stop c x.1 x.2 in (all_started, errors, w'', s'')
          ] in
            (y.3 ≡ (after_start x).1) × (y.2 ≡ (after_start x).0)
      ended (all_started, w', s') = unfold after_start in (refl, refl)
      ended (failed_at f message, w', s') = unfold after_start in (refl, refl)

  run_worker-mark :
      (w : EmbeddedWorker) (s : S)
      → w.running ≡ false
      → IsLeft w.folders (mark s) (mark (run_worker c w s).3)
        × ((run_worker c w s).2.running ≡ false)
  unfolding start
  run_worker-mark w s off =
      let (ends, stops) = run_worker-after_start w s in
      let began : start c w s ≡ finish_start c w (start_folders c w.folders [] s) =
        unfold start in rw off refl in
      let (left, over) =
        finish_start-mark w (start_folders c w.folders [] s) w.folders (mark s)
          (undone w.folders s) in
      (
        subst (IsLeft w.folders (mark s))
            (sym (ap mark ends ∙ ap (λ x. mark (after_start x).1) began)) left,
        ap (λ (x : EmbeddedWorker). x.running) stops
            ∙ ap (λ x. (after_start x).0.running) began
            ∙ over,
      )

module _ (resolve : Text → Option Text) (lock_path : Text → Text) (is_pid_alive : ℤ → Bool)
    (acquire_faults : Text → AcquireFaults) (release_fault : Text → ReleaseFault)
    (message : WatchError → Text) where
  abbrev said : Option WatchError → Option Text
  said none = none
  said (some e) = some (message e)

  -- Start and Stop of the state controller, as the worker calls them. What the system refuses may
  -- depend on the folder.
  abbrev pub state_controller : WatchController Owner
  state_controller = record {
    start_watch = λ f o.
        let x = Ownership.start resolve lock_path is_pid_alive (acquire_faults f) f o in
        (said x.0, x.1);
    stop_watch = λ f o.
        let x = Ownership.stop resolve lock_path is_pid_alive (release_fault f) f o in
        (said x.0, x.1);
  }

  -- Run of a worker that does not run yet, with the program's state controller and its locks, leaves
  -- each repository's watch as it was, or ends it where the repository is one of the worker's folders,
  -- whatever the system refuses and on every way out: nothing is watched behind it that was not
  -- before. The worker is stopped.
  pub run_worker-watched :
      (w : EmbeddedWorker) (o : Owner) (r : Text)
      → is_empty r ≡ false
      → w.running ≡ false
      → let x = run_worker state_controller w o in
        ((is_watched r x.3.controller ≡ is_watched r o.controller)
          ⊎ ((is_watched r x.3.controller ≡ none) × (member r (names w.folders) ≡ true)))
        × (x.2.running ≡ false)
  run_worker-watched w o r n off =
      run_worker-mark state_controller r (λ x. is_watched r x.controller)
        (λ f s h. elim (start-watch resolve lock_path is_pid_alive (acquire_faults f) f s) [
          | inl same ↦ ap (is_watched r) same
          | inr (_, marked) ↦ ap (is_watched r) marked ∙ is_watched-watch r f s.controller h
        ])
        (λ f text s h. elim (start-watch resolve lock_path is_pid_alive (acquire_faults f) f s) [
          | inl same ↦ ap (is_watched r) same
          | inr (fine, _) ↦ absurd (ground (arith, h, ap said fine))
        ])
        (λ f s.
          ap (is_watched r) (stop-unwatch resolve lock_path is_pid_alive (release_fault f) f s)
          ∙ is_watched-unwatch r f s.controller n)
        w o off
