-- ===== src/Watcher/Ownership/Calls.antt =====
-- What Start and Stop of src/internal/watcher/state_controller.go do to the controller without its
-- locks: nothing, or a step of its histories.
use gocodemunch_mcp.Base.{
  Bool, Text, trim_space, is_empty, Bool-cases, Option, none, some, Option-cases, ◌≡◌, refl, ◌⊎◌,
  inl, inr,
}
use gocodemunch_mcp.Base.Int.{ℤ}
use gocodemunch_mcp.Watcher.Controller.{
  Controller, WatchError, is_watched, mark_watched, watch, unwatch,
}
use gocodemunch_mcp.Watcher.Lock.{
  AcquireFaults, ReleaseFault, LockResult, yes_acquired, not_acquired, lock_error, LockState,
  ReleaseResult, released, release_error,
}
use gocodemunch_mcp.Watcher.Ownership.{
  Owner, start, stop, start_locked, start_unwatched, stop_released, stop_locked,
}

module _ (resolve : Text → Option Text) (lock_path : Text → Text) (is_pid_alive : ℤ → Bool) where
  abbrev IsMarked : Text → Controller → Option WatchError × Owner → Type 0
  IsMarked r c x = (x.1.controller ≡ c) ⊎ ((x.0 ≡ none) × (x.1.controller ≡ mark_watched r c))

  start_locked-IsMarked :
      (r : Text) (c : Controller) (x : LockResult × LockState)
      → IsMarked r c (start_locked resolve lock_path is_pid_alive r c x)
  unfolding start_locked
  start_locked-IsMarked r c (yes_acquired, l) = inr (refl, refl)
  start_locked-IsMarked r c (not_acquired, l) = inl refl
  start_locked-IsMarked r c (lock_error, l) = inl refl

  start_unwatched-IsMarked :
      (faults : AcquireFaults) (r : Text) (c : Controller) (o : Option LockState)
      → IsMarked r c (start_unwatched resolve lock_path is_pid_alive faults r c o)
  unfolding start_unwatched
  start_unwatched-IsMarked faults r c none = inr (refl, refl)
  start_unwatched-IsMarked faults r c (some l) = start_locked-IsMarked r c _

  pub start-watch :
      (faults : AcquireFaults) (repo : Text) (o : Owner)
      → let x = start resolve lock_path is_pid_alive faults repo o in
        (x.1.controller ≡ o.controller)
        ⊎ ((x.0 ≡ none) × (x.1.controller ≡ watch repo o.controller))
  unfolding start watch
  start-watch faults repo o = elim (Bool-cases (is_empty (trim_space repo))) [
    | inl e ↦ rw e (inl refl)
    | inr e ↦ elim (Option-cases (is_watched (trim_space repo) o.controller)) [
      | inl free ↦
          rw (e, free) (start_unwatched-IsMarked faults (trim_space repo) o.controller o.locks)
      | inr (w, taken) ↦ rw (e, taken) (inl refl)
    ]
  ]

  stop_released-same :
      (c : Controller) (x : ReleaseResult × LockState)
      → (stop_released resolve lock_path is_pid_alive c x).1.controller ≡ c
  unfolding stop_released
  stop_released-same c (released, l) = refl
  stop_released-same c (release_error, l) = refl

  stop_locked-same :
      (fault : ReleaseFault) (r : Text) (c : Controller) (o : Option LockState)
      → (stop_locked resolve lock_path is_pid_alive fault r c o).1.controller ≡ c
  unfolding stop_locked
  stop_locked-same fault r c none = refl
  stop_locked-same fault r c (some l) = stop_released-same c _

  pub stop-unwatch :
      (fault : ReleaseFault) (repo : Text) (o : Owner)
      → (stop resolve lock_path is_pid_alive fault repo o).1.controller ≡ unwatch repo o.controller
  unfolding stop unwatch
  stop-unwatch fault repo o = elim (Bool-cases (is_empty (trim_space repo))) [
    | inl e ↦ rw e refl
    | inr e ↦ rw e (stop_locked-same fault (trim_space repo) _ o.locks)
  ]
