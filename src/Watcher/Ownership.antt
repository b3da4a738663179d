-- ===== src/Watcher/Ownership.antt =====
-- Start and Stop of the state controller, with its lock manager:
-- src/internal/watcher/state_controller.go. A controller has no lock manager where none could be
-- made. `resolve`, `lock_path` and `is_pid_alive` are those of Watcher.Lock.
pub mod Locked
pub mod Calls
use gocodemunch_mcp.Base.{
  Text, text_eq, text_eq_iff, text_eq_refl, trim_space, is_empty, Map, lookup, insert, delete,
  insert_cases, lookup-insert, lookup-delete, ◌≡◌, ◌≢◌, refl, sym, ◌∙◌, Bool, true, false,
  Bool-cases, Option, none, some, Option-cases, if◌then◌else◌, ◌⊎◌, inl, inr, arith,
}
use gocodemunch_mcp.Base.Int.{ℤ}
use gocodemunch_mcp.Watcher.Controller.{
  Controller, WatchError, repo_required, lock_failed, with_repo, is_watched, mark_watched,
}
use gocodemunch_mcp.Watcher.Lock.{
  AcquireFaults, LockResult, yes_acquired, not_acquired, lock_error, LockState, ReleaseFault,
  ReleaseResult, released, release_error, normalize_watched_folder, acquire, release,
}

pub record Owner : Type 0 where
  pub controller : Controller
  pub locks : Option LockState

module _ (resolve : Text → Option Text) (lock_path : Text → Text) (is_pid_alive : ℤ → Bool) where
  -- What Start does with the result of Acquire.
  start_locked : Text → Controller → LockResult × LockState → Option WatchError × Owner
  start_locked repo c (yes_acquired, l) =
      (none, record { controller = mark_watched repo c; locks = some l })
  start_locked repo c (not_acquired, l) = (none, record { controller = c; locks = some l })
  start_locked repo c (lock_error, l) =
      (some lock_failed, record { controller = c; locks = some l })

  start_unwatched : AcquireFaults → Text → Controller → Option LockState → Option WatchError × Owner
  unfolding start_locked
  start_unwatched faults repo c none =
      (none, record { controller = mark_watched repo c; locks = none })
  start_unwatched faults repo c (some l) =
      start_locked repo c (acquire resolve lock_path is_pid_alive faults repo l)

  unfoldable pub start : AcquireFaults → Text → Owner → Option WatchError × Owner
  unfolding start_unwatched
  start faults repo o =
      with_repo repo (some repo_required, o)
        λ r. elim (is_watched r o.controller) [
          | some w ↦ (none, o)
          | none ↦ start_unwatched faults r o.controller o.locks
        ]

  -- What Stop does with the result of Release.
  stop_released : Controller → ReleaseResult × LockState → Option WatchError × Owner
  stop_released c (released, l) = (none, record { controller = c; locks = some l })
  stop_released c (release_error, l) = (some lock_failed, record { controller = c; locks = some l })

  stop_locked : ReleaseFault → Text → Controller → Option LockState → Option WatchError × Owner
  unfolding stop_released
  stop_locked fault repo c none = (none, record { controller = c; locks = none })
  stop_locked fault repo c (some l) = stop_released c (release resolve lock_path fault repo l)

  unfoldable pub stop : ReleaseFault → Text → Owner → Option WatchError × Owner
  unfolding stop_locked
  stop fault repo o =
      with_repo repo (some repo_required, o)
        λ r.
          stop_locked fault r (record (o.controller) { watched = delete r o.controller.watched })
            o.locks
