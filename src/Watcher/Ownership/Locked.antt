-- ===== src/Watcher/Ownership/Locked.antt =====
-- What the lock of a watched repository's folder is worth: src/internal/watcher/state_controller.go
-- over src/internal/watcher/folder_lock.go.
use gocodemunch_mcp.Base.{
  Text, text_eq_iff, text_eq_refl, trim_space, is_empty, lookup, delete, lookup-delete, ◌≡◌, ◌≢◌,
  refl, ◌∙◌, Bool, false, Option, none, some, arith,
}
use gocodemunch_mcp.Base.Int.{ℤ}
use gocodemunch_mcp.Watcher.Controller.{Controller, WatchError, is_watched}
use gocodemunch_mcp.Watcher.Lock.{
  AcquireFaults, LockResult, yes_acquired, not_acquired, lock_error, LockState, releases,
  normalize_watched_folder, acquire, release,
}
use gocodemunch_mcp.Watcher.Lock.Exclusion.{OwnedBy, acquire-owns}
use gocodemunch_mcp.Watcher.Ownership.{Owner, start, stop, start_locked}

module _ (resolve : Text → Option Text) (lock_path : Text → Text) (is_pid_alive : ℤ → Bool) where
  abbrev started : AcquireFaults → Text → Owner → Option WatchError × Owner
  started = start resolve lock_path is_pid_alive

  start_locked-yes :
      (repo : Text) (c : Controller) (x : LockResult × LockState)
      → is_watched repo c ≡ none
      → is_watched repo (start_locked resolve lock_path is_pid_alive repo c x).1.controller
        ≡ some tt
      → (x.0 ≡ yes_acquired)
        × ((start_locked resolve lock_path is_pid_alive repo c x).1.locks ≡ some x.1)
        × ((start_locked resolve lock_path is_pid_alive repo c x).0 ≡ none)
  unfolding start_locked
  start_locked-yes repo c (yes_acquired, l) h k = (refl, refl, refl)
  start_locked-yes repo c (not_acquired, l) h k = ground (arith, h, k)
  start_locked-yes repo c (lock_error, l) h k = ground (arith, h, k)

  started_locked :
      (faults : AcquireFaults) (repo : Text) (o : Owner) (l : LockState)
      → is_empty (trim_space repo) ≡ false
      → o.locks ≡ some l
      → is_watched (trim_space repo) o.controller ≡ none
      → started faults repo o
        ≡ start_locked resolve lock_path is_pid_alive
            (trim_space repo)
            o.controller
            (acquire resolve lock_path is_pid_alive faults (trim_space repo) l)
  unfolding start
  started_locked faults repo o l h locks free = ground (arith, h, locks, free)

  -- A repository becomes watched only with its lock: if Start of a controller with a lock manager
  -- makes a repository watched that was not, then it reports no error, the manager holds the
  -- repository's folder, and its own process stands in the lock file.
  pub start-owns :
      (faults : AcquireFaults) (repo folder : Text) (o : Owner) (l : LockState)
      → is_empty (trim_space repo) ≡ false
      → normalize_watched_folder resolve (trim_space repo) ≡ some folder
      → o.locks ≡ some l
      → is_watched (trim_space repo) o.controller ≡ none
      → is_watched (trim_space repo) (started faults repo o).1.controller ≡ some tt
      → ((started faults repo o).0 ≡ none)
        × (l' : LockState) × ((started faults repo o).1.locks ≡ some l')
        × (lookup folder l'.manager.held ≡ some tt)
        × OwnedBy resolve lock_path is_pid_alive l.manager.pid folder l'.files
  start-owns faults repo folder o l h resolved locks free now =
      let x = acquire resolve lock_path is_pid_alive faults (trim_space repo) l in
      let same = started_locked faults repo o l h locks free in
      let (won, kept, fine) =
        start_locked-yes (trim_space repo) o.controller x free (rw (← same) now) in
      let (held, owned) =
        acquire-owns resolve lock_path is_pid_alive faults (trim_space repo) folder l resolved
          won in
      (rw same fine, x.1, rw same kept, held, owned)

  -- Stop under another name that resolves to the folder of a watched repository, whose lock the
  -- manager holds, releases that lock and leaves the repository marked as watched.
  pub stop_other_spelling :
      (repo other folder : Text) (o : Owner) (l : LockState)
      → is_empty (trim_space other) ≡ false
      → trim_space other ≢ repo
      → normalize_watched_folder resolve (trim_space other) ≡ some folder
      → o.locks ≡ some l
      → is_watched repo o.controller ≡ some tt
      → lookup folder l.manager.held ≡ some tt
      → let o' = (stop resolve lock_path is_pid_alive releases other o).1 in
        (is_watched repo o'.controller ≡ some tt)
        × (l' : LockState) × (o'.locks ≡ some l')
        × (lookup folder l'.manager.held ≡ none)
        × (lookup (lock_path folder) l'.files ≡ none)
  stop_other_spelling repo other folder o l h apart resolved locks watched held =
      unfold stop release in
      (
        ground (
          arith,
          h,
          resolved,
          locks,
          watched,
          held,
          lookup-delete (trim_space other) repo o.controller.watched,
          text_eq_iff (trim_space other) repo,
          apart,
        ),
        after,
        ground (arith, h, resolved, locks, held),
        lookup-delete folder folder l.manager.held ∙ rw (text_eq_refl folder),
        lookup-delete (lock_path folder) (lock_path folder) l.files
            ∙ rw (text_eq_refl (lock_path folder)),
      )
    where
      after : LockState
      after = record {
        manager = record (l.manager) { held = delete folder l.manager.held };
        files = delete (lock_path folder) l.files;
      }
