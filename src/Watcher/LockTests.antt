-- ===== src/Watcher/LockTests.antt =====
-- The theorems on locks at concrete inputs: two processes and one folder.
use gocodemunch_mcp.Base.{
  ◌⊎◌, member, true, ℕ, Text, codes, text_eq, trim_space, is_empty, lookup, insert, ◌≡◌, ◌≢◌, refl,
  Bool, true, false, ◌==◌, Option, none, some, [], ◌∷◌, ◌++◌, arith, if◌then◌else◌,
}
use gocodemunch_mcp.Base.Int.{ℤ, pos, negsuc}
use gocodemunch_mcp.Watcher.Controller.{
  is_watched, mark_watched, new_state_controller, update_state,
}
use gocodemunch_mcp.Watcher.Lock.{
  Files, FolderLockManager, yes_acquired, LockState, acquire, acquire_normalized, acquire_check,
  acquire_take, normalize_watched_folder, is_stale_lock, goes_on, releases, try_acquire_lock,
}
use gocodemunch_mcp.Watcher.Lock.Exclusion.{no_faults, OwnedBy, acquire-OwnedBy, acquire_take_race}
use gocodemunch_mcp.Watcher.Worker.Lifecycle.{EmbeddedWorker, run_worker}
use gocodemunch_mcp.Watcher.Worker.Lifecycle.Watches.{names, state_controller, run_worker-watched}
use gocodemunch_mcp.Watcher.Ownership.{Owner, start, stop}
use gocodemunch_mcp.Watcher.Ownership.Locked.{start-owns, stop_other_spelling}

-- "/w/" is another spelling of "/w".
abbrev resolve : Text → Option Text
resolve p = if text_eq p (codes "/w/") then some (codes "/w") else some p

abbrev lock_path : Text → Text
lock_path folder = folder ++ codes ".lock"

-- Process 9 is dead.
abbrev is_alive : ℤ → Bool
is_alive (pos n) = if n == 9 then false else true
is_alive (negsuc n) = false

abbrev manager : ℕ → FolderLockManager
manager n = record { pid = pos n; held = [] }

abbrev owned_files : ℕ → Files
owned_files n = (codes "/w.lock", record { pid = some (pos n) }) ∷ []

abbrev state : ℕ → Files → LockState
state n files = record { manager = manager n; files = files }

w_resolved : normalize_watched_folder resolve (codes "/w/") ≡ some (codes "/w")
unfolding normalize_watched_folder trim_space text_eq
w_resolved = refl

w_owned : OwnedBy resolve lock_path is_alive (pos 5) (codes "/w") (owned_files 5)
unfolding lookup text_eq
w_owned = refl

acquire-OwnedBy_example :
    ((acquire resolve lock_path is_alive no_faults (codes "/w/") (state 6 (owned_files 5))).1
      ≡ state 6 (owned_files 5))
    × ((acquire resolve lock_path is_alive no_faults (codes "/w/") (state 6 (owned_files 5))).0
        ≢ yes_acquired)
acquire-OwnedBy_example =
    acquire-OwnedBy resolve lock_path is_alive no_faults (codes "/w/") (codes "/w")
      (state 6 (owned_files 5)) w_resolved (pos 5) w_owned refl refl refl

w_stale : is_stale_lock is_alive false (codes "/w.lock") (owned_files 9) ≡ true
unfolding is_stale_lock lookup text_eq
w_stale = refl

abbrev holder : LockState
holder = record {
  manager = record { pid = pos 5; held = (codes "/w", tt) ∷ [] };
  files = owned_files 5;
}

acquire_take_race_example :
    let check = λ (m : FolderLockManager).
      acquire_check resolve lock_path is_alive no_faults
        (codes "/w")
        (record { manager = m; files = owned_files 9 }) in
    let take = λ (m : FolderLockManager) (now : Files).
      acquire_take resolve lock_path is_alive no_faults
        (codes "/w")
        (record { manager = m; files = now })
        now in
    (check (manager 5) ≡ goes_on (owned_files 9))
    × (check (manager 6) ≡ goes_on (owned_files 9))
    × ((take (manager 5) (owned_files 9)).0 ≡ yes_acquired)
    × ((take (manager 6) (take (manager 5) (owned_files 9)).1.files).0 ≡ yes_acquired)
acquire_take_race_example =
    acquire_take_race resolve lock_path is_alive (codes "/w") (owned_files 9) (manager 5)
      (manager 6) w_stale

abbrev owner : Owner
owner = record { controller = new_state_controller; locks = some (state 5 []) }

w_named : is_empty (trim_space (codes "/w/")) ≡ false
unfolding trim_space
w_named = refl

w_trimmed : normalize_watched_folder resolve (trim_space (codes "/w/")) ≡ some (codes "/w")
unfolding normalize_watched_folder trim_space text_eq
w_trimmed = refl

not_watched : is_watched (trim_space (codes "/w/")) new_state_controller ≡ none
unfolding new_state_controller lookup
not_watched = refl

now_watched :
    is_watched
      (trim_space (codes "/w/"))
      (start resolve lock_path is_alive no_faults (codes "/w/") owner).1.controller
    ≡ some tt
unfolding start acquire acquire_check try_acquire_lock normalize_watched_folder trim_space text_eq
    lookup mark_watched new_state_controller insert acquire_normalized update_state
now_watched = refl

start-owns_example :
    let r = start resolve lock_path is_alive no_faults (codes "/w/") owner in
    (r.0 ≡ none)
    × (l' : LockState) × (r.1.locks ≡ some l')
    × (lookup (codes "/w") l'.manager.held ≡ some tt)
    × OwnedBy resolve lock_path is_alive (pos 5) (codes "/w") l'.files
start-owns_example =
    start-owns resolve lock_path is_alive no_faults (codes "/w/") (codes "/w") owner (state 5 [])
      w_named w_trimmed refl not_watched now_watched

abbrev watching : Owner
watching = record {
  controller = record new_state_controller { watched = (codes "/w", tt) ∷ [] };
  locks = some holder;
}

apart : trim_space (codes "/w/") ≢ codes "/w"
unfolding trim_space
apart = λ e. ground (arith, e)

w_held : lookup (codes "/w") holder.manager.held ≡ some tt
unfolding lookup text_eq
w_held = refl

w_watched : is_watched (codes "/w") watching.controller ≡ some tt
unfolding lookup text_eq
w_watched = refl

stop_other_spelling_example :
    let o' = (stop resolve lock_path is_alive releases (codes "/w/") watching).1 in
    (is_watched (codes "/w") o'.controller ≡ some tt)
    × (l' : LockState) × (o'.locks ≡ some l')
    × (lookup (codes "/w") l'.manager.held ≡ none)
    × (lookup (lock_path (codes "/w")) l'.files ≡ none)
stop_other_spelling_example =
    stop_other_spelling resolve lock_path is_alive (codes "/w") (codes "/w/") (codes "/w") watching
      holder w_named apart w_trimmed refl w_watched w_held

-- The folder "/w" is watched already, and the other name of it too once the worker has run.
abbrev worker : EmbeddedWorker
worker = record { folders = codes "/w" ∷ codes "/v" ∷ []; running = false; started = [] }

run_worker-watched_example :
    let run =
      run_worker
        (state_controller resolve lock_path is_alive (λ f. no_faults) (λ f. releases) (λ e. []))
        worker
        watching in
    ((is_watched (codes "/w") run.3.controller ≡ is_watched (codes "/w") watching.controller)
      ⊎ ((is_watched (codes "/w") run.3.controller ≡ none)
          × (member (codes "/w") (names worker.folders) ≡ true)))
    × (run.2.running ≡ false)
run_worker-watched_example =
    run_worker-watched resolve lock_path is_alive (λ f. no_faults) (λ f. releases) (λ e. []) worker
      watching (codes "/w") refl refl
