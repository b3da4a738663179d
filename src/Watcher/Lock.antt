-- ===== src/Watcher/Lock.antt =====
-- Lock files of watched folders: src/internal/watcher/folder_lock.go. The directory of lock files
-- is a map from paths to contents. What the operating system may refuse is an argument of the call.
-- `resolve` is filepath.Abs with symbolic links evaluated, `lock_path` the name by the SHA-256 of a
-- folder, and `is_pid_alive` asks the system.
pub mod Exclusion
use gocodemunch_mcp.Base.{
  Text, trim_space, is_empty, Map, lookup, insert, delete, Bool, true, false, not, Option, none,
  some, if◌then◌else◌,
}
use gocodemunch_mcp.Base.Int.{ℤ, is_pos}

-- The payload's process, or `none` where the content is no payload.
pub record LockFile : Type 0 where
  pub pid : Option ℤ

abbrev pub Files : Type 0
Files = Map LockFile

pub record FolderLockManager : Type 0 where
  pub pid : ℤ
  pub held : Map (Unit {0})

-- What goes wrong in one call of tryAcquireLock.
pub data TryFault : Type 0 where
  no_fault open_fails payload_fails lock_refused : TryFault

pub data TryResult : Type 0 where
  acquired refused failed : TryResult

create_lock : ℤ → TryFault → Text → Files → TryResult × Files
create_lock pid no_fault path files = (acquired, insert path (record { pid = some pid }) files)
create_lock pid open_fails path files = (failed, files)
create_lock pid payload_fails path files = (failed, delete path files)
create_lock pid lock_refused path files = (refused, delete path files)

-- O_EXCL: a file that is there is not opened.
unfoldable pub try_acquire_lock : ℤ → TryFault → Text → Files → TryResult × Files
unfolding create_lock
try_acquire_lock pid open_fails path files = (failed, files)
try_acquire_lock pid fault path files = elim (lookup path files) [
  | some file ↦ (refused, files)
  | none ↦ create_lock pid fault path files
]

module _ (is_pid_alive : ℤ → Bool) where
  is_dead : Option ℤ → Bool
  is_dead none = true
  is_dead (some pid) = if is_pos pid then not (is_pid_alive pid) else true

  -- The first argument says that the file is there but cannot be read.
  unfoldable pub is_stale_lock : Bool → Text → Files → Bool
  unfolding is_dead
  is_stale_lock read_fails path files = elim (lookup path files) [
    | none ↦ false
    | some file ↦ if read_fails then true else is_dead file.pid
  ]

-- What goes wrong in one call of Acquire.
pub record AcquireFaults : Type 0 where
  pub first : TryFault
  pub read_fails : Bool
  pub remove_fails : Bool
  pub second : TryFault

pub data LockResult : Type 0 where
  yes_acquired not_acquired lock_error : LockResult

pub record LockState : Type 0 where
  pub manager : FolderLockManager
  pub files : Files

pub hold : Text → LockState → Files → LockState
hold folder st files = record st {
  manager = record (st.manager) { held = insert folder tt st.manager.held };
  files = files;
}

-- What a call of tryAcquireLock leads to: the end of Acquire, or a further step on the files.
pub data Stage : Type 0 where
  ends : LockResult → LockState → Stage
  goes_on : Files → Stage

after_try : Text → LockState → TryResult × Files → Stage
unfolding hold
after_try folder st (acquired, files) = ends yes_acquired (hold folder st files)
after_try folder st (failed, files) = ends lock_error (record st { files = files })
after_try folder st (refused, files) = goes_on files

unfoldable pub remove_file : Bool → Text → Files → Files
remove_file fails path files = if fails then files else delete path files

unfoldable pub normalize_watched_folder : (Text → Option Text) → Text → Option Text
normalize_watched_folder resolve folder =
    if is_empty (trim_space folder) then none else resolve (trim_space folder)

module _ (resolve : Text → Option Text) (lock_path : Text → Text) (is_pid_alive : ℤ → Bool) where
  -- Acquire up to the decision whether the lock file is stale.
  unfoldable pub acquire_check : AcquireFaults → Text → LockState → Stage
  unfolding after_try try_acquire_lock is_stale_lock
  acquire_check faults folder st =
      elim (after_try folder st
        (try_acquire_lock st.manager.pid faults.first (lock_path folder) st.files)) [
          | ends result st' ↦ ends result st'
          | goes_on files ↦
              if is_stale_lock is_pid_alive faults.read_fails (lock_path folder) files
              then goes_on files
              else ends not_acquired (record st { files = files })
        ]

  -- Acquire from there on: the stale file is removed and the lock tried once more.
  unfoldable pub acquire_take : AcquireFaults → Text → LockState → Files → LockResult × LockState
  unfolding after_try try_acquire_lock remove_file
  acquire_take faults folder st files =
      elim (after_try folder st (
        try_acquire_lock st.manager.pid faults.second (lock_path folder)
          (remove_file faults.remove_fails (lock_path folder) files))) [
            | ends result st' ↦ (result, st')
            | goes_on rest ↦ (not_acquired, record st { files = rest })
          ]

  unfoldable pub acquire_normalized : AcquireFaults → Text → LockState → LockResult × LockState
  acquire_normalized faults folder st = elim (acquire_check faults folder st) [
    | ends result st' ↦ (result, st')
    | goes_on files ↦ acquire_take faults folder st files
  ]

  unfoldable pub acquire : AcquireFaults → Text → LockState → LockResult × LockState
  acquire faults raw st = elim (normalize_watched_folder resolve raw) [
    | none ↦ (lock_error, st)
    | some folder ↦ elim (lookup folder st.manager.held) [
      | some file ↦ (not_acquired, st)
      | none ↦ acquire_normalized faults folder st
    ]
  ]

-- What goes wrong in one call of Release.
pub data ReleaseFault : Type 0 where
  releases unlock_fails close_fails remove_fails : ReleaseFault

pub data ReleaseResult : Type 0 where
  released release_error : ReleaseResult

module _ (resolve : Text → Option Text) (lock_path : Text → Text) where
  release_held : ReleaseFault → Text → LockState → ReleaseResult × LockState
  release_held releases folder st =
      (released, record st { files = delete (lock_path folder) st.files })
  release_held unlock_fails folder st = (release_error, st)
  release_held close_fails folder st = (release_error, st)
  release_held remove_fails folder st = (release_error, st)

  unfoldable pub release : ReleaseFault → Text → LockState → ReleaseResult × LockState
  unfolding release_held
  release fault raw st = elim (normalize_watched_folder resolve raw) [
    | none ↦ (release_error, st)
    | some folder ↦ elim (lookup folder st.manager.held) [
      | none ↦ (released, st)
      | some file ↦
          release_held fault folder
            (record st { manager = record (st.manager) { held = delete folder st.manager.held } })
    ]
  ]
