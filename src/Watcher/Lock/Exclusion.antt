-- ===== src/Watcher/Lock/Exclusion.antt =====
-- Who owns a lock file: what Acquire and Release guarantee between processes, and where they do not.
use gocodemunch_mcp.Base.{
  Text, text_eq_refl, lookup, insert, delete, lookup-insert, lookup-delete, ◌≡◌, ◌≢◌, refl, ◌∙◌,
  Bool, true, false, Option, none, some, Option-cases, if◌then◌else◌, arith, ◌⊎◌, inl, inr,
}
use gocodemunch_mcp.Base.Int.{ℤ, is_pos}
use gocodemunch_mcp.Watcher.Lock.{
  LockFile, Files, FolderLockManager, TryFault, no_fault, open_fails, payload_fails, lock_refused,
  try_acquire_lock, is_stale_lock, AcquireFaults, LockResult, yes_acquired, not_acquired, LockState,
  remove_file, normalize_watched_folder, acquire, acquire_check, acquire_take, acquire_normalized,
  after_try, Stage, ends, goes_on, release, releases, released,
}

-- No fault in any call to the system.
abbrev pub no_faults : AcquireFaults
no_faults = record { first = no_fault; read_fails = false; remove_fails = false; second = no_fault }

written :
    (path : Text) (file : LockFile) (files : Files)
    → lookup path (insert path file files) ≡ some file
written path file files = lookup-insert path path file files ∙ rw (text_eq_refl path)

removed : (path : Text) (files : Files) → lookup path (delete path files) ≡ none
removed path files = lookup-delete path path files ∙ rw (text_eq_refl path)

module _ (resolve : Text → Option Text) (lock_path : Text → Text) (is_pid_alive : ℤ → Bool) where
  -- A file at the lock path whose payload names a live process.
  abbrev pub OwnedBy : ℤ → Text → Files → Type 0
  OwnedBy q folder files = lookup (lock_path folder) files ≡ some (record { pid = some q })

  -- A manager that has won holds the folder, and its process stands in the lock file.
  abbrev Won : Text → FolderLockManager → LockResult × LockState → Type 0
  Won folder m (result, st) =
      result ≡ yes_acquired
      → (lookup folder st.manager.held ≡ some tt) × OwnedBy m.pid folder st.files

  abbrev StageWon : Text → FolderLockManager → Stage → Type 0
  StageWon folder m (ends result st) = Won folder m (result, st)
  StageWon folder m (goes_on files) = Unit {0}

  after_try-Won :
      (fault : TryFault) (folder : Text) (st : LockState) (files : Files)
      → StageWon folder st.manager
          (after_try folder st (try_acquire_lock st.manager.pid fault (lock_path folder) files))
  unfolding after_try try_acquire_lock
  after_try-Won fault folder st files =
      Won_by fault (lookup-insert folder folder tt st.manager.held ∙ rw (text_eq_refl folder))
        (written (lock_path folder) (record { pid = some st.manager.pid }) files)
    where
      Won_by :
          (fault : TryFault)
          → lookup folder (insert folder tt st.manager.held) ≡ some tt
          → OwnedBy st.manager.pid folder
              (insert (lock_path folder) (record { pid = some st.manager.pid }) files)
          → StageWon folder st.manager
              (after_try folder st (try_acquire_lock st.manager.pid fault (lock_path folder) files))
      Won_by no_fault a b = ground (arith, a, b)
      Won_by open_fails a b = ground arith
      Won_by payload_fails a b = ground arith
      Won_by lock_refused a b = ground arith

  check-Won :
      (faults : AcquireFaults) (folder : Text) (st : LockState)
      → StageWon folder st.manager (acquire_check resolve lock_path is_pid_alive faults folder st)
  unfolding acquire_check
  check-Won faults folder st = decide _ (after_try-Won faults.first folder st st.files)
    where
      decide :
          (stage : Stage)
          → StageWon folder st.manager stage
          → StageWon folder st.manager (elim stage [
            | ends result st' ↦ ends result st'
            | goes_on files ↦
                if is_stale_lock is_pid_alive faults.read_fails (lock_path folder) files
                then goes_on files
                else ends not_acquired (record st { files = files })
          ])
      decide (ends result st') w = w
      decide (goes_on files) w = ground arith

  take-Won :
      (faults : AcquireFaults) (folder : Text) (st : LockState) (files : Files)
      → Won folder st.manager (acquire_take resolve lock_path is_pid_alive faults folder st files)
  unfolding acquire_take
  take-Won faults folder st files = decide _ (
      after_try-Won faults.second folder st
        (remove_file faults.remove_fails (lock_path folder) files))
    where
      decide :
          (stage : Stage)
          → StageWon folder st.manager stage
          → Won folder st.manager (elim stage [
            | ends result st' ↦ (result, st')
            | goes_on rest ↦ (not_acquired, record st { files = rest })
          ])
      decide (ends result st') w = w
      decide (goes_on files) w = λ h. cc

  normalized-Won :
      (faults : AcquireFaults) (folder : Text) (st : LockState)
      → Won folder st.manager (acquire_normalized resolve lock_path is_pid_alive faults folder st)
  unfolding acquire_normalized
  normalized-Won faults folder st = decide _ (check-Won faults folder st)
    where
      decide :
          (stage : Stage)
          → StageWon folder st.manager stage
          → Won folder st.manager (elim stage [
            | ends result st' ↦ (result, st')
            | goes_on files ↦ acquire_take resolve lock_path is_pid_alive faults folder st files
          ])
      decide (ends result st') w = w
      decide (goes_on files) w = take-Won faults folder st files

  module _ (faults : AcquireFaults) (raw folder : Text) (st : LockState)
      (resolved : normalize_watched_folder resolve raw ≡ some folder) where
    -- While a live process owns the lock file, Acquire of any other manager changes nothing and
    -- does not acquire, whatever fails on the way, as long as the file can be read.
    pub acquire-OwnedBy :
        (q : ℤ)
        → OwnedBy q folder st.files
        → is_pos q ≡ true
        → is_pid_alive q ≡ true
        → faults.read_fails ≡ false
        → ((acquire resolve lock_path is_pid_alive faults raw st).1 ≡ st)
          × ((acquire resolve lock_path is_pid_alive faults raw st).0 ≢ yes_acquired)
    unfolding acquire acquire_normalized acquire_check acquire_take
    acquire-OwnedBy q owned positive alive readable = (ground arith, λ h. ground arith)

    -- A manager that acquires a lock holds the folder, and its own process stands in the lock file.
    pub acquire-owns :
        (acquire resolve lock_path is_pid_alive faults raw st).0 ≡ yes_acquired
        → (lookup folder (acquire resolve lock_path is_pid_alive faults raw st).1.manager.held
            ≡ some tt)
          × OwnedBy st.manager.pid folder
              (acquire resolve lock_path is_pid_alive faults raw st).1.files
    unfolding acquire
    acquire-owns h = elim (Option-cases (lookup folder st.manager.held)) [
      | inl free ↦ ground (arith, h, free, resolved, normalized-Won faults folder st)
      | inr (_, own) ↦ absurd (ground (arith, h, own, resolved))
    ]

    -- Where no file stands at the lock path, or one whose process is dead, Acquire of a folder that
    -- the manager does not hold yet succeeds if nothing fails on the way.
    pub acquire_free :
        lookup folder st.manager.held ≡ none
        → (lookup (lock_path folder) st.files ≡ none)
          ⊎ (is_stale_lock is_pid_alive false (lock_path folder) st.files ≡ true)
        → faults ≡ no_faults
        → (acquire resolve lock_path is_pid_alive faults raw st).0 ≡ yes_acquired
    unfolding acquire acquire_normalized acquire_check acquire_take
    acquire_free free absent fine = ground (
      arith,
      free,
      absent,
      fine,
      text_eq_refl (lock_path folder),
      lookup-delete (lock_path folder) (lock_path folder) st.files,
    )

  -- One lock, two managers: after the first has acquired it, and while its process lives, the
  -- second does not acquire it, whatever the first's call had to go through.
  pub acquire-acquire :
      (faults faults' : AcquireFaults) (raw raw' folder : Text) (st : LockState)
      (other : FolderLockManager)
      → normalize_watched_folder resolve raw ≡ some folder
      → normalize_watched_folder resolve raw' ≡ some folder
      → is_pos st.manager.pid ≡ true
      → is_pid_alive st.manager.pid ≡ true
      → faults'.read_fails ≡ false
      → (acquire resolve lock_path is_pid_alive faults raw st).0 ≡ yes_acquired
      → let files = (acquire resolve lock_path is_pid_alive faults raw st).1.files in
        (acquire resolve lock_path is_pid_alive faults' raw'
          (record { manager = other; files = files })).0
        ≢ yes_acquired
  acquire-acquire faults faults' raw raw' folder st other one two positive alive readable won =
      (acquire-OwnedBy faults' raw' folder _ two st.manager.pid
        (acquire-owns faults raw folder st one won).1 positive alive readable).1

  -- After a release with no fault by the manager that holds the folder, another manager that does
  -- not hold it acquires it, if nothing fails on the way.
  pub acquire-release :
      (raw raw' folder : Text) (st : LockState) (other : FolderLockManager)
      → normalize_watched_folder resolve raw ≡ some folder
      → normalize_watched_folder resolve raw' ≡ some folder
      → lookup folder st.manager.held ≡ some tt
      → lookup folder other.held ≡ none
      → let files = (release resolve lock_path releases raw st).1.files in
        ((release resolve lock_path releases raw st).0 ≡ released)
        × (lookup folder (release resolve lock_path releases raw st).1.manager.held ≡ none)
        × ((acquire resolve lock_path is_pid_alive no_faults raw'
              (record { manager = other; files = files })).0
            ≡ yes_acquired)
  unfolding release
  acquire-release raw raw' folder st other one two holds free = (
    ground (arith, one, holds),
    ground (arith, one, holds, lookup-delete folder folder st.manager.held, text_eq_refl folder),
    acquire_free no_faults raw' folder _ two free
        (inl (
          ground (
            arith,
            one,
            holds,
            text_eq_refl (lock_path folder),
            lookup-delete (lock_path folder) (lock_path folder) st.files,
          )))
        refl,
  )

  -- Two processes that have both found a stale lock file before either removes it both acquire the
  -- lock, since the second removes the first's new file: the check and the removal are not one step.
  pub acquire_take_race :
      (folder : Text) (files : Files) (a b : FolderLockManager)
      → is_stale_lock is_pid_alive false (lock_path folder) files ≡ true
      → let check = λ (m : FolderLockManager).
        acquire_check resolve lock_path is_pid_alive no_faults folder
          (record { manager = m; files = files }) in
        let take = λ (m : FolderLockManager) (now : Files).
          acquire_take resolve lock_path is_pid_alive no_faults folder
            (record { manager = m; files = now })
            now in
        (check a ≡ goes_on files)
        × (check b ≡ goes_on files)
        × ((take a files).0 ≡ yes_acquired)
        × ((take b (take a files).1.files).0 ≡ yes_acquired)
  unfolding acquire_check acquire_take
  acquire_take_race folder files a b stale =
      let path = lock_path folder in
      let gone = removed path files in
      let gone' = removed path (insert path (record { pid = some a.pid }) (delete path files)) in
      (
        ground (arith, stale),
        ground (arith, stale),
        ground (arith, gone),
        ground (arith, gone, gone'),
      )
