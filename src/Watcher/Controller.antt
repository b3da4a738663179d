-- ===== src/Watcher/Controller.antt =====
-- The watcher's state controller: src/internal/watcher/state_controller.go. A time is a number of
-- nanoseconds, and `none` the zero time. A channel is a number, its state (open or closed) is kept
-- beside the repositories. Each method is one atomic step, as under the mutex; WaitForFresh is two,
-- since it blocks between them. The counters do not overflow.
pub mod Query
pub mod Invariant
pub mod Freshness
pub mod Steps
pub mod Waiting
pub mod Refinement
use gocodemunch_mcp.Base.{
  ℕ, zero, suc, ◌+◌, ◌-◌, ◌/◌, Text, trim_space, is_empty, Map, lookup, insert, delete, length,
  Bool, true, false, not, ◌&&◌, ◌||◌, Option, none, some, List, [], ◌∷◌, if◌then◌else◌, ltb, ◌==◌,
}
use gocodemunch_mcp.Base.Int.{ℤ, pos, negsuc, is_pos}
use gocodemunch_mcp.Watcher.{Status, RuntimeBackpressure}

pub record RepoState : Type 0 where
  pub active_reindexes : ℕ
  pub reindexing : Bool
  pub stale_since : Option ℕ
  pub last_error : Text
  pub consecutive_failure : ℕ
  pub wait_ch : ℕ

-- Every channel below `next` has been made.
pub record Channels : Type 0 where
  pub next : ℕ
  pub closed : ℕ → Bool

pub record Controller : Type 0 where
  pub watched : Map (Unit {0})
  pub states : Map RepoState
  pub runtime : Map RuntimeBackpressure
  pub channels : Channels

pub data WatchError : Type 0 where
  repo_required deadline_exceeded lock_failed : WatchError
  context_ended : Text → WatchError

unfoldable pub new_state_controller : Controller
new_state_controller = record {
  watched = [];
  states = [];
  runtime = [];
  channels = record { next = 0; closed = λ c. true };
}

-- make(chan struct{})
unfoldable pub make_channel : Channels → Channels
make_channel chs = record {
  next = suc chs.next;
  closed = λ c. if c == chs.next then false else chs.closed c;
}

-- `close` of a channel that is open
unfoldable pub close_channel : ℕ → Channels → Channels
close_channel ch chs = record chs { closed = λ c. if c == ch then true else chs.closed c }

-- A closed channel is left alone, so `close` never panics.
unfoldable pub close_signal : ℕ → Channels → Channels
close_signal ch chs = if chs.closed ch then chs else close_channel ch chs

fresh_state : ℕ → RepoState
fresh_state ch = record {
  active_reindexes = 0;
  reindexing = false;
  stale_since = none;
  last_error = [];
  consecutive_failure = 0;
  wait_ch = ch;
}

-- The state of the repository and the channels, with a new state on a closed channel if there was
-- none.
unfoldable pub ensure_state : Option RepoState → Channels → RepoState × Channels
unfolding fresh_state make_channel close_channel
ensure_state (some s) chs = (s, chs)
ensure_state none chs = (fresh_state chs.next, close_channel chs.next (make_channel chs))

-- A method that changes the state of one repository, which it makes if there is none.
unfoldable pub update_state :
    (RepoState → Channels → RepoState × Channels) → Text → Controller → Controller
unfolding ensure_state
update_state f repo c =
    let (s, chs) = ensure_state (lookup repo c.states) c.channels in
    let (s', chs') = f s chs in record c { states = insert repo s' c.states; channels = chs' }

-- `if s.IsZero() { s = time.Now() }`
abbrev pub or_now : Option ℕ → ℕ → Option ℕ
or_now none now = some now
or_now (some t) now = some t

unfoldable pub reindex_start : ℕ → RepoState → Channels → RepoState × Channels
unfolding make_channel
reindex_start now s chs =
    let started : RepoState = record s {
      active_reindexes = suc s.active_reindexes;
      reindexing = true;
      last_error = [];
      stale_since = or_now s.stale_since now;
    } in
    if s.active_reindexes == 0
    then (record started { wait_ch = chs.next }, make_channel chs)
    else (started, chs)

unfoldable pub reindex_done : RepoState → Channels → RepoState × Channels
unfolding close_signal close_channel
reindex_done s chs =
    let active = s.active_reindexes - 1 in
    if ltb 0 active then (record s { active_reindexes = active; reindexing = true }, chs) else (
      record s {
        active_reindexes = 0;
        reindexing = false;
        last_error = [];
        consecutive_failure = 0;
        stale_since = none;
      },
      close_signal s.wait_ch chs,
    )

unfoldable pub reindex_failed : ℕ → Text → RepoState → Channels → RepoState × Channels
unfolding close_signal close_channel
reindex_failed now message s chs =
    let active = s.active_reindexes - 1 in
    let failed : RepoState = record s {
      last_error = trim_space message;
      consecutive_failure = suc s.consecutive_failure;
      stale_since = or_now s.stale_since now;
    } in
    if ltb 0 active
    then (record failed { active_reindexes = active; reindexing = true }, chs)
    else (record failed { active_reindexes = 0; reindexing = false }, close_signal s.wait_ch chs)

-- `repo = strings.TrimSpace(repo); if repo == "" { return }`
abbrev pub with_repo {ℓ} : {A : Type ℓ} → Text → A → (Text → A) → A
with_repo repo missing run = if is_empty (trim_space repo) then missing else run (trim_space repo)

unfoldable pub mark_reindex_start : ℕ → Text → Controller → Controller
unfolding update_state
mark_reindex_start now repo c = with_repo repo c λ r. update_state (reindex_start now) r c

unfoldable pub mark_reindex_done : Text → Controller → Controller
unfolding update_state
mark_reindex_done repo c = with_repo repo c λ r. update_state reindex_done r c

unfoldable pub mark_reindex_failed : ℕ → Text → Text → Controller → Controller
unfolding update_state
mark_reindex_failed now repo message c =
    with_repo repo c λ r. update_state (reindex_failed now message) r c

unfoldable pub publish_runtime_backpressure : Text → RuntimeBackpressure → Controller → Controller
publish_runtime_backpressure folder snapshot c =
    with_repo folder c λ f. record c { runtime = insert f snapshot c.runtime }

unfoldable pub clear_runtime_backpressure : Text → Controller → Controller
clear_runtime_backpressure folder c =
    with_repo folder c λ f. record c { runtime = delete f c.runtime }

abbrev pub is_watched : Text → Controller → Option (Unit {0})
is_watched repo c = lookup repo c.watched

-- `c.watched[repo] = struct{}{}; c.ensureStateLocked(repo)`
unfoldable pub mark_watched : Text → Controller → Controller
unfolding update_state
mark_watched repo c =
    update_state (λ s chs. (s, chs)) repo (record c { watched = insert repo tt c.watched })

-- What Start does to the controller where its lock does not keep it from it.
unfoldable pub watch : Text → Controller → Controller
unfolding mark_watched
watch repo c = with_repo repo c λ r. elim (is_watched r c) [ some w ↦ c | none ↦ mark_watched r c ]

-- What Stop does to the controller.
unfoldable pub unwatch : Text → Controller → Controller
unwatch repo c = with_repo repo c λ r. record c { watched = delete r c.watched }
