-- ===== src/Watcher/Controller/Freshness.antt =====
-- What Query and WaitForFresh say after the calls that end a reindex, and that repositories do not
-- disturb one another.
use gocodemunch_mcp.Base.{
  ℕ, suc, ◌≤◌, Text, trim_space, is_empty, lookup, lookup-insert, text_eq, text_eq_iff,
  text_eq_refl, ◌≡◌, ◌≢◌, refl, ◌∙◌, true, false, some, [], ◌∷◌, ◌⊎◌, inl, inr, arith,
  if◌then◌else◌, ltb, ◌||◌,
}
use gocodemunch_mcp.Base.Int.{ℤ}
use gocodemunch_mcp.Watcher.{Status}
use gocodemunch_mcp.Watcher.Controller.{
  RepoState, Channels, Controller, update_state, with_repo, reindex_done, reindex_failed,
  reindex_start, mark_reindex_start, mark_reindex_done, mark_reindex_failed, ensure_state,
}
use gocodemunch_mcp.Watcher.Controller.Query.{
  status, query, status_from_state, fresh_status, returned, wait_begin,
}

-- The state that a repository has, or that a method would make for it.
abbrev pub state_of : Controller → Text → RepoState
state_of c repo = (ensure_state (lookup repo c.states) c.channels).0

pub lookup-update_state :
    (f : RepoState → Channels → RepoState × Channels) (repo r : Text) (c : Controller)
    → lookup r (update_state f repo c).states ≡ (
        if text_eq repo r
        then some (f (state_of c repo) (ensure_state (lookup repo c.states) c.channels).1).0
        else lookup r c.states)
unfolding update_state
lookup-update_state f repo r c = lookup-insert repo r _ c.states

-- When the last active reindex of a repository ends well, Query finds it fresh: nothing is stale,
-- nothing in progress, and earlier failures are forgotten.
pub query-mark_reindex_done :
    (now : ℕ) (repo : Text) (c : Controller)
    → is_empty (trim_space repo) ≡ false
    → (state_of c (trim_space repo)).active_reindexes ≤ 1
    → query now repo (mark_reindex_done repo c) ≡ status (fresh_status (trim_space repo))
unfolding query mark_reindex_done reindex_done
query-mark_reindex_done now repo c h last = ground (
  arith,
  h,
  lookup-update_state reindex_done (trim_space repo) (trim_space repo) c,
  text_eq_refl (trim_space repo),
)

-- While a reindex that has been started is active, Query says so, and a caller of WaitForFresh
-- with a positive timeout blocks.
pub query-mark_reindex_start :
    (now later : ℕ) (repo : Text) (c : Controller)
    → is_empty (trim_space repo) ≡ false
    → (st : Status) × (query later repo (mark_reindex_start now repo c) ≡ status st)
      × (st.fresh ≡ false)
      × (st.reindex_in_progress ≡ true)
unfolding query mark_reindex_start reindex_start
query-mark_reindex_start now later repo c h = (
  status_from_state later (trim_space repo) after false,
  ground (arith, h, stored),
  ground arith,
  ground arith,
)
  where
    after : RepoState
    after =
        (reindex_start now (state_of c (trim_space repo))
          (ensure_state (lookup (trim_space repo) c.states) c.channels).1).0

    stored :
        lookup (trim_space repo) (update_state (reindex_start now) (trim_space repo) c).states
        ≡ some after
    stored =
        lookup-update_state (reindex_start now) (trim_space repo) (trim_space repo) c
        ∙ rw (text_eq_refl (trim_space repo))

-- After the last active reindex of a repository has failed WaitForFresh returns at once. The index
-- counts as stale, a first failure is tolerated (`fresh`), and from the second failure in a row on it
-- is not; then the count is reported if the message is not blank.
pub wait_begin-mark_reindex_failed :
    (now later : ℕ) (repo message : Text) (timeout_ms : ℤ) (c : Controller)
    → is_empty (trim_space repo) ≡ false
    → (state_of c (trim_space repo)).active_reindexes ≤ 1
    → (st : Status) × (wait_begin later repo timeout_ms (mark_reindex_failed now repo message c)
        ≡ returned (status st))
      × (st.index_stale ≡ true)
      × (st.fresh ≡ ltb (state_of c (trim_space repo)).consecutive_failure 1)
      × (st.reindex_failures ≡ (
          if ltb (state_of c (trim_space repo)).consecutive_failure 1
            || is_empty (trim_space message)
          then 0
          else suc (state_of c (trim_space repo)).consecutive_failure))
unfolding wait_begin mark_reindex_failed reindex_failed
wait_begin-mark_reindex_failed now later repo message timeout_ms c h last = (
  status_from_state later (trim_space repo) after true,
  ground (arith, h, stored, last),
  ground (arith, last),
  ground (arith, last),
  ground (arith, last),
)
  where
    after : RepoState
    after =
        (reindex_failed now message (state_of c (trim_space repo))
          (ensure_state (lookup (trim_space repo) c.states) c.channels).1).0

    stored :
        lookup
          (trim_space repo)
          (update_state (reindex_failed now message) (trim_space repo) c).states
        ≡ some after
    stored =
        lookup-update_state (reindex_failed now message) (trim_space repo) (trim_space repo) c
        ∙ rw (text_eq_refl (trim_space repo))

blank_cases : (t : Text) → (t ≡ []) ⊎ (is_empty t ≡ false)
blank_cases [] = inl refl
blank_cases (x ∷ xs) = inr refl

-- Query behind a failure: stale, not reindexing, and with the message of the failure from the second
-- one in a row on.
pub query-mark_reindex_failed :
    (now later : ℕ) (repo message : Text) (c : Controller)
    → is_empty (trim_space repo) ≡ false
    → (state_of c (trim_space repo)).active_reindexes ≤ 1
    → (st : Status) × (query later repo (mark_reindex_failed now repo message c) ≡ status st)
      × (st.fresh ≡ false)
      × (st.index_stale ≡ true)
      × (st.reindex_in_progress ≡ false)
      × (st.last_error ≡ (
          if ltb (state_of c (trim_space repo)).consecutive_failure 1
          then []
          else trim_space message))
unfolding query mark_reindex_failed reindex_failed
query-mark_reindex_failed now later repo message c h last = (
  status_from_state later (trim_space repo) after false,
  ground (arith, h, stored, last),
  ground (arith, last),
  ground (arith, last),
  ground (arith, last),
  reported,
)
  where
    after : RepoState
    after =
        (reindex_failed now message (state_of c (trim_space repo))
          (ensure_state (lookup (trim_space repo) c.states) c.channels).1).0

    stored :
        lookup
          (trim_space repo)
          (update_state (reindex_failed now message) (trim_space repo) c).states
        ≡ some after
    stored =
        lookup-update_state (reindex_failed now message) (trim_space repo) (trim_space repo) c
        ∙ rw (text_eq_refl (trim_space repo))

    reported : (status_from_state later (trim_space repo) after false).last_error ≡ (
        if ltb (state_of c (trim_space repo)).consecutive_failure 1 then [] else trim_space message)
    reported = elim (blank_cases (trim_space message)) [
      | inl e ↦ ground (arith, last, e)
      | inr e ↦ ground (arith, last, e)
    ]

-- The calls that mark a reindex of another repository change no answer about this one.
pub query-mark_other :
    (at now : ℕ) (repo other message : Text) (c : Controller)
    → trim_space other ≢ trim_space repo
    → (query now repo (mark_reindex_start at other c) ≡ query now repo c)
      × (query now repo (mark_reindex_done other c) ≡ query now repo c)
      × (query now repo (mark_reindex_failed at other message c) ≡ query now repo c)
query-mark_other at now repo other message c apart = (
  unfold mark_reindex_start in kept (reindex_start at),
  unfold mark_reindex_done in kept reindex_done,
  unfold mark_reindex_failed in kept (reindex_failed at message),
)
  where
    kept :
        (f : RepoState → Channels → RepoState × Channels)
        → query now repo (with_repo other c λ r. update_state f r c) ≡ query now repo c
    kept f =
        unfold query in
        ground (
          arith,
          apart,
          lookup-update_state f (trim_space other) (trim_space repo) c,
          text_eq_iff (trim_space other) (trim_space repo),
        )
