-- ===== src/Watcher/Controller/Refinement.antt =====
-- The contract of src/internal/watcher/state_controller.go for one repository, without the channels,
-- the table of repositories and the flag that the code keeps beside the count of active reindexes.
use gocodemunch_mcp.Base.{
  ℕ, suc, ◌-◌, Text, trim_space, is_empty, lookup, true, false, not, ◌&&◌, ◌||◌, Option, none, some,
  List, [], ◌∷◌, if◌then◌else◌, ltb, leb, text_eq, text_eq_iff, sym, ◌≡◌, refl, ap, inl, inr, arith,
  Bool-cases, Option-cases, subst, insert,
}
use gocodemunch_mcp.Watcher.{Status}
use gocodemunch_mcp.Watcher.Controller.{
  RepoState, Channels, Controller, update_state, with_repo, or_now, ensure_state, reindex_start,
  reindex_done, reindex_failed, mark_reindex_start, mark_reindex_done, mark_reindex_failed,
  publish_runtime_backpressure, clear_runtime_backpressure, new_state_controller, is_watched,
  mark_watched, watch, unwatch,
}
use gocodemunch_mcp.Watcher.Controller.Query.{
  status, failed, is_set, stale_ms, query, no_status, status_from_state, fresh_status, status_of,
}
use gocodemunch_mcp.Watcher.{Status}
use gocodemunch_mcp.Watcher.Controller.{repo_required}
use gocodemunch_mcp.Watcher.Controller.Freshness.{lookup-update_state}
use gocodemunch_mcp.Watcher.Controller.Steps.{
  Call, start, done, fail, publish, clear, watching, unwatching, step, run,
}

-- What a caller knows of a repository: how many reindexes are active, since when its index is
-- stale, the last error and how many reindexes have failed in a row.
record View : Type 0 where
  active : ℕ
  since : Option ℕ
  error : Text
  failures : ℕ

abbrev at_rest : View
at_rest = record { active = 0; since = none; error = []; failures = 0 }

abbrev started : ℕ → View → View
started now v = record v { active = suc v.active; since = or_now v.since now; error = [] }

abbrev ended : View → View
ended v = if ltb 1 v.active then record v { active = v.active - 1 } else at_rest

abbrev broken : ℕ → Text → View → View
broken now message v = record {
  active = v.active - 1;
  since = or_now v.since now;
  error = trim_space message;
  failures = suc v.failures;
}

-- What a call says of the repository `r`, if it is about it.
abbrev view_step : Text → View → Call → View
view_step r v (start now repo) = if text_eq (trim_space repo) r then started now v else v
view_step r v (done repo) = if text_eq (trim_space repo) r then ended v else v
view_step r v (fail now repo message) =
    if text_eq (trim_space repo) r then broken now message v else v
view_step r v (publish folder snapshot) = v
view_step r v (clear folder) = v
view_step r v (watching repo) = v
view_step r v (unwatching repo) = v

abbrev replay : Text → View → List Call → View
replay r v [] = v
replay r v (call ∷ calls) = replay r (view_step r v call) calls

abbrev view_status : ℕ → Text → View → Status
view_status now r v =
    let stale = ltb 0 v.active || is_set v.since in
    let reported = leb 2 v.failures && not (is_empty v.error) in
    record {
      repo = r;
      fresh = not stale;
      index_stale = stale;
      reindex_in_progress = ltb 0 v.active;
      stale_since_ms = stale_ms now v.since;
      last_error = if reported then v.error else [];
      reindex_failures = if reported then v.failures else 0;
    }

-- The view of a state of the code.
abbrev view_of : Option RepoState → View
view_of none = at_rest
view_of (some s) = record {
  active = s.active_reindexes;
  since = s.stale_since;
  error = s.last_error;
  failures = s.consecutive_failure;
}

abbrev Agrees : Option RepoState → Type 0
Agrees none = Unit
Agrees (some s) = s.reindexing ≡ ltb 0 s.active_reindexes

-- The state of the code stands for the view.
abbrev Shows : Text → View → Controller → Type 0
Shows r v c = (view_of (lookup r c.states) ≡ v) × Agrees (lookup r c.states)

module _ (f : RepoState → Channels → RepoState × Channels) (g : View → View)
    (same : (s : RepoState) (chs : Channels)
      → Agrees (some s)
      → (view_of (some (f s chs).0) ≡ g (view_of (some s))) × Agrees (some (f s chs).0)) where
  Shows-made :
      (o : Option RepoState) (chs : Channels)
      → Agrees o
      → (view_of (some (f (ensure_state o chs).0 (ensure_state o chs).1).0) ≡ g (view_of o))
        × Agrees (some (f (ensure_state o chs).0 (ensure_state o chs).1).0)
  unfolding ensure_state
  Shows-made none chs a = same _ _ refl
  Shows-made (some s) chs a = same s chs a

  Shows-update_state :
      (r repo : Text) (v : View) (c : Controller)
      → Shows r v c
      → Shows r (if text_eq repo r then g v else v) (update_state f repo c)
  Shows-update_state r repo v c (e, a) = elim (Bool-cases (text_eq repo r)) [
    | inl k ↦
        rw (lookup-update_state f repo r c, k, (text_eq_iff repo r).0 k, sym e)
          (Shows-made (lookup r c.states) c.channels a)
    | inr k ↦ rw (lookup-update_state f repo r c, k) (e, a)
  ]

blank_apart : (s r : Text) → is_empty s ≡ true → is_empty r ≡ false → text_eq s r ≡ false
unfolding text_eq
blank_apart [] [] h k = cc
blank_apart [] (x ∷ r) h k = refl
blank_apart (x ∷ s) r h k = cc

-- A method that trims its repository and does nothing for a blank one.
module _ (f : RepoState → Channels → RepoState × Channels) (g : View → View)
    (same : (s : RepoState) (chs : Channels)
      → Agrees (some s)
      → (view_of (some (f s chs).0) ≡ g (view_of (some s))) × Agrees (some (f s chs).0)) where
  Shows-with_repo :
      (r repo : Text) (v : View) (c : Controller)
      → is_empty r ≡ false
      → Shows r v c
      → Shows r
          (if text_eq (trim_space repo) r then g v else v)
          (with_repo repo c λ q. update_state f q c)
  Shows-with_repo r repo v c h s = elim (Bool-cases (is_empty (trim_space repo))) [
    | inl k ↦ rw (k, blank_apart (trim_space repo) r k h) s
    | inr k ↦ rw k (Shows-update_state f g same r (trim_space repo) v c s)
  ]

-- Start leaves what is known of every repository.
Shows-watch : (r repo : Text) (v : View) (c : Controller) → Shows r v c → Shows r v (watch repo c)
unfolding watch mark_watched
Shows-watch r repo v c s = elim (Bool-cases (is_empty (trim_space repo))) [
  | inl e ↦ rw e s
  | inr e ↦ elim (Option-cases (is_watched (trim_space repo) c)) [
    | inr (w, taken) ↦ rw (e, taken) s
    | inl free ↦
        rw (e, free)
          (subst (λ u. Shows r u (mark_watched (trim_space repo) c)) same_view
            (Shows-update_state (λ st chs. (st, chs)) (λ u. u) (λ st chs a. (refl, a)) r
              (trim_space repo) v (record c { watched = insert (trim_space repo) tt c.watched }) s))
  ]
]
  where
    same_view : (if text_eq (trim_space repo) r then v else v) ≡ v
    same_view = ground arith

Shows-step :
    (r : Text) (v : View) (c : Controller) (call : Call)
    → is_empty r ≡ false
    → Shows r v c
    → Shows r (view_step r v call) (step c call)
unfolding step mark_reindex_start mark_reindex_done mark_reindex_failed unwatch
Shows-step r v c (start now repo) h s =
    Shows-with_repo (reindex_start now) (started now)
      (unfold reindex_start in λ s chs a. ground arith) r repo v c h s
Shows-step r v c (done repo) h s =
    Shows-with_repo reindex_done ended (unfold reindex_done in λ s chs a. ground arith) r repo v c h
      s
Shows-step r v c (fail now repo message) h s =
    Shows-with_repo (reindex_failed now message) (broken now message)
      (unfold reindex_failed in λ s chs a. ground arith) r repo v c h s
Shows-step r v c (publish folder snapshot) h s =
    unfold publish_runtime_backpressure in
    elim (Bool-cases (is_empty (trim_space folder))) [ inl e ↦ rw e s | inr e ↦ rw e s ]
Shows-step r v c (clear folder) h s =
    unfold clear_runtime_backpressure in
    elim (Bool-cases (is_empty (trim_space folder))) [ inl e ↦ rw e s | inr e ↦ rw e s ]
Shows-step r v c (watching repo) h s = Shows-watch r repo v c s
Shows-step r v c (unwatching repo) h s = elim (Bool-cases (is_empty (trim_space repo))) [
  | inl e ↦ rw e s
  | inr e ↦ rw e s
]

Shows-run :
    (r : Text) (v : View) (c : Controller) (calls : List Call)
    → is_empty r ≡ false
    → Shows r v c
    → Shows r (replay r v calls) (run c calls)
unfolding run
Shows-run r v c [] h s = s
Shows-run r v c (call ∷ calls) h s =
    Shows-run r (view_step r v call) (step c call) calls h (Shows-step r v c call h s)

status_from_state_lem :
    (now : ℕ) (r : Text) (s : RepoState)
    → Agrees (some s)
    → status_from_state now r s false ≡ view_status now r (view_of (some s))
unfolding status_from_state
status_from_state_lem now r s a = ground arith

query-Shows :
    (now : ℕ) (repo : Text) (v : View) (c : Controller)
    → is_empty (trim_space repo) ≡ false
    → Shows (trim_space repo) v c
    → query now repo c ≡ status (view_status now (trim_space repo) v)
unfolding query
query-Shows now repo v c h (e, a) =
    rw (h, sym e) (ap status (shown (lookup (trim_space repo) c.states) a))
  where
    shown :
        (o : Option RepoState)
        → Agrees o
        → status_of now (trim_space repo) false o ≡ view_status now (trim_space repo) (view_of o)
    shown none a = unfold fresh_status stale_ms in refl
    shown (some s) a = status_from_state_lem now (trim_space repo) s a

-- Whatever calls the controller has served, Query answers for a repository what the calls about
-- that repository alone, replayed on its abstract state, say: the calls about other repositories and
-- about folders, the channels and the blanks around a name do not matter.
pub query-run_refines :
    (now : ℕ) (repo : Text) (calls : List Call)
    → query now repo (run new_state_controller calls) ≡ (
        if is_empty (trim_space repo)
        then failed no_status repo_required
        else status (view_status now (trim_space repo) (replay (trim_space repo) at_rest calls)))
query-run_refines now repo calls = elim (Bool-cases (is_empty (trim_space repo))) [
  | inl h ↦ unfold query in rw h refl
  | inr h ↦ rw h (
      query-Shows now repo _ _ h (
        Shows-run (trim_space repo) at_rest new_state_controller calls h
          (unfold new_state_controller lookup in (refl, tt))))
]
