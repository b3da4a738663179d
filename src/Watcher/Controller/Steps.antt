-- ===== src/Watcher/Controller/Steps.antt =====
-- Histories of calls of the methods that change the controller, in any order and from any caller.
use gocodemunch_mcp.Base.{
  ℕ, delete, some, none, Text, trim_space, is_empty, lookup, Bool-cases, List, [], ◌∷◌, inl, inr,
  Map, insert, Option-cases,
}
use gocodemunch_mcp.Watcher.{RuntimeBackpressure}
use gocodemunch_mcp.Watcher.Controller.{
  RepoState, Channels, Controller, update_state, with_repo, mark_reindex_start, mark_reindex_done,
  mark_reindex_failed, publish_runtime_backpressure, clear_runtime_backpressure,
  new_state_controller, is_watched, mark_watched, watch, unwatch,
}
use gocodemunch_mcp.Watcher.Controller.Invariant.{
  IsController, Keeps, update_state-IsController, reindex_start-IsEffect, reindex_done-IsEffect,
  reindex_failed-IsEffect, same-IsEffect,
}

pub data Call : Type 0 where
  start : ℕ → Text → Call
  done : Text → Call
  fail : ℕ → Text → Text → Call
  publish : Text → RuntimeBackpressure → Call
  clear : Text → Call
  watching : Text → Call
  unwatching : Text → Call

unfoldable pub step : Controller → Call → Controller
step c (start now repo) = mark_reindex_start now repo c
step c (done repo) = mark_reindex_done repo c
step c (fail now repo message) = mark_reindex_failed now repo message c
step c (publish folder snapshot) = publish_runtime_backpressure folder snapshot c
step c (clear folder) = clear_runtime_backpressure folder c
step c (watching repo) = watch repo c
step c (unwatching repo) = unwatch repo c

unfoldable pub run : Controller → List Call → Controller
run c [] = c
run c (call ∷ calls) = run (step c call) calls

-- A property that every change of one repository's state keeps, and that does not depend on the
-- tables of watched repositories and of the runtime, is kept by every call.
module _ (P : Controller → Type 0)
    (updates : (f : RepoState → Channels → RepoState × Channels) (repo : Text) (c : Controller)
      → Keeps f
      → P c
      → P (update_state f repo c))
    (tables : (c : Controller) (watched : Map (Unit {0})) (runtime : Map RuntimeBackpressure)
      → P c
      → P (record c { watched = watched; runtime = runtime })) where
  with_repo-keeps :
      (repo : Text) (c : Controller) (act : Text → Controller)
      → P c
      → ((r : Text) → P (act r))
      → P (with_repo repo c act)
  with_repo-keeps repo c act p k = elim (Bool-cases (is_empty (trim_space repo))) [
    | inl e ↦ rw e p
    | inr e ↦ rw e (k (trim_space repo))
  ]

  pub step-keeps : (c : Controller) (call : Call) → P c → P (step c call)
  unfolding step mark_reindex_start mark_reindex_done mark_reindex_failed watch unwatch mark_watched
      publish_runtime_backpressure clear_runtime_backpressure
  step-keeps c (start now repo) p =
      with_repo-keeps repo c _ p (λ r. updates _ r c (reindex_start-IsEffect now) p)
  step-keeps c (done repo) p =
      with_repo-keeps repo c _ p (λ r. updates _ r c reindex_done-IsEffect p)
  step-keeps c (fail now repo message) p =
      with_repo-keeps repo c _ p (λ r. updates _ r c (reindex_failed-IsEffect now message) p)
  step-keeps c (publish folder snapshot) p =
      with_repo-keeps folder c _ p (λ f. tables c c.watched (insert f snapshot c.runtime) p)
  step-keeps c (clear folder) p =
      with_repo-keeps folder c _ p (λ f. tables c c.watched (delete f c.runtime) p)
  step-keeps c (watching repo) p =
      with_repo-keeps repo c (λ r. elim (is_watched r c) [ some w ↦ c | none ↦ mark_watched r c ]) p
        (λ r. elim (Option-cases (is_watched r c)) [
          | inl free ↦ rw free (
              updates (λ s chs. (s, chs)) r (record c { watched = insert r tt c.watched })
                same-IsEffect (tables c _ c.runtime p))
          | inr (w, taken) ↦ rw taken p
        ])
  step-keeps c (unwatching repo) p =
      with_repo-keeps repo c _ p (λ r. tables c (delete r c.watched) c.runtime p)

  pub run-keeps : (c : Controller) (calls : List Call) → P c → P (run c calls)
  unfolding run
  run-keeps c [] p = p
  run-keeps c (call ∷ calls) p = run-keeps (step c call) calls (step-keeps c call p)

tables-IsController :
    (c : Controller) (watched : Map (Unit {0})) (runtime : Map RuntimeBackpressure)
    → IsController c
    → IsController (record c { watched = watched; runtime = runtime })
tables-IsController c watched runtime v = record { each = v.each; apart = v.apart }

pub run-IsController :
    (c : Controller) (calls : List Call) → IsController c → IsController (run c calls)
run-IsController = run-keeps IsController update_state-IsController tables-IsController

-- After any calls on a new controller: each repository is reindexing exactly while some reindex of
-- it is active, its channel is open exactly then, and it is then stale; and no two repositories
-- share a channel.
pub run-new-IsController : (calls : List Call) → IsController (run new_state_controller calls)
run-new-IsController calls = run-IsController new_state_controller calls (
    unfold new_state_controller lookup in
    record { each = λ r s e. cc; apart = λ q r s t e f same. cc })
