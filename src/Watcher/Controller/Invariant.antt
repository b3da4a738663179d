-- ===== src/Watcher/Controller/Invariant.antt =====
-- The invariant of the controller's states and channels, kept by every method: a repository is
-- reindexing exactly while some reindex of it is active, its channel is open exactly then, no two
-- repositories share a channel, and a repository that is reindexing has a time since when it is
-- stale.
use gocodemunch_mcp.Base.{
  ℕ, ◌<◌, ◌≤◌, Text, lookup, insert, insert_cases, ◌≡◌, ◌≢◌, refl, sym, ◌∙◌, ap, subst, true, not,
  none, some, Option-cases, ltb, arith, ◌⊎◌, inl, inr,
}
use gocodemunch_mcp.Watcher.Controller.{
  RepoState, Channels, Controller, ensure_state, update_state, reindex_start, reindex_done,
  reindex_failed,
}

-- One repository's state over the channels.
pub record IsState (chs : Channels) (s : RepoState) : Type 0 where
  pub counts : s.reindexing ≡ ltb 0 s.active_reindexes
  pub open_while : chs.closed s.wait_ch ≡ not s.reindexing
  pub made : s.wait_ch < chs.next
  pub stale_while : s.reindexing ≡ true → s.stale_since ≢ none

pub record IsController (c : Controller) : Type 0 where
  pub each : (r : Text) (s : RepoState) → lookup r c.states ≡ some s → IsState c.channels s
  pub apart :
      (q r : Text) (s t : RepoState)
      → lookup q c.states ≡ some s
      → lookup r c.states ≡ some t
      → s.wait_ch ≡ t.wait_ch
      → q ≡ r

-- What a change of one state may do to the channels.
pub record IsEffect (s : RepoState) (chs : Channels) (s' : RepoState) (chs' : Channels)
    : Type 0 where
  pub result : IsState chs' s'
  pub grows : chs.next ≤ chs'.next
  pub others : (ch : ℕ) → ch < chs.next → ch ≢ s.wait_ch → chs'.closed ch ≡ chs.closed ch
  pub stays : (ch : ℕ) → ch < chs.next → chs.closed ch ≡ true → chs'.closed ch ≡ true
  pub channel :
      (s'.wait_ch ≡ s.wait_ch) ⊎ ((chs.next ≤ s'.wait_ch) × (chs'.closed s.wait_ch ≡ true))

pub reindex_start-IsEffect :
    (now : ℕ) (s : RepoState) (chs : Channels)
    → IsState chs s
    → IsEffect s chs (reindex_start now s chs).0 (reindex_start now s chs).1
unfolding reindex_start
reindex_start-IsEffect now s chs v = record {
  result = ground arith;
  grows = ground arith;
  others = λ ch h k. ground arith;
  stays = λ ch h k. ground arith;
  channel = ground arith;
}

pub reindex_done-IsEffect :
    (s : RepoState) (chs : Channels)
    → IsState chs s
    → IsEffect s chs (reindex_done s chs).0 (reindex_done s chs).1
unfolding reindex_done
reindex_done-IsEffect s chs v = record {
  result = ground arith;
  grows = ground arith;
  others = λ ch h k. ground arith;
  stays = λ ch h k. ground arith;
  channel = ground arith;
}

pub reindex_failed-IsEffect :
    (now : ℕ) (message : Text) (s : RepoState) (chs : Channels)
    → IsState chs s
    → IsEffect s chs (reindex_failed now message s chs).0 (reindex_failed now message s chs).1
unfolding reindex_failed
reindex_failed-IsEffect now message s chs v = record {
  result = ground arith;
  grows = ground arith;
  others = λ ch h k. ground arith;
  stays = λ ch h k. ground arith;
  channel = ground arith;
}

-- Start only makes sure that there is a state.
pub same-IsEffect : (s : RepoState) (chs : Channels) → IsState chs s → IsEffect s chs s chs
same-IsEffect s chs v = record {
  result = v;
  grows = omega arith;
  others = λ ch h k. refl;
  stays = λ ch h k. k;
  channel = inl refl;
}

-- What `ensure_state` hands to a method.
pub record IsBase (c : Controller) (repo : Text) (s : RepoState) (chs : Channels) : Type 0 where
  pub valid : IsState chs s
  pub grows : c.channels.next ≤ chs.next
  pub same : (ch : ℕ) → ch < c.channels.next → chs.closed ch ≡ c.channels.closed ch
  pub known :
      (lookup repo c.states ≡ some s)
      ⊎ ((lookup repo c.states ≡ none) × (c.channels.next ≤ s.wait_ch))

abbrev pub base : Text → Controller → RepoState × Channels
base repo c = ensure_state (lookup repo c.states) c.channels

pub base-IsBase :
    (c : Controller) (repo : Text) → IsController c → IsBase c repo (base repo c).0 (base repo c).1
base-IsBase c repo v = elim (Option-cases (lookup repo c.states)) [
  | inl e ↦ rw e (made e)
  | inr (s, e) ↦ rw e (found s e)
]
  where
    made :
        lookup repo c.states ≡ none
        → IsBase c repo (ensure_state none c.channels).0 (ensure_state none c.channels).1
    made e =
        unfold ensure_state in
        record {
          valid = ground arith;
          grows = ground arith;
          same = λ ch h. ground arith;
          known = inr (e, ground arith);
        }

    found :
        (s : RepoState)
        → lookup repo c.states ≡ some s
        → IsBase c repo (ensure_state (some s) c.channels).0 (ensure_state (some s) c.channels).1
    found s e =
        unfold ensure_state in
        record { valid = v.each repo s e; grows = ground arith; same = λ ch h. refl; known = inl e }

module _ (c : Controller) (repo : Text) {s s' : RepoState} {chs chs' : Channels}
    (v : IsController c) (b : IsBase c repo s chs) (e : IsEffect s chs s' chs') where
  -- A channel of another repository is not the one that the method may touch.
  other_channel :
      (r : Text) (t : RepoState)
      → repo ≢ r
      → lookup r c.states ≡ some t
      → (t.wait_ch < c.channels.next) × (t.wait_ch ≢ s.wait_ch)
  other_channel r t ne h = (
    (v.each r t h).made,
    λ same. ne (elim b.known [
      | inl k ↦ v.apart repo r s t k h (sym same)
      | inr (k, far) ↦ absurd (omega (arith, (v.each r t h).made))
    ]),
  )

  kept-IsState : (r : Text) (t : RepoState) → repo ≢ r → lookup r c.states ≡ some t → IsState chs' t
  kept-IsState r t ne h =
      let old = v.each r t h in
      let (made, far) = other_channel r t ne h in
      record {
        counts = old.counts;
        open_while =
            e.others t.wait_ch (omega (arith, b.grows)) far
            ∙ b.same t.wait_ch made
            ∙ old.open_while;
        made = omega (arith, b.grows, e.grows);
        stale_while = old.stale_while;
      }

  put-each :
      (r : Text) (t : RepoState) → lookup r (insert repo s' c.states) ≡ some t → IsState chs' t
  put-each r t h = elim (insert_cases repo r s' t c.states h) [
    | inl (here, new) ↦ subst (IsState chs') new e.result
    | inr (ne, old) ↦ kept-IsState r t ne old
  ]

  put_other :
      (r : Text) (t : RepoState) → repo ≢ r → lookup r c.states ≡ some t → s'.wait_ch ≢ t.wait_ch
  put_other r t ne h same =
      let (made, far) = other_channel r t ne h in
      elim e.channel [
        | inl kept ↦ far (sym same ∙ kept)
        | inr (fresh, _) ↦ absurd (omega (arith, b.grows))
      ]

  put-apart :
      (q r : Text) (t u : RepoState)
      → lookup q (insert repo s' c.states) ≡ some t
      → lookup r (insert repo s' c.states) ≡ some u
      → t.wait_ch ≡ u.wait_ch
      → q ≡ r
  put-apart q r t u h k same = elim (insert_cases repo q s' t c.states h) [
    | inl (q_here, t_new) ↦ elim (insert_cases repo r s' u c.states k) [
      | inl (r_here, u_new) ↦ sym q_here ∙ r_here
      | inr (ne, old) ↦
          absurd (put_other r u ne old (ap (λ (x : RepoState). x.wait_ch) t_new ∙ same))
    ]
    | inr (ne, old) ↦ elim (insert_cases repo r s' u c.states k) [
      | inl (r_here, u_new) ↦
          absurd (put_other q t ne old (ap (λ (x : RepoState). x.wait_ch) u_new ∙ sym same))
      | inr (_, old') ↦ v.apart q r t u old old' same
    ]
  ]

  put-IsController : IsController (record c { states = insert repo s' c.states; channels = chs' })
  put-IsController = record { each = put-each; apart = put-apart }

abbrev pub Keeps : (RepoState → Channels → RepoState × Channels) → Type 0
Keeps f = (s : RepoState) (chs : Channels) → IsState chs s → IsEffect s chs (f s chs).0 (f s chs).1

pub update_state-IsController :
    (f : RepoState → Channels → RepoState × Channels) (repo : Text) (c : Controller)
    → Keeps f
    → IsController c
    → IsController (update_state f repo c)
unfolding update_state
update_state-IsController f repo c keeps v =
    let b = base-IsBase c repo v in put-IsController c repo v b (keeps _ _ b.valid)
