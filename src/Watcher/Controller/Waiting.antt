-- ===== src/Watcher/Controller/Waiting.antt =====
-- No caller of WaitForFresh sleeps through the end of a reindex.
use gocodemunch_mcp.Base.{
  Map, ℕ, ◌<◌, Text, trim_space, lookup, insert, lookup-insert, text_eq, text_eq_iff, ◌≡◌, ◌≢◌, ◌∙◌,
  true, false, Bool-cases, some, Option-cases, List, ◌⊎◌, inl, inr, arith,
}
use gocodemunch_mcp.Base.Int.{ℤ}
use gocodemunch_mcp.Watcher.{RuntimeBackpressure}
use gocodemunch_mcp.Watcher.Controller.{RepoState, Channels, Controller, update_state}
use gocodemunch_mcp.Watcher.Controller.Query.{Waiter, blocked, wait_begin}
use gocodemunch_mcp.Watcher.Controller.Invariant.{
  IsController, IsBase, IsEffect, Keeps, base-IsBase, update_state-IsController,
}
use gocodemunch_mcp.Watcher.Controller.Steps.{Call, run, run-keeps}

-- While its channel is open, a waiter's repository is still on that channel.
pub record IsServed (w : Waiter) (c : Controller) : Type 0 where
  pub valid : IsController c
  pub made : w.wait_ch < c.channels.next
  pub served :
      c.channels.closed w.wait_ch ≡ false
      → (s : RepoState) × (lookup w.repo c.states ≡ some s) × (s.wait_ch ≡ w.wait_ch)

module _ (w : Waiter) (c : Controller) (repo : Text) {s s' : RepoState} {chs chs' : Channels}
    (v : IsServed w c) (b : IsBase c repo s chs) (e : IsEffect s chs s' chs') where
  open_before : chs'.closed w.wait_ch ≡ false → c.channels.closed w.wait_ch ≡ false
  open_before open_after = elim (Bool-cases (c.channels.closed w.wait_ch)) [
    | inl closed ↦
        let after =
          e.stays w.wait_ch (omega (arith, v.made, b.grows)) (b.same w.wait_ch v.made ∙ closed) in
        cc
    | inr open_still ↦ open_still
  ]

  put-here :
      repo ≡ w.repo
      → chs'.closed w.wait_ch ≡ false
      → (t : RepoState) → lookup w.repo c.states ≡ some t
      → t.wait_ch ≡ w.wait_ch
      → s'.wait_ch ≡ w.wait_ch
  put-here here open_after t l same = elim b.known [
    | inl k ↦
        let own : s ≡ t = ground (arith, here, k, l) in
        ground (arith, own, e.channel, same, open_after)
    | inr (k, _) ↦ absurd (ground (arith, here, k, l))
  ]

  put-served :
      chs'.closed w.wait_ch ≡ false
      → (t : RepoState) × (lookup w.repo (insert repo s' c.states) ≡ some t)
        × (t.wait_ch ≡ w.wait_ch)
  put-served open_after =
      let (t, l, same) = v.served (open_before open_after) in
      elim (Bool-cases (text_eq repo w.repo)) [
        | inl here ↦ (
          s',
          lookup-insert repo w.repo s' c.states ∙ rw here,
          put-here ((text_eq_iff repo w.repo).0 here) open_after t l same,
        )
        | inr there ↦ (t, lookup-insert repo w.repo s' c.states ∙ rw there l, same)
      ]

update_state-IsServed :
    (w : Waiter) (f : RepoState → Channels → RepoState × Channels) (repo : Text) (c : Controller)
    → Keeps f
    → IsServed w c
    → IsServed w (update_state f repo c)
unfolding update_state
update_state-IsServed w f repo c keeps v =
    let b = base-IsBase c repo v.valid in
    let e = keeps _ _ b.valid in
    record {
      valid = unfold update_state in update_state-IsController f repo c keeps v.valid;
      made = omega (arith, v.made, b.grows, e.grows);
      served = put-served w c repo v b e;
    }

tables-IsServed :
    (w : Waiter) (c : Controller) (watched : Map (Unit {0})) (runtime : Map RuntimeBackpressure)
    → IsServed w c
    → IsServed w (record c { watched = watched; runtime = runtime })
tables-IsServed w c watched runtime v = record {
  valid = record { each = v.valid.each; apart = v.valid.apart };
  made = v.made;
  served = v.served;
}

begin_registers :
    (now : ℕ) (repo : Text) (timeout_ms : ℤ) (c : Controller) (w : Waiter)
    → wait_begin now repo timeout_ms c ≡ blocked w
    → (s : RepoState) × (lookup w.repo c.states ≡ some s) × (s.wait_ch ≡ w.wait_ch)
unfolding wait_begin
begin_registers now repo timeout_ms c w h =
    elim (Option-cases (lookup (trim_space repo) c.states)) [
      | inl e ↦ absurd (ground arith)
      | inr (s, e) ↦ (s, ground arith, ground arith)
    ]

begin-IsServed :
    (now : ℕ) (repo : Text) (timeout_ms : ℤ) (c : Controller) (w : Waiter)
    → IsController c
    → wait_begin now repo timeout_ms c ≡ blocked w
    → IsServed w c
begin-IsServed now repo timeout_ms c w v h =
    let (s, l, same) = begin_registers now repo timeout_ms c w h in
    record { valid = v; made = omega (arith, (v.each w.repo s l).made); served = λ _. (s, l, same) }

-- A caller that blocks in WaitForFresh can go on once the reindexes of its repository have ended:
-- whatever calls come in between, from anyone, if after them no reindex of the repository is
-- active, the channel that the caller waits for is closed. So is it if the repository has meanwhile
-- gone on to another channel.
pub wait_begin-wakes :
    (now : ℕ) (repo : Text) (timeout_ms : ℤ) (c : Controller) (w : Waiter) (calls : List Call)
    (s : RepoState)
    → IsController c
    → wait_begin now repo timeout_ms c ≡ blocked w
    → lookup w.repo (run c calls).states ≡ some s
    → (s.active_reindexes ≡ 0) ⊎ (s.wait_ch ≢ w.wait_ch)
    → (run c calls).channels.closed w.wait_ch ≡ true
wait_begin-wakes now repo timeout_ms c w calls s v h l idle =
    let after =
      run-keeps (IsServed w) (update_state-IsServed w) (tables-IsServed w) c calls
        (begin-IsServed now repo timeout_ms c w v h) in
    elim (Bool-cases ((run c calls).channels.closed w.wait_ch)) [
      | inl closed ↦ closed
      | inr open_still ↦
          let (t, k, same) = after.served open_still in
          let one : s ≡ t = ground (arith, l, k) in
          absurd (
            ground (
              arith,
              one,
              idle,
              same,
              open_still,
              (after.valid.each w.repo t k).open_while,
              (after.valid.each w.repo t k).counts,
            ))
    ]
