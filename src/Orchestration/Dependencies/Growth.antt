-- ===== src/Orchestration/Dependencies/Growth.antt =====
-- What one round of the search adds.
use gocodemunch_mcp.Base.{
  ℕ, suc, Text, text_eq, text_eq_iff, Bool, true, false, ◌&&◌, Option, none, some, List, [], ◌∷◌,
  ◌++◌, if◌then◌else◌, ◌==◌, lookup, lookup-insert, ◌≡◌, ◌≢◌, ◌⊎◌, Option-cases, inl, inr, arith,
}
use gocodemunch_mcp.Orchestration.Dependencies.{BfsState, visit_neighbor, visit_neighbors}
use gocodemunch_mcp.Orchestration.Dependencies.Rounds.{has}

-- Whether a file waits in the queue at a level.
unfoldable pub waits : Text → ℕ → List (Text × ℕ) → Bool
waits v l [] = false
waits v l ((w, k) ∷ q) = if text_eq w v && (k == l) then true else waits v l q

waits-append :
    (v w : Text) (l k : ℕ) (q : List (Text × ℕ))
    → waits v l (q ++ (w, k) ∷ []) ≡ (if waits v l q then true else text_eq w v && (k == l))
unfolding waits
waits-append v w l k [] = ground arith
waits-append v w l k ((u, j) ∷ q) = ground (arith, waits-append v w l k q)

abbrev pub is_some {ℓ} : {A : Type ℓ} → Option A → Bool
is_some none = false
is_some (some a) = true

-- The nodes are the visited files.
abbrev pub Same : Text → BfsState → Type 0
Same v st = is_some (lookup v st.nodes) ≡ is_some (lookup v st.visited)

-- What the inner loop does to the search, for the neighbors `ns` of a file at `level`.
pub record Grows (level : ℕ) (ns : List Text) (st st' : BfsState) : Type 0 where
  pub stays : (v : Text) (l : ℕ) → lookup v st.visited ≡ some l → lookup v st'.visited ≡ some l
  pub covers : (n : Text) → has n ns ≡ true → lookup n st'.visited ≢ none
  pub waiting : (v : Text) (l : ℕ) → waits v l st.queue ≡ true → waits v l st'.queue ≡ true
  pub fresh :
      (v : Text) (l : ℕ)
      → lookup v st'.visited ≡ some l
      → (lookup v st.visited ≡ some l)
        ⊎ ((l ≡ suc level) × (has v ns ≡ true) × (waits v l st'.queue ≡ true))
  pub queued :
      (v : Text) (l : ℕ)
      → waits v l st'.queue ≡ true
      → (waits v l st.queue ≡ true) ⊎ (lookup v st'.visited ≡ some l)
  pub same : (v : Text) → Same v st → Same v st'

visit_neighbor-Grows :
    (current : Text) (level : ℕ) (n : Text) (st : BfsState)
    → Grows level (n ∷ []) st (visit_neighbor current level n st)
unfolding visit_neighbor has
visit_neighbor-Grows current level n st = record {
  stays = λ v l h. ground (arith, h, lookup-insert n v (suc level) st.visited, text_eq_iff n v);
  covers = λ m h. ground (arith, h, lookup-insert n m (suc level) st.visited, text_eq_iff n m);
  waiting = λ v l h. ground (arith, h, waits-append v n l (suc level) st.queue);
  fresh = λ v l h. ground (
    arith,
    h,
    lookup-insert n v (suc level) st.visited,
    text_eq_iff n v,
    waits-append v n l (suc level) st.queue,
  );
  queued = λ v l h. ground (
    arith,
    h,
    lookup-insert n v (suc level) st.visited,
    text_eq_iff n v,
    waits-append v n l (suc level) st.queue,
  );
  same = λ v h. ground (
    arith,
    h,
    lookup-insert n v (suc level) st.visited,
    lookup-insert n v tt st.nodes,
    text_eq_iff n v,
  );
}

pub visit_neighbors-Grows :
    (current : Text) (level : ℕ) (ns : List Text) (st : BfsState)
    → Grows level ns st (visit_neighbors current level ns st)
unfolding visit_neighbors has
visit_neighbors-Grows current level [] st = record {
  stays = λ v l h. h;
  covers = λ m h. absurd (ground (arith, h));
  waiting = λ v l h. h;
  fresh = λ v l h. inl h;
  queued = λ v l h. inl h;
  same = λ v h. h;
}
visit_neighbors-Grows current level (n ∷ ns) st =
    both (visit_neighbor current level n st)
      (visit_neighbors current level ns (visit_neighbor current level n st))
      (visit_neighbor-Grows current level n st)
      (visit_neighbors-Grows current level ns (visit_neighbor current level n st))
  where
    both :
        (mid end : BfsState)
        → Grows level (n ∷ []) st mid
        → Grows level ns mid end
        → Grows level (n ∷ ns) st end
    both mid end a b = record {
      stays = λ v l h. b.stays v l (a.stays v l h);
      covers = λ m h. elim (Option-cases (lookup m mid.visited)) [
        | inl new ↦ b.covers m (ground (arith, h, new, a.covers m))
        | inr (l, seen) ↦
            let still = b.stays m l seen in (λ none_there. ground (arith, still, none_there))
      ];
      waiting = λ v l h. b.waiting v l (a.waiting v l h);
      fresh = λ v l h. ground (arith, h, b.fresh v l, a.fresh v l, b.waiting v l);
      queued = λ v l h. ground (arith, h, b.queued v l, a.queued v l, b.stays v l);
      same = λ v h. b.same v (a.same v h);
    }
