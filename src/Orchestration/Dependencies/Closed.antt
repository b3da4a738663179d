-- ===== src/Orchestration/Dependencies/Closed.antt =====
-- What the search finds: the files within the depth, and their edges below it.
use gocodemunch_mcp.Base.{
  ℕ, zero, suc, ◌≤◌, ◌<◌, Text, text_eq_iff, text_eq_refl, true, none, some, List, ◌∷◌, length, leb,
  lookup, ◌≡◌, ◌≢◌, sym, ◌⊎◌, Option-cases, Bool-cases, subst, leb→le, inl, inr, arith,
}
use gocodemunch_mcp.Orchestration.Dependencies.{
  Adjacency, neighbors_of, BfsState, bfs_round, bfs_loop, start_bfs, bfs_dependency_graph, targets,
}
use gocodemunch_mcp.Orchestration.Dependencies.Rounds.{has, bfs_dependency_graph-queue, List-cases}
use gocodemunch_mcp.Orchestration.Dependencies.Growth.{waits, Grows, Same, visit_neighbors-Grows}

module _ (start : Text) (adjacency : Adjacency) (depth : ℕ) where
  -- A visited file below the depth waits or has all its neighbors visited; every other file than the
  -- first has been found from one that is a level nearer, below the depth; what waits is visited.
  pub record IsBfs (st : BfsState) : Type 0 where
    pub begins : lookup start st.visited ≡ some 0
    pub closed :
        (v : Text) (l : ℕ)
        → lookup v st.visited ≡ some l
        → (waits v l st.queue ≡ true)
          ⊎ (depth ≤ l)
          ⊎ ((n : Text) → has n (neighbors_of adjacency v) ≡ true → lookup n st.visited ≢ none)
    pub parent :
        (v : Text) (l : ℕ)
        → lookup v st.visited ≡ some l
        → ((v ≡ start) × (l ≡ 0))
          ⊎ ((u : Text) × (k : ℕ) × (l ≡ suc k)
              × (k < depth)
              × (lookup u st.visited ≡ some k)
              × (has v (neighbors_of adjacency u) ≡ true))
    pub queued : (v : Text) (l : ℕ) → waits v l st.queue ≡ true → lookup v st.visited ≡ some l
    pub same : (v : Text) → Same v st

  module _ (current : Text) (level : ℕ) (q : List (Text × ℕ)) (st : BfsState)
      (e : st.queue ≡ (current, level) ∷ q) (v : IsBfs st) where
    popped :
        (f : Text) (l : ℕ)
        → waits f l st.queue ≡ true
        → ((f ≡ current) × (l ≡ level)) ⊎ (waits f l q ≡ true)
    popped f l h = split (subst (λ r. waits f l r ≡ true) e h)
      where
        split :
            waits f l ((current, level) ∷ q) ≡ true
            → ((f ≡ current) × (l ≡ level)) ⊎ (waits f l q ≡ true)
        split h = unfold waits in ground (arith, h, text_eq_iff current f)

    kept : (f : Text) (l : ℕ) → waits f l q ≡ true → lookup f st.visited ≡ some l
    kept f l h =
        v.queued f l (subst (λ r. waits f l r ≡ true) (sym e) (unfold waits in ground (arith, h)))

    here : lookup current st.visited ≡ some level
    here = v.queued current level (
        subst (λ r. waits current level r ≡ true) (sym e)
          (unfold waits in ground (arith, text_eq_refl current)))

    rest : BfsState
    rest = record st { queue = q }

    deep-IsBfs : depth ≤ level → IsBfs rest
    unfolding rest
    deep-IsBfs deep = record {
      begins = v.begins;
      closed = λ f l h. elim (v.closed f l h) [
        | inl waiting ↦ elim (popped f l waiting) [
          | inl (same, at) ↦ inr (inl (omega (arith, at, deep)))
          | inr still ↦ inl still
        ]
        | inr more ↦ inr more
      ];
      parent = v.parent;
      queued = kept;
      same = v.same;
    }

    module _ (st' : BfsState) (g : Grows level (neighbors_of adjacency current) rest st')
        (shallow : level < depth) where
      all_covered :
          (f n : Text)
          → f ≡ current
          → has n (neighbors_of adjacency f) ≡ true
          → lookup n st'.visited ≢ none
      all_covered f n same h =
          g.covers n (subst (λ r. has n (neighbors_of adjacency r) ≡ true) same h)

      still_visited : (n : Text) → lookup n st.visited ≢ none → lookup n st'.visited ≢ none
      unfolding rest
      still_visited n h = elim (Option-cases (lookup n st.visited)) [
        | inl none_there ↦ absurd (h none_there)
        | inr (l, seen) ↦
            let after = g.stays n l seen in (λ none_there. ground (arith, after, none_there))
      ]

      grown-IsBfs : IsBfs st'
      unfolding rest
      grown-IsBfs = record {
        begins = g.stays start 0 v.begins;
        closed = λ f l h. elim (g.fresh f l h) [
          | inr (at, found, waiting) ↦ inl waiting
          | inl old ↦ elim (v.closed f l old) [
            | inl waiting ↦ elim (popped f l waiting) [
              | inl (same, at) ↦ inr (inr (λ n hn. all_covered f n same hn))
              | inr still ↦ inl (g.waiting f l still)
            ]
            | inr (inl deep) ↦ inr (inl deep)
            | inr (inr all) ↦ inr (inr (λ n hn. still_visited n (all n hn)))
          ]
        ];
        parent = λ f l h. elim (g.fresh f l h) [
          | inr (at, found, waiting) ↦
              inr (current, level, at, shallow, g.stays current level here, found)
          | inl old ↦ elim (v.parent f l old) [
            | inl first ↦ inl first
            | inr (u, k, at, below, seen, found) ↦ inr (u, k, at, below, g.stays u k seen, found)
          ]
        ];
        queued = λ f l h. elim (g.queued f l h) [
          | inl old ↦ g.stays f l (kept f l old)
          | inr seen ↦ seen
        ];
        same = λ f. g.same f (v.same f);
      }

    round-IsBfs : IsBfs (bfs_round adjacency depth (current, level) rest)
    unfolding bfs_round
    round-IsBfs = elim (Bool-cases (leb depth level)) [
      | inl deep ↦ rw deep (deep-IsBfs (omega (arith, leb→le depth level deep)))
      | inr shallow ↦ rw shallow (
          grown-IsBfs _ (visit_neighbors-Grows current level (neighbors_of adjacency current) rest)
            (ground (arith, shallow)))
    ]

  bfs_loop_next :
      (fuel : ℕ) (st : BfsState) (x : Text × ℕ) (q : List (Text × ℕ))
      → st.queue ≡ x ∷ q
      → bfs_loop adjacency depth fuel (bfs_round adjacency depth x (record st { queue = q }))
        ≡ bfs_loop adjacency depth (suc fuel) st
  unfolding bfs_loop
  bfs_loop_next fuel st x q e = ground (arith, e)

  bfs_loop-IsBfs : (fuel : ℕ) (st : BfsState) → IsBfs st → IsBfs (bfs_loop adjacency depth fuel st)
  unfolding bfs_loop rest
  bfs_loop-IsBfs zero st v = v
  bfs_loop-IsBfs (suc fuel) st v = elim (List-cases st.queue) [
    | inl done ↦ subst IsBfs (ground (arith, done)) v
    | inr ((current, level), q, e) ↦
        subst IsBfs (bfs_loop_next fuel st (current, level) q e)
          (bfs_loop-IsBfs fuel _ (round-IsBfs current level q st e v))
  ]

  start-IsBfs : IsBfs (start_bfs start)
  unfolding start_bfs lookup waits
  start-IsBfs = record {
    begins = ground (arith, text_eq_refl start);
    closed = λ f l h. inl (ground (arith, h));
    parent = λ f l h. inl (ground (arith, h, text_eq_iff start f));
    queued = λ f l h. ground (arith, h);
    same = λ f. ground arith;
  }

  found-IsBfs : IsBfs (bfs_dependency_graph start adjacency depth)
  unfolding bfs_dependency_graph
  found-IsBfs = bfs_loop-IsBfs (suc (length (targets adjacency))) (start_bfs start) start-IsBfs

  -- The search is complete: a neighbor of a file that it has found at a level below the depth is one
  -- of its nodes.
  pub bfs_dependency_graph-closed :
      (v n : Text) (l : ℕ)
      → lookup v (bfs_dependency_graph start adjacency depth).visited ≡ some l
      → l < depth
      → has n (neighbors_of adjacency v) ≡ true
      → lookup n (bfs_dependency_graph start adjacency depth).nodes ≢ none
  bfs_dependency_graph-closed v n l seen below h = elim (found-IsBfs.closed v l seen) [
    | inl waiting ↦
        absurd (
          unfold waits in ground (arith, bfs_dependency_graph-queue start adjacency depth, waiting))
    | inr (inl deep) ↦ absurd (omega arith)
    | inr (inr all) ↦ λ none_there. all n h (ground (arith, none_there, found-IsBfs.same n))
  ]

  -- The search finds nothing else: a node is the first file, at level 0, or a neighbor of one that is
  -- found a level nearer, below the depth.
  pub bfs_dependency_graph-parent :
      (v : Text)
      → lookup v (bfs_dependency_graph start adjacency depth).nodes ≢ none
      → (l : ℕ) × (lookup v (bfs_dependency_graph start adjacency depth).visited ≡ some l)
        × (((v ≡ start) × (l ≡ 0))
            ⊎ ((u : Text) × (k : ℕ) × (l ≡ suc k)
                × (k < depth)
                × (lookup u (bfs_dependency_graph start adjacency depth).visited ≡ some k)
                × (has v (neighbors_of adjacency u) ≡ true)))
  bfs_dependency_graph-parent v node =
      elim (Option-cases (lookup v (bfs_dependency_graph start adjacency depth).visited)) [
        | inl e ↦ absurd (node (ground (arith, e, found-IsBfs.same v)))
        | inr (l, seen) ↦ (l, seen, found-IsBfs.parent v l seen)
      ]
