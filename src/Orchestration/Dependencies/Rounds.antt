-- ===== src/Orchestration/Dependencies/Rounds.antt =====
-- The search ends within its fuel.
use gocodemunch_mcp.Base.{
  ℕ, zero, suc, ◌+◌, ◌≤◌, ◌<◌, Text, text_eq, text_eq_iff, text_eq_refl, ◌⊎◌, Bool, true, false,
  none, some, List, [], ◌∷◌, ◌++◌, length, length-append, if◌then◌else◌, leb, Map, lookup, insert,
  lookup-insert, ◌≡◌, refl, ap, Bool-cases, inl, inr, arith, All,
}
use gocodemunch_mcp.Orchestration.Dependencies.{
  Adjacency, neighbors_of, BfsState, visit_neighbor, visit_neighbors, bfs_round, bfs_loop, targets,
  start_bfs, bfs_dependency_graph,
}

-- Whether a file stands in a list.
unfoldable pub has : Text → List Text → Bool
has f [] = false
has f (g ∷ gs) = if text_eq g f then true else has f gs

-- How many of the targets have not been visited.
unvisited : Map ℕ → List Text → ℕ
unvisited visited [] = 0
unvisited visited (t ∷ ts) =
    elim (lookup t visited) [ none ↦ 1 | some l ↦ 0 ] + unvisited visited ts

unvisited-le : (visited : Map ℕ) (ts : List Text) → unvisited visited ts ≤ length ts
unfolding unvisited
unvisited-le visited [] = omega arith
unvisited-le visited (t ∷ ts) = ground (arith, unvisited-le visited ts)

unvisited-insert_le :
    (f : Text) (level : ℕ) (visited : Map ℕ) (ts : List Text)
    → unvisited (insert f level visited) ts ≤ unvisited visited ts
unfolding unvisited
unvisited-insert_le f level visited [] = omega arith
unvisited-insert_le f level visited (t ∷ ts) =
    ground (arith, lookup-insert f t level visited, unvisited-insert_le f level visited ts)

unvisited-insert :
    (f : Text) (level : ℕ) (visited : Map ℕ) (ts : List Text)
    → lookup f visited ≡ none
    → has f ts ≡ true
    → unvisited (insert f level visited) ts < unvisited visited ts
unfolding unvisited has
unvisited-insert f level visited [] new h = absurd (ground (arith, h))
unvisited-insert f level visited (t ∷ ts) new h = ground (
  arith,
  new,
  h,
  text_eq_iff t f,
  text_eq_iff f t,
  lookup-insert f t level visited,
  unvisited-insert_le f level visited ts,
  unvisited-insert f level visited ts new,
)

-- What is left to do.
work : List Text → BfsState → ℕ
work ts st = length st.queue + unvisited st.visited ts

visit_neighbor-work :
    (ts : List Text) (current : Text) (level : ℕ) (n : Text) (st : BfsState)
    → has n ts ≡ true
    → work ts (visit_neighbor current level n st) ≤ work ts st
unfolding work visit_neighbor
visit_neighbor-work ts current level n st h = ground (
  arith,
  h,
  length-append st.queue ((n, suc level) ∷ []),
  unvisited-insert n (suc level) st.visited ts,
)

visit_neighbors-work :
    (ts : List Text) (current : Text) (level : ℕ) (ns : List Text) (st : BfsState)
    → All (λ n. has n ts ≡ true) ns
    → work ts (visit_neighbors current level ns st) ≤ work ts st
unfolding visit_neighbors
visit_neighbors-work ts current level [] st h = omega arith
visit_neighbors-work ts current level (n ∷ ns) st h = omega (
  arith,
  visit_neighbor-work ts current level n st h.0,
  visit_neighbors-work ts current level ns (visit_neighbor current level n st) h.1,
)

has-append_left : (f : Text) (xs ys : List Text) → has f xs ≡ true → has f (xs ++ ys) ≡ true
unfolding has
has-append_left f [] ys h = absurd (ground (arith, h))
has-append_left f (x ∷ xs) ys h = ground (arith, h, has-append_left f xs ys)

has-append_right : (f : Text) (xs ys : List Text) → has f ys ≡ true → has f (xs ++ ys) ≡ true
unfolding has
has-append_right f [] ys h = h
has-append_right f (x ∷ xs) ys h = ground (arith, has-append_right f xs ys h)

row-targets :
    (f n : Text) (m : Adjacency) → has n (neighbors_of m f) ≡ true → has n (targets m) ≡ true
unfolding neighbors_of targets lookup
row-targets f n [] h = absurd (unfold has in ground (arith, h))
row-targets f n ((g, row) ∷ m) h = elim (Bool-cases (text_eq g f)) [
  | inl here ↦ has-append_left n row (targets m) (ground (arith, h, here))
  | inr other ↦
      has-append_right n row (targets m)
        (row-targets f n m (unfold neighbors_of in ground (arith, h, other)))
]

pub All-has {κ} :
    (P : Text → Type κ) (ns : List Text) → ((n : Text) → has n ns ≡ true → P n) → All P ns
unfolding has
All-has P [] f = tt
All-has P (n ∷ ns) f =
    (f n (ground (arith, text_eq_refl n)), All-has P ns (λ m h. f m (ground (arith, h))))

bfs_round-work :
    (adjacency : Adjacency) (depth : ℕ) (x : Text × ℕ) (st : BfsState)
    → work (targets adjacency) (bfs_round adjacency depth x st) ≤ work (targets adjacency) st
unfolding bfs_round
bfs_round-work adjacency depth (current, level) st = elim (Bool-cases (leb depth level)) [
  | inl deep ↦ rw deep (omega arith)
  | inr shallow ↦ rw shallow (
      visit_neighbors-work (targets adjacency) current level (neighbors_of adjacency current) st (
        All-has (λ n. has n (targets adjacency) ≡ true) (neighbors_of adjacency current)
          (λ n h. row-targets current n adjacency h)))
]

empty_queue : (q : List (Text × ℕ)) → length q ≤ 0 → q ≡ []
empty_queue [] h = refl
empty_queue (x ∷ q) h = absurd (omega arith)

pub List-cases {ℓ} : {A : Type ℓ} (l : List A) → (l ≡ []) ⊎ ((x : A) × (xs : List A) × (l ≡ x ∷ xs))
List-cases [] = inl refl
List-cases (x ∷ xs) = inr (x, xs, refl)

bfs_loop-queue :
    (adjacency : Adjacency) (depth fuel : ℕ) (st : BfsState)
    → work (targets adjacency) st ≤ fuel
    → (bfs_loop adjacency depth fuel st).queue ≡ []
unfolding bfs_loop work
bfs_loop-queue adjacency depth zero st enough = empty_queue st.queue (omega arith)
bfs_loop-queue adjacency depth (suc fuel) st enough = elim (List-cases st.queue) [
  | inl done ↦ ground (arith, done)
  | inr (x, q, e) ↦ rw e (
      bfs_loop-queue adjacency depth fuel (bfs_round adjacency depth x (record st { queue = q })) (
        omega
          (arith, bfs_round-work adjacency depth x (record st { queue = q }), ap length e, enough)))
]

-- The search ends with an empty queue: its fuel, one round more than the graph has edges, is enough.
pub bfs_dependency_graph-queue :
    (start : Text) (adjacency : Adjacency) (depth : ℕ)
    → (bfs_dependency_graph start adjacency depth).queue ≡ []
unfolding bfs_dependency_graph
bfs_dependency_graph-queue start adjacency depth =
    bfs_loop-queue adjacency depth (suc (length (targets adjacency))) (start_bfs start)
      (unfold work start_bfs in omega (arith, unvisited-le ((start, 0) ∷ []) (targets adjacency)))
