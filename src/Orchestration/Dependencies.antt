-- ===== src/Orchestration/Dependencies.antt =====
-- The dependency graph of files: bfsDependencyGraph of
-- src/internal/orchestration/handlers_retrieval.go. The queue and its levels are one list of pairs.
-- A depth below 0 acts as 0 does.
pub mod Rounds
pub mod Growth
pub mod Closed
pub mod Rows
pub mod Edges
pub mod Neighbors
use gocodemunch_mcp.Base.{
  ℕ, zero, suc, ◌+◌, Text, text_eq, Bool, true, false, ◌||◌, Option, none, some, List, [], ◌∷◌,
  ◌++◌, length, if◌then◌else◌, leb, Map, lookup, insert,
}

pub record DependencyGraphEdge : Type 0 where
  pub from : Text
  pub to : Text

abbrev pub Adjacency : Type 0
Adjacency = Map (List Text)

-- `adjacency[file]`, nothing for a missing key
unfoldable pub neighbors_of : Adjacency → Text → List Text
neighbors_of adjacency file = elim (lookup file adjacency) [ none ↦ [] | some row ↦ row ]

pub record BfsState : Type 0 where
  pub nodes : Map (Unit {0})
  pub edges : List DependencyGraphEdge
  pub visited : Map ℕ
  pub queue : List (Text × ℕ)

-- One round of the inner loop.
unfoldable pub visit_neighbor : Text → ℕ → Text → BfsState → BfsState
visit_neighbor current level neighbor st =
    let met : BfsState = record st {
      nodes = insert neighbor tt st.nodes;
      edges = st.edges ++ record { from = current; to = neighbor } ∷ [];
    } in
    elim (lookup neighbor st.visited) [
      | some seen ↦ met
      | none ↦ record met {
        visited = insert neighbor (suc level) st.visited;
        queue = st.queue ++ (neighbor, suc level) ∷ [];
      }
    ]

unfoldable pub visit_neighbors : Text → ℕ → List Text → BfsState → BfsState
unfolding visit_neighbor
visit_neighbors current level [] st = st
visit_neighbors current level (n ∷ ns) st =
    visit_neighbors current level ns (visit_neighbor current level n st)

-- One round of the outer loop, for the file that is taken from the queue.
unfoldable pub bfs_round : Adjacency → ℕ → Text × ℕ → BfsState → BfsState
unfolding visit_neighbors neighbors_of
bfs_round adjacency depth (current, level) st =
    if leb depth level
    then st
    else visit_neighbors current level (neighbors_of adjacency current) st

-- The outer loop, with fuel for its rounds.
unfoldable pub bfs_loop : Adjacency → ℕ → ℕ → BfsState → BfsState
unfolding bfs_round
bfs_loop adjacency depth zero st = st
bfs_loop adjacency depth (suc fuel) st = elim st.queue [
  | [] ↦ st
  | x ∷ queue ↦
      bfs_loop adjacency depth fuel (bfs_round adjacency depth x (record st { queue = queue }))
]

-- The targets of all edges of the graph.
unfoldable pub targets : Adjacency → List Text
targets [] = []
targets ((file, row) ∷ m) = row ++ targets m

unfoldable pub start_bfs : Text → BfsState
start_bfs start = record {
  nodes = (start, tt) ∷ [];
  edges = [];
  visited = (start, 0) ∷ [];
  queue = (start, 0) ∷ [];
}

unfoldable pub bfs_dependency_graph : Text → Adjacency → ℕ → BfsState
unfolding bfs_loop targets start_bfs
bfs_dependency_graph start adjacency depth =
    bfs_loop adjacency depth (suc (length (targets adjacency))) (start_bfs start)
