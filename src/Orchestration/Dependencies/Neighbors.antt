-- ===== src/Orchestration/Dependencies/Neighbors.antt =====
-- What dedupeDependencyEdges and filterDependencyNeighbors of
-- src/internal/orchestration/handlers_retrieval.go leave.
use gocodemunch_mcp.Base.{
  Text, text_eq_iff, Map, lookup, insert, false, not, ◌&&◌, List, [], ◌∷◌, ◌≡◌, refl, ◌∙◌, arith,
  has, member, IsSimple, Bool-cases, inl, inr,
}
use gocodemunch_mcp.Orchestration.Dependencies.{DependencyGraphEdge}
use gocodemunch_mcp.Orchestration.Dependencies.Rows.{
  edge_key, dedupe_loop, dedupe_dependency_edges, filter_loop, filter_dependency_neighbors,
}
use gocodemunch_mcp.Orchestration.Indexing.Remote.Lookups.{has-insert}

-- The keys of some edges.
abbrev pub keys_of : List DependencyGraphEdge → List Text
keys_of [] = []
keys_of (e ∷ edges) = edge_key e ∷ keys_of edges

member-dedupe_loop :
    (z : Text) (seen : Map (Unit {0})) (edges : List DependencyGraphEdge)
    → member z (keys_of (dedupe_loop seen edges)) ≡ (member z (keys_of edges) && not (has z seen))
unfolding dedupe_loop member
member-dedupe_loop z seen [] = refl
member-dedupe_loop z seen (e ∷ edges) = elim (Bool-cases (has (edge_key e) seen)) [
  | inl k ↦
      rw (k, dedupe_loop)
        (member-dedupe_loop z seen edges ∙ ground (arith, k, text_eq_iff (edge_key e) z))
  | inr k ↦
      rw (k, dedupe_loop)
        (ground (
          arith,
          k,
          text_eq_iff (edge_key e) z,
          has-insert (edge_key e) z tt seen,
          member-dedupe_loop z (insert (edge_key e) tt seen) edges,
        ))
]

dedupe_loop-IsSimple :
    (seen : Map (Unit {0})) (edges : List DependencyGraphEdge)
    → IsSimple (keys_of (dedupe_loop seen edges))
unfolding dedupe_loop
dedupe_loop-IsSimple seen [] = tt
dedupe_loop-IsSimple seen (e ∷ edges) = elim (Bool-cases (has (edge_key e) seen)) [
  | inl k ↦ rw (k, dedupe_loop) (dedupe_loop-IsSimple seen edges)
  | inr k ↦
      rw (k, dedupe_loop)
        (
          member-dedupe_loop (edge_key e) (insert (edge_key e) tt seen) edges
              ∙ ground (
                arith,
                has-insert (edge_key e) (edge_key e) tt seen,
                text_eq_iff (edge_key e) (edge_key e),
              ),
          dedupe_loop-IsSimple (insert (edge_key e) tt seen) edges,
        )
]

member-filter_loop :
    (z : Text) (allowed seen : Map (Unit {0})) (items : List Text)
    → member z (filter_loop allowed seen items)
      ≡ (member z items && (has z allowed && not (has z seen)))
unfolding filter_loop member
member-filter_loop z allowed seen [] = refl
member-filter_loop z allowed seen (x ∷ items) = ground (
  arith,
  text_eq_iff x z,
  has-insert x z tt seen,
  member-filter_loop z allowed seen items,
  member-filter_loop z allowed (insert x tt seen) items,
)

filter_loop-IsSimple :
    (allowed seen : Map (Unit {0})) (items : List Text) → IsSimple (filter_loop allowed seen items)
unfolding filter_loop
filter_loop-IsSimple allowed seen [] = tt
filter_loop-IsSimple allowed seen (x ∷ items) = ground (
  arith,
  has-insert x x tt seen,
  text_eq_iff x x,
  member-filter_loop x allowed (insert x tt seen) items,
  filter_loop-IsSimple allowed seen items,
  filter_loop-IsSimple allowed (insert x tt seen) items,
)

has-nothing : (z : Text) → has {V = Unit {0}} z [] ≡ false
unfolding has
has-nothing z = unfold lookup in refl

-- Of the edges exactly one stays for each key that stands among them, and of the neighbors each one
-- that is allowed, once.
pub dependency_lists_lem :
    (edges : List DependencyGraphEdge) (items : List Text) (allowed : Map (Unit {0})) (z : Text)
    → (member z (keys_of (dedupe_dependency_edges edges)) ≡ member z (keys_of edges))
      × IsSimple (keys_of (dedupe_dependency_edges edges))
      × (member z (filter_dependency_neighbors items allowed) ≡ (member z items && has z allowed))
      × IsSimple (filter_dependency_neighbors items allowed)
unfolding dedupe_dependency_edges filter_dependency_neighbors
dependency_lists_lem edges items allowed z = (
  member-dedupe_loop z [] edges ∙ ground (arith, has-nothing z),
  dedupe_loop-IsSimple [] edges,
  member-filter_loop z allowed [] items ∙ ground (arith, has-nothing z),
  filter_loop-IsSimple allowed [] items,
)
