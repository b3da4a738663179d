-- ===== src/Orchestration/Dependencies/Rows.antt =====
-- The building of the dependency graph: buildDependencyAdjacency, invertDependencyAdjacency,
-- dedupeDependencyEdges and filterDependencyNeighbors of
-- src/internal/orchestration/handlers_retrieval.go.
use gocodemunch_mcp.Base.{
  Text, text_eq, is_empty, Map, lookup, insert, Bool, not, ◌||◌, none, some, List, [], ◌∷◌, ◌++◌,
  if◌then◌else◌, has,
}
use gocodemunch_mcp.Orchestration.Dependencies.{Adjacency, neighbors_of, DependencyGraphEdge}

-- What is read of an importRecord.
pub record ImportRecord : Type 0 where
  pub source_file : Text
  pub resolved : Text

-- The rows so far, and the set of the members of each row.
pub record RowState : Type 0 where
  pub adjacency : Adjacency
  pub seen : Map (Map (Unit {0}))

abbrev pub no_rows : RowState
no_rows = record { adjacency = []; seen = [] }

-- `rowSeen`, which is made if it is missing
unfoldable pub row_seen : Text → RowState → Map (Unit {0})
row_seen source st = elim (lookup source st.seen) [ none ↦ [] | some set ↦ set ]

-- `target` behind the row of `source`, unless it is there.
unfoldable pub add_to_row : Text → Text → RowState → RowState
unfolding row_seen neighbors_of
add_to_row source target st =
    if has target (row_seen source st)
    then record st { seen = insert source (row_seen source st) st.seen }
    else record {
      adjacency = insert source (neighbors_of st.adjacency source ++ (target ∷ [])) st.adjacency;
      seen = insert source (insert target tt (row_seen source st)) st.seen;
    }

-- A record without a source or a target, or of a file that imports itself, is no edge.
unfoldable pub is_edge : ImportRecord → Bool
is_edge r = not (is_empty r.source_file || is_empty r.resolved || text_eq r.source_file r.resolved)

unfoldable pub build_rows : List ImportRecord → RowState → RowState
unfolding add_to_row
build_rows [] st = st
build_rows (r ∷ records) st =
    build_rows records (if is_edge r then add_to_row r.source_file r.resolved st else st)

unfoldable pub build_dependency_adjacency : List ImportRecord → Adjacency
unfolding build_rows
build_dependency_adjacency records = (build_rows records no_rows).adjacency

unfoldable pub invert_row : Text → List Text → RowState → RowState
unfolding add_to_row
invert_row source [] st = st
invert_row source (target ∷ targets) st = invert_row source targets (add_to_row target source st)

unfoldable pub invert_rows : Adjacency → RowState → RowState
unfolding invert_row
invert_rows [] st = st
invert_rows ((source, targets) ∷ adjacency) st =
    invert_rows adjacency (invert_row source targets st)

unfoldable pub invert_dependency_adjacency : Adjacency → Adjacency
unfolding invert_rows
invert_dependency_adjacency adjacency = (invert_rows adjacency no_rows).adjacency

-- `edge.From + "\x00" + edge.To`
abbrev pub edge_key : DependencyGraphEdge → Text
edge_key e = e.from ++ (0 ∷ e.to)

unfoldable pub dedupe_loop : Map (Unit {0}) → List DependencyGraphEdge → List DependencyGraphEdge
dedupe_loop seen [] = []
dedupe_loop seen (e ∷ edges) =
    let rest = dedupe_loop (insert (edge_key e) tt seen) edges in
    let skipped = dedupe_loop seen edges in if has (edge_key e) seen then skipped else e ∷ rest

unfoldable pub dedupe_dependency_edges : List DependencyGraphEdge → List DependencyGraphEdge
unfolding dedupe_loop
dedupe_dependency_edges edges = dedupe_loop [] edges

unfoldable pub filter_loop : Map (Unit {0}) → Map (Unit {0}) → List Text → List Text
filter_loop allowed seen [] = []
filter_loop allowed seen (item ∷ items) =
    let skipped = filter_loop allowed seen items in
    let rest = filter_loop allowed (insert item tt seen) items in
    if not (has item allowed) then skipped else if has item seen then skipped else item ∷ rest

unfoldable pub filter_dependency_neighbors : List Text → Map (Unit {0}) → List Text
unfolding filter_loop
filter_dependency_neighbors items allowed = filter_loop allowed [] items
