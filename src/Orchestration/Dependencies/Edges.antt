-- ===== src/Orchestration/Dependencies/Edges.antt =====
-- Which edges the graph of src/internal/orchestration/handlers_retrieval.go has, forwards and
-- backwards.
use gocodemunch_mcp.Base.{
  Text, text_eq, text_eq_iff, Map, lookup, insert, lookup-insert, Distinct, insert-Distinct, Bool,
  true, false, ◌&&◌, ◌||◌, none, List, [], ◌∷◌, ◌++◌, ◌≡◌, refl, sym, ap, subst, ◌∙◌, if◌then◌else◌,
  arith, has, member, Bool-cases, inl, inr,
}
use gocodemunch_mcp.Orchestration.Dependencies.{Adjacency, neighbors_of}
use gocodemunch_mcp.Orchestration.Dependencies.Rows.{
  ImportRecord, RowState, no_rows, row_seen, add_to_row, is_edge, build_rows,
  build_dependency_adjacency, invert_row, invert_rows, invert_dependency_adjacency,
}
use gocodemunch_mcp.Orchestration.Indexing.Remote.Lookups.{has-insert}
use gocodemunch_mcp.Orchestration.Indexing.VectorIds.Members.{member-append}

-- An edge of a graph.
abbrev pub leads : Adjacency → Text → Text → Bool
leads adjacency source target = member target (neighbors_of adjacency source)

neighbors_of-insert :
    (k f : Text) (row : List Text) (m : Adjacency)
    → neighbors_of (insert k row m) f ≡ (if text_eq k f then row else neighbors_of m f)
unfolding neighbors_of
neighbors_of-insert k f row m = ground (arith, lookup-insert k f row m)

-- The set of a row holds the members of the row.
abbrev Agrees : RowState → Type 0
Agrees st = (f t : Text) → has t (row_seen f st) ≡ leads st.adjacency f t

row_seen-insert :
    (k f : Text) (set : Map (Unit {0})) (adjacency : Adjacency) (st : RowState)
    → row_seen f (record { adjacency = adjacency; seen = insert k set st.seen })
      ≡ (if text_eq k f then set else row_seen f st)
unfolding row_seen
row_seen-insert k f set adjacency st = ground (arith, lookup-insert k f set st.seen)

member-end :
    (z x : Text) (xs : List Text) → member z (xs ++ (x ∷ [])) ≡ (member z xs || text_eq x z)
member-end z x xs =
    member-append z xs (x ∷ []) ∙ ap (λ b. member z xs || b) (unfold member in ground arith)

module _ (s n : Text) (st : RowState) (a : Agrees st) where
  -- The target is in the row.
  row_kept :
      has n (row_seen s st) ≡ true
      → (f t : Text)
      → (has t (row_seen f (record st { seen = insert s (row_seen s st) st.seen }))
          ≡ leads st.adjacency f t)
        × (leads st.adjacency f t ≡ ((text_eq s f && text_eq n t) || leads st.adjacency f t))
  row_kept h f t = (
    elim (Bool-cases (text_eq s f)) [
      | inl e ↦
          rw (row_seen-insert s f (row_seen s st) st.adjacency st, e, (text_eq_iff s f).0 e) (a f t)
      | inr e ↦ rw (row_seen-insert s f (row_seen s st) st.adjacency st, e) (a f t)
    ],
    elim (Bool-cases (text_eq s f && text_eq n t)) [
      | inl e ↦
          let there : s ≡ f = (text_eq_iff s f).0 (ground (arith, e)) in
          let same : n ≡ t = (text_eq_iff n t).0 (ground (arith, e)) in
          rw e (sym (a f t) ∙ (rw (sym there, sym same) h))
      | inr e ↦ rw e refl
    ],
  )

  abbrev longer : RowState
  longer = record {
    adjacency = insert s (neighbors_of st.adjacency s ++ (n ∷ [])) st.adjacency;
    seen = insert s (insert n tt (row_seen s st)) st.seen;
  }

  row_longer :
      (f t : Text)
      → (has t (row_seen f longer) ≡ leads longer.adjacency f t)
        × (leads longer.adjacency f t ≡ ((text_eq s f && text_eq n t) || leads st.adjacency f t))
  row_longer f t = elim (Bool-cases (text_eq s f)) [
    | inl e ↦
        let there : s ≡ f = (text_eq_iff s f).0 e in
        rw
          (
            row_seen-insert s f (insert n tt (row_seen s st)) longer.adjacency st,
            neighbors_of-insert s f (neighbors_of st.adjacency s ++ (n ∷ [])) st.adjacency,
            e,
            there,
          )
          (
            ground (
              arith,
              has-insert n t tt (row_seen f st),
              a f t,
              member-end t n (neighbors_of st.adjacency f),
            ),
            ground (arith, member-end t n (neighbors_of st.adjacency f)),
          )
    | inr e ↦
        rw
          (
            row_seen-insert s f (insert n tt (row_seen s st)) longer.adjacency st,
            neighbors_of-insert s f (neighbors_of st.adjacency s ++ (n ∷ [])) st.adjacency,
            e,
          )
          (a f t, refl)
  ]

  leads-add_to_row :
      (f t : Text)
      → (has t (row_seen f (add_to_row s n st)) ≡ leads (add_to_row s n st).adjacency f t)
        × (leads (add_to_row s n st).adjacency f t
            ≡ ((text_eq s f && text_eq n t) || leads st.adjacency f t))
  unfolding add_to_row
  leads-add_to_row f t = elim (Bool-cases (has n (row_seen s st))) [
    | inl e ↦ rw (e, add_to_row) (row_kept e f t)
    | inr e ↦ rw (e, add_to_row) (row_longer f t)
  ]

-- Some record is an edge from one file to the other.
unfoldable pub imports : List ImportRecord → Text → Text → Bool
imports [] f t = false
imports (r ∷ records) f t =
    (is_edge r && (text_eq r.source_file f && text_eq r.resolved t)) || imports records f t

leads-build_rows :
    (records : List ImportRecord) (st : RowState) (f t : Text)
    → Agrees st
    → leads (build_rows records st).adjacency f t ≡ (imports records f t || leads st.adjacency f t)
unfolding build_rows imports
leads-build_rows [] st f t a = refl
leads-build_rows (r ∷ records) st f t a = elim (Bool-cases (is_edge r)) [
  | inl e ↦
      let step = leads-add_to_row r.source_file r.resolved st a in
      rw (e, build_rows)
        (leads-build_rows records (add_to_row r.source_file r.resolved st) f t (λ f t. (step f t).0)
          ∙ ground (arith, (step f t).1))
  | inr e ↦ rw (e, build_rows) (leads-build_rows records st f t a)
]

no_rows-Agrees : Agrees no_rows
unfolding has row_seen neighbors_of lookup member
no_rows-Agrees f t = refl

leads-invert_row :
    (source : Text) (targets : List Text) (st : RowState)
    → Agrees st
    → Agrees (invert_row source targets st)
      × ((f t : Text)
          → leads (invert_row source targets st).adjacency f t
            ≡ ((member f targets && text_eq source t) || leads st.adjacency f t))
unfolding invert_row member
leads-invert_row source [] st a = (a, λ f t. refl)
leads-invert_row source (target ∷ targets) st a =
    let step = leads-add_to_row target source st a in
    let (kept, more) =
      leads-invert_row source targets (add_to_row target source st) (λ f t. (step f t).0) in
    (kept, λ f t. ground (arith, more f t, (step f t).1))

leads_nothing : (m : Adjacency) (s t : Text) → lookup s m ≡ none → leads m s t ≡ false
unfolding neighbors_of
leads_nothing m s t e = rw (e, neighbors_of) (unfold member in refl)

leads-first :
    (source t : Text) (targets : List Text) (m : Adjacency) (f : Text)
    → leads ((source, targets) ∷ m) t f
      ≡ (if text_eq source t then member f targets else leads m t f)
unfolding neighbors_of lookup
leads-first source t targets m f = ground arith

or_and : (a b : Bool) → (false || ((a && true) || b)) ≡ (a || b)
or_and a b = ground arith

or_none_of : (a b c : Bool) → (a || ((b && false) || c)) ≡ (a || c)
or_none_of a b c = ground arith

leads-invert_rows :
    (adjacency : Adjacency) (st : RowState) (f t : Text)
    → Distinct adjacency
    → Agrees st
    → leads (invert_rows adjacency st).adjacency f t
      ≡ (leads adjacency t f || leads st.adjacency f t)
unfolding invert_rows
leads-invert_rows [] st f t d a = unfold neighbors_of lookup member in refl
leads-invert_rows ((source, targets) ∷ adjacency) st f t (e, d) a =
    let (kept, more) = leads-invert_row source targets st a in
    leads-invert_rows adjacency (invert_row source targets st) f t d kept
    ∙ elim (Bool-cases (text_eq source t)) [
      | inl k ↦
          let same : source ≡ t = (text_eq_iff source t).0 k in
          rw
            (
              more f t,
              k,
              leads_nothing adjacency t f (subst (λ x. lookup x adjacency ≡ none) same e),
              leads-first source t targets adjacency f,
              k,
            )
            (or_and (member f targets) (leads st.adjacency f t))
      | inr k ↦
          rw (more f t, k, leads-first source t targets adjacency f, k)
            (or_none_of (leads adjacency t f) (member f targets) (leads st.adjacency f t))
    ]

nothing_more : (f t : Text) (b : Bool) → (b || leads no_rows.adjacency f t) ≡ b
unfolding neighbors_of lookup member
nothing_more f t b = ground arith

build_rows-Distinct :
    (records : List ImportRecord) (st : RowState)
    → Distinct st.adjacency
    → Distinct (build_rows records st).adjacency
unfolding build_rows add_to_row
build_rows-Distinct [] st d = d
build_rows-Distinct (r ∷ records) st d = build_rows-Distinct records _ (
    ground (
      arith,
      d,
      insert-Distinct r.source_file (neighbors_of st.adjacency r.source_file ++ (r.resolved ∷ []))
          st.adjacency d,
    ))

-- The graph has an edge from one file to another exactly when some record that is an edge says so,
-- and the inverted graph has exactly the same edges the other way round.
pub build_dependency_adjacency-imports :
    (records : List ImportRecord) (f t : Text)
    → (leads (build_dependency_adjacency records) f t ≡ imports records f t)
      × (leads (invert_dependency_adjacency (build_dependency_adjacency records)) t f
          ≡ imports records f t)
unfolding build_dependency_adjacency invert_dependency_adjacency
build_dependency_adjacency-imports records f t =
    let forward = leads-build_rows records no_rows f t no_rows-Agrees ∙ nothing_more f t _ in
    (
      forward,
      leads-invert_rows (build_rows records no_rows).adjacency no_rows t f
            (build_rows-Distinct records no_rows tt) no_rows-Agrees
          ∙ nothing_more t f _
          ∙ forward,
    )
