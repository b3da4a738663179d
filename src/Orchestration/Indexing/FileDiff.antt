-- ===== src/Orchestration/Indexing/FileDiff.antt =====
-- What changed between the hashes of an index and those of a tree: diffFileHashes of
-- src/internal/orchestration/handlers_indexing.go. Its two loops visit the maps in any order.
use gocodemunch_mcp.Base.{
  Text, text_eq, text_eq_iff, Map, lookup, Distinct, Bool, false, not, ◌&&◌, Option, none, some,
  List, [], ◌∷◌, ◌≡◌, refl, ◌∙◌, if◌then◌else◌, arith, has, member, sort_strings,
  member-sort_strings, sort_strings-IsIncreasing, IsIncreasing, IsSimple, Option-cases, inl, inr,
}

pub record FileDiff : Type 0 where
  pub changed : List Text
  pub created : List Text
  pub deleted : List Text

-- The first loop: a file of the tree is created or changed or neither.
current_loop : Map Text → Map Text → FileDiff
current_loop existing [] = record { changed = []; created = []; deleted = [] }
current_loop existing ((file, hash) ∷ current) =
    let rest = current_loop existing current in
    elim (lookup file existing) [
      | none ↦ record rest { created = file ∷ rest.created }
      | some existing_hash ↦
          if text_eq existing_hash hash then rest else record rest { changed = file ∷ rest.changed }
    ]

-- The second one: a file that the tree has no more.
deleted_loop : Map Text → Map Text → List Text
deleted_loop [] current = []
deleted_loop ((file, hash) ∷ existing) current =
    let rest = deleted_loop existing current in if has file current then rest else file ∷ rest

unfoldable pub diff_file_hashes : Map Text → Map Text → FileDiff
unfolding current_loop deleted_loop
diff_file_hashes existing current =
    let loop = current_loop existing current in
    record {
      changed = sort_strings loop.changed;
      created = sort_strings loop.created;
      deleted = sort_strings (deleted_loop existing current);
    }

-- Two entries that both stand and differ.
abbrev pub differs : Option Text → Option Text → Bool
differs none b = false
differs (some a) none = false
differs (some a) (some b) = not (text_eq a b)

module _ (existing : Map Text) where
  current_loop-created :
      (f : Text) (current : Map Text)
      → member f (current_loop existing current).created ≡ (has f current && not (has f existing))
  unfolding current_loop member has lookup
  current_loop-created f [] = refl
  current_loop-created f ((g, h) ∷ current) = elim (Option-cases (lookup g existing)) [
    | inl e ↦ ground (arith, e, text_eq_iff g f, current_loop-created f current)
    | inr (w, e) ↦ ground (arith, e, text_eq_iff g f, current_loop-created f current)
  ]

  current_loop-changed :
      (f : Text) (current : Map Text)
      → Distinct current
      → member f (current_loop existing current).changed
        ≡ differs (lookup f existing) (lookup f current)
  unfolding current_loop member lookup
  current_loop-changed f [] d = ground arith
  current_loop-changed f ((g, h) ∷ current) (q, d) = elim (Option-cases (lookup g existing)) [
    | inl e ↦ ground (arith, e, q, text_eq_iff g f, current_loop-changed f current d)
    | inr (w, e) ↦ ground (arith, e, q, text_eq_iff g f, current_loop-changed f current d)
  ]

deleted_loop_lem :
    (f : Text) (existing current : Map Text)
    → member f (deleted_loop existing current) ≡ (has f existing && not (has f current))
unfolding deleted_loop member lookup has
deleted_loop_lem f [] current = refl
deleted_loop_lem f ((g, h) ∷ existing) current =
    ground (arith, text_eq_iff g f, deleted_loop_lem f existing current)

has-none : (k : Text) (m : Map Text) → lookup k m ≡ none → has k m ≡ false
unfolding has
has-none k m e = rw (e, has) refl

current_loop-IsSimple :
    (existing current : Map Text)
    → Distinct current
    → IsSimple (current_loop existing current).changed
      × IsSimple (current_loop existing current).created
unfolding current_loop
current_loop-IsSimple existing [] d = (tt, tt)
current_loop-IsSimple existing ((g, h) ∷ current) (q, d) = elim (Option-cases (lookup g existing)) [
  | inl e ↦ ground (
    arith,
    e,
    has-none g current q,
    current_loop-created existing g current,
    current_loop-IsSimple existing current d,
  )
  | inr (w, e) ↦ ground (
    arith,
    e,
    q,
    current_loop-changed existing g current d,
    current_loop-IsSimple existing current d,
  )
]

deleted_loop-IsSimple :
    (existing current : Map Text) → Distinct existing → IsSimple (deleted_loop existing current)
unfolding deleted_loop
deleted_loop-IsSimple [] current d = tt
deleted_loop-IsSimple ((g, h) ∷ existing) current (q, d) = ground (
  arith,
  q,
  has-none g existing q,
  deleted_loop_lem g existing current,
  deleted_loop-IsSimple existing current d,
)

-- A file is in exactly the one of the three lists that the two maps put it in, whatever order they
-- are visited in, and in none if they agree on it: it is created when only the tree has it, changed
-- when both have it with other hashes, and deleted when only the index has it. Each list is
-- strictly increasing.
pub diff_file_hashes_lem :
    (existing current : Map Text)
    → Distinct existing
    → Distinct current
    → ((f : Text)
        → (member f (diff_file_hashes existing current).created
            ≡ (has f current && not (has f existing)))
          × (member f (diff_file_hashes existing current).changed
              ≡ differs (lookup f existing) (lookup f current))
          × (member f (diff_file_hashes existing current).deleted
              ≡ (has f existing && not (has f current))))
      × IsIncreasing (diff_file_hashes existing current).created
      × IsIncreasing (diff_file_hashes existing current).changed
      × IsIncreasing (diff_file_hashes existing current).deleted
unfolding diff_file_hashes
diff_file_hashes_lem existing current d e = (
  λ f. (
    member-sort_strings f _ ∙ current_loop-created existing f current,
    member-sort_strings f _ ∙ current_loop-changed existing f current e,
    member-sort_strings f _ ∙ deleted_loop_lem f existing current,
  ),
  sort_strings-IsIncreasing _ (current_loop-IsSimple existing current e).1,
  sort_strings-IsIncreasing _ (current_loop-IsSimple existing current e).0,
  sort_strings-IsIncreasing _ (deleted_loop-IsSimple existing current d),
)
