-- ===== src/Orchestration/IndexingTests.antt =====
-- The theorems on the indexing handlers and on the dependency graph at concrete inputs.
use gocodemunch_mcp.Orchestration.Resilience.{split_batches}
use gocodemunch_mcp.Orchestration.Dependencies.Rows.{
  ImportRecord, is_edge, build_dependency_adjacency, invert_dependency_adjacency,
}
use gocodemunch_mcp.Orchestration.Dependencies.Edges.{
  leads, imports, build_dependency_adjacency-imports,
}
use gocodemunch_mcp.Base.{
  text_less, delete, trim_byte, trim_prefix, has_prefix, has_suffix, replace_byte, split, join,
  contains, base, ext, has_byte, Text, codes, trim_space, to_lower, text_eq, Map, lookup, insert,
  Distinct, Bool, true, false, not, ◌&&◌, none, some, List, [], ◌∷◌, ◌≡◌, refl, arith,
  if◌then◌else◌, has, keys, member, sort_strings, IsIncreasing, length, text_eq_iff, min, ◌-◌,
  path_match, subst, ◌∙◌, ◌⊎◌, inl, inr, Bool-cases,
}
use gocodemunch_mcp.Watcher.Paths.{path_text, clean}
use gocodemunch_mcp.Base.Int.{pos}
use gocodemunch_mcp.Orchestration.Indexing.FileDiff.{
  differs, diff_file_hashes, diff_file_hashes_lem,
}
use gocodemunch_mcp.Orchestration.Indexing.Remote.{
  text_at, normalize_remote_blob_sha, RepoIndex, is_blank_text,
  build_remote_incremental_fetch_paths, merge_remote_incremental_index_state,
}
use gocodemunch_mcp.Orchestration.Indexing.Remote.Incremental.{
  merge_remote_incremental_index_state-agrees,
}
use gocodemunch_mcp.Orchestration.Indexing.Remote.Equivalence.{
  merge_remote_incremental_index_state-full,
}
use gocodemunch_mcp.Orchestration.Indexing.VectorIds.{ids_at, sync_vector_index_metadata}
use gocodemunch_mcp.Orchestration.Indexing.VectorIds.Members.{IsId}
use gocodemunch_mcp.Orchestration.Indexing.VectorIds.InStep.{AreOwned, IsInStep}
use gocodemunch_mcp.Orchestration.Indexing.VectorIds.Store.{
  store_after, sync_vector_index_metadata-IsInStep,
}
use gocodemunch_mcp.Orchestration.Indexing.Screening.{
  classify_language, matches_ignore_pattern, should_skip_remote_path,
  is_likely_secret_path_with_exclusions, is_likely_binary_content, normalize_remote_tree_path,
  normalize_ignore_patterns, parse_gitignore_patterns,
}
use gocodemunch_mcp.Orchestration.Indexing.Discovery.{
  file_limit, Found, found, limit_result, limit_files, discovery_loop, screen_path, increment,
}
use gocodemunch_mcp.Orchestration.Indexing.Discovery.Runs.{
  content_file, discover_remote_source_files,
}
use gocodemunch_mcp.Orchestration.Indexing.Discovery.Screens.{
  IsSource, discover_remote_source_files-IsSource,
}
use gocodemunch_mcp.Orchestration.Indexing.Discovery.Accounts.{count_at}
use gocodemunch_mcp.Orchestration.Indexing.Discovery.Reasons.{
  left_out_for, times, times_none, discover_remote_source_files-times,
}

abbrev a : Text
a = codes "a"

abbrev b : Text
b = codes "b"

abbrev old_hashes : Map Text
old_hashes = (a, codes "h") ∷ []

-- One file is as it was, one is new.
abbrev full : Map Text
full = (b, codes "k") ∷ (a, codes "h") ∷ []

abbrev blobs : Map Text
blobs = (b, codes "y") ∷ (a, codes "x") ∷ []

abbrev index : RepoIndex
index = record { files = old_hashes; file_blob_shas = (a, codes "x") ∷ []; file_mtimes = [] }

old-Distinct : Distinct old_hashes
unfolding lookup
old-Distinct = (refl, tt)

full-Distinct : Distinct full
unfolding lookup text_eq
full-Distinct = (refl, (refl, tt))

diff_file_hashes_lem_example :
    ((f : Text)
      → (member f (diff_file_hashes old_hashes full).created
          ≡ (has f full && not (has f old_hashes)))
        × (member f (diff_file_hashes old_hashes full).changed
            ≡ differs (lookup f old_hashes) (lookup f full))
        × (member f (diff_file_hashes old_hashes full).deleted
            ≡ (has f old_hashes && not (has f full))))
    × IsIncreasing (diff_file_hashes old_hashes full).created
    × IsIncreasing (diff_file_hashes old_hashes full).changed
    × IsIncreasing (diff_file_hashes old_hashes full).deleted
diff_file_hashes_lem_example = diff_file_hashes_lem old_hashes full old-Distinct full-Distinct

abbrev files : List Text
files = b ∷ a ∷ []

abbrev fetched : Map Text
fetched = (b, codes "k") ∷ []

fetched-Distinct : Distinct fetched
unfolding lookup
fetched-Distinct = (refl, tt)

fetches_b :
    build_remote_incremental_fetch_paths files index.files index.file_blob_shas blobs ≡ b ∷ []
unfolding build_remote_incremental_fetch_paths sort_strings keys trim_space lookup text_eq insert
    diff_file_hashes
fetches_b = refl

blobs-Distinct : Distinct blobs
unfolding lookup text_eq
blobs-Distinct = (refl, (refl, tt))

of_tree : (p : Text) → has p blobs ≡ member p files
unfolding has lookup member
of_tree p = ground arith

full_of_tree : (p : Text) → member p files ≡ false → lookup p full ≡ none
unfolding lookup member
full_of_tree p h = ground (arith, h)

full_cases : (p h : Text) → lookup p full ≡ some h → (codes "k" ≡ h) ⊎ (codes "h" ≡ h)
unfolding lookup
full_cases p h e = elim (Bool-cases (text_eq b p)) [
  | inl k ↦ inl (ground (arith, e, k))
  | inr k ↦ inr (ground (arith, e, k))
]

hashed : (p h : Text) → lookup p full ≡ some h → is_blank_text h ≡ false
unfolding trim_space
hashed p h e = elim (full_cases p h e) [
  | inl q ↦ subst (λ x. is_blank_text x ≡ false) q refl
  | inr q ↦ subst (λ x. is_blank_text x ≡ false) q refl
]

same_content :
    (p blob h : Text)
    → lookup p index.file_blob_shas ≡ some blob
    → lookup p blobs ≡ some blob
    → lookup p index.files ≡ some h
    → lookup p full ≡ some h
unfolding lookup
same_content p blob h x y z = ground (arith, x, y, z, text_eq_iff a p, text_eq_iff b p)

fetched_here :
    (p : Text)
    → lookup p fetched ≡ (
        if member p
          (build_remote_incremental_fetch_paths files index.files index.file_blob_shas blobs)
        then lookup p full
        else none)
fetched_here p = rw fetches_b (unfold lookup member in ground arith)

merge_remote_incremental_index_state-full_example :
    ((p : Text)
      → lookup p
          (merge_remote_incremental_index_state index files blobs fetched [] [] (
            build_remote_incremental_fetch_paths files index.files index.file_blob_shas
              blobs)).1.hashes
        ≡ lookup p full)
    × ((merge_remote_incremental_index_state index files blobs fetched [] []
          (build_remote_incremental_fetch_paths files index.files index.file_blob_shas blobs)).0
        ≡ sort_strings (keys full))
merge_remote_incremental_index_state-full_example =
    merge_remote_incremental_index_state-full full index files blobs fetched [] []
      (old-Distinct, blobs-Distinct, fetched-Distinct) of_tree full_of_tree hashed same_content
      fetched_here full-Distinct

merge_remote_incremental_index_state-agrees_example :
    ((p : Text)
      → (member p (merge_remote_incremental_index_state index files blobs fetched [] [] files).0
          ≡ has p
              (merge_remote_incremental_index_state index files blobs fetched [] [] files).1.hashes)
        × (has p
              (merge_remote_incremental_index_state index files blobs fetched [] [] files).1.blobs
            ≡ has p
                (merge_remote_incremental_index_state index files blobs fetched [] []
                  files).1.hashes)
        × ((has p
                (merge_remote_incremental_index_state index files blobs fetched [] []
                  files).1.hashes
              && not (
                  has p
                    (merge_remote_incremental_index_state index files blobs fetched [] []
                      files).1.mtimes))
            ≡ false))
    × IsIncreasing (merge_remote_incremental_index_state index files blobs fetched [] [] files).0
merge_remote_incremental_index_state-agrees_example =
    merge_remote_incremental_index_state-agrees index files blobs fetched [] [] files

abbrev tree : Map Text
tree =
    (codes "../up.go", codes "c")
    ∷ (codes "m.go", codes "package m")
    ∷ (codes "n.go", codes "package n")
    ∷ (codes "build/x.go", codes "c")
    ∷ []

discover_remote_source_files-times_example :
    let why =
      left_out_for
        (parse_gitignore_patterns (codes "n.*"))
        (normalize_ignore_patterns [])
        []
        tree in
    let raws = sort_strings (keys tree) in
    (d : Found) × (discover_remote_source_files
        (λ s. s)
        (λ i. none)
        tree
        (codes "n.*")
        []
        []
        (pos 5)
        []
      ≡ found d)
    × (length d.source_files ≡ min (file_limit (pos 5)) (times_none why raws))
    × (count_at (lookup (codes "gitignore") d.skip_counts) ≡ (
        if text_eq (codes "file_limit") (codes "gitignore")
        then times_none why raws - file_limit (pos 5)
        else times why (codes "gitignore") raws))
discover_remote_source_files-times_example =
    discover_remote_source_files-times (λ s. s) tree [] (codes "n.*") [] [] (pos 5)
      (codes "gitignore")

-- One file of that tree is left out for a pattern, and one is kept.
tree-times :
    (times
        (left_out_for (parse_gitignore_patterns (codes "n.*")) [] [] tree)
        (codes "gitignore")
        (sort_strings (keys tree))
      ≡ 1)
    × (times_none
          (left_out_for (parse_gitignore_patterns (codes "n.*")) [] [] tree)
          (sort_strings (keys tree))
        ≡ 1)
unfolding times times_none sort_strings keys member normalize_remote_tree_path trim_byte trim_prefix
    has_prefix has_suffix trim_space replace_byte text_eq path_text clean split join contains insert
    lookup base ext has_byte to_lower text_at classify_language matches_ignore_pattern
    should_skip_remote_path is_likely_secret_path_with_exclusions is_likely_binary_content
    parse_gitignore_patterns normalize_ignore_patterns text_less path_match
tree-times = (refl, refl)

abbrev small_tree : Map Text
small_tree = (codes "m.go", codes "m") ∷ []

discovers_m :
    (d : Found) × (discover_remote_source_files (λ s. s) (λ i. none) small_tree [] [] [] (pos 5) []
      ≡ found d)
    × (member (codes "m.go") d.source_files ≡ true)
unfolding discover_remote_source_files limit_result limit_files discovery_loop content_file
    sort_strings keys member screen_path normalize_remote_tree_path trim_byte trim_prefix has_prefix
    has_suffix trim_space replace_byte text_eq path_text clean split join contains insert lookup
    base ext has_byte to_lower text_at increment normalize_remote_blob_sha classify_language
    matches_ignore_pattern should_skip_remote_path is_likely_secret_path_with_exclusions
    is_likely_binary_content parse_gitignore_patterns normalize_ignore_patterns
discovers_m = (_, refl, refl)

discover_remote_source_files-IsSource_example :
    IsSource (parse_gitignore_patterns []) (normalize_ignore_patterns []) [] (codes "m.go")
discover_remote_source_files-IsSource_example =
    discover_remote_source_files-IsSource (λ s. s) (λ i. none) small_tree [] [] [] [] (pos 5)
      discovers_m.0 (codes "m.go") discovers_m.1 discovers_m.2

-- The owner of an id is the path in front of its dash.
abbrev owner : Text → Text
owner [] = []
owner (c ∷ id) = c ∷ []

abbrev old_ids : Map (List Text)
old_ids = (a, codes "a1" ∷ []) ∷ (b, codes "b1" ∷ []) ∷ []

abbrev new_ids : Map (List Text)
new_ids = (a, codes "a2" ∷ []) ∷ []

-- A path with one id.
one-IsId :
    (q x p id : Text)
    → owner x ≡ q
    → IsId x
    → (text_eq q p && text_eq x id) ≡ true
    → (owner id ≡ p) × IsId id
one-IsId q x p id e i h =
    let same : x ≡ id = (text_eq_iff x id).0 (ground (arith, h)) in
    let there : q ≡ p = (text_eq_iff q p).0 (ground (arith, h)) in
    subst (λ y. (owner y ≡ p) × IsId y) same (e ∙ there, i)

old-AreOwned : AreOwned owner old_ids
unfolding ids_at lookup member trim_space
old-AreOwned p id h = elim (Bool-cases (text_eq a p)) [
  | inl k ↦ one-IsId a (codes "a1") p id refl (refl, refl) (ground (arith, h, k))
  | inr k ↦ one-IsId b (codes "b1") p id refl (refl, refl) (ground (arith, h, k))
]

new-AreOwned : AreOwned owner new_ids
unfolding ids_at lookup member trim_space
new-AreOwned p id h = one-IsId a (codes "a2") p id refl (refl, refl) (ground (arith, h))

apart : (p : Text) → (member p (a ∷ []) && member p (b ∷ [])) ≡ false
unfolding member
apart p = ground (arith, text_eq_iff a p, text_eq_iff b p)

abbrev in_store : Text → Bool
in_store id = member id (ids_at (owner id) old_ids)

writes :
    (sync_vector_index_metadata (λ ids. none) old_ids (a ∷ []) (b ∷ []) new_ids).chunk_ids
    ≡ some new_ids
unfolding sync_vector_index_metadata split_batches sort_strings keys lookup text_eq trim_space
    insert has text_less delete
writes = refl

sync_vector_index_metadata-IsInStep_example :
    AreOwned owner new_ids
    × IsInStep owner new_ids (
        store_after owner new_ids
          (a ∷ [])
          (sync_vector_index_metadata (λ ids. none) old_ids (a ∷ []) (b ∷ []) new_ids).deletion.gone
          in_store)
sync_vector_index_metadata-IsInStep_example =
    sync_vector_index_metadata-IsInStep owner (λ ids. none) in_store old_ids new_ids new_ids
      (a ∷ []) (b ∷ []) old-AreOwned new-AreOwned apart (λ id. refl) writes

abbrev records : List ImportRecord
records =
    record { source_file = a; resolved = b }
    ∷ record { source_file = a; resolved = a }
    ∷ record { source_file = a; resolved = b }
    ∷ []

build_dependency_adjacency-imports_example :
    (leads (build_dependency_adjacency records) a b ≡ true)
    × (leads (invert_dependency_adjacency (build_dependency_adjacency records)) b a ≡ true)
unfolding imports is_edge text_eq
build_dependency_adjacency-imports_example = build_dependency_adjacency-imports records a b
