-- ===== src/Orchestration/Indexing/Remote.antt =====
-- How the index of a remote repository is brought up to date from the metadata of its tree and the
-- files that are fetched: buildRemoteIncrementalFetchPaths, planRemoteTreeFetch and
-- mergeRemoteIncrementalIndexState of src/internal/orchestration/handlers_indexing.go.
pub mod Lookups
pub mod Incremental
pub mod Equivalence
use gocodemunch_mcp.Base.{
  Text, codes, text_eq, trim_space, to_lower, is_empty, Map, lookup, insert, delete, Bool, true,
  false, not, ◌&&◌, ◌||◌, Option, none, some, List, [], ◌∷◌, if◌then◌else◌, ℕ, ◌+◌, has, keys,
  member, sort_strings,
}
use gocodemunch_mcp.Base.Int.{ℤ, pos}
use gocodemunch_mcp.Orchestration.Indexing.FileDiff.{FileDiff, diff_file_hashes}

-- What these functions read of storage.RepoIndex.
pub record RepoIndex : Type 0 where
  pub files : Map Text
  pub file_blob_shas : Map Text
  pub file_mtimes : Map ℤ

-- A Go set of strings
abbrev pub TextSet : Type 0
TextSet = Map (Unit {0})

-- `for _, p := range paths { set[p] = struct{}{} }`
unfoldable pub add_all : List Text → TextSet → TextSet
add_all [] set = set
add_all (p ∷ paths) set = add_all paths (insert p tt set)

-- `m[k]` of a map of strings, which is "" if it is missing
unfoldable pub text_at : Text → Map Text → Text
text_at k m = elim (lookup k m) [ none ↦ [] | some v ↦ v ]

-- `strings.TrimSpace(s) == ""`
abbrev pub is_blank_text : Text → Bool
is_blank_text s = is_empty (trim_space s)

unfoldable pub normalize_remote_blob_sha : Text → Text
normalize_remote_blob_sha raw = to_lower (trim_space raw)

-- The files of the tree that the index has no hash of.
unfoldable pub add_unhashed : List Text → Map Text → TextSet → TextSet
unfolding text_at
add_unhashed [] hashes set = set
add_unhashed (p ∷ paths) hashes set =
    add_unhashed paths hashes (if is_blank_text (text_at p hashes) then insert p tt set else set)

unfoldable pub build_remote_incremental_fetch_paths :
    List Text → Map Text → Map Text → Map Text → List Text
unfolding add_all add_unhashed
build_remote_incremental_fetch_paths source_files existing_hashes existing_blobs metadata_blobs =
    let diff = diff_file_hashes existing_blobs metadata_blobs in
    sort_strings (
      keys (
        add_unhashed source_files existing_hashes (add_all diff.created (add_all diff.changed []))))

pub record RemoteTreeFetchPlan : Type 0 where
  pub use_metadata_prefetch : Bool
  pub use_incremental_blob_diff : Bool
  pub fetch_paths : List Text

abbrev pub has_entries {ℓ} : {V : Type ℓ} → Map V → Bool
has_entries [] = false
has_entries (e ∷ m) = true

unfoldable pub plan_remote_tree_fetch :
    Bool → RepoIndex → List Text → Map Text → RemoteTreeFetchPlan
unfolding build_remote_incremental_fetch_paths
plan_remote_tree_fetch false existing source_files metadata_blobs = record {
  use_metadata_prefetch = false;
  use_incremental_blob_diff = false;
  fetch_paths = [];
}
plan_remote_tree_fetch true existing source_files metadata_blobs =
    if has_entries existing.file_blob_shas
    then record {
      use_metadata_prefetch = true;
      use_incremental_blob_diff = true;
      fetch_paths =
          build_remote_incremental_fetch_paths source_files existing.files existing.file_blob_shas
            metadata_blobs;
    }
    else record {
      use_metadata_prefetch = true;
      use_incremental_blob_diff = false;
      fetch_paths = source_files;
    }

unfoldable pub merge_counts : Map ℕ → Map ℕ → Map ℕ
merge_counts merged [] = merged
merge_counts merged ((reason, count) ∷ counts) =
    merge_counts
      (insert reason (elim (lookup reason merged) [ none ↦ 0 | some n ↦ n ] + count) merged) counts

unfoldable pub copy_counts : Map ℕ → Map ℕ → Map ℕ
copy_counts merged [] = merged
copy_counts merged ((reason, count) ∷ counts) = copy_counts (insert reason count merged) counts

unfoldable pub merge_discovery_skip_counts : Map ℕ → Map ℕ → Map ℕ
unfolding merge_counts copy_counts
merge_discovery_skip_counts metadata_counts content_counts =
    merge_counts (copy_counts [] metadata_counts) content_counts

-- `mergedFileHashes`, `mergedFileBlobSHAs` and `mergedFileMTimes`
pub record Merged : Type 0 where
  pub hashes : Map Text
  pub blobs : Map Text
  pub mtimes : Map ℤ

-- `m[k] = v` if the entry is there and passes the test
unfoldable pub keep_entry {ℓ} : {V : Type ℓ} → (V → Bool) → Text → Map V → Map V → Map V
keep_entry test k from m = elim (lookup k from) [
  | none ↦ m
  | some v ↦ if test v then insert k v m else m
]

-- One file of the metadata.
unfoldable pub carry_over : RepoIndex → Map Text → TextSet → Text → Merged → Merged
unfolding keep_entry text_at normalize_remote_blob_sha
carry_over existing metadata_blobs fetched p m =
    let blob = normalize_remote_blob_sha (text_at p metadata_blobs) in
    let blobs = if is_empty blob then m.blobs else insert p blob m.blobs in
    if has p fetched then record m { blobs = blobs } else record {
      hashes = keep_entry (λ h. not (is_blank_text h)) p existing.files m.hashes;
      blobs = blobs;
      mtimes = keep_entry (λ t. true) p existing.file_mtimes m.mtimes;
    }

unfoldable pub carry_over_all : RepoIndex → Map Text → TextSet → List Text → Merged → Merged
unfolding carry_over
carry_over_all existing metadata_blobs fetched [] m = m
carry_over_all existing metadata_blobs fetched (p ∷ paths) m =
    carry_over_all existing metadata_blobs fetched paths
      (carry_over existing metadata_blobs fetched p m)

unfoldable pub put_hashes : Map Text → Map Text → Map Text
put_hashes [] m = m
put_hashes ((p, hash) ∷ fetched) m =
    put_hashes fetched (if is_blank_text hash then m else insert p hash m)

unfoldable pub put_blobs : Map Text → Map Text → Map Text
unfolding normalize_remote_blob_sha
put_blobs [] m = m
put_blobs ((p, raw) ∷ fetched) m =
    let blob = normalize_remote_blob_sha raw in
    put_blobs fetched (if is_empty blob then m else insert p blob m)

unfoldable pub put_mtimes : Map ℤ → Map ℤ → Map ℤ
put_mtimes [] m = m
put_mtimes ((p, t) ∷ fetched) m = put_mtimes fetched (insert p t m)

-- The entries of files without a hash go. `range` over the map visits the keys that it had.
unfoldable pub drop_unhashed : List Text → Merged → Merged
drop_unhashed [] m = m
drop_unhashed (p ∷ paths) m = drop_unhashed paths (
    if has p m.hashes then m else record m { blobs = delete p m.blobs; mtimes = delete p m.mtimes })

-- A file with a hash has a blob and a time.
unfoldable pub fill_entry : Text → Text → Merged → Merged
unfolding text_at normalize_remote_blob_sha
fill_entry p hash m = record m {
  blobs =
      if is_empty (normalize_remote_blob_sha (text_at p m.blobs))
      then insert p hash m.blobs
      else m.blobs;
  mtimes = if has p m.mtimes then m.mtimes else insert p (pos 0) m.mtimes;
}

unfoldable pub fill_in : Map Text → Merged → Merged
unfolding fill_entry
fill_in [] m = m
fill_in ((p, hash) ∷ hashes) m = fill_in hashes (fill_entry p hash m)

unfoldable pub merge_remote_incremental_index_state :
    RepoIndex → List Text → Map Text → Map Text → Map Text → Map ℤ → List Text → List Text × Merged
unfolding add_all carry_over_all put_hashes put_blobs put_mtimes drop_unhashed fill_in
merge_remote_incremental_index_state existing source_files metadata_blobs fetched_hashes
      fetched_blobs fetched_mtimes fetched_paths =
    let carried =
      carry_over_all existing metadata_blobs (add_all fetched_paths []) source_files
        (record { hashes = []; blobs = []; mtimes = [] }) in
    let put : Merged = record {
      hashes = put_hashes fetched_hashes carried.hashes;
      blobs = put_blobs fetched_blobs carried.blobs;
      mtimes = put_mtimes fetched_mtimes carried.mtimes;
    } in
    let merged = fill_in put.hashes (drop_unhashed (keys put.blobs) put) in
    (sort_strings (keys merged.hashes), merged)
