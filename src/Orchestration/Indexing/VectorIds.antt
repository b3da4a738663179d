-- ===== src/Orchestration/Indexing/VectorIds.antt =====
-- The ids of the vectors that are stored for each file of a repository: normalizeUniqueVectorIDs,
-- diffVectorIDs, syncVectorIndexMetadata, deleteVectorRecordIDs and writeVectorChunkIDsByPath of
-- src/internal/orchestration/handlers_indexing.go, and normalizeChunkPath of chunking.go. What the
-- vector backend answers to each batch of deletions is an argument.
pub mod Members
pub mod InStep
pub mod Store
use gocodemunch_mcp.Base.{
  ℕ, zero, suc, Text, codes, trim_space, is_empty, has_prefix, trim_prefix, trim_byte, replace_byte,
  contains, text_eq, Map, lookup, insert, delete, Bool, true, false, not, ◌&&◌, ◌||◌, Option, none,
  some, List, [], ◌∷◌, ◌++◌, if◌then◌else◌, has, keys, member, sort_strings,
}
use gocodemunch_mcp.Base.Int.{pos}
use gocodemunch_mcp.Watcher.Paths.{slash, dots, clean, path_text}
use gocodemunch_mcp.Orchestration.Resilience.{VectorError, split_batches}

unfoldable pub normalize_chunk_path : Text → Text
normalize_chunk_path raw =
    let trimmed =
      trim_byte slash (trim_prefix (trim_space (replace_byte b'\\' slash raw)) (codes "./")) in
    if is_empty trimmed
    then []
    else let cleaned = path_text (clean trimmed) in
      if text_eq cleaned (codes ".") || text_eq cleaned dots || has_prefix cleaned (codes "../")
      then []
      else if contains cleaned (codes "/../")
      then []
      else cleaned

unfoldable pub collect_ids : List Text → Map (Unit {0}) → Map (Unit {0})
collect_ids [] unique = unique
collect_ids (raw ∷ ids) unique =
    collect_ids ids
      (if is_empty (trim_space raw) then unique else insert (trim_space raw) tt unique)

unfoldable pub normalize_unique_vector_ids : List Text → List Text
unfolding collect_ids
normalize_unique_vector_ids ids = sort_strings (keys (collect_ids ids []))

unfoldable pub stale_loop : Map (Unit {0}) → List Text → List Text
stale_loop next_set [] = []
stale_loop next_set (id ∷ ids) =
    let rest = stale_loop next_set ids in if has id next_set then rest else id ∷ rest

unfoldable pub set_of : List Text → Map (Unit {0}) → Map (Unit {0})
set_of [] set = set
set_of (id ∷ ids) set = set_of ids (insert id tt set)

unfoldable pub diff_vector_ids : List Text → List Text → List Text
unfolding stale_loop set_of normalize_unique_vector_ids
diff_vector_ids previous next =
    stale_loop (set_of (normalize_unique_vector_ids next) []) (normalize_unique_vector_ids previous)

-- `m[path]`, which is nil if it is missing
unfoldable pub ids_at : Text → Map (List Text) → List Text
ids_at p m = elim (lookup p m) [ none ↦ [] | some ids ↦ ids ]

unfoldable pub deleted_ids : Map (List Text) → List Text → List Text
unfolding ids_at
deleted_ids existing [] = []
deleted_ids existing (p ∷ paths) = ids_at p existing ++ deleted_ids existing paths

unfoldable pub replaced_ids : Map (List Text) → Map (List Text) → List Text → List Text
unfolding ids_at diff_vector_ids
replaced_ids existing upserted [] = []
replaced_ids existing upserted (p ∷ paths) =
    diff_vector_ids (ids_at p existing) (ids_at p upserted) ++ replaced_ids existing upserted paths

unfoldable pub delete_paths : List Text → Map (List Text) → Map (List Text)
delete_paths [] m = m
delete_paths (p ∷ paths) m = delete_paths paths (delete p m)

abbrev pub put_ids : Text → List Text → Map (List Text) → Map (List Text)
put_ids p [] m = delete p m
put_ids p (id ∷ ids) m = insert p (id ∷ ids) m

unfoldable pub put_paths : Map (List Text) → List Text → Map (List Text) → Map (List Text)
unfolding ids_at normalize_unique_vector_ids
put_paths upserted [] m = m
put_paths upserted (p ∷ paths) m =
    put_paths upserted paths (put_ids p (normalize_unique_vector_ids (ids_at p upserted)) m)

-- The batches in order, up to the first that fails; and the ids that are deleted.
pub record Deletion : Type 0 where
  pub error : Option VectorError
  pub gone : List Text

unfoldable pub delete_batches : (List Text → Option VectorError) → List (List Text) → Deletion
delete_batches backend [] = record { error = none; gone = [] }
delete_batches backend (batch ∷ batches) =
    let rest = delete_batches backend batches in
    elim (backend batch) [
      | some e ↦ record { error = some e; gone = [] }
      | none ↦ record rest { gone = batch ++ rest.gone }
    ]

abbrev pub default_vector_delete_batch_size : ℕ
default_vector_delete_batch_size = 256

-- With a namespace that is not blank, which the callers make from the repository's name.
unfoldable pub delete_vector_record_ids : (List Text → Option VectorError) → List Text → Deletion
unfolding delete_batches normalize_unique_vector_ids
delete_vector_record_ids backend ids =
    delete_batches backend
      (split_batches (normalize_unique_vector_ids ids) (pos default_vector_delete_batch_size))

-- The deletion, and the ids by path that are then written, if it has not failed.
pub record Sync : Type 0 where
  pub deletion : Deletion
  pub chunk_ids : Option (Map (List Text))

unfoldable pub stale_ids : Map (List Text) → List Text → List Text → Map (List Text) → List Text
unfolding deleted_ids replaced_ids normalize_unique_vector_ids
stale_ids existing upserted_paths deleted_paths upserted =
    normalize_unique_vector_ids
      (deleted_ids existing deleted_paths ++ replaced_ids existing upserted upserted_paths)

unfoldable pub sync_vector_index_metadata :
    (List Text → Option VectorError)
    → Map (List Text)
    → List Text
    → List Text
    → Map (List Text)
    → Sync
unfolding stale_ids delete_vector_record_ids delete_paths put_paths
sync_vector_index_metadata backend existing upserted_paths deleted_paths upserted =
    let deletion =
      delete_vector_record_ids backend (stale_ids existing upserted_paths deleted_paths upserted) in
    record {
      deletion = deletion;
      chunk_ids = elim deletion.error [
        | some e ↦ none
        | none ↦ some (put_paths upserted upserted_paths (delete_paths deleted_paths existing))
      ];
    }

abbrev pub keep_ids : Text → List Text → Map (List Text) → Map (List Text)
keep_ids p [] m = m
keep_ids p (id ∷ ids) m = insert p (id ∷ ids) m

-- What is written: under clean paths, and no path without ids.
unfoldable pub clean_chunk_ids : Map (List Text) → Map (List Text) → Map (List Text)
unfolding normalize_chunk_path normalize_unique_vector_ids
clean_chunk_ids [] cleaned = cleaned
clean_chunk_ids ((raw, ids) ∷ by_path) cleaned =
    let rel_path = normalize_chunk_path raw in
    clean_chunk_ids by_path (
      if is_empty rel_path
      then cleaned
      else keep_ids rel_path (normalize_unique_vector_ids ids) cleaned)
