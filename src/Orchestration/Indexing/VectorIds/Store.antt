-- ===== src/Orchestration/Indexing/VectorIds/Store.antt =====
-- The vector store and the index behind syncVectorIndexMetadata of
-- src/internal/orchestration/handlers_indexing.go.
use mathlib.Core.List.{flatten}
use gocodemunch_mcp.Base.{
  Text, Map, Bool, false, not, ◌&&◌, ◌||◌, List, [], ◌∷◌, ◌++◌, ◌≡◌, refl, ap, subst, ◌∙◌, arith,
  member, Option-cases, inl, inr, Option, none, some,
}
use gocodemunch_mcp.Base.Int.{pos}
use gocodemunch_mcp.Orchestration.Resilience.{VectorError, split_batches}
use gocodemunch_mcp.Orchestration.Resilience.Batches.{split_batches_lem}
use gocodemunch_mcp.Orchestration.Indexing.VectorIds.{
  normalize_unique_vector_ids, ids_at, delete_batches, delete_vector_record_ids, stale_ids,
  sync_vector_index_metadata, default_vector_delete_batch_size,
}
use gocodemunch_mcp.Orchestration.Indexing.VectorIds.Members.{AreIds, member-normalize}
use gocodemunch_mcp.Orchestration.Indexing.VectorIds.InStep.{
  AreOwned, IsInStep, synced, member-stale_ids, member-synced, synced-AreOwned,
}

-- Without an error every batch is deleted.
delete_batches-gone :
    (backend : List Text → Option VectorError) (batches : List (List Text))
    → (delete_batches backend batches).error ≡ none
    → (delete_batches backend batches).gone ≡ flatten batches
unfolding delete_batches flatten
delete_batches-gone backend [] h = refl
delete_batches-gone backend (batch ∷ batches) h = elim (Option-cases (backend batch)) [
  | inl e ↦
      rw (e, delete_batches)
        (ap (λ gone. batch ++ gone) (delete_batches-gone backend batches (ground (arith, h, e))))
  | inr (err, e) ↦ absurd (ground (arith, h, e))
]

flatten-split :
    (ids : List Text) → flatten (split_batches ids (pos default_vector_delete_batch_size)) ≡ ids
flatten-split [] = unfold split_batches flatten in refl
flatten-split (id ∷ ids) =
    (split_batches_lem (id ∷ ids) (pos default_vector_delete_batch_size) (λ e. cc)).0

delete_vector_record_ids-gone :
    (backend : List Text → Option VectorError) (ids : List Text) (id : Text)
    → AreIds ids
    → (delete_vector_record_ids backend ids).error ≡ none
    → member id (delete_vector_record_ids backend ids).gone ≡ member id ids
unfolding delete_vector_record_ids
delete_vector_record_ids-gone backend ids id a h =
    ap (member id) (
      delete_batches-gone backend
        (split_batches (normalize_unique_vector_ids ids) (pos default_vector_delete_batch_size)) h
      ∙ flatten-split (normalize_unique_vector_ids ids))
    ∙ member-normalize id ids a

stale-AreIds :
    (owner : Text → Text) (m upserted : Map (List Text)) (upserted_paths deleted_paths : List Text)
    → AreOwned owner m
    → AreOwned owner upserted
    → AreIds (stale_ids m upserted_paths deleted_paths upserted)
stale-AreIds owner m upserted upserted_paths deleted_paths o u id k =
    (o (owner id) id
      (ground (arith, k, member-stale_ids owner m upserted upserted_paths deleted_paths o u id))).1

-- The store behind the upserts of some paths and the deletion of some ids.
abbrev pub store_after :
    (Text → Text) → Map (List Text) → List Text → List Text → (Text → Bool) → Text → Bool
store_after owner upserted upserted_paths gone store id =
    (store id || (member (owner id) upserted_paths && member id (ids_at (owner id) upserted)))
    && not (member id gone)

-- When the ids of the index are owned by their paths and the store holds exactly those, and files have
-- been upserted and others deleted, then behind a sync that does not fail the ids that it writes are
-- owned by their paths and the store holds exactly those: no vector of an old chunk stays, and none
-- that is in use goes.
pub sync_vector_index_metadata-IsInStep :
    (owner : Text → Text) (backend : List Text → Option VectorError) (store : Text → Bool)
    (m upserted new : Map (List Text)) (upserted_paths deleted_paths : List Text)
    → AreOwned owner m
    → AreOwned owner upserted
    → ((p : Text) → (member p upserted_paths && member p deleted_paths) ≡ false)
    → IsInStep owner m store
    → (sync_vector_index_metadata backend m upserted_paths deleted_paths upserted).chunk_ids
      ≡ some new
    → AreOwned owner new
      × IsInStep owner new (
          store_after owner upserted upserted_paths
            (sync_vector_index_metadata backend m upserted_paths deleted_paths
              upserted).deletion.gone
            store)
unfolding sync_vector_index_metadata
sync_vector_index_metadata-IsInStep owner backend store m upserted new upserted_paths deleted_paths
      o u apart step h =
    let stale = stale_ids m upserted_paths deleted_paths upserted in
    elim (Option-cases (delete_vector_record_ids backend stale).error) [
      | inr (err, e) ↦ absurd (ground (arith, h, e))
      | inl e ↦
          let same : synced owner m upserted upserted_paths deleted_paths o u ≡ new =
            ground (arith, h, e) in
          subst
            (λ x.
              AreOwned owner x
              × IsInStep owner x (
                  store_after owner upserted upserted_paths
                    (delete_vector_record_ids backend stale).gone store))
            same
            (
              synced-AreOwned owner m upserted upserted_paths deleted_paths o u,
              λ id. ground (
                arith,
                step id,
                apart (owner id),
                delete_vector_record_ids-gone backend stale id
                    (stale-AreIds owner m upserted upserted_paths deleted_paths o u) e,
                member-stale_ids owner m upserted upserted_paths deleted_paths o u id,
                member-synced owner m upserted upserted_paths deleted_paths o u (owner id) id,
              ),
            )
    ]
