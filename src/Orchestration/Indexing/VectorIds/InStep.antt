-- ===== src/Orchestration/Indexing/VectorIds/InStep.antt =====
-- That syncVectorIndexMetadata of src/internal/orchestration/handlers_indexing.go keeps the vector
-- store and the ids in the index in step. The store is the set of the ids that it holds.
use gocodemunch_mcp.Base.{
  Text, text_eq, text_eq_iff, Map, Bool, true, false, not, ◌&&◌, ◌||◌, List, [], ◌∷◌, ◌++◌, ◌≡◌,
  refl, sym, ap, ◌∙◌, if◌then◌else◌, arith, member, Bool-cases, inl, inr,
}
use gocodemunch_mcp.Orchestration.Indexing.VectorIds.{
  normalize_unique_vector_ids, diff_vector_ids, ids_at, deleted_ids, replaced_ids, delete_paths,
  put_paths, stale_ids,
}
use gocodemunch_mcp.Orchestration.Indexing.VectorIds.Members.{
  IsId, AreIds, member-append, member-normalize, member-diff_vector_ids, ids_at-delete_paths,
  ids_at-put_paths,
}

-- The ids by path are ids, and each belongs to its path alone, as `owner` tells.
abbrev pub AreOwned : (Text → Text) → Map (List Text) → Type 0
AreOwned owner m = (p id : Text) → member id (ids_at p m) ≡ true → (owner id ≡ p) × IsId id

-- The store holds an id exactly when the index has it.
abbrev pub IsInStep : (Text → Text) → Map (List Text) → (Text → Bool) → Type 0
IsInStep owner m store = (id : Text) → store id ≡ member id (ids_at (owner id) m)

module _ (owner : Text → Text) where
  -- Only the owner's list can hold an id.
  member-owned :
      (m : Map (List Text)) (p id : Text)
      → AreOwned owner m
      → member id (ids_at p m) ≡ (text_eq p (owner id) && member id (ids_at (owner id) m))
  member-owned m p id o = elim (Bool-cases (text_eq p (owner id))) [
    | inl e ↦ rw (e, (text_eq_iff p (owner id)).0 e) refl
    | inr e ↦ elim (Bool-cases (member id (ids_at p m))) [
      | inl k ↦ absurd (ground (arith, e, (text_eq_iff p (owner id)).1 (sym (o p id k).0)))
      | inr k ↦ ground (arith, e, k)
    ]
  ]

  AreIds-owned : (m : Map (List Text)) (p : Text) → AreOwned owner m → AreIds (ids_at p m)
  AreIds-owned m p o id k = (o p id k).1

  member-deleted_ids :
      (m : Map (List Text)) (paths : List Text) (id : Text)
      → AreOwned owner m
      → member id (deleted_ids m paths)
        ≡ (member (owner id) paths && member id (ids_at (owner id) m))
  unfolding deleted_ids member
  member-deleted_ids m [] id o = refl
  member-deleted_ids m (p ∷ paths) id o = ground (
    arith,
    member-append id (ids_at p m) (deleted_ids m paths),
    member-owned m p id o,
    member-deleted_ids m paths id o,
  )

  member-replaced_ids :
      (m upserted : Map (List Text)) (paths : List Text) (id : Text)
      → AreOwned owner m
      → AreOwned owner upserted
      → member id (replaced_ids m upserted paths) ≡ (
          member (owner id) paths
          && (member id (ids_at (owner id) m) && not (member id (ids_at (owner id) upserted))))
  unfolding replaced_ids member
  member-replaced_ids m upserted [] id o u = refl
  member-replaced_ids m upserted (p ∷ paths) id o u = ground (
    arith,
    member-append id (diff_vector_ids (ids_at p m) (ids_at p upserted))
        (replaced_ids m upserted paths),
    member-diff_vector_ids id (ids_at p m) (ids_at p upserted) (AreIds-owned m p o)
        (AreIds-owned upserted p u),
    member-owned m p id o,
    member-owned upserted p id u,
    member-replaced_ids m upserted paths id o u,
  )

  module _ (m upserted : Map (List Text)) (upserted_paths deleted_paths : List Text)
      (o : AreOwned owner m) (u : AreOwned owner upserted) where
    member-concat :
        (id : Text)
        → member id (deleted_ids m deleted_paths ++ replaced_ids m upserted upserted_paths) ≡ (
            (member (owner id) deleted_paths && member id (ids_at (owner id) m))
            || (member (owner id) upserted_paths
                && (member id (ids_at (owner id) m)
                    && not (member id (ids_at (owner id) upserted)))))
    member-concat id = ground (
      arith,
      member-append id (deleted_ids m deleted_paths) (replaced_ids m upserted upserted_paths),
      member-deleted_ids m deleted_paths id o,
      member-replaced_ids m upserted upserted_paths id o u,
    )

    concat-AreIds : AreIds (deleted_ids m deleted_paths ++ replaced_ids m upserted upserted_paths)
    concat-AreIds id k = (o (owner id) id (ground (arith, k, member-concat id))).1

    pub member-stale_ids :
        (id : Text)
        → member id (stale_ids m upserted_paths deleted_paths upserted) ≡ (
            (member (owner id) deleted_paths && member id (ids_at (owner id) m))
            || (member (owner id) upserted_paths
                && (member id (ids_at (owner id) m)
                    && not (member id (ids_at (owner id) upserted)))))
    unfolding stale_ids
    member-stale_ids id = member-normalize id _ concat-AreIds ∙ member-concat id

    abbrev pub synced : Map (List Text)
    synced = put_paths upserted upserted_paths (delete_paths deleted_paths m)

    at_path :
        (p : Text)
        → ids_at p synced ≡ (
            if member p upserted_paths
            then normalize_unique_vector_ids (ids_at p upserted)
            else if member p deleted_paths
            then []
            else ids_at p m)
    at_path p =
        ids_at-put_paths p upserted upserted_paths (delete_paths deleted_paths m)
        ∙ ap
            (λ ids.
              if member p upserted_paths
              then normalize_unique_vector_ids (ids_at p upserted)
              else ids)
            (ids_at-delete_paths p deleted_paths m)

    pub member-synced :
        (p id : Text)
        → member id (ids_at p synced) ≡ (
            if member p upserted_paths
            then member id (ids_at p upserted)
            else if member p deleted_paths
            then false
            else member id (ids_at p m))
    member-synced p id = elim (Bool-cases (member p upserted_paths)) [
      | inl e ↦
          rw (at_path p, e) (member-normalize id (ids_at p upserted) (AreIds-owned upserted p u))
      | inr e ↦ elim (Bool-cases (member p deleted_paths)) [
        | inl k ↦ rw (at_path p, e, k) (unfold member in refl)
        | inr k ↦ rw (at_path p, e, k) refl
      ]
    ]

    pub synced-AreOwned : AreOwned owner synced
    synced-AreOwned p id k = elim (Bool-cases (member p upserted_paths)) [
      | inl e ↦ u p id (ground (arith, k, e, member-synced p id))
      | inr e ↦ o p id (ground (arith, k, e, member-synced p id))
    ]
