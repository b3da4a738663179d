-- ===== src/Orchestration/Indexing/Remote/Incremental.antt =====
-- The merged state of a remote repository: what mergeRemoteIncrementalIndexState of
-- src/internal/orchestration/handlers_indexing.go keeps together, and that fetching what
-- buildRemoteIncrementalFetchPaths names is enough.
use gocodemunch_mcp.Base.{
  Text, text_eq, text_eq_iff, is_empty, trim_space, to_lower, Map, lookup, delete, Distinct,
  insert-Distinct, Bool, true, false, not, ◌&&◌, ◌||◌, Option, none, some, List, [], ◌∷◌, ◌≡◌, refl,
  ap, ◌∙◌, if◌then◌else◌, arith, has, keys, member, member-keys, keys-IsSimple, member-sort_strings,
  sort_strings-IsIncreasing, IsIncreasing, Bool-cases, Option-cases, inl, inr,
}
use gocodemunch_mcp.Base.Int.{ℤ, pos}
use gocodemunch_mcp.Orchestration.Indexing.Remote.{
  RepoIndex, TextSet, Merged, add_all, text_at, is_blank_text, keep_entry, carry_over,
  carry_over_all, put_hashes, put_blobs, put_mtimes, drop_unhashed, fill_in, fill_entry,
  normalize_remote_blob_sha, merge_remote_incremental_index_state,
}
use gocodemunch_mcp.Orchestration.Indexing.Remote.Lookups.{
  has-insert, has-delete, or_else, filter_option, carried_hash, lookup-carry_over_all,
  lookup-put_hashes, drop_unhashed-hashes, fill_in-hashes,
}

keep_entry-Distinct {ℓ} :
    {V : Type ℓ}
    → (test : V → Bool) (k : Text) (from m : Map V) → Distinct m
    → Distinct (keep_entry test k from m)
unfolding keep_entry
keep_entry-Distinct test k from m d = elim (Option-cases (lookup k from)) [
  | inl e ↦ rw (e, keep_entry) d
  | inr (v, e) ↦ ground (arith, e, d, insert-Distinct k v m d)
]

carry_over_all-Distinct :
    (existing : RepoIndex) (metadata_blobs : Map Text) (fetched : TextSet) (paths : List Text)
    (m : Merged)
    → Distinct m.hashes
    → Distinct (carry_over_all existing metadata_blobs fetched paths m).hashes
unfolding carry_over_all
carry_over_all-Distinct existing metadata_blobs fetched [] m d = d
carry_over_all-Distinct existing metadata_blobs fetched (p ∷ paths) m d =
    carry_over_all-Distinct existing metadata_blobs fetched paths _ (
      unfold carry_over in
      ground
        (arith, d, keep_entry-Distinct (λ h. not (is_blank_text h)) p existing.files m.hashes d))

put_hashes-Distinct : (fetched m : Map Text) → Distinct m → Distinct (put_hashes fetched m)
unfolding put_hashes
put_hashes-Distinct [] m d = d
put_hashes-Distinct ((p, h) ∷ fetched) m d =
    put_hashes-Distinct fetched _ (ground (arith, d, insert-Distinct p h m d))

has-drop_unhashed :
    (p : Text) (paths : List Text) (m : Merged)
    → has p (drop_unhashed paths m).blobs
      ≡ (has p m.blobs && (has p m.hashes || not (member p paths)))
unfolding drop_unhashed member
has-drop_unhashed p [] m = ground arith
has-drop_unhashed p (q ∷ paths) m = elim (Bool-cases (has q m.hashes)) [
  | inl e ↦ ground (arith, e, text_eq_iff q p, has-drop_unhashed p paths m)
  | inr e ↦ ground (
    arith,
    e,
    text_eq_iff q p,
    has-delete q p m.blobs,
    has-drop_unhashed p paths (record m { blobs = delete q m.blobs; mtimes = delete q m.mtimes }),
  )
]

missing_blank :
    (q : Text) (blobs : Map Text)
    → lookup q blobs ≡ none
    → is_empty (normalize_remote_blob_sha (text_at q blobs)) ≡ true
missing_blank q blobs e =
    unfold text_at in rw (e, text_at) (unfold normalize_remote_blob_sha trim_space to_lower in refl)

has-cons : (p q h : Text) (m : Map Text) → has p ((q, h) ∷ m) ≡ (text_eq q p || has p m)
unfolding has lookup
has-cons p q h m = ground arith

has-fill_entry :
    (p q h : Text) (m : Merged)
    → (has p (fill_entry q h m).blobs ≡ (has p m.blobs || text_eq q p))
      × (has p (fill_entry q h m).mtimes ≡ (has p m.mtimes || text_eq q p))
unfolding fill_entry
has-fill_entry p q h m = (
  elim (Option-cases (lookup q m.blobs)) [
    | inl e ↦
        let blank = missing_blank q m.blobs e in ground (arith, blank, has-insert q p h m.blobs)
    | inr (v, e) ↦
        let there : has q m.blobs ≡ true = unfold has in rw (e, has) refl in
        ground (arith, e, there, text_eq_iff q p, has-insert q p h m.blobs)
  ],
  ground (arith, text_eq_iff q p, has-insert q p (pos 0) m.mtimes),
)

has-fill_in :
    (p : Text) (hashes : Map Text) (m : Merged)
    → (has p (fill_in hashes m).blobs ≡ (has p m.blobs || has p hashes))
      × (has p (fill_in hashes m).mtimes ≡ (has p m.mtimes || has p hashes))
unfolding fill_in
has-fill_in p [] m = unfold has lookup in ground arith
has-fill_in p ((q, h) ∷ hashes) m =
    ground (
      arith,
      has-fill_entry p q h m,
      has-cons p q h hashes,
      has-fill_in p hashes (fill_entry q h m),
    )

or_none : {V : Type 0} → (o : Option V) → or_else o none ≡ o
or_none none = refl
or_none (some v) = refl

module _ (existing : RepoIndex) (source_files : List Text)
    (metadata_blobs fetched_hashes : Map Text) (fetched_blobs : Map Text) (fetched_mtimes : Map ℤ)
    (fetched_paths : List Text) where
  abbrev pub merged : List Text × Merged
  merged =
      merge_remote_incremental_index_state existing source_files metadata_blobs fetched_hashes
        fetched_blobs fetched_mtimes fetched_paths

  abbrev pub carried : Merged
  carried =
      carry_over_all existing metadata_blobs (add_all fetched_paths []) source_files
        (record { hashes = []; blobs = []; mtimes = [] })

  abbrev pub put : Merged
  put = record {
    hashes = put_hashes fetched_hashes carried.hashes;
    blobs = put_blobs fetched_blobs carried.blobs;
    mtimes = put_mtimes fetched_mtimes carried.mtimes;
  }

  abbrev pub dropped : Merged
  dropped = drop_unhashed (keys put.blobs) put

  pub merged-hashes : merged.1.hashes ≡ put_hashes fetched_hashes carried.hashes
  unfolding merge_remote_incremental_index_state
  merged-hashes = fill_in-hashes put.hashes dropped ∙ drop_unhashed-hashes (keys put.blobs) put

  lookup-carried :
      (p : Text)
      → lookup p carried.hashes ≡ (
          if member p source_files
          then carried_hash existing (add_all fetched_paths []) p
          else none)
  unfolding lookup
  lookup-carried p =
      lookup-carry_over_all existing metadata_blobs (add_all fetched_paths []) p source_files
        (record { hashes = []; blobs = []; mtimes = [] })
      ∙ or_none _

  -- The hash of a file is the fetched one, if it is not blank, and else the one that the index has of
  -- a file of the tree that was not to be fetched.
  pub lookup-merged :
      (p : Text)
      → Distinct fetched_hashes
      → lookup p merged.1.hashes
        ≡ or_else (filter_option (λ h. not (is_blank_text h)) (lookup p fetched_hashes)) (
            if member p source_files
            then carried_hash existing (add_all fetched_paths []) p
            else none)
  lookup-merged p d =
      ap (lookup p) merged-hashes
      ∙ lookup-put_hashes p fetched_hashes carried.hashes d
      ∙ ap (or_else _) (lookup-carried p)

  pub merged-hashes-Distinct : Distinct merged.1.hashes
  merged-hashes-Distinct = rw merged-hashes (
      put_hashes-Distinct fetched_hashes _
        (carry_over_all-Distinct existing metadata_blobs _ source_files _ tt))

  -- Of a merged state the files, the hashes and the blobs are those of the same paths, each of which
  -- has a time, and the files are in strictly increasing order.
  pub merge_remote_incremental_index_state-agrees :
      ((p : Text)
        → (member p merged.0 ≡ has p merged.1.hashes)
          × (has p merged.1.blobs ≡ has p merged.1.hashes)
          × ((has p merged.1.hashes && not (has p merged.1.mtimes)) ≡ false))
      × IsIncreasing merged.0
  unfolding merge_remote_incremental_index_state
  merge_remote_incremental_index_state-agrees = (
    λ p. ground (
      arith,
      ap (has p) merged-hashes,
      member-sort_strings p (keys merged.1.hashes),
      member-keys p merged.1.hashes,
      has-fill_in p put.hashes dropped,
      has-drop_unhashed p (keys put.blobs) put,
      member-keys p put.blobs,
    ),
    sort_strings-IsIncreasing (keys merged.1.hashes) (keys-IsSimple _ merged-hashes-Distinct),
  )
