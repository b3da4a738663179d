-- ===== src/Orchestration/Indexing/Remote/Equivalence.antt =====
-- That the incremental index of a remote repository is the full one: the hashes that
-- mergeRemoteIncrementalIndexState of src/internal/orchestration/handlers_indexing.go ends with
-- when the paths of buildRemoteIncrementalFetchPaths have been fetched.
use gocodemunch_mcp.Base.{
  Text, text_eq_iff, Map, lookup, Distinct, true, false, not, ◌&&◌, ◌||◌, none, some, List, [], ◌≡◌,
  refl, sym, ap, ◌∙◌, if◌then◌else◌, arith, has, keys, member, member-keys, sort_strings,
  member-sort_strings, sort_strings-IsIncreasing, increasing-ext, keys-IsSimple, Bool-cases,
  Option-cases, inl, inr, trim_space, ◌≢◌,
}
use gocodemunch_mcp.Base.Int.{ℤ}
use gocodemunch_mcp.Orchestration.Indexing.FileDiff.{
  differs, diff_file_hashes, diff_file_hashes_lem,
}
use gocodemunch_mcp.Orchestration.Indexing.Remote.{
  RepoIndex, Merged, add_all, text_at, is_blank_text, build_remote_incremental_fetch_paths,
  merge_remote_incremental_index_state,
}
use gocodemunch_mcp.Orchestration.Indexing.Remote.Lookups.{
  or_else, filter_option, has-add_all, has-add_unhashed, carried_hash,
}
use gocodemunch_mcp.Orchestration.Indexing.Remote.Incremental.{
  lookup-merged, merge_remote_incremental_index_state-agrees,
}

has_nothing : (p : Text) → has {V = Unit {0}} p [] ≡ false
unfolding has lookup
has_nothing p = refl

-- A path is fetched when it has no hash, or its blob is new or another one.
member-fetch_paths :
    (source_files : List Text) (files old_blobs blobs : Map Text) (p : Text)
    → Distinct old_blobs
    → Distinct blobs
    → member p (build_remote_incremental_fetch_paths source_files files old_blobs blobs) ≡ (
        (member p source_files && is_blank_text (text_at p files))
        || (has p blobs && not (has p old_blobs))
        || differs (lookup p old_blobs) (lookup p blobs))
unfolding build_remote_incremental_fetch_paths
member-fetch_paths source_files files old_blobs blobs p d e =
    let diff = diff_file_hashes_lem old_blobs blobs d e in
    member-sort_strings p _
    ∙ member-keys p _
    ∙ has-add_unhashed p source_files files _
    ∙ ground (
      arith,
      has-add_all p (diff_file_hashes old_blobs blobs).created
          (add_all (diff_file_hashes old_blobs blobs).changed []),
      has-add_all p (diff_file_hashes old_blobs blobs).changed [],
      (diff.0 p).0,
      (diff.0 p).1,
      has_nothing p,
    )

has-some : (p : Text) (m : Map Text) → has p m ≡ true → (v : Text) × (lookup p m ≡ some v)
has-some p m h = elim (Option-cases (lookup p m)) [
  | inl e ↦ absurd (unfold has in ground (arith, e, h))
  | inr found ↦ found
]

text_at_lem : (p : Text) (m : Map Text) (v : Text) → lookup p m ≡ some v → text_at p m ≡ v
unfolding text_at
text_at_lem p m v e = rw (e, text_at) refl

text_at-some :
    (p : Text) (m : Map Text)
    → is_blank_text (text_at p m) ≡ false
    → (v : Text) × (lookup p m ≡ some v)
unfolding text_at trim_space
text_at-some p m h = elim (Option-cases (lookup p m)) [
  | inl e ↦ absurd (blank_nil (sym (ap is_blank_text (missing e)) ∙ h))
  | inr found ↦ found
]
  where
    missing : lookup p m ≡ none → text_at p m ≡ []
    missing e = rw (e, text_at) refl

    blank_nil : is_blank_text [] ≢ false
    blank_nil e = cc

unfetched :
    (source_files : List Text) (files old_blobs blobs : Map Text) (p : Text)
    → Distinct old_blobs
    → Distinct blobs
    → member p (build_remote_incremental_fetch_paths source_files files old_blobs blobs) ≡ false
    → member p source_files ≡ true
    → has p blobs ≡ true
    → (is_blank_text (text_at p files) ≡ false)
      × ((blob : Text) × (lookup p old_blobs ≡ some blob) × (lookup p blobs ≡ some blob))
unfetched source_files files old_blobs blobs p d e h k t =
    let not_fetched = sym (member-fetch_paths source_files files old_blobs blobs p d e) ∙ h in
    let (blob, new) = has-some p blobs t in
    let (old_blob, old) = has-some p old_blobs (ground (arith, not_fetched, k, t)) in
    let same : old_blob ≡ blob =
      (text_eq_iff old_blob blob).0 (ground (arith, not_fetched, k, t, old, new)) in
    (ground (arith, not_fetched, k), (blob, (old ∙ ap some same), new))

-- The hash of a file with an unchanged blob is the one that the index has.
module _ (full : Map Text) (existing : RepoIndex) (source_files : List Text)
    (metadata_blobs fetched_hashes fetched_blobs : Map Text) (fetched_mtimes : Map ℤ)
    (apart : Distinct existing.file_blob_shas × Distinct metadata_blobs × Distinct fetched_hashes)
    (of_tree : (p : Text) → has p metadata_blobs ≡ member p source_files)
    (full_of_tree : (p : Text) → member p source_files ≡ false → lookup p full ≡ none)
    (hashed : (p h : Text) → lookup p full ≡ some h → is_blank_text h ≡ false)
    (same_content : (p blob h : Text)
      → lookup p existing.file_blob_shas ≡ some blob
      → lookup p metadata_blobs ≡ some blob
      → lookup p existing.files ≡ some h
      → lookup p full ≡ some h)
    (fetched : (p : Text)
      → lookup p fetched_hashes ≡ (
          if member p (
            build_remote_incremental_fetch_paths source_files existing.files existing.file_blob_shas
              metadata_blobs)
          then lookup p full
          else none)) where
  abbrev paths : List Text
  paths =
      build_remote_incremental_fetch_paths source_files existing.files existing.file_blob_shas
        metadata_blobs

  abbrev merged : List Text × Merged
  merged =
      merge_remote_incremental_index_state existing source_files metadata_blobs fetched_hashes
        fetched_blobs fetched_mtimes paths

  was_fetched : (p : Text) → has p (add_all paths []) ≡ member p paths
  was_fetched p = ground (arith, has-add_all p paths [], has_nothing p)

  same_hash_fetched :
      (p : Text)
      → member p paths ≡ true
      → or_else
          (filter_option (λ h. not (is_blank_text h)) (lookup p fetched_hashes))
          (if member p source_files then carried_hash existing (add_all paths []) p else none)
        ≡ lookup p full
  same_hash_fetched p e = elim (Option-cases (lookup p full)) [
    | inl k ↦ ground (arith, e, k, fetched p, was_fetched p)
    | inr (h, k) ↦ ground (arith, e, k, fetched p, hashed p h k)
  ]

  -- A file of the tree that is not fetched has its hash in the index.
  same_hash_kept :
      (p : Text)
      → member p paths ≡ false
      → member p source_files ≡ true
      → (h : Text) × (lookup p existing.files ≡ some h)
        × (is_blank_text h ≡ false)
        × (lookup p full ≡ some h)
  same_hash_kept p e k =
      let (full_text, (blob, old, new)) =
        unfetched source_files existing.files existing.file_blob_shas metadata_blobs p apart.0
          apart.1 e k (of_tree p ∙ k) in
      let (h, there) = text_at-some p existing.files full_text in
      (
        h,
        there,
        sym (ap is_blank_text (text_at_lem p existing.files h there)) ∙ full_text,
        same_content p blob h old new there,
      )

  same_hash : (p : Text) → lookup p merged.1.hashes ≡ lookup p full
  same_hash p =
      lookup-merged existing source_files metadata_blobs fetched_hashes fetched_blobs fetched_mtimes
        paths p apart.2
      ∙ elim (Bool-cases (member p paths)) [
        | inl e ↦ same_hash_fetched p e
        | inr e ↦ elim (Bool-cases (member p source_files)) [
          | inl k ↦
              let (h, there, nonblank, same) = same_hash_kept p e k in
              ground (arith, e, k, there, nonblank, same, fetched p, was_fetched p)
          | inr k ↦ ground (arith, e, k, fetched p, full_of_tree p k)
        ]
      ]

  has-same : (p : Text) → has p merged.1.hashes ≡ has p full
  unfolding has
  has-same p = rw (same_hash p, has) refl

  -- When the blobs of the index tell contents apart, the fetched files are those that the plan names
  -- and no hash of the full index is blank, the merged state has the hash of the full index at every
  -- path, and its files are the sorted paths of the full index.
  pub merge_remote_incremental_index_state-full :
      Distinct full
      → ((p : Text) → lookup p merged.1.hashes ≡ lookup p full)
        × (merged.0 ≡ sort_strings (keys full))
  merge_remote_incremental_index_state-full d =
      let agrees =
        merge_remote_incremental_index_state-agrees existing source_files metadata_blobs
          fetched_hashes fetched_blobs fetched_mtimes paths in
      (
        same_hash,
        increasing-ext merged.0 (sort_strings (keys full)) agrees.1
            (sort_strings-IsIncreasing (keys full) (keys-IsSimple full d))
            (λ p.
              (agrees.0 p).0
              ∙ has-same p
              ∙ sym (member-sort_strings p (keys full) ∙ member-keys p full)),
      )
