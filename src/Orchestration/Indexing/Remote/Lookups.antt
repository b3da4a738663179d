-- ===== src/Orchestration/Indexing/Remote/Lookups.antt =====
-- What the loops of mergeRemoteIncrementalIndexState and of the functions around it, in
-- src/internal/orchestration/handlers_indexing.go, leave at each path.
use gocodemunch_mcp.Base.{
  Text, text_eq, text_eq_iff, Map, lookup, insert, delete, lookup-insert, lookup-delete, Distinct,
  Bool, true, false, not, ◌&&◌, ◌||◌, Option, none, some, List, [], ◌∷◌, ◌≡◌, refl, subst, ◌∙◌,
  if◌then◌else◌, arith, has, member, Bool-cases, Option-cases, inl, inr,
}
use gocodemunch_mcp.Orchestration.Indexing.Remote.{
  RepoIndex, TextSet, Merged, add_all, add_unhashed, text_at, is_blank_text, keep_entry, carry_over,
  carry_over_all, put_hashes, drop_unhashed, fill_in,
}

module _ {ℓ} {V : Type ℓ} where
  pub has-insert :
      (k j : Text) (v : V) (m : Map V) → has j (insert k v m) ≡ (text_eq k j || has j m)
  unfolding has
  has-insert k j v m = ground (arith, lookup-insert k j v m)

  pub has-delete : (k j : Text) (m : Map V) → has j (delete k m) ≡ (not (text_eq k j) && has j m)
  unfolding has
  has-delete k j m = ground (arith, lookup-delete k j m)

  abbrev pub or_else : Option V → Option V → Option V
  or_else none d = d
  or_else (some v) d = some v

  abbrev pub filter_option : (V → Bool) → Option V → Option V
  filter_option test none = none
  filter_option test (some v) = if test v then some v else none

  pub lookup-keep_entry :
      (test : V → Bool) (k p : Text) (from m : Map V)
      → lookup p (keep_entry test k from m) ≡ (
          if text_eq k p
          then or_else (filter_option test (lookup k from)) (lookup p m)
          else lookup p m)
  unfolding keep_entry
  lookup-keep_entry test k p from m = elim (Option-cases (lookup k from)) [
    | inl e ↦ ground (arith, e)
    | inr (v, e) ↦ ground (arith, e, lookup-insert k p v m)
  ]

pub has-add_all :
    (p : Text) (paths : List Text) (set : TextSet)
    → has p (add_all paths set) ≡ (member p paths || has p set)
unfolding add_all member
has-add_all p [] set = refl
has-add_all p (q ∷ paths) set =
    ground (arith, has-add_all p paths (insert q tt set), has-insert q p tt set)

pub has-add_unhashed :
    (p : Text) (paths : List Text) (hashes : Map Text) (set : TextSet)
    → has p (add_unhashed paths hashes set)
      ≡ ((member p paths && is_blank_text (text_at p hashes)) || has p set)
unfolding add_unhashed member
has-add_unhashed p [] hashes set = refl
has-add_unhashed p (q ∷ paths) hashes set = ground (
  arith,
  text_eq_iff q p,
  has-add_unhashed p paths hashes set,
  has-add_unhashed p paths hashes (insert q tt set),
  has-insert q p tt set,
)

-- The hash that the index has of a file that is not fetched.
abbrev pub carried_hash : RepoIndex → TextSet → Text → Option Text
carried_hash existing fetched p =
    if has p fetched
    then none
    else filter_option (λ h. not (is_blank_text h)) (lookup p existing.files)

lookup-carry_over :
    (existing : RepoIndex) (metadata_blobs : Map Text) (fetched : TextSet) (p q : Text) (m : Merged)
    → lookup p (carry_over existing metadata_blobs fetched q m).hashes ≡ (
        if text_eq q p
        then or_else (carried_hash existing fetched q) (lookup p m.hashes)
        else lookup p m.hashes)
unfolding carry_over
lookup-carry_over existing metadata_blobs fetched p q m =
    ground (arith, lookup-keep_entry (λ h. not (is_blank_text h)) q p existing.files m.hashes)

twice : (b : Bool) (o d : Option Text) → or_else (if b then o else none) (or_else o d) ≡ or_else o d
twice false o d = refl
twice true none d = refl
twice true (some v) d = refl

pub lookup-carry_over_all :
    (existing : RepoIndex) (metadata_blobs : Map Text) (fetched : TextSet) (p : Text)
    (paths : List Text) (m : Merged)
    → lookup p (carry_over_all existing metadata_blobs fetched paths m).hashes
      ≡ or_else
          (if member p paths then carried_hash existing fetched p else none)
          (lookup p m.hashes)
unfolding carry_over_all member
lookup-carry_over_all existing metadata_blobs fetched p [] m = refl
lookup-carry_over_all existing metadata_blobs fetched p (q ∷ paths) m =
    lookup-carry_over_all existing metadata_blobs fetched p paths
      (carry_over existing metadata_blobs fetched q m)
    ∙ elim (Bool-cases (text_eq q p)) [
      | inl e ↦
          let same : q ≡ p = (text_eq_iff q p).0 e in
          rw (e, lookup-carry_over existing metadata_blobs fetched p q m, e, same)
            (twice (member p paths) (carried_hash existing fetched p) (lookup p m.hashes))
      | inr e ↦ rw (e, lookup-carry_over existing metadata_blobs fetched p q m, e) refl
    ]

lookup-put_hash :
    (p q h : Text) (m : Map Text)
    → lookup p (if is_blank_text h then m else insert q h m) ≡ (
        if text_eq q p
        then or_else (filter_option (λ h. not (is_blank_text h)) (some h)) (lookup p m)
        else lookup p m)
lookup-put_hash p q h m = ground (arith, lookup-insert q p h m)

pub lookup-put_hashes :
    (p : Text) (fetched m : Map Text)
    → Distinct fetched
    → lookup p (put_hashes fetched m)
      ≡ or_else (filter_option (λ h. not (is_blank_text h)) (lookup p fetched)) (lookup p m)
unfolding put_hashes lookup
lookup-put_hashes p [] m d = refl
lookup-put_hashes p ((q, h) ∷ fetched) m (e, d) =
    lookup-put_hashes p fetched (if is_blank_text h then m else insert q h m) d
    ∙ elim (Bool-cases (text_eq q p)) [
      | inl k ↦
          let same : q ≡ p = (text_eq_iff q p).0 k in
          let none_here : lookup p fetched ≡ none = subst (λ x. lookup x fetched ≡ none) same e in
          rw (lookup-put_hash p q h m, k, none_here) refl
      | inr k ↦ rw (lookup-put_hash p q h m, k) refl
    ]

pub drop_unhashed-hashes :
    (paths : List Text) (m : Merged) → (drop_unhashed paths m).hashes ≡ m.hashes
unfolding drop_unhashed
drop_unhashed-hashes [] m = refl
drop_unhashed-hashes (p ∷ paths) m = ground (
  arith,
  drop_unhashed-hashes paths m,
  drop_unhashed-hashes paths (record m { blobs = delete p m.blobs; mtimes = delete p m.mtimes }),
)

pub fill_in-hashes : (hashes : Map Text) (m : Merged) → (fill_in hashes m).hashes ≡ m.hashes
unfolding fill_in
fill_in-hashes [] m = refl
fill_in-hashes ((p, hash) ∷ hashes) m = fill_in-hashes hashes _
