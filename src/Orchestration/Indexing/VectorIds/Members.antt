-- ===== src/Orchestration/Indexing/VectorIds/Members.antt =====
-- Which ids the lists of src/internal/orchestration/handlers_indexing.go hold.
use gocodemunch_mcp.Base.{
  Text, trim_space, is_empty, text_eq, text_eq_iff, text_eq_refl, Map, lookup, insert, delete,
  lookup-insert, lookup-delete, Bool, true, false, not, ◌&&◌, ◌||◌, List, [], ◌∷◌, ◌++◌, ◌≡◌, refl,
  ◌∙◌, if◌then◌else◌, arith, has, keys, member, member-keys, member-sort_strings, Bool-cases, inl,
  inr,
}
use gocodemunch_mcp.Orchestration.Indexing.VectorIds.{
  collect_ids, normalize_unique_vector_ids, stale_loop, set_of, diff_vector_ids, ids_at,
  delete_paths, put_ids, put_paths,
}
use gocodemunch_mcp.Orchestration.Indexing.Remote.Lookups.{has-insert}

-- An id as the code keeps it: trimmed and not empty.
abbrev pub IsId : Text → Type 0
IsId id = (trim_space id ≡ id) × (is_empty id ≡ false)

abbrev pub AreIds : List Text → Type 0
AreIds ids = (id : Text) → member id ids ≡ true → IsId id

AreIds-tail : (x : Text) (ids : List Text) → AreIds (x ∷ ids) → AreIds ids
unfolding member
AreIds-tail x ids a id m = a id (ground (arith, m))

AreIds-head : (x : Text) (ids : List Text) → AreIds (x ∷ ids) → IsId x
unfolding member
AreIds-head x ids a = a x (ground (arith, text_eq_refl x))

pub member-append :
    (z : Text) (xs ys : List Text) → member z (xs ++ ys) ≡ (member z xs || member z ys)
unfolding member
member-append z [] ys = refl
member-append z (x ∷ xs) ys = ground (arith, member-append z xs ys)

or_swap : (a b c : Bool) → (a || (b || c)) ≡ ((b || a) || c)
or_swap a b c = ground arith

or_nothing : (z : Text) (a : Bool) → (a || has {V = Unit {0}} z []) ≡ a
unfolding has lookup
or_nothing z a = ground arith

has-collect_ids :
    (z : Text) (ids : List Text) (set : Map (Unit {0}))
    → AreIds ids
    → has z (collect_ids ids set) ≡ (member z ids || has z set)
unfolding collect_ids member
has-collect_ids z [] set a = refl
has-collect_ids z (x ∷ ids) set a =
    let (trimmed, given) = AreIds-head x ids a in
    rw
      (
        trimmed,
        given,
        has-collect_ids z ids (insert x tt set) (AreIds-tail x ids a),
        has-insert x z tt set,
      )
      (or_swap (member z ids) (text_eq x z) (has z set))

pub member-normalize :
    (z : Text) (ids : List Text)
    → AreIds ids
    → member z (normalize_unique_vector_ids ids) ≡ member z ids
unfolding normalize_unique_vector_ids
member-normalize z ids a =
    member-sort_strings z (keys (collect_ids ids []))
    ∙ member-keys z (collect_ids ids [])
    ∙ has-collect_ids z ids [] a
    ∙ or_nothing z (member z ids)

has-set_of :
    (z : Text) (ids : List Text) (set : Map (Unit {0}))
    → has z (set_of ids set) ≡ (member z ids || has z set)
unfolding set_of member
has-set_of z [] set = refl
has-set_of z (x ∷ ids) set =
    ground (arith, has-set_of z ids (insert x tt set), has-insert x z tt set)

member-stale_loop :
    (z : Text) (set : Map (Unit {0})) (ids : List Text)
    → member z (stale_loop set ids) ≡ (member z ids && not (has z set))
unfolding stale_loop member
member-stale_loop z set [] = refl
member-stale_loop z set (x ∷ ids) = ground (arith, text_eq_iff x z, member-stale_loop z set ids)

pub member-diff_vector_ids :
    (z : Text) (previous next : List Text)
    → AreIds previous
    → AreIds next
    → member z (diff_vector_ids previous next) ≡ (member z previous && not (member z next))
unfolding diff_vector_ids
member-diff_vector_ids z previous next a b =
    member-stale_loop z (set_of (normalize_unique_vector_ids next) [])
      (normalize_unique_vector_ids previous)
    ∙ ground (
      arith,
      member-normalize z previous a,
      member-normalize z next b,
      has-set_of z (normalize_unique_vector_ids next) [],
      or_nothing z (member z (normalize_unique_vector_ids next)),
    )

if_same : {A : Type 0} {x : A} (b : Bool) → (if b then x else x) ≡ x
if_same true = refl
if_same false = refl

ids_at-delete :
    (p q : Text) (m : Map (List Text))
    → ids_at p (delete q m) ≡ (if text_eq q p then [] else ids_at p m)
unfolding ids_at
ids_at-delete p q m = ground (arith, lookup-delete q p m)

ids_at-put_ids :
    (p q : Text) (ids : List Text) (m : Map (List Text))
    → ids_at p (put_ids q ids m) ≡ (if text_eq q p then ids else ids_at p m)
ids_at-put_ids p q [] m = ids_at-delete p q m
ids_at-put_ids p q (id ∷ ids) m = unfold ids_at in ground (arith, lookup-insert q p (id ∷ ids) m)

pub ids_at-delete_paths :
    (p : Text) (paths : List Text) (m : Map (List Text))
    → ids_at p (delete_paths paths m) ≡ (if member p paths then [] else ids_at p m)
unfolding delete_paths member
ids_at-delete_paths p [] m = refl
ids_at-delete_paths p (q ∷ paths) m =
    ids_at-delete_paths p paths (delete q m) ∙ elim (Bool-cases (text_eq q p)) [
      | inl e ↦ rw (e, ids_at-delete p q m, e) (if_same (member p paths))
      | inr e ↦ rw (e, ids_at-delete p q m, e) refl
    ]

pub ids_at-put_paths :
    (p : Text) (upserted : Map (List Text)) (paths : List Text) (m : Map (List Text))
    → ids_at p (put_paths upserted paths m)
      ≡ (if member p paths then normalize_unique_vector_ids (ids_at p upserted) else ids_at p m)
unfolding put_paths member
ids_at-put_paths p upserted [] m = refl
ids_at-put_paths p upserted (q ∷ paths) m =
    ids_at-put_paths p upserted paths
      (put_ids q (normalize_unique_vector_ids (ids_at q upserted)) m)
    ∙ elim (Bool-cases (text_eq q p)) [
      | inl e ↦
          let same : q ≡ p = (text_eq_iff q p).0 e in
          rw (e, ids_at-put_ids p q (normalize_unique_vector_ids (ids_at q upserted)) m, e, same)
            (if_same (member p paths))
      | inr e ↦
          rw (e, ids_at-put_ids p q (normalize_unique_vector_ids (ids_at q upserted)) m, e) refl
    ]
