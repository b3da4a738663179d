-- ===== src/Watcher/Changes/Net.antt =====
-- What the pending map holds after any run of changes: for each path the net effect of that
-- path's own changes, and nothing for a file that came and went.
use mathlib.Core.List.{foldl}
use gocodemunch_mcp.Base.{
  Text, text_eq, text_eq_iff, text_eq_refl, Map, lookup, lookup-insert, lookup-delete, Distinct,
  insert-Distinct, delete-Distinct, ◌≡◌, refl, sym, ◌∙◌, Bool, true, false, ◌||◌, Option, none,
  some, List, [], ◌∷◌, if◌then◌else◌, arith, map,
}
use gocodemunch_mcp.Watcher.{ChangeType, added, modified, deleted, other, WatcherChange}
use gocodemunch_mcp.Watcher.Changes.{
  collapse_change_types, merge_pending_change, sorted_pending_changes,
}
use gocodemunch_mcp.Watcher.Changes.Sorted.{
  find_change, DistinctPaths, Ascending, sort_changes-Ascending, sort_changes-ext,
  find_change-sort_changes,
}

-- The changes of a batch window, merged one after the other.
abbrev pub merge_all : Map WatcherChange → List WatcherChange → Map WatcherChange
merge_all = foldl merge_pending_change

-- Every entry stands under its own path, and no path stands twice.
pub record IsPending (m : Map WatcherChange) : Type 0 where
  pub keyed : (p : Text) (c : WatcherChange) → lookup p m ≡ some c → c.path ≡ p
  pub distinct : Distinct m

type_of : Option WatcherChange → Option ChangeType
type_of none = none
type_of (some c) = some c.change_type

-- The type of the entry at a path.
unfoldable pub type_at : Text → Map WatcherChange → Option ChangeType
unfolding type_of
type_at p m = type_of (lookup p m)

-- The types of the changes at a path, oldest first.
unfoldable pub history : Text → List WatcherChange → List ChangeType
history p [] = []
history p (c ∷ cs) = if text_eq c.path p then c.change_type ∷ history p cs else history p cs

-- A file that exists can be modified or deleted, and one that does not can be added.
abbrev pub Consistent : Bool → List ChangeType → Type 0
Consistent b [] = Unit
Consistent true (modified ∷ h) = Consistent true h
Consistent true (deleted ∷ h) = Consistent false h
Consistent false (added ∷ h) = Consistent true h
Consistent b (t ∷ h) = ⊥

-- Whether the file exists after the changes.
abbrev pub exists_after : Bool → List ChangeType → Bool
exists_after b [] = b
exists_after b (added ∷ h) = exists_after true h
exists_after b (modified ∷ h) = exists_after true h
exists_after b (deleted ∷ h) = exists_after false h
exists_after b (other t ∷ h) = exists_after b h

-- The one change that takes a file from its first state to its last; the third argument says
-- whether there was any change.
abbrev pub net_change : Bool → Bool → Bool → Option ChangeType
net_change false false touched = none
net_change false true touched = some added
net_change true false touched = some deleted
net_change true true false = none
net_change true true true = some modified

abbrev pub is_touched : List ChangeType → Bool
is_touched [] = false
is_touched (t ∷ h) = true

pend : Option ChangeType → ChangeType → Option ChangeType
pend none t = some t
pend (some s) t = collapse_change_types s t

type_at-merge :
    (p : Text) (m : Map WatcherChange) (c : WatcherChange)
    → type_at p (merge_pending_change m c)
      ≡ (if text_eq c.path p then pend (type_at p m) c.change_type else type_at p m)
unfolding type_at merge_pending_change pend
type_at-merge p m c = grind (arith, lookup-insert, lookup-delete c.path p m, text_eq_iff c.path p)

foldl_pend : Option ChangeType → List ChangeType → Option ChangeType
unfolding pend
foldl_pend = foldl pend

type_at-merge_all :
    (p : Text) (m : Map WatcherChange) (cs : List WatcherChange)
    → type_at p (merge_all m cs) ≡ foldl_pend (type_at p m) (history p cs)
unfolding history foldl_pend
type_at-merge_all p m [] = refl
type_at-merge_all p m (c ∷ cs) =
    ground (arith, type_at-merge p m c, type_at-merge_all p (merge_pending_change m c) cs)

foldl_pend-net :
    (b now touched : Bool) (h : List ChangeType) (t : Option ChangeType)
    → t ≡ net_change b now touched
    → Consistent now h
    → foldl_pend t h ≡ net_change b (exists_after now h) (touched || is_touched h)
unfolding foldl_pend pend collapse_change_types
foldl_pend-net b now touched [] t e c = ground arith
foldl_pend-net b true touched (modified ∷ h) t e c =
    ground (arith, foldl_pend-net b true true h (pend t modified))
foldl_pend-net b true touched (deleted ∷ h) t e c =
    ground (arith, foldl_pend-net b false true h (pend t deleted))
foldl_pend-net b true touched (added ∷ h) t e c = absurd c
foldl_pend-net b true touched (other x ∷ h) t e c = absurd c
foldl_pend-net b false touched (added ∷ h) t e c =
    ground (arith, foldl_pend-net b true true h (pend t added))
foldl_pend-net b false touched (modified ∷ h) t e c = absurd c
foldl_pend-net b false touched (deleted ∷ h) t e c = absurd c
foldl_pend-net b false touched (other x ∷ h) t e c = absurd c

-- After any run of changes from an empty map, the entry at a path has the type of the net change of
-- that path, if the path's own changes fit one another; in particular there is none where a file
-- was added and deleted again, and a file deleted and added again counts as modified.
pub merge_all-net :
    (p : Text) (b : Bool) (cs : List WatcherChange)
    → Consistent b (history p cs)
    → type_at p (merge_all [] cs)
      ≡ net_change b (exists_after b (history p cs)) (is_touched (history p cs))
unfolding type_at foldl_pend lookup
merge_all-net p b cs c =
    type_at-merge_all p [] cs ∙ foldl_pend-net b b false (history p cs) none start c
  where
    start : none ≡ net_change b b false
    start = ground arith

merge-keyed :
    (m : Map WatcherChange) (c : WatcherChange)
    → IsPending m
    → (p : Text) (d : WatcherChange) → lookup p (merge_pending_change m c) ≡ some d
    → d.path ≡ p
unfolding merge_pending_change
merge-keyed m c v p d e =
    grind (arith, lookup-insert, lookup-delete c.path p m, text_eq_iff c.path p, v.keyed p d)

pub merge_pending_change-IsPending :
    (m : Map WatcherChange) (c : WatcherChange) → IsPending m → IsPending (merge_pending_change m c)
unfolding merge_pending_change
merge_pending_change-IsPending m c v = record {
  keyed = merge-keyed m c v;
  distinct = grind (arith, insert-Distinct, delete-Distinct, v.distinct);
}

pub merge_all-IsPending :
    (m : Map WatcherChange) (cs : List WatcherChange) → IsPending m → IsPending (merge_all m cs)
merge_all-IsPending m [] v = v
merge_all-IsPending m (c ∷ cs) v =
    merge_all-IsPending (merge_pending_change m c) cs (merge_pending_change-IsPending m c v)

pub empty-IsPending : IsPending []
unfolding lookup
empty-IsPending = record { keyed = λ p c e. cc; distinct = tt }

-- The changes of the map, in the order in which it is visited.
abbrev pub changes_of : Map WatcherChange → List WatcherChange
changes_of = map (λ e. e.1)

IsPending-head :
    (k : Text) (c : WatcherChange) (m : Map WatcherChange) → IsPending ((k, c) ∷ m) → c.path ≡ k
unfolding lookup
IsPending-head k c m v = v.keyed k c (rw (text_eq_refl k))

IsPending-tail :
    (k : Text) (c : WatcherChange) (m : Map WatcherChange) → IsPending ((k, c) ∷ m) → IsPending m
IsPending-tail k c m v = record {
  keyed = λ p d e. unfold lookup in ground (arith, v.keyed p d, text_eq_iff k p, v.distinct.0, e);
  distinct = v.distinct.1;
}

find_change-changes_of :
    (p : Text) (m : Map WatcherChange) → IsPending m → find_change p (changes_of m) ≡ lookup p m
unfolding lookup find_change
find_change-changes_of p [] v = refl
find_change-changes_of p ((k, c) ∷ m) v =
    ground (arith, IsPending-head k c m v, find_change-changes_of p m (IsPending-tail k c m v))

changes_of-DistinctPaths : (m : Map WatcherChange) → IsPending m → DistinctPaths (changes_of m)
changes_of-DistinctPaths [] v = tt
changes_of-DistinctPaths ((k, c) ∷ m) v = (
  rw (IsPending-head k c m v) (find_change-changes_of k m (IsPending-tail k c m v) ∙ v.distinct.0),
  changes_of-DistinctPaths m (IsPending-tail k c m v),
)

-- The batch of a pending map is strictly ascending by path and holds at each path exactly the
-- entry of the map.
pub sorted_pending_changes_batch :
    (m : Map WatcherChange)
    → IsPending m
    → Ascending (sorted_pending_changes m)
      × ((p : Text) → find_change p (sorted_pending_changes m) ≡ lookup p m)
unfolding sorted_pending_changes
sorted_pending_changes_batch m v = (
  sort_changes-Ascending _ (changes_of-DistinctPaths m v),
  λ p. find_change-sort_changes p _ (changes_of-DistinctPaths m v) ∙ find_change-changes_of p m v,
)

-- Two maps with the same entries give the same batch, in whichever order each is visited.
pub sorted_pending_changes-ext :
    (m n : Map WatcherChange)
    → IsPending m
    → IsPending n
    → ((p : Text) → lookup p m ≡ lookup p n)
    → sorted_pending_changes m ≡ sorted_pending_changes n
unfolding sorted_pending_changes
sorted_pending_changes-ext m n v w same =
    sort_changes-ext _ _ (changes_of-DistinctPaths m v) (changes_of-DistinctPaths n w)
      (λ p. find_change-changes_of p m v ∙ same p ∙ sym (find_change-changes_of p n w))
