-- ===== src/Watcher/Changes/Sorted.antt =====
-- The order of a sorted batch, and that it depends only on the changes and not on the order in
-- which the map was visited.
use gocodemunch_mcp.Base.{
  Text, text_eq, text_eq_iff, text_eq_refl, text_less, text_less_irrefl, text_less_trans,
  text_less_total, ◌≡◌, refl, sym, ◌∙◌, ap, ap₂, true, Option, none, some, List, [], ◌∷◌, ◌++◌,
  if◌then◌else◌, arith, All,
}
use gocodemunch_mcp.Watcher.{WatcherChange}
use gocodemunch_mcp.Watcher.Changes.{change_less, insert_sorted, sort_changes}

-- The first change at a path.
unfoldable pub find_change : Text → List WatcherChange → Option WatcherChange
find_change p [] = none
find_change p (c ∷ l) = if text_eq c.path p then some c else find_change p l

-- Every path stands once.
abbrev pub DistinctPaths : List WatcherChange → Type 0
DistinctPaths [] = Unit
DistinctPaths (c ∷ l) = (find_change c.path l ≡ none) × DistinctPaths l

-- Strictly ascending by path.
abbrev pub Ascending : List WatcherChange → Type 0
Ascending [] = Unit
Ascending (c ∷ l) = All (λ d. text_less c.path d.path ≡ true) l × Ascending l

pub find_change-append :
    (p : Text) (xs ys : List WatcherChange)
    → find_change p (xs ++ ys)
      ≡ elim (find_change p xs) [ none ↦ find_change p ys | some c ↦ some c ]
unfolding find_change
find_change-append p [] ys = refl
find_change-append p (x ∷ xs) ys = ground (arith, find_change-append p xs ys)

find_change-insert_sorted :
    (p : Text) (c : WatcherChange) (l : List WatcherChange)
    → find_change c.path l ≡ none
    → find_change p (insert_sorted c l) ≡ (if text_eq c.path p then some c else find_change p l)
unfolding find_change insert_sorted
find_change-insert_sorted p c [] h = refl
find_change-insert_sorted p c (d ∷ l) h = ground (
  arith,
  text_eq_iff c.path p,
  text_eq_iff d.path p,
  text_eq_iff d.path c.path,
  find_change-insert_sorted p c l,
)

-- Sorting keeps the change at every path.
pub find_change-sort_changes :
    (p : Text) (l : List WatcherChange)
    → DistinctPaths l
    → find_change p (sort_changes l) ≡ find_change p l
unfolding sort_changes find_change
find_change-sort_changes p [] d = refl
find_change-sort_changes p (c ∷ l) d =
    find_change-insert_sorted p c (sort_changes l) (find_change-sort_changes c.path l d.1 ∙ d.0)
    ∙ ap (λ r. if text_eq c.path p then some c else r) (find_change-sort_changes p l d.1)

All-less_trans :
    (c d : WatcherChange) (l : List WatcherChange)
    → text_less c.path d.path ≡ true
    → All (λ e. text_less d.path e.path ≡ true) l
    → All (λ e. text_less c.path e.path ≡ true) l
All-less_trans c d [] h a = tt
All-less_trans c d (e ∷ l) h a =
    (text_less_trans c.path d.path e.path h a.0, All-less_trans c d l h a.1)

All-less-insert_sorted :
    (b c : WatcherChange) (l : List WatcherChange)
    → text_less b.path c.path ≡ true
    → All (λ e. text_less b.path e.path ≡ true) l
    → All (λ e. text_less b.path e.path ≡ true) (insert_sorted c l)
unfolding insert_sorted
All-less-insert_sorted b c [] h a = (h, tt)
All-less-insert_sorted b c (d ∷ l) h a = ground (arith, All-less-insert_sorted b c l h a.1)

insert_sorted-Ascending :
    (c : WatcherChange) (l : List WatcherChange)
    → find_change c.path l ≡ none
    → Ascending l
    → Ascending (insert_sorted c l)
unfolding insert_sorted change_less find_change
insert_sorted-Ascending c [] h a = (tt, tt)
insert_sorted-Ascending c (d ∷ l) h a = ground (
  arith,
  text_eq_iff d.path c.path,
  text_eq_iff c.path d.path,
  text_less_total c.path d.path,
  All-less_trans c d l,
  insert_sorted-Ascending c l,
  All-less-insert_sorted d c l,
)

-- A batch with one change at each path is sorted strictly.
pub sort_changes-Ascending : (l : List WatcherChange) → DistinctPaths l → Ascending (sort_changes l)
unfolding sort_changes
sort_changes-Ascending [] d = tt
sort_changes-Ascending (c ∷ l) d =
    insert_sorted-Ascending c (sort_changes l) (find_change-sort_changes c.path l d.1 ∙ d.0)
      (sort_changes-Ascending l d.1)

find_below :
    (p : Text) (l : List WatcherChange)
    → All (λ d. text_less p d.path ≡ true) l
    → find_change p l ≡ none
unfolding find_change
find_below p [] a = refl
find_below p (d ∷ l) a =
    ground (arith, text_eq_iff d.path p, text_less_irrefl p, find_below p l a.1)

module _ (c d : WatcherChange) (l m : List WatcherChange) (a : Ascending (c ∷ l))
    (b : Ascending (d ∷ m))
    (same : (p : Text) → find_change p (c ∷ l) ≡ find_change p (d ∷ m)) where
  heads_eq : c ≡ d
  unfolding find_change
  heads_eq = ground (
    arith,
    same c.path,
    same d.path,
    text_eq_refl c.path,
    text_eq_refl d.path,
    text_less_total c.path d.path,
    text_eq_iff d.path c.path,
    text_eq_iff c.path d.path,
    below_c,
    below_d,
  )
    where
      below_c : text_less c.path d.path ≡ true → find_change c.path (d ∷ m) ≡ none
      below_c h = find_below c.path (d ∷ m) (h, All-less_trans c d m h b.0)

      below_d : text_less d.path c.path ≡ true → find_change d.path (c ∷ l) ≡ none
      below_d h = find_below d.path (c ∷ l) (h, All-less_trans d c l h a.0)

  tails_same : (p : Text) → find_change p l ≡ find_change p m
  unfolding find_change
  tails_same p = ground (
    arith,
    same p,
    heads_eq,
    text_eq_iff c.path p,
    text_eq_iff d.path p,
    find_below c.path l a.0,
    find_below d.path m b.0,
  )

-- Ascending lists with the same changes are one list.
pub Ascending-ext :
    (l m : List WatcherChange)
    → Ascending l
    → Ascending m
    → ((p : Text) → find_change p l ≡ find_change p m)
    → l ≡ m
Ascending-ext [] [] a b e = refl
Ascending-ext [] (d ∷ m) a b e = unfold find_change in ground (arith, e d.path, text_eq_refl d.path)
Ascending-ext (c ∷ l) [] a b e = unfold find_change in ground (arith, e c.path, text_eq_refl c.path)
Ascending-ext (c ∷ l) (d ∷ m) a b e =
    ap₂ (◌∷◌) (heads_eq c d l m a b e) (Ascending-ext l m a.1 b.1 (tails_same c d l m a b e))

pub sort_changes-ext :
    (l m : List WatcherChange)
    → DistinctPaths l
    → DistinctPaths m
    → ((p : Text) → find_change p l ≡ find_change p m)
    → sort_changes l ≡ sort_changes m
sort_changes-ext l m dl dm e =
    Ascending-ext _ _ (sort_changes-Ascending l dl) (sort_changes-Ascending m dm)
      (λ p. find_change-sort_changes p l dl ∙ e p ∙ sym (find_change-sort_changes p m dm))
