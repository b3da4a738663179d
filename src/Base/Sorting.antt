-- ===== src/Base/Sorting.antt =====
-- sort.Strings, sets of strings, and the sorted list of a map's keys. A strictly increasing list is
-- determined by its members, so what a map's range leaves open is settled by the sort.
use Prim.Native.Nat.{ℕ}
use mathlib.Core.Path.{◌≡◌, refl, sym, ap, ap₂, ◌∙◌}
use mathlib.Core.Logic.{◌⊎◌, inl, inr}
use mathlib.Core.Bool.{Bool, true, false, ◌||◌}
use mathlib.Core.List.{List, [], ◌∷◌}
use mathlib.Core.Option.{none, some}
use native.Mathlib.Omega.{arith}
use gocodemunch_mcp.Base.Tests.{if◌then◌else◌, Bool-cases}
use gocodemunch_mcp.Base.Lists.{length}
use gocodemunch_mcp.Base.Strings.{
  Text, text_eq, text_eq_iff, text_eq_refl, text_less, text_less_irrefl, text_less_trans,
  text_less_total,
}
use gocodemunch_mcp.Base.Maps.{Map, lookup, Distinct}

unfoldable pub member : Text → List Text → Bool
member x [] = false
member x (y ∷ ys) = text_eq y x || member x ys

insert_string : Text → List Text → List Text
insert_string x [] = x ∷ []
insert_string x (y ∷ ys) =
    let rest = insert_string x ys in if text_less y x then y ∷ rest else x ∷ y ∷ ys

unfoldable pub sort_strings : List Text → List Text
unfolding insert_string
sort_strings [] = []
sort_strings (x ∷ xs) = insert_string x (sort_strings xs)

member-insert_string :
    (z x : Text) (ys : List Text) → member z (insert_string x ys) ≡ (text_eq x z || member z ys)
unfolding member insert_string
member-insert_string z x [] = refl
member-insert_string z x (y ∷ ys) = ground (arith, member-insert_string z x ys)

pub member-sort_strings : (z : Text) (xs : List Text) → member z (sort_strings xs) ≡ member z xs
unfolding sort_strings
member-sort_strings z [] = refl
member-sort_strings z (x ∷ xs) =
    member-insert_string z x (sort_strings xs)
    ∙ rw (member-sort_strings z xs) (unfold member in refl)

length-insert_string : (x : Text) (ys : List Text) → length (insert_string x ys) ≡ ℕ.suc (length ys)
unfolding insert_string
length-insert_string x [] = refl
length-insert_string x (y ∷ ys) = ground (arith, length-insert_string x ys)

pub length-sort_strings : (xs : List Text) → length (sort_strings xs) ≡ length xs
unfolding sort_strings
length-sort_strings [] = refl
length-sort_strings (x ∷ xs) =
    length-insert_string x (sort_strings xs) ∙ ap ℕ.suc (length-sort_strings xs)

-- Below every element.
abbrev Under : Text → List Text → Type 0
Under x ys = (z : Text) → member z ys ≡ true → text_less x z ≡ true

-- Strictly increasing, so without a repetition.
abbrev pub IsIncreasing : List Text → Type 0
IsIncreasing [] = Unit
IsIncreasing (x ∷ xs) = Under x xs × IsIncreasing xs

-- No string stands twice.
abbrev pub IsSimple : List Text → Type 0
IsSimple [] = Unit
IsSimple (x ∷ xs) = (member x xs ≡ false) × IsSimple xs

or_cases : (a b : Bool) → (a || b) ≡ true → (a ≡ true) ⊎ (b ≡ true)
or_cases true b h = inl refl
or_cases false b h = inr h

-- What a member of a list with one more element is.
member_cases :
    (z x : Text) (ys : List Text)
    → (text_eq x z || member z ys) ≡ true
    → (x ≡ z) ⊎ (member z ys ≡ true)
member_cases z x ys h = elim (or_cases (text_eq x z) (member z ys) h) [
  | inl e ↦ inl ((text_eq_iff x z).0 e)
  | inr e ↦ inr e
]

text_less_flip : (x y : Text) → text_eq y x ≡ false → text_less y x ≡ false → text_less x y ≡ true
text_less_flip x y h k = elim (Bool-cases (text_less x y)) [
  | inl e ↦ e
  | inr e ↦
      absurd (let q : y ≡ x = text_less_total y x k e in ground (arith, h, (text_eq_iff y x).1 q))
]

insert_string-IsIncreasing :
    (x : Text) (ys : List Text)
    → member x ys ≡ false
    → IsIncreasing ys
    → IsIncreasing (insert_string x ys)
unfolding insert_string
insert_string-IsIncreasing x [] m h = (λ z k. unfold member in cc, tt)
insert_string-IsIncreasing x (y ∷ ys) m (u, h) = elim (Bool-cases (text_less y x)) [
  | inl e ↦ rw e (
    λ z k. elim (member_cases z x ys (sym (member-insert_string z x ys) ∙ k)) [
      | inl q ↦ rw (sym q) e
      | inr q ↦ u z q
    ],
    insert_string-IsIncreasing x ys (unfold member in ground (arith, m)) h,
  )
  | inr e ↦
      let less : text_less x y ≡ true = text_less_flip x y (unfold member in ground (arith, m)) e in
      rw e (
        λ z k. elim (member_cases z y ys (unfold member in k)) [
          | inl q ↦ rw (sym q) less
          | inr q ↦ text_less_trans x y z less (u z q)
        ],
        (u, h),
      )
]

pub sort_strings-IsIncreasing : (xs : List Text) → IsSimple xs → IsIncreasing (sort_strings xs)
unfolding sort_strings
sort_strings-IsIncreasing [] h = tt
sort_strings-IsIncreasing (x ∷ xs) (m, h) =
    insert_string-IsIncreasing x (sort_strings xs) (member-sort_strings x xs ∙ m)
      (sort_strings-IsIncreasing xs h)

not-Under : (x : Text) (xs : List Text) → Under x xs → member x xs ≡ false
not-Under x xs u = elim (Bool-cases (member x xs)) [
  | inl e ↦ absurd (ground (arith, u x e, text_less_irrefl x))
  | inr e ↦ e
]

heads :
    (x y : Text) (xs ys : List Text)
    → Under x xs
    → Under y ys
    → member x (y ∷ ys) ≡ true
    → member y (x ∷ xs) ≡ true
    → x ≡ y
heads x y xs ys u v h k = elim (member_cases x y ys (unfold member in h)) [
  | inl e ↦ sym e
  | inr e ↦ elim (member_cases y x xs (unfold member in k)) [
    | inl q ↦ q
    | inr q ↦ absurd (ground (arith, text_less_trans x y x (u y q) (v x e), text_less_irrefl x))
  ]
]

tails :
    (x y : Text) (xs ys : List Text)
    → Under x xs
    → Under y ys
    → x ≡ y
    → (z : Text) → member z (x ∷ xs) ≡ member z (y ∷ ys)
    → member z xs ≡ member z ys
unfolding member
tails x y xs ys u v p z e = elim (Bool-cases (text_eq x z)) [
  | inl q ↦
      let r : x ≡ z = (text_eq_iff x z).0 q in
      rw (sym r, not-Under x xs u, p, not-Under y ys v) refl
  | inr q ↦ ground (arith, e, q, p)
]

-- Increasing lists with the same members are equal.
pub increasing-ext :
    (xs ys : List Text)
    → IsIncreasing xs
    → IsIncreasing ys
    → ((z : Text) → member z xs ≡ member z ys)
    → xs ≡ ys
increasing-ext [] [] h k e = refl
increasing-ext [] (y ∷ ys) h k e =
    absurd (let q = e y in unfold member in ground (arith, q, text_eq_refl y))
increasing-ext (x ∷ xs) [] h k e =
    absurd (let q = e x in unfold member in ground (arith, q, text_eq_refl x))
increasing-ext (x ∷ xs) (y ∷ ys) (u, h) (v, k) e =
    let p : x ≡ y =
      heads x y xs ys u v (sym (e x) ∙ (unfold member in rw (text_eq_refl x) refl))
        (e y ∙ (unfold member in rw (text_eq_refl y) refl)) in
    ap₂ (λ a bs. a ∷ bs) p (increasing-ext xs ys h k (λ z. tails x y xs ys u v p z (e z)))

module _ {ℓ} {V : Type ℓ} where
  -- `_, ok := m[k]`
  unfoldable pub has : Text → Map V → Bool
  has k m = elim (lookup k m) [ none ↦ false | some v ↦ true ]

  -- The keys, as `range` visits them.
  unfoldable pub keys : Map V → List Text
  keys [] = []
  keys ((k, v) ∷ m) = k ∷ keys m

  pub member-keys : (k : Text) (m : Map V) → member k (keys m) ≡ has k m
  unfolding member keys has lookup
  member-keys k [] = refl
  member-keys k ((j, v) ∷ m) = ground (arith, member-keys k m)

  pub keys-IsSimple : (m : Map V) → Distinct m → IsSimple (keys m)
  unfolding keys
  keys-IsSimple [] d = tt
  keys-IsSimple ((k, v) ∷ m) (e, d) =
      (member-keys k m ∙ (unfold has in rw (e, has) refl), keys-IsSimple m d)
