-- ===== src/Orchestration/Resilience/Batches.antt =====
-- How records are split into batches.
use mathlib.Core.List.{flatten, cons-ne-nil}
use native.Mathlib.Nat.{div-eq_of_lt-le, div-eq_of_lt, add-div_right}
use native.Mathlib.Decide.{dec_le}
use gocodemunch_mcp.Base.{
  ℕ, zero, suc, ◌+◌, ◌-◌, ◌/◌, ◌≤◌, ◌<◌, ◌≡◌, ◌≢◌, refl, sym, ◌∙◌, ap, List, [], ◌∷◌, ◌++◌, length,
  take, drop, length-take, length-drop, take-append-drop, arith, if◌then◌else◌,
}
use gocodemunch_mcp.Base.Int.{ℤ, is_pos, pos_part}
use gocodemunch_mcp.Orchestration.Resilience.{batch_loop, split_batches}

-- The size that a batch is held to: the given one, or everything if that is not positive.
abbrev pub effective_size {ℓ} : {A : Type ℓ} → List A → ℤ → ℕ
effective_size records batch_size =
    if is_pos batch_size then pos_part batch_size else length records

-- Every batch but the last is full, and the last is neither empty nor too large.
abbrev pub AreFull {ℓ} : {A : Type ℓ} → ℕ → List (List A) → Type 0
AreFull size [] = Unit
AreFull size (b ∷ []) = (1 ≤ length b) × (length b ≤ size)
AreFull size (b ∷ c ∷ bs) = (length b ≡ size) × AreFull size (c ∷ bs)

length-pos {ℓ} : {A : Type ℓ} (xs : List A) → xs ≢ [] → 0 < length xs
length-pos [] h = absurd (h refl)
length-pos (x ∷ xs) h = omega arith

module _ (size : ℕ) (some_size : 0 < size) where
  one_batch : (n : ℕ) → 0 < n → n ≤ size → (n + size - 1) / size ≡ 1
  one_batch n p q = div-eq_of_lt-le {k = 1} size {m = n + size - 1} (omega arith) (omega arith)

  no_batch : (0 + size - 1) / size ≡ 0
  no_batch = div-eq_of_lt (omega arith)

  more_batches : (n : ℕ) → size ≤ n → (n + size - 1) / size ≡ (n - size + size - 1) / size + 1
  more_batches n h =
      let shift : n + size - 1 ≡ (n - size + size - 1) + size = omega arith in
      rw shift (add-div_right _ some_size)

module _ {ℓ} {A : Type ℓ} (size : ℕ) (some_size : 0 < size) where
  flatten-batch_loop :
      (fuel : ℕ) (records : List A)
      → length records ≤ fuel
      → flatten (batch_loop size fuel records) ≡ records
  unfolding flatten batch_loop
  flatten-batch_loop zero [] h = refl
  flatten-batch_loop zero (x ∷ xs) h = absurd (omega arith)
  flatten-batch_loop (suc fuel) [] h = refl
  flatten-batch_loop (suc fuel) (x ∷ xs) h =
      ap (λ r. take size (x ∷ xs) ++ r)
        (flatten-batch_loop fuel (drop size (x ∷ xs)) (omega (arith, length-drop size (x ∷ xs))))
      ∙ take-append-drop size (x ∷ xs)

  AreFull-cons :
      (fuel : ℕ) (b rest : List A)
      → (rest ≢ [] → length b ≡ size)
      → 1 ≤ length b
      → length b ≤ size
      → length rest ≤ fuel
      → AreFull size (batch_loop size fuel rest)
      → AreFull size (b ∷ batch_loop size fuel rest)
  unfolding batch_loop
  AreFull-cons zero b [] s p q h f = (p, q)
  AreFull-cons zero b (y ∷ ys) s p q h f = absurd (omega arith)
  AreFull-cons (suc fuel) b [] s p q h f = (p, q)
  AreFull-cons (suc fuel) b (y ∷ ys) s p q h f = (s (cons-ne-nil y ys), f)

  AreFull-batch_loop :
      (fuel : ℕ) (records : List A)
      → length records ≤ fuel
      → AreFull size (batch_loop size fuel records)
  AreFull-batch_loop zero [] h = unfold batch_loop in tt
  AreFull-batch_loop zero (x ∷ xs) h = absurd (omega arith)
  AreFull-batch_loop (suc fuel) [] h = unfold batch_loop in tt
  AreFull-batch_loop (suc fuel) (x ∷ xs) h =
      full_round fuel x xs h
        (AreFull-batch_loop fuel (drop size (x ∷ xs)) (omega (arith, length-drop size (x ∷ xs))))
    where
      full_round :
          (fuel : ℕ) (x : A) (xs : List A)
          → length (x ∷ xs) ≤ suc fuel
          → AreFull size (batch_loop size fuel (drop size (x ∷ xs)))
          → AreFull size (batch_loop size (suc fuel) (x ∷ xs))
      full_round fuel x xs h f =
          unfold batch_loop in
          AreFull-cons fuel (take size (x ∷ xs)) (drop size (x ∷ xs))
            (λ more. omega (
              arith,
              length-take size (x ∷ xs),
              length-drop size (x ∷ xs),
              length-pos (drop size (x ∷ xs)) more,
            ))
            (omega (arith, length-take size (x ∷ xs))) (omega (arith, length-take size (x ∷ xs)))
            (omega (arith, length-drop size (x ∷ xs))) f

  length-batch_loop :
      (fuel : ℕ) (records : List A)
      → length records ≤ fuel
      → length (batch_loop size fuel records) ≡ (length records + size - 1) / size
  unfolding batch_loop
  length-batch_loop zero [] h = sym (no_batch size some_size)
  length-batch_loop zero (x ∷ xs) h = absurd (omega arith)
  length-batch_loop (suc fuel) [] h = sym (no_batch size some_size)
  length-batch_loop (suc fuel) (x ∷ xs) h = round (dec_le size (length (x ∷ xs))) (
      length-batch_loop fuel (drop size (x ∷ xs)) (omega (arith, length-drop size (x ∷ xs)))
      ∙ ap (λ n. (n + size - 1) / size) (length-drop size (x ∷ xs)))
    where
      round :
          Dec (size ≤ length (x ∷ xs))
          → length (batch_loop size fuel (drop size (x ∷ xs)))
            ≡ (length (x ∷ xs) - size + size - 1) / size
          → suc (length (batch_loop size fuel (drop size (x ∷ xs))))
            ≡ (length (x ∷ xs) + size - 1) / size
      round (yes p) e = omega (arith, more_batches size some_size (length (x ∷ xs)) p, e)
      round (no p) e =
          let none_left : length (x ∷ xs) - size ≡ 0 = omega arith in
          omega (
            arith,
            e,
            one_batch size some_size (length (x ∷ xs)) (omega arith) (omega arith),
            ap (λ n. (n + size - 1) / size) none_left,
            no_batch size some_size,
          )

-- Splitting loses and reorders nothing: the batches in order are the records. Every batch but the
-- last has the effective size and the last has one record at least, so their number is the
-- capacity that the code reserves for them, the records over the size, rounded up.
pub split_batches_lem {ℓ} :
    {A : Type ℓ} (records : List A) (batch_size : ℤ)
    → records ≢ []
    → (flatten (split_batches records batch_size) ≡ records)
      × AreFull (effective_size records batch_size) (split_batches records batch_size)
      × (length (split_batches records batch_size)
          ≡ (length records + effective_size records batch_size - 1)
            / effective_size records batch_size)
unfolding split_batches
split_batches_lem records batch_size some_records =
    let size = effective_size records batch_size in
    let positive : 0 < size = ground (arith, length-pos records some_records) in
    (
      flatten-batch_loop size positive (length records) records (omega arith),
      AreFull-batch_loop size positive (length records) records (omega arith),
      length-batch_loop size positive (length records) records (omega arith),
    )
