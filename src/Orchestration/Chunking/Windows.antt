-- ===== src/Orchestration/Chunking/Windows.antt =====
-- The windows of a file: they tile its lines, keep to the limits, and are as long as these allow.
use gocodemunch_mcp.Base.{
  ℕ, zero, suc, ◌+◌, ◌≤◌, ◌<◌, Text, join, length-join_cons, ◌≡◌, ◌∙◌, Bool, true, false,
  Bool-cases, List, [], ◌∷◌, length, take, if◌then◌else◌, ltb, leb, ◌&&◌, ◌||◌, ◌⊎◌, inl, inr,
  arith, ltb→lt,
}
use gocodemunch_mcp.Orchestration.Chunking.{newline, window_loop, end_chunk_window}

-- The characters that `k` more lines add to a window of `taken` lines.
abbrev cost : ℕ → ℕ → List Text → ℕ
cost zero taken rest = 0
cost (suc k) taken [] = 0
cost (suc k) taken (line ∷ rest) =
    length line + (if ltb 0 taken then 1 else 0) + cost k (suc taken) rest

cost-pos : (taken : ℕ) (rest : List Text) → 0 < length rest → 0 < cost 1 (suc taken) rest
cost-pos taken [] h = absurd (omega arith)
cost-pos taken (line ∷ rest) h = ground arith

module _ (max_lines max_characters : ℕ) (some_lines : 0 < max_lines) where
  -- A window of `taken + k` lines out of `taken` and the rest.
  record IsWindow (rest : List Text) (taken characters k : ℕ) : Type 0 where
    within : k ≤ length rest
    lines : taken + k ≤ max_lines
    fits : (taken + k ≤ 1) ⊎ (characters + cost k taken rest ≤ max_characters)
    greedy :
        k < length rest
        → (max_lines ≤ taken + k) ⊎ (max_characters < characters + cost (suc k) taken rest)

  module _ (line : Text) (rest : List Text) (taken characters : ℕ) (h : taken < max_lines)
      (c : characters < max_characters) where
    next : ℕ
    next = characters + length line + (if ltb 0 taken then 1 else 0)

    is_full : Bool
    is_full = ltb 0 taken && (ltb max_lines (suc taken) || ltb max_characters next)

    is_last : Bool
    is_last = leb max_lines (suc taken) || leb max_characters next

    before-IsWindow : is_full ≡ true → IsWindow (line ∷ rest) taken characters 0
    unfolding is_full next
    before-IsWindow full = record {
      within = omega arith;
      lines = omega arith;
      fits = inr (omega arith);
      greedy = λ _. ground (arith, full);
    }

    last-IsWindow : is_full ≡ false → is_last ≡ true → IsWindow (line ∷ rest) taken characters 1
    unfolding is_full is_last next
    last-IsWindow full last = record {
      within = omega arith;
      lines = omega arith;
      fits = ground (arith, full);
      greedy = λ longer. ground (arith, last, cost-pos taken rest);
    }

    more-IsWindow :
        (k : ℕ)
        → is_last ≡ false
        → IsWindow rest (suc taken) next k
        → IsWindow (line ∷ rest) taken characters (suc k)
    unfolding is_last next
    more-IsWindow k last w = record {
      within = omega (arith, w.within);
      lines = omega (arith, w.lines);
      fits = ground (arith, w.fits);
      greedy = λ longer. ground (arith, w.greedy (omega arith));
    }

    loop-more :
        is_full ≡ false
        → is_last ≡ false
        → window_loop max_lines max_characters (line ∷ rest) taken characters
          ≡ window_loop max_lines max_characters rest (suc taken) next
    unfolding is_full is_last next window_loop
    loop-more free goes = ground (arith, free, goes)

  window_loop-IsWindow :
      (rest : List Text) (taken characters : ℕ)
      → taken < max_lines
      → characters < max_characters
      → (k : ℕ) × (window_loop max_lines max_characters rest taken characters ≡ taken + k)
        × IsWindow rest taken characters k
  unfolding window_loop
  window_loop-IsWindow [] taken characters h c = (0, omega arith, ground arith)
  window_loop-IsWindow (line ∷ rest) taken characters h c =
      elim (Bool-cases (is_full line rest taken characters h c)) [
        | inl full ↦ (
          0,
          unfold is_full next in ground (arith, full),
          before-IsWindow line rest taken characters h c full,
        )
        | inr free ↦ elim (Bool-cases (is_last line rest taken characters h c)) [
          | inl last ↦ (
            1,
            unfold is_full is_last next in ground (arith, free, last),
            last-IsWindow line rest taken characters h c free last,
          )
          | inr goes ↦
              let step = next line rest taken characters h c in
              let fits : (suc taken < max_lines) × (step < max_characters) =
                unfold is_last next in ground (arith, goes) in
              let (k, e, w) = window_loop-IsWindow rest (suc taken) step fits.0 fits.1 in
              (
                suc k,
                loop-more line rest taken characters h c free goes ∙ e ∙ (omega arith),
                more-IsWindow line rest taken characters h c k goes w,
              )
        ]
      ]

cost-join-suc :
    (k taken : ℕ) (line : Text) (rest : List Text)
    → k ≤ length rest
    → cost (suc k) (suc taken) (line ∷ rest) ≡ 1 + length (join newline (line ∷ take k rest))
cost-join-suc zero taken line rest h = unfold join in ground arith
cost-join-suc (suc k) taken line [] h = absurd (omega arith)
cost-join-suc (suc k) taken line (next ∷ rest) h =
    ground (
      arith,
      cost-join-suc k (suc taken) next rest,
      length-join_cons newline line next (take k rest),
    )

-- The characters of a window are the bytes of its text.
cost-join :
    (k : ℕ) (line : Text) (rest : List Text)
    → k ≤ length rest
    → cost (suc k) 0 (line ∷ rest) ≡ length (join newline (line ∷ take k rest))
cost-join zero line rest h = unfold join in ground arith
cost-join (suc k) line [] h = absurd (omega arith)
cost-join (suc k) line (next ∷ rest) h =
    ground (arith, cost-join-suc k 0 next rest, length-join_cons newline line next (take k rest))

window_loop-ge :
    (max_lines max_characters : ℕ) (rest : List Text) (taken characters : ℕ)
    → taken ≤ window_loop max_lines max_characters rest taken characters
unfolding window_loop
window_loop-ge max_lines max_characters [] taken characters = omega arith
window_loop-ge max_lines max_characters (line ∷ rest) taken characters = ground (
  arith,
  window_loop-ge max_lines max_characters rest (suc taken)
      (characters + length line + (if ltb 0 taken then 1 else 0)),
)

window_progress :
    (max_lines max_characters : ℕ) (line : Text) (lines : List Text)
    → 1 ≤ window_loop max_lines max_characters (line ∷ lines) 0 0
unfolding window_loop
window_progress max_lines max_characters line lines =
    ground (arith, window_loop-ge max_lines max_characters lines 1 (0 + length line + 0))

-- With positive limits a window of a file that has lines left has at least one of them and no more
-- than there are or than the limit; its text keeps to the character limit unless it is a single
-- line; and it is as long as the limits allow: it holds all the lines, or one more would break a
-- limit.
pub end_chunk_window_lem :
    (max_lines max_characters : ℕ) (line : Text) (lines : List Text)
    → 0 < max_lines
    → 0 < max_characters
    → let rest = line ∷ lines in
      let n = end_chunk_window max_lines max_characters rest in
      (1 ≤ n)
      × (n ≤ length rest)
      × (n ≤ max_lines)
      × ((n ≡ 1) ⊎ (length (join newline (take n rest)) ≤ max_characters))
      × ((n ≡ length rest)
          ⊎ (max_lines ≤ n)
          ⊎ (max_characters < length (join newline (take (suc n) rest))))
end_chunk_window_lem max_lines max_characters line lines h c =
    let (k, e, w) = window_loop-IsWindow max_lines max_characters h (line ∷ lines) 0 0 h c in
    of_window k (e ∙ (omega arith)) (window_progress max_lines max_characters line lines) w
  where
    of_window :
        (k : ℕ)
        → window_loop max_lines max_characters (line ∷ lines) 0 0 ≡ k
        → 1 ≤ window_loop max_lines max_characters (line ∷ lines) 0 0
        → IsWindow max_lines max_characters h (line ∷ lines) 0 0 k
        → let rest = line ∷ lines in
          let n = end_chunk_window max_lines max_characters rest in
          (1 ≤ n)
          × (n ≤ length rest)
          × (n ≤ max_lines)
          × ((n ≡ 1) ⊎ (length (join newline (take n rest)) ≤ max_characters))
          × ((n ≡ length rest)
              ⊎ (max_lines ≤ n)
              ⊎ (max_characters < length (join newline (take (suc n) rest))))
    of_window zero e p w = absurd (omega arith)
    of_window (suc k) e p w =
        let same : end_chunk_window max_lines max_characters (line ∷ lines) ≡ suc k =
          unfold end_chunk_window in ground (arith, e) in
        rw same (
          omega arith,
          w.within,
          omega (arith, w.lines),
          ground (arith, w.fits, w.within, cost-join k line lines),
          elim (Bool-cases (ltb (suc k) (length (line ∷ lines)))) [
            | inl longer ↦
                inr
                  (ground (arith, w.greedy (ltb→lt (suc k) _ longer), cost-join (suc k) line lines))
            | inr whole ↦ inl (ground (arith, whole, w.within))
          ],
        )
