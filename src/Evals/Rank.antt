-- ===== src/Evals/Rank.antt =====
-- The reciprocal rank is that of the first relevant document.
use gocodemunch_mcp.Base.{
  ℕ, suc, ◌+◌, Text, true, false, some, Bool-cases, List, [], ◌∷◌, take, get_elem?, ◌≡◌, refl, ◌⊎◌,
  inl, inr, Map, lookup, arith, All,
}
use gocodemunch_mcp.Base.Int.{ℤ, pos_part}
use gocodemunch_mcp.Evals.{is_relevant, mrr_loop, mrr_at_k, nothing_to_rank}

-- No relevant document among those, or the first one at a rank, counted from `first`.
abbrev pub IsFirst : Map ℤ → ℕ → List Text → ℕ × ℕ → Type 0
IsFirst relevance first ranked answer =
    ((answer ≡ (0, 1)) × All (λ d. is_relevant (lookup d relevance) ≡ false) ranked)
    ⊎ ((n : ℕ) × (d : Text) × (answer ≡ (1, first + n))
        × (get_elem? ranked n ≡ some d)
        × (is_relevant (lookup d relevance) ≡ true)
        × All (λ e. is_relevant (lookup e relevance) ≡ false) (take n ranked))

mrr_loop-IsFirst :
    (relevance : Map ℤ) (first : ℕ) (ranked : List Text)
    → IsFirst relevance first ranked (mrr_loop relevance first ranked)
unfolding mrr_loop
mrr_loop-IsFirst relevance first [] = inl (refl, tt)
mrr_loop-IsFirst relevance first (d ∷ ranked) =
    elim (Bool-cases (is_relevant (lookup d relevance))) [
      | inl relevant ↦ inr (0, d, ground (arith, relevant), refl, relevant, tt)
      | inr other ↦ elim (mrr_loop-IsFirst relevance (suc first) ranked) [
        | inl (e, rest) ↦ inl (ground (arith, other, e), (other, rest))
        | inr (n, doc, e, at, found, rest) ↦
            inr (suc n, doc, ground (arith, other, e), at, found, (other, rest))
      ]
    ]

-- With something to rank, the reciprocal rank at `k` is 0 if none of the first `k` documents is
-- relevant, and otherwise one over the rank, from 1, of the first that is.
pub mrr_at_k-IsFirst :
    (ranked : List Text) (relevance : Map ℤ) (k : ℤ)
    → nothing_to_rank ranked relevance k ≡ false
    → IsFirst relevance 1 (take (pos_part k) ranked) (mrr_at_k ranked relevance k)
unfolding mrr_at_k
mrr_at_k-IsFirst ranked relevance k something =
    rw something (mrr_loop-IsFirst relevance 1 (take (pos_part k) ranked))
