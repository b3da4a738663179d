-- ===== src/Evals.antt =====
-- Retrieval metrics: RecallAtK and MRRAtK of src/internal/evals/metrics.go. A quotient is the pair
-- of its numerator and its denominator, before the division of floats.
pub mod Recall
pub mod Rank
use gocodemunch_mcp.Base.{
  ℕ, zero, suc, ◌+◌, Text, Bool, true, false, not, ◌&&◌, ◌||◌, Option, none, some, List, [], ◌∷◌,
  length, take, if◌then◌else◌, ltb, leb, ◌==◌, min, Map, lookup, insert,
}
use gocodemunch_mcp.Base.Int.{ℤ, is_pos, pos_part}

-- `relevanceByDocID[docID] > 0`
abbrev pub is_relevant : Option ℤ → Bool
is_relevant none = false
is_relevant (some relevance) = is_pos relevance

unfoldable pub count_relevant : Map ℤ → ℕ
count_relevant [] = 0
count_relevant ((doc_id, relevance) ∷ m) = (if is_pos relevance then 1 else 0) + count_relevant m

-- The loop of RecallAtK over the first ranks, with the documents that have been seen.
unfoldable pub recall_loop : Map ℤ → Map (Unit {0}) → List Text → ℕ
recall_loop relevance seen [] = 0
recall_loop relevance seen (doc_id ∷ ranked) =
    let again = recall_loop relevance seen ranked in
    let first = recall_loop relevance (insert doc_id tt seen) ranked in
    elim (lookup doc_id seen) [
      | some w ↦ again
      | none ↦ (if is_relevant (lookup doc_id relevance) then 1 else 0) + first
    ]

is_empty_list {ℓ} : {A : Type ℓ} → List A → Bool
is_empty_list [] = true
is_empty_list (x ∷ xs) = false

-- `k <= 0 || len(rankedDocIDs) == 0 || len(relevanceByDocID) == 0`
unfoldable pub nothing_to_rank : List Text → Map ℤ → ℤ → Bool
unfolding is_empty_list
nothing_to_rank ranked relevance k =
    not (is_pos k) || is_empty_list ranked || is_empty_list relevance

-- 0 is 0/1.
unfoldable pub recall_at_k : List Text → Map ℤ → ℤ → ℕ × ℕ
unfolding nothing_to_rank
recall_at_k ranked relevance k =
    if nothing_to_rank ranked relevance k
    then (0, 1)
    else if count_relevant relevance == 0
    then (0, 1)
    else (recall_loop relevance [] (take (pos_part k) ranked), count_relevant relevance)

-- The loop of MRRAtK, with the rank of the first document of the list.
unfoldable pub mrr_loop : Map ℤ → ℕ → List Text → ℕ × ℕ
mrr_loop relevance rank [] = (0, 1)
mrr_loop relevance rank (doc_id ∷ ranked) =
    let rest = mrr_loop relevance (suc rank) ranked in
    if is_relevant (lookup doc_id relevance) then (1, rank) else rest

unfoldable pub mrr_at_k : List Text → Map ℤ → ℤ → ℕ × ℕ
unfolding nothing_to_rank mrr_loop
mrr_at_k ranked relevance k =
    if nothing_to_rank ranked relevance k
    then (0, 1)
    else mrr_loop relevance 1 (take (pos_part k) ranked)
