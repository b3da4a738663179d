-- ===== src/Evals/Recall.antt =====
-- Recall is a part of the whole.
use gocodemunch_mcp.Base.{
  ℕ, ◌+◌, ◌≤◌, ◌<◌, Text, text_eq_iff, none, some, Option-cases, List, [], ◌∷◌, take, if◌then◌else◌,
  ◌≡◌, inl, inr, Map, lookup, insert, lookup-insert, Distinct, arith,
}
use gocodemunch_mcp.Base.Int.{ℤ, is_pos, pos_part}
use gocodemunch_mcp.Evals.{is_relevant, count_relevant, recall_loop, recall_at_k}

-- How many relevant documents of the map have been seen.
seen_relevant : Map ℤ → Map (Unit {0}) → ℕ
seen_relevant [] seen = 0
seen_relevant ((d, r) ∷ m) seen =
    elim (lookup d seen) [ none ↦ 0 | some w ↦ if is_pos r then 1 else 0 ] + seen_relevant m seen

seen_relevant-le : (m : Map ℤ) (seen : Map (Unit {0})) → seen_relevant m seen ≤ count_relevant m
unfolding seen_relevant count_relevant
seen_relevant-le [] seen = omega arith
seen_relevant-le ((d, r) ∷ m) seen = ground (arith, seen_relevant-le m seen)

-- A document that is not in the map changes nothing; one that is counts if it is relevant.
seen_relevant-insert :
    (m : Map ℤ) (seen : Map (Unit {0})) (doc_id : Text)
    → Distinct m
    → lookup doc_id seen ≡ none
    → seen_relevant m (insert doc_id tt seen)
      ≡ seen_relevant m seen + (if is_relevant (lookup doc_id m) then 1 else 0)
unfolding seen_relevant lookup
seen_relevant-insert [] seen doc_id distinct new = ground arith
seen_relevant-insert ((d, r) ∷ m) seen doc_id distinct new = ground (
  arith,
  new,
  distinct.0,
  lookup-insert doc_id d tt seen,
  text_eq_iff d doc_id,
  text_eq_iff doc_id d,
  seen_relevant-insert m seen doc_id distinct.1 new,
)

recall_loop-le :
    (m : Map ℤ) (seen : Map (Unit {0})) (ranked : List Text)
    → Distinct m
    → recall_loop m seen ranked + seen_relevant m seen ≤ count_relevant m
unfolding recall_loop
recall_loop-le m seen [] distinct = omega (arith, seen_relevant-le m seen)
recall_loop-le m seen (doc_id ∷ ranked) distinct = elim (Option-cases (lookup doc_id seen)) [
  | inl new ↦ ground (
    arith,
    new,
    recall_loop-le m (insert doc_id tt seen) ranked distinct,
    seen_relevant-insert m seen doc_id distinct new,
  )
  | inr (w, known) ↦ ground (arith, known, recall_loop-le m seen ranked distinct)
]

-- Recall is at most 1, with a positive denominator, whatever is ranked twice or not in the map.
-- (No document stands twice in the map.)
pub recall_at_k_bound :
    (ranked : List Text) (relevance : Map ℤ) (k : ℤ)
    → Distinct relevance
    → ((recall_at_k ranked relevance k).0 ≤ (recall_at_k ranked relevance k).1)
      × (0 < (recall_at_k ranked relevance k).1)
unfolding recall_at_k
recall_at_k_bound ranked relevance k distinct =
    ground (arith, recall_loop-le relevance [] (take (pos_part k) ranked) distinct)
