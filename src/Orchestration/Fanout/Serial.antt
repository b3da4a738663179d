-- ===== src/Orchestration/Fanout/Serial.antt =====
-- What the serial loop runs.
use gocodemunch_mcp.Base.{
  ℕ, zero, suc, ◌+◌, ◌<◌, ◌≤◌, ◌≡◌, ◌≢◌, refl, ◌⊎◌, inl, inr, true, Option, none, some,
  Option-cases, List, [], ◌∷◌, arith,
}
use gocodemunch_mcp.Base.Int.{is_pos, pos_part}
use gocodemunch_mcp.Orchestration.Fanout.{
  FanoutConfig, FanoutError, Context, context_error, new_batch_item_context, Item, FanoutResult,
  unless_error, run_batch_fanout_item, after_item, serial_loop, run_batch_fanout,
  should_degrade_batch_fanout, overload_answer, batch_fanout_overload_policy, degrade, reject,
  batch_overload, earlier, has_come, deadline_first,
}

-- The numbers `i`, `i + 1`, …, `n` of them.
abbrev pub from : ℕ → ℕ → List ℕ
from i zero = []
from i (suc n) = i ∷ from (suc i) n

-- All items ran in order and there was no error, or the first `n` did and the rest never will.
abbrev pub InOrder : ℕ → ℕ → FanoutResult → Type 0
InOrder i left r =
    ((r.ran ≡ from i left) × (r.error ≡ none))
    ⊎ ((n : ℕ) × (n ≤ left) × (r.ran ≡ from i n) × (r.error ≢ none))

unless_error-InOrder :
    (i left k now : ℕ) (e : Option FanoutError) (rest : FanoutResult)
    → k ≤ left
    → InOrder i left rest
    → InOrder i left (unless_error (from i k) now e rest)
unless_error-InOrder i left k now none rest short h = h
unless_error-InOrder i left k now (some e) rest short h =
    inr (k, short, refl, λ eq. ground (arith, eq))

ended-InOrder :
    (i left now : ℕ) (e : Option FanoutError)
    → InOrder i left (record { ran = from i left; now = now; error = e })
ended-InOrder i left now none = inl (refl, refl)
ended-InOrder i left now (some e) = inr (left, omega arith, refl, λ eq. ground (arith, eq))

after_item-InOrder :
    (i left : ℕ) (item rest : FanoutResult)
    → InOrder i 1 item
    → InOrder (suc i) left rest
    → InOrder i (suc left) (after_item item rest)
unfolding after_item
after_item-InOrder i left item rest (inl (ran, ok)) (inl (rest_ran, rest_ok)) =
    rw (ok, ran, rest_ran, rest_ok) (inl (refl, refl))
after_item-InOrder i left item rest (inl (ran, ok)) (inr (n, bound, rest_ran, bad)) =
    rw (ok, ran, rest_ran) (inr (suc n, omega arith, refl, bad))
after_item-InOrder i left item rest (inr (n, bound, ran, bad)) h = elim (Option-cases item.error) [
  | inl ok ↦ absurd (bad ok)
  | inr (e, failed) ↦ rw failed (inr (n, omega arith, ran, λ eq. ground (arith, eq)))
]

module _ (run : Item) where
  item-InOrder :
      (ctx : Context) (now index : ℕ) → InOrder index 1 (run_batch_fanout_item run ctx now index)
  unfolding run_batch_fanout_item
  item-InOrder ctx now index =
      let (spent, failed) = run ctx index in
      unless_error-InOrder index 1 0 now (context_error ctx now) _ (omega arith) (
        unless_error-InOrder index 1 1 (now + spent) failed _ (omega arith)
          (ended-InOrder index 1 (now + spent) (context_error ctx (now + spent))))

  -- The serial loop calls `run` on the indices in order, each at most once: on all of them if it
  -- returns no error, and otherwise on those up to some index, behind which nothing is run.
  pub serial_loop-InOrder :
      (cfg : FanoutConfig) (ctx : Context) (left index now : ℕ)
      → InOrder index left (serial_loop run cfg ctx left index now)
  unfolding serial_loop
  serial_loop-InOrder cfg ctx zero index now = ended-InOrder index 0 now (context_error ctx now)
  serial_loop-InOrder cfg ctx (suc left) index now =
      unless_error-InOrder index (suc left) 0 now (context_error ctx now) _ (omega arith) (
        after_item-InOrder index left item _ (item-InOrder item_ctx now index) (
          unless_error-InOrder (suc index) left 0 item.now (context_error ctx item.now) _
            (omega arith) (serial_loop-InOrder cfg ctx left (suc index) item.now)))
    where
      item_ctx : Context
      item_ctx = new_batch_item_context cfg now ctx

      item : FanoutResult
      item = run_batch_fanout_item run item_ctx now index

-- From its making on, an item's context has ended wherever the batch's has, and at the latest when the
-- configured timeout is over, if there is one.
pub new_batch_item_context_ends :
    (cfg : FanoutConfig) (ctx : Context) (now t : ℕ)
    → now ≤ t
    → (context_error ctx t ≢ none)
      ⊎ ((is_pos cfg.item_timeout_ms ≡ true) × (now + pos_part cfg.item_timeout_ms ≤ t))
    → context_error (new_batch_item_context cfg now ctx) t ≢ none
unfolding new_batch_item_context context_error earlier has_come deadline_first
new_batch_item_context_ends cfg ctx now t later h = ground (arith, later, h)

-- A batch that is over a positive depth limit runs nothing and returns the overload error with its
-- size and the limit, or runs serially under the policy to degrade.
pub run_batch_fanout_over_limit :
    (run : Item) (pool : ℕ → FanoutResult) (cfg : FanoutConfig) (ctx : Context) (total now : ℕ)
    → is_pos cfg.max_queue_depth ≡ true
    → pos_part cfg.max_queue_depth < total
    → run_batch_fanout run pool cfg ctx total now ≡ (elim (batch_fanout_overload_policy cfg) [
      | degrade ↦ serial_loop run cfg ctx total 0 now
      | reject ↦ record {
        ran = [];
        now = now;
        error = some (batch_overload total (pos_part cfg.max_queue_depth));
      }
    ])
unfolding run_batch_fanout should_degrade_batch_fanout overload_answer
run_batch_fanout_over_limit run pool cfg ctx total now limited over = ground (arith, limited, over)
