-- ===== src/Orchestration/Fanout.antt =====
-- Batches of tool calls: src/internal/orchestration/batch_fanout.go, and the error payload of
-- batch_error_contract.go. Times are in milliseconds. Only the items take time: how long an item
-- runs and how it ends is an argument. `Fanout.Parallel` has the worker pool.
pub mod Serial
pub mod Parallel
use gocodemunch_mcp.Base.{
  ℕ, zero, suc, ◌+◌, Text, codes, trim_space, to_lower, text_eq, ltb, leb, Bool, true, false, not,
  ◌&&◌, ◌||◌, Option, none, some, List, [], ◌∷◌, ◌++◌, if◌then◌else◌, ◌==◌, min,
}
use gocodemunch_mcp.Base.Decimal.{itoa}
use gocodemunch_mcp.Base.Int.{ℤ, is_pos, pos_part}

pub data FanoutMode : Type 0 where
  serial parallel : FanoutMode

pub data OverloadPolicy : Type 0 where
  reject degrade : OverloadPolicy

pub record FanoutConfig : Type 0 where
  pub fanout_mode : Text
  pub max_workers : ℤ
  pub max_queue_depth : ℤ
  pub item_timeout_ms : ℤ
  pub overload_policy : Text

-- The error of an item, the two errors of a context, and the refusal of a batch.
pub data FanoutError : Type 0 where
  context_canceled deadline_exceeded : FanoutError
  item_failed : Text → FanoutError
  batch_overload : (batch_item_count : ℕ) → (queue_depth_limit : ℕ) → FanoutError

-- A context ends at its deadline or when it is canceled, and keeps the error of what comes first.
pub record Context : Type 0 where
  pub deadline : Option ℕ
  pub canceled_at : Option ℕ

unfoldable pub has_come : Option ℕ → ℕ → Bool
has_come none now = false
has_come (some t) now = leb t now

unfoldable pub deadline_first : Option ℕ → Option ℕ → Bool
deadline_first none c = false
deadline_first (some d) none = true
deadline_first (some d) (some c) = ltb d c

-- ctx.Err()
unfoldable pub context_error : Context → ℕ → Option FanoutError
unfolding has_come deadline_first
context_error ctx now =
    if has_come ctx.deadline now && deadline_first ctx.deadline ctx.canceled_at
    then some deadline_exceeded
    else if has_come ctx.canceled_at now
    then some context_canceled
    else none

-- `strings.ToLower(strings.TrimSpace(s))`
abbrev normalized : Text → Text
normalized s = to_lower (trim_space s)

unfoldable pub batch_fanout_policy : FanoutConfig → FanoutMode × ℕ
batch_fanout_policy cfg = (
  (if text_eq (normalized cfg.fanout_mode) (codes "parallel") then parallel else serial),
  (if is_pos cfg.max_workers then pos_part cfg.max_workers else 1),
)

unfoldable pub batch_fanout_overload_policy : FanoutConfig → OverloadPolicy
batch_fanout_overload_policy cfg =
    if text_eq (normalized cfg.overload_policy) (codes "degrade") then degrade else reject

pub data Degrade : Type 0 where
  as_configured to_serial : Degrade
  overload : FanoutError → Degrade

unfoldable pub overload_answer : OverloadPolicy → ℕ → ℕ → Degrade
overload_answer degrade total max_depth = to_serial
overload_answer reject total max_depth = overload (batch_overload total max_depth)

unfoldable pub should_degrade_batch_fanout : FanoutConfig → ℕ → Degrade
unfolding overload_answer
should_degrade_batch_fanout cfg total =
    if not (is_pos cfg.max_queue_depth)
    then as_configured
    else if leb total (pos_part cfg.max_queue_depth)
    then as_configured
    else overload_answer (batch_fanout_overload_policy cfg) total (pos_part cfg.max_queue_depth)

-- context.WithTimeout: the parent's deadline stays if it is sooner.
unfoldable pub earlier : Option ℕ → ℕ → ℕ
earlier none t = t
earlier (some d) t = min d t

unfoldable pub new_batch_item_context : FanoutConfig → ℕ → Context → Context
unfolding earlier has_come
new_batch_item_context cfg now ctx =
    if not (is_pos cfg.item_timeout_ms)
    then ctx
    else if has_come ctx.deadline now
    then ctx
    else record ctx { deadline = some (earlier ctx.deadline (now + pos_part cfg.item_timeout_ms)) }

-- A call of `run` with the item's context and index: the time it takes and its error.
abbrev pub Item : Type 0
Item = Context → ℕ → ℕ × Option FanoutError

-- The calls of `run`, in order, the time behind them and the error that is returned.
pub record FanoutResult : Type 0 where
  pub ran : List ℕ
  pub now : ℕ
  pub error : Option FanoutError

-- What is returned where an error is found in front of the next statement.
abbrev pub unless_error : List ℕ → ℕ → Option FanoutError → FanoutResult → FanoutResult
unless_error ran now none rest = rest
unless_error ran now (some e) rest = record { ran = ran; now = now; error = some e }

-- What is done behind an item.
unfoldable pub after_item : FanoutResult → FanoutResult → FanoutResult
after_item item rest =
    unless_error item.ran item.now item.error (record rest { ran = item.ran ++ rest.ran })

module _ (run : Item) where
  -- runBatchFanoutItem
  unfoldable pub run_batch_fanout_item : Context → ℕ → ℕ → FanoutResult
  run_batch_fanout_item item_ctx now index = unless_error [] now (context_error item_ctx now) (
      let (spent, failed) = run item_ctx index in
      unless_error (index ∷ []) (now + spent) failed (record {
        ran = index ∷ [];
        now = now + spent;
        error = context_error item_ctx (now + spent);
      }))

  -- The serial loop, with the number of items that are left.
  unfoldable pub serial_loop : FanoutConfig → Context → ℕ → ℕ → ℕ → FanoutResult
  unfolding after_item
  serial_loop cfg ctx zero index now = record { ran = []; now = now; error = context_error ctx now }
  serial_loop cfg ctx (suc left) index now = unless_error [] now (context_error ctx now) (
      let item = run_batch_fanout_item (new_batch_item_context cfg now ctx) now index in
      after_item item (
        unless_error [] item.now (context_error ctx item.now)
          (serial_loop cfg ctx left (suc index) item.now)))

  -- runBatchFanout up to the choice between the serial loop and the pool, which is an argument with
  -- the number of its workers.
  unfoldable pub run_batch_fanout :
      (ℕ → FanoutResult) → FanoutConfig → Context → ℕ → ℕ → FanoutResult
  unfolding serial_loop
  run_batch_fanout pool cfg ctx total now =
      if total == 0
      then record { ran = []; now = now; error = none }
      else elim (should_degrade_batch_fanout cfg total) [
        | overload e ↦ record { ran = []; now = now; error = some e }
        | to_serial ↦ serial_loop cfg ctx total 0 now
        | as_configured ↦
            let (mode, max_workers) = batch_fanout_policy cfg in
            elim mode [
              | serial ↦ serial_loop cfg ctx total 0 now
              | parallel ↦
                  if (total == 1) || leb max_workers 1
                  then serial_loop cfg ctx total 0 now
                  else pool (min max_workers total)
            ]
      ]

-- batchFanoutErrorPayload: the keys of the map and their values.
pub data PayloadValue : Type 0 where
  text_value : Text → PayloadValue
  bool_value : Bool → PayloadValue
  int_value : ℕ → PayloadValue

error_text : FanoutError → Text
error_text context_canceled = codes "context canceled"
error_text deadline_exceeded = codes "context deadline exceeded"
error_text (item_failed message) = message
error_text (batch_overload count limit) =
    codes "batch item count "
    ++ (itoa count ++ (codes " exceeds fanout queue depth limit " ++ itoa limit))

is_context_cancellation_error : FanoutError → Bool
is_context_cancellation_error context_canceled = true
is_context_cancellation_error deadline_exceeded = true
is_context_cancellation_error e = false

overload_fields : FanoutError → List (Text × PayloadValue)
overload_fields (batch_overload count limit) =
    (codes "error_code", text_value (codes "fanout_queue_depth_exceeded"))
    ∷ (codes "retryable", bool_value true)
    ∷ (codes "overload_policy", text_value (codes "reject"))
    ∷ (codes "batch_item_count", int_value count)
    ∷ (codes "queue_depth_limit", int_value limit)
    ∷ []
overload_fields e = []

unfoldable pub batch_fanout_error_payload : Option FanoutError → List (Text × PayloadValue)
unfolding error_text is_context_cancellation_error overload_fields
batch_fanout_error_payload none = []
batch_fanout_error_payload (some e) =
    if is_context_cancellation_error e
    then (codes "error", text_value (codes "Batch execution canceled: " ++ error_text e)) ∷ []
    else (codes "error", text_value (error_text e)) ∷ overload_fields e
