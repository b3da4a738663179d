-- ===== src/Orchestration/Resilience.antt =====
-- Retries and batches of vector operations: src/internal/orchestration/vector_resilience.go, and
-- IsRetryableVectorError of src/internal/domain/indexing/vector_contracts.go. The runner and the
-- context are arguments: what the runner returns at each attempt, what `ctx.Err()` says before it,
-- and whether the context ends during the wait behind it. Durations are in nanoseconds.
pub mod Retry
pub mod Batches
use gocodemunch_mcp.Base.{
  ℕ, zero, suc, ◌+◌, ◌*◌, Bool, true, false, not, ◌||◌, Option, none, some, List, [], ◌∷◌, length,
  take, drop, if◌then◌else◌, ltb, leb, ◌==◌, Text,
}
use gocodemunch_mcp.Base.Int.{ℤ, is_pos, pos_part}

-- What errors.Is and errors.As find in an error; an Option is `none` where no error in the chain
-- has the method.
pub record VectorError : Type 0 where
  pub message : Text
  pub is_canceled : Bool
  pub is_deadline : Bool
  pub retryable : Option Bool
  pub timeout : Option Bool
  pub temporary : Option Bool

abbrev is_some_true : Option Bool → Bool
is_some_true none = false
is_some_true (some b) = b

unfoldable pub is_retryable_vector_error : VectorError → Bool
is_retryable_vector_error err = if err.is_canceled then false else elim err.retryable [
  | some b ↦ b
  | none ↦
      if err.is_deadline
      then true
      else if is_some_true err.timeout
      then true
      else if is_some_true err.temporary
      then true
      else false
]

abbrev pub default_vector_operation_max_attempts : ℕ
default_vector_operation_max_attempts = 3

abbrev pub vector_retry_backoff_step : ℕ
vector_retry_backoff_step = 75_000_000

abbrev pub vector_retry_backoff_max : ℕ
vector_retry_backoff_max = 300_000_000

-- The delay after an attempt. The last test of the source is never met.
unfoldable pub vector_retry_delay : ℤ → ℕ
vector_retry_delay attempt =
    let n = if is_pos attempt then pos_part attempt else 1 in
    let delay = n * vector_retry_backoff_step in
    if ltb vector_retry_backoff_max delay then vector_retry_backoff_max else delay

-- What the loop does: an attempt, the log lines behind it, and the wait.
pub data RetryEvent : Type 0 where
  attempted recovered : ℕ → RetryEvent
  failure : ℕ → Bool → RetryEvent
  waited : ℕ → RetryEvent

pub record RetryResult : Type 0 where
  pub error : Option VectorError
  pub events : List RetryEvent

pub record Environment : Type 0 where
  pub context_error : ℕ → Option VectorError
  pub runner : ℕ → Option VectorError
  pub wait_error : ℕ → ℕ → Option VectorError

abbrev pub then_events : List RetryEvent → RetryResult → RetryResult
then_events [] r = r
then_events (e ∷ es) r =
    let rest = then_events es r in record { error = rest.error; events = e ∷ rest.events }

abbrev pub returns : Option VectorError → RetryResult
returns e = record { error = e; events = [] }

-- The rounds that are left, the number of the next, and the last error.
unfoldable pub retry_loop : Environment → ℕ → ℕ → Option VectorError → RetryResult
retry_loop env zero attempt last = returns last
retry_loop env (suc left) attempt last = elim (env.context_error attempt) [
  | some e ↦ returns (some e)
  | none ↦ elim (env.runner attempt) [
    | none ↦
        then_events (attempted attempt ∷ (if ltb 1 attempt then recovered attempt ∷ [] else []))
          (returns none)
    | some err ↦
        let rest = retry_loop env left (suc attempt) (some err) in
        then_events (attempted attempt ∷ failure attempt (is_retryable_vector_error err) ∷ []) (
          if not (is_retryable_vector_error err)
            || (attempt == default_vector_operation_max_attempts)
          then returns (some err)
          else elim (env.wait_error attempt (vector_retry_delay (ℤ.pos attempt))) [
            | some _ ↦ returns (some err)
            | none ↦ then_events (waited (vector_retry_delay (ℤ.pos attempt)) ∷ []) rest
          ])
  ]
]

unfoldable pub run_vector_operation_with_retry : Environment → RetryResult
unfolding retry_loop
run_vector_operation_with_retry env = retry_loop env default_vector_operation_max_attempts 1 none

-- The loop of splitVectorRecordBatches over what is left, with fuel for its rounds.
unfoldable pub batch_loop {ℓ} : {A : Type ℓ} → ℕ → ℕ → List A → List (List A)
batch_loop size zero rest = []
batch_loop size (suc fuel) [] = []
batch_loop size (suc fuel) (x ∷ xs) = take size (x ∷ xs) ∷ batch_loop size fuel (drop size (x ∷ xs))

-- splitVectorRecordBatches and splitVectorIDBatches are one text for two types.
unfoldable pub split_batches {ℓ} : {A : Type ℓ} → List A → ℤ → List (List A)
unfolding batch_loop
split_batches records batch_size =
    batch_loop (if is_pos batch_size then pos_part batch_size else length records) (length records)
      records
