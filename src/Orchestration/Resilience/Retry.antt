-- ===== src/Orchestration/Resilience/Retry.antt =====
-- How often a vector operation is attempted, and what it returns.
use gocodemunch_mcp.Base.{
  ℕ, zero, suc, ◌+◌, ◌≤◌, ◌<◌, ◌≡◌, ◌≢◌, refl, sym, subst, true, false, Option, none, some,
  Option-cases, List, [], ◌∷◌, ◌⊎◌, inl, inr, arith,
}
use gocodemunch_mcp.Base.Int.{ℤ, ◌≤ℤ◌}
use gocodemunch_mcp.Orchestration.Resilience.{
  VectorError, is_retryable_vector_error, vector_retry_delay, RetryEvent, attempted, recovered,
  failure, waited, Environment, retry_loop, run_vector_operation_with_retry,
  vector_retry_backoff_step, vector_retry_backoff_max,
}

-- The number of times that the runner is called.
unfoldable pub attempts : List RetryEvent → ℕ
attempts [] = 0
attempts (attempted n ∷ es) = suc (attempts es)
attempts (recovered n ∷ es) = attempts es
attempts (failure n b ∷ es) = attempts es
attempts (waited d ∷ es) = attempts es

-- A failure that is worth another attempt.
abbrev pub FailsRetryably : Option VectorError → Type 0
FailsRetryably none = ⊥
FailsRetryably (some e) = is_retryable_vector_error e ≡ true

-- The result that ends the loop wherever it comes.
abbrev pub EndsLoop : Option VectorError → Type 0
EndsLoop none = Unit {0}
EndsLoop (some e) = is_retryable_vector_error e ≡ false

attempts_bounded :
    (env : Environment) (left attempt : ℕ) (last : Option VectorError)
    → attempts (retry_loop env left attempt last).events ≤ left
unfolding retry_loop attempts
attempts_bounded env zero attempt last = omega arith
attempts_bounded env (suc left) attempt last = elim (Option-cases (env.runner attempt)) [
  | inl e ↦ ground (arith, e)
  | inr (err, e) ↦ ground (arith, e, attempts_bounded env left (suc attempt) (some err))
]

-- The runner is called three times at most, whatever it returns and whatever the context does.
pub run_vector_operation_with_retry-attempts :
    (env : Environment) → attempts (run_vector_operation_with_retry env).events ≤ 3
unfolding run_vector_operation_with_retry
run_vector_operation_with_retry-attempts env = attempts_bounded env 3 1 none

failed_with :
    (r : Option VectorError)
    → FailsRetryably r
    → (e : VectorError) × (r ≡ some e) × (is_retryable_vector_error e ≡ true)
failed_with none h = absurd h
failed_with (some e) h = (e, refl, h)

module _ (env : Environment) (live : (n : ℕ) → env.context_error n ≡ none)
    (calm : (n delay : ℕ) → env.wait_error n delay ≡ none) where
  -- The claim about the rounds from one attempt on, of which `k` fail retryably before the last,
  -- which is attempt `n`.
  abbrev Runs : ℕ → ℕ → ℕ → ℕ → Option VectorError → Type 0
  Runs n k left attempt last =
      ((retry_loop env left attempt last).error ≡ env.runner n)
      × (attempts (retry_loop env left attempt last).events ≡ suc k)

  last-Runs :
      (left attempt : ℕ) (last : Option VectorError)
      → EndsLoop (env.runner attempt) ⊎ (attempt ≡ 3)
      → Runs attempt 0 (suc left) attempt last
  unfolding retry_loop attempts
  last-Runs left attempt last ending = elim (Option-cases (env.runner attempt)) [
    | inl e ↦ ground (arith, e, live attempt)
    | inr (err, e) ↦ ground (arith, e, live attempt, ending)
  ]

  next-Runs :
      (n k left attempt : ℕ) (last : Option VectorError) (err : VectorError)
      → env.runner attempt ≡ some err
      → is_retryable_vector_error err ≡ true
      → attempt ≢ 3
      → Runs n k left (suc attempt) (some err)
      → Runs n (suc k) (suc left) attempt last
  unfolding retry_loop attempts
  next-Runs n k left attempt last err e retry more r =
      ground
        (arith, e, live attempt, retry, more, calm attempt (vector_retry_delay (ℤ.pos attempt)), r)

  retry_loop-Runs :
      (n k left attempt : ℕ) (last : Option VectorError)
      → attempt + k ≡ n
      → attempt + left ≡ 4
      → n ≤ 3
      → ((j : ℕ) → attempt ≤ j → j < n → FailsRetryably (env.runner j))
      → EndsLoop (env.runner n) ⊎ (n ≡ 3)
      → Runs n k left attempt last
  retry_loop-Runs n k zero attempt last at total few before ending = absurd (omega arith)
  retry_loop-Runs n zero (suc left) attempt last at total few before ending =
      let here : n ≡ attempt = omega arith in
      subst (λ m. Runs m 0 (suc left) attempt last) (sym here)
        (last-Runs left attempt last (subst (λ m. EndsLoop (env.runner m) ⊎ (m ≡ 3)) here ending))
  retry_loop-Runs n (suc k) (suc left) attempt last at total few before ending =
      let (err, e, retry) =
        failed_with (env.runner attempt) (before attempt (omega arith) (omega arith)) in
      next-Runs n k left attempt last err e retry (omega arith) (
        retry_loop-Runs n k left (suc attempt) (some err) (omega arith) (omega arith) few
          (λ j h l. before j (omega arith) l) ending)

  -- While the context lives, the operation ends with the result of the first attempt that succeeds
  -- or fails for good, or of the third, and the runner is called exactly that often.
  pub run_vector_operation_with_retry_lem :
      (n : ℕ)
      → 1 ≤ n
      → n ≤ 3
      → ((j : ℕ) → 1 ≤ j → j < n → FailsRetryably (env.runner j))
      → EndsLoop (env.runner n) ⊎ (n ≡ 3)
      → ((run_vector_operation_with_retry env).error ≡ env.runner n)
        × (attempts (run_vector_operation_with_retry env).events ≡ n)
  unfolding run_vector_operation_with_retry
  run_vector_operation_with_retry_lem zero low few before ending = absurd (omega arith)
  run_vector_operation_with_retry_lem (suc k) low few before ending =
      retry_loop-Runs (suc k) k 3 1 none (omega arith) (omega arith) few before ending

-- The delay grows with the attempt and stays between one step and four.
pub vector_retry_delay_bounds :
    (a b : ℤ)
    → a ≤ℤ b
    → (vector_retry_backoff_step ≤ vector_retry_delay a)
      × (vector_retry_delay a ≤ vector_retry_delay b)
      × (vector_retry_delay b ≤ vector_retry_backoff_max)
unfolding vector_retry_delay
vector_retry_delay_bounds a b h = ground (arith, h)
