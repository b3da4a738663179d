-- ===== src/Orchestration/Fanout/Parallel.antt =====
-- The worker pool of runBatchFanout: src/internal/orchestration/batch_fanout.go. The workers run
-- interleaved: an event is one round's receive from the closed channel of jobs, or the end of an
-- item. What `ctx.Err()` says at a receive, and how an item ends, are in the event.
pub mod Once
pub mod Ends
pub mod Bound
use gocodemunch_mcp.Base.{
  ℕ, zero, suc, Bool, true, false, ◌&&◌, ◌||◌, Option, none, some, List, [], ◌∷◌, get_elem?,
  if◌then◌else◌,
}
use gocodemunch_mcp.Orchestration.Fanout.{FanoutError}

-- The numbers `i`, `i + 1`, …, `n` of them.
abbrev pub from : ℕ → ℕ → List ℕ
from i zero = []
from i (suc n) = i ∷ from (suc i) n

pub data Worker : Type 0 where
  idle stopped : Worker
  running : ℕ → Worker

-- `queue` is the channel of jobs, `canceled` says that `cancel` has been called. `done`, `failed` and
-- `dropped` are the indices whose item ended well, ended with an error, and was not run.
pub record Pool : Type 0 where
  pub queue : List ℕ
  pub workers : List Worker
  pub done : List ℕ
  pub failed : List ℕ
  pub dropped : List ℕ
  pub first_error : Option FanoutError
  pub canceled : Bool

pub data Event : Type 0 where
  receive : ℕ → Option FanoutError → Event
  item_ended : ℕ → Option FanoutError → Event

abbrev pub idle_workers : ℕ → List Worker
idle_workers zero = []
idle_workers (suc n) = idle ∷ idle_workers n

unfoldable pub start_pool : ℕ → ℕ → Pool
start_pool max_workers total = record {
  queue = from 0 total;
  workers = idle_workers max_workers;
  done = [];
  failed = [];
  dropped = [];
  first_error = none;
  canceled = false;
}

-- setErr
unfoldable pub set_err : Option FanoutError → Pool → Pool
set_err none p = p
set_err (some e) p = elim (p.first_error) [
  | some first ↦ p
  | none ↦ record p { first_error = some e; canceled = true }
]

abbrev pub set_worker : ℕ → Worker → List Worker → List Worker
set_worker w x [] = []
set_worker zero x (y ∷ ws) = x ∷ ws
set_worker (suc w) x (y ∷ ws) = y ∷ set_worker w x ws

abbrev pub is_some {ℓ} : {A : Type ℓ} → Option A → Bool
is_some none = false
is_some (some a) = true

-- A worker that finds its context ended behind a receive returns, with the batch's error if there
-- is one.
unfoldable pub receive_job : ℕ → Option FanoutError → List ℕ → Pool → Pool
unfolding set_err
receive_job w parent_error [] p = record p { workers = set_worker w stopped p.workers }
receive_job w parent_error (index ∷ queue) p =
    if p.canceled || is_some parent_error
    then set_err parent_error (record p {
      queue = queue;
      workers = set_worker w stopped p.workers;
      dropped = index ∷ p.dropped;
    })
    else record p { queue = queue; workers = set_worker w (running index) p.workers }

unfoldable pub end_item : ℕ → ℕ → Option FanoutError → Pool → Pool
unfolding set_err
end_item w index none p = record p { workers = set_worker w idle p.workers; done = index ∷ p.done }
end_item w index (some e) p =
    set_err (some e)
      (record p { workers = set_worker w stopped p.workers; failed = index ∷ p.failed })

unfoldable pub receive_at : ℕ → Option FanoutError → Option Worker → Pool → Pool
unfolding receive_job
receive_at w parent_error (some idle) p = receive_job w parent_error p.queue p
receive_at w parent_error other p = p

unfoldable pub end_at : ℕ → Option FanoutError → Option Worker → Pool → Pool
unfolding end_item
end_at w error (some (running index)) p = end_item w index error p
end_at w error other p = p

-- An event that the worker is not ready for does nothing.
unfoldable pub pool_step : Pool → Event → Pool
unfolding receive_at end_at
pool_step p (receive w parent_error) = receive_at w parent_error (get_elem? p.workers w) p
pool_step p (item_ended w error) = end_at w error (get_elem? p.workers w) p

unfoldable pub run_pool : Pool → List Event → Pool
unfolding pool_step
run_pool p [] = p
run_pool p (event ∷ events) = run_pool (pool_step p event) events

-- `wg.Wait()` is over.
abbrev pub all_stopped : List Worker → Bool
all_stopped [] = true
all_stopped (stopped ∷ ws) = all_stopped ws
all_stopped (w ∷ ws) = false

-- What is returned behind it, with what `ctx.Err()` says then.
unfoldable pub pool_result : Option FanoutError → Pool → Option FanoutError
pool_result parent_error p = elim (p.first_error) [ some e ↦ some e | none ↦ parent_error ]
