-- ===== src/Orchestration/Fanout/Parallel/Bound.antt =====
-- The pool comes to its end: no event is without effect for long, and no worker is stuck.
use gocodemunch_mcp.Base.{
  ℕ, zero, suc, ◌+◌, ◌*◌, ◌<◌, ◌≤◌, ◌≡◌, refl, ◌⊎◌, inl, inr, Bool, true, false, Option, none, some,
  Option-cases, List, [], ◌∷◌, get_elem?, length, arith,
}
use gocodemunch_mcp.Orchestration.Fanout.{FanoutError}
use gocodemunch_mcp.Orchestration.Fanout.Parallel.{
  from, Worker, idle, stopped, running, Pool, Event, receive, item_ended, idle_workers, start_pool,
  set_err, set_worker, receive_job, end_item, receive_at, end_at, pool_step, all_stopped,
}

-- The worker of the event is there, and ready for it.
abbrev pub ready_at : Event → Option Worker → Bool
ready_at (receive w parent) (some idle) = true
ready_at (item_ended w error) (some (running index)) = true
ready_at event other = false

abbrev pub event_worker : Event → ℕ
event_worker (receive w parent) = w
event_worker (item_ended w error) = w

abbrev pub is_ready : Event → Pool → Bool
is_ready event p = ready_at event (get_elem? p.workers (event_worker event))

-- Every event comes when its worker is ready for it.
abbrev pub AllReady : Pool → List Event → Type 0
AllReady p [] = Unit
AllReady p (event ∷ events) = (is_ready event p ≡ true) × AllReady (pool_step p event) events

abbrev weight : Worker → ℕ
weight stopped = 0
weight idle = 1
weight (running index) = 2

abbrev weights : List Worker → ℕ
weights [] = 0
weights (w ∷ ws) = weight w + weights ws

-- What is left to do.
work_left : Pool → ℕ
work_left p = 2 * length p.queue + weights p.workers

weights-set_worker :
    (w : ℕ) (x y : Worker) (ws : List Worker)
    → get_elem? ws w ≡ some y
    → weights (set_worker w x ws) + weight y ≡ weights ws + weight x
weights-set_worker w x y [] h = absurd (ground (arith, h))
weights-set_worker zero x y (z ∷ ws) h = ground (arith, h)
weights-set_worker (suc w) x y (z ∷ ws) h = ground (arith, weights-set_worker w x y ws h)

set_err-work_left : (e : Option FanoutError) (p : Pool) → work_left (set_err e p) ≡ work_left p
unfolding set_err work_left
set_err-work_left none p = refl
set_err-work_left (some e) p = ground arith

receive_job-work_left :
    (w : ℕ) (parent : Option FanoutError) (queue : List ℕ) (p : Pool)
    → p.queue ≡ queue
    → get_elem? p.workers w ≡ some idle
    → work_left (receive_job w parent queue p) < work_left p
unfolding receive_job work_left set_err
receive_job-work_left w parent [] p q at =
    ground (arith, q, weights-set_worker w stopped idle p.workers at)
receive_job-work_left w parent (index ∷ queue) p q at = ground (
  arith,
  q,
  weights-set_worker w stopped idle p.workers at,
  weights-set_worker w (running index) idle p.workers at,
)

end_item-work_left :
    (w index : ℕ) (e : Option FanoutError) (p : Pool)
    → get_elem? p.workers w ≡ some (running index)
    → work_left (end_item w index e p) < work_left p
unfolding end_item work_left set_err
end_item-work_left w index e p at = ground (
  arith,
  weights-set_worker w idle (running index) p.workers at,
  weights-set_worker w stopped (running index) p.workers at,
)

pool_step-work_left :
    (p : Pool) (event : Event)
    → is_ready event p ≡ true
    → work_left (pool_step p event) < work_left p
unfolding pool_step receive_at end_at
pool_step-work_left p (receive w parent) h = elim (Option-cases (get_elem? p.workers w)) [
  | inl at ↦ ground (arith, h, at)
  | inr (idle, at) ↦ rw at (receive_job-work_left w parent p.queue p refl at)
  | inr (stopped, at) ↦ ground (arith, h, at)
  | inr (running index, at) ↦ ground (arith, h, at)
]
pool_step-work_left p (item_ended w error) h = elim (Option-cases (get_elem? p.workers w)) [
  | inl at ↦ ground (arith, h, at)
  | inr (idle, at) ↦ ground (arith, h, at)
  | inr (stopped, at) ↦ ground (arith, h, at)
  | inr (running index, at) ↦ rw at (end_item-work_left w index error p at)
]

run_pool-work_left :
    (p : Pool) (events : List Event) → AllReady p events → length events ≤ work_left p
run_pool-work_left p [] h = omega arith
run_pool-work_left p (event ∷ events) h =
    omega
      (arith, pool_step-work_left p event h.0, run_pool-work_left (pool_step p event) events h.1)

length-from : (k n : ℕ) → length (from k n) ≡ n
length-from k zero = refl
length-from k (suc n) = omega (arith, length-from (suc k) n)

weights-idle_workers : (n : ℕ) → weights (idle_workers n) ≡ n
weights-idle_workers zero = refl
weights-idle_workers (suc n) = omega (arith, weights-idle_workers n)

-- However the workers are scheduled, the pool has at most two events for each item and one for each
-- worker before no worker is ready for any.
pub run_pool_bound :
    (max_workers total : ℕ) (events : List Event)
    → AllReady (start_pool max_workers total) events
    → length events ≤ 2 * total + max_workers
run_pool_bound max_workers total events h =
    omega (arith, run_pool-work_left (start_pool max_workers total) events h, at_start)
  where
    at_start : work_left (start_pool max_workers total) ≡ 2 * total + max_workers
    at_start =
        unfold work_left start_pool in
        omega (arith, length-from 0 total, weights-idle_workers max_workers)

unstopped :
    (ws : List Worker)
    → all_stopped ws ≡ false
    → (w : ℕ) × ((get_elem? ws w ≡ some idle) ⊎ ((x : ℕ) × (get_elem? ws w ≡ some (running x))))
unstopped [] h = absurd (ground (arith, h))
unstopped (idle ∷ ws) h = (0, inl refl)
unstopped (running x ∷ ws) h = (0, inr (x, refl))
unstopped (stopped ∷ ws) h = let (w, at) = unstopped ws h in (suc w, at)

-- While a worker has not returned, some worker is ready for an event.
pub pool-progress :
    (p : Pool) → all_stopped p.workers ≡ false → (event : Event) × (is_ready event p ≡ true)
pool-progress p h =
    let (w, at) = unstopped p.workers h in
    elim at [
      | inl free ↦ (receive w none, rw free refl)
      | inr (x, busy) ↦ (item_ended w none, rw busy refl)
    ]
