-- ===== src/Orchestration/Fanout/Parallel/Ends.antt =====
-- A batch that returns no error is complete.
use gocodemunch_mcp.Base.{
  ℕ, zero, suc, ◌<◌, ◌≡◌, ◌≢◌, refl, ◌∙◌, ◌⊎◌, inl, inr, ltb, Bool, true, false, Option, none, some,
  List, [], ◌∷◌, get_elem?, length, All, if◌then◌else◌, arith,
}
use gocodemunch_mcp.Orchestration.Fanout.{FanoutError}
use gocodemunch_mcp.Orchestration.Fanout.Parallel.{
  Worker, idle, stopped, running, Pool, Event, receive, item_ended, idle_workers, start_pool,
  set_err, set_worker, receive_job, end_item, receive_at, end_at, pool_step, run_pool, all_stopped,
  pool_result,
}
use gocodemunch_mcp.Orchestration.Fanout.Parallel.Once.{count, in_flight, places, run_pool-once}

is_at_work : Worker → Bool
is_at_work stopped = false
is_at_work w = true

abbrev AllAtWork : List Worker → Type 0
AllAtWork ws = All (λ w. is_at_work w ≡ true) ws

-- An error has been noted; or nothing has gone wrong, and workers stop only at the end of the queue.
unfoldable IsPool : Pool → Type 0
IsPool p =
    (p.first_error ≢ none)
    ⊎ ((p.first_error ≡ none)
        × (p.failed ≡ [])
        × (p.dropped ≡ [])
        × (p.canceled ≡ false)
        × ((p.queue ≡ []) ⊎ AllAtWork p.workers))

set_worker-AllAtWork :
    (w : ℕ) (x : Worker) (ws : List Worker)
    → is_at_work x ≡ true
    → AllAtWork ws
    → AllAtWork (set_worker w x ws)
set_worker-AllAtWork w x [] hx h = tt
set_worker-AllAtWork zero x (y ∷ ws) hx h = (hx, h.1)
set_worker-AllAtWork (suc w) x (y ∷ ws) hx h = (h.0, set_worker-AllAtWork w x ws hx h.1)

idle_workers-AllAtWork : (n : ℕ) → AllAtWork (idle_workers n)
unfolding is_at_work
idle_workers-AllAtWork zero = tt
idle_workers-AllAtWork (suc n) = (refl, idle_workers-AllAtWork n)

set_err-noted : (e : FanoutError) (p : Pool) → (set_err (some e) p).first_error ≢ none
unfolding set_err
set_err-noted e p = ground arith

receive_job-IsPool :
    (w : ℕ) (parent : Option FanoutError) (queue : List ℕ) (p : Pool)
    → p.queue ≡ queue
    → IsPool p
    → IsPool (receive_job w parent queue p)
unfolding receive_job IsPool is_at_work set_err
receive_job-IsPool w parent [] p q h = ground (arith, q, h)
receive_job-IsPool w parent (index ∷ queue) p q h =
    ground (arith, q, h, set_worker-AllAtWork w (running index) p.workers)

end_item-IsPool :
    (w index : ℕ) (e : Option FanoutError) (p : Pool) → IsPool p → IsPool (end_item w index e p)
unfolding end_item IsPool is_at_work set_err
end_item-IsPool w index none p h = ground (arith, h, set_worker-AllAtWork w idle p.workers)
end_item-IsPool w index (some e) p h = inl (ground (arith, h))

receive_at-IsPool :
    (w : ℕ) (parent : Option FanoutError) (o : Option Worker) (p : Pool)
    → IsPool p
    → IsPool (receive_at w parent o p)
unfolding receive_at
receive_at-IsPool w parent (some idle) p h = receive_job-IsPool w parent p.queue p refl h
receive_at-IsPool w parent (some stopped) p h = h
receive_at-IsPool w parent (some (running index)) p h = h
receive_at-IsPool w parent none p h = h

end_at-IsPool :
    (w : ℕ) (e : Option FanoutError) (o : Option Worker) (p : Pool)
    → IsPool p
    → IsPool (end_at w e o p)
unfolding end_at
end_at-IsPool w e (some idle) p h = h
end_at-IsPool w e (some stopped) p h = h
end_at-IsPool w e (some (running index)) p h = end_item-IsPool w index e p h
end_at-IsPool w e none p h = h

pool_step-IsPool : (p : Pool) (event : Event) → IsPool p → IsPool (pool_step p event)
unfolding pool_step
pool_step-IsPool p (receive w parent) h = receive_at-IsPool w parent (get_elem? p.workers w) p h
pool_step-IsPool p (item_ended w error) h = end_at-IsPool w error (get_elem? p.workers w) p h

run_pool-IsPool : (p : Pool) (events : List Event) → IsPool p → IsPool (run_pool p events)
unfolding run_pool
run_pool-IsPool p [] h = h
run_pool-IsPool p (event ∷ events) h =
    run_pool-IsPool (pool_step p event) events (pool_step-IsPool p event h)

start_pool-IsPool : (n total : ℕ) → IsPool (start_pool n total)
unfolding start_pool IsPool
start_pool-IsPool n total = inr (refl, refl, refl, refl, inr (idle_workers-AllAtWork n))

-- The workers are as many as at the start.
length-set_worker : (w : ℕ) (x : Worker) (ws : List Worker) → length (set_worker w x ws) ≡ length ws
length-set_worker w x [] = refl
length-set_worker zero x (y ∷ ws) = refl
length-set_worker (suc w) x (y ∷ ws) = omega (arith, length-set_worker w x ws)

receive_job-workers :
    (w : ℕ) (parent : Option FanoutError) (queue : List ℕ) (p : Pool)
    → length (receive_job w parent queue p).workers ≡ length p.workers
unfolding receive_job set_err
receive_job-workers w parent [] p = length-set_worker w stopped p.workers
receive_job-workers w parent (index ∷ queue) p =
    ground
      (arith, length-set_worker w stopped p.workers, length-set_worker w (running index) p.workers)

pool_step-workers :
    (p : Pool) (event : Event) → length (pool_step p event).workers ≡ length p.workers
unfolding pool_step receive_at end_at end_item set_err
pool_step-workers p (receive w parent) = ground (arith, receive_job-workers w parent p.queue p)
pool_step-workers p (item_ended w error) =
    ground (arith, length-set_worker w stopped p.workers, length-set_worker w idle p.workers)

run_pool-workers :
    (p : Pool) (events : List Event) → length (run_pool p events).workers ≡ length p.workers
unfolding run_pool
run_pool-workers p [] = refl
run_pool-workers p (event ∷ events) =
    run_pool-workers (pool_step p event) events ∙ pool_step-workers p event

length-idle_workers : (n : ℕ) → length (idle_workers n) ≡ n
length-idle_workers zero = refl
length-idle_workers (suc n) = omega (arith, length-idle_workers n)

none_in_flight : (i : ℕ) (ws : List Worker) → all_stopped ws ≡ true → in_flight i ws ≡ 0
none_in_flight i [] h = refl
none_in_flight i (stopped ∷ ws) h = omega (arith, none_in_flight i ws h)
none_in_flight i (idle ∷ ws) h = absurd (ground (arith, h))
none_in_flight i (running x ∷ ws) h = absurd (ground (arith, h))

some_stopped : (ws : List Worker) → 0 < length ws → all_stopped ws ≡ true → ¬ AllAtWork ws
unfolding is_at_work
some_stopped [] n h work = omega arith
some_stopped (stopped ∷ ws) n h work = ground (arith, work.0)
some_stopped (idle ∷ ws) n h work = ground (arith, h)
some_stopped (running x ∷ ws) n h work = ground (arith, h)

done_all :
    (i : ℕ) (p : Pool)
    → IsPool p
    → 0 < length p.workers
    → all_stopped p.workers ≡ true
    → p.first_error ≡ none
    → count i p.done ≡ places i p
unfolding IsPool places
done_all i p h n stop ok =
    ground (arith, h, n, stop, ok, none_in_flight i p.workers stop, some_stopped p.workers n stop)

-- When all workers of the pool have returned and the batch has no error, every item of the batch
-- has run to its end without an error, exactly once, whatever the interleaving was and whatever the
-- context said at each receive. (There is at least one worker.)
pub run_pool_complete :
    (i max_workers total : ℕ) (events : List Event) (parent_error : Option FanoutError)
    → 0 < max_workers
    → all_stopped (run_pool (start_pool max_workers total) events).workers ≡ true
    → pool_result parent_error (run_pool (start_pool max_workers total) events) ≡ none
    → count i (run_pool (start_pool max_workers total) events).done ≡ (if ltb i total then 1 else 0)
run_pool_complete i max_workers total events parent_error n stop ok =
    done_all i end (run_pool-IsPool start events (start_pool-IsPool max_workers total))
      (omega (arith, run_pool-workers start events, started)) stop no_error
    ∙ run_pool-once i max_workers total events
  where
    start : Pool
    start = start_pool max_workers total

    end : Pool
    end = run_pool start events

    started : length start.workers ≡ max_workers
    started = unfold start_pool in length-idle_workers max_workers

    no_error : end.first_error ≡ none
    no_error = unfold pool_result in ground (arith, ok)
