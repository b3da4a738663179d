-- ===== src/Orchestration/Fanout/Parallel/Once.antt =====
-- Every item runs at most once, and exactly once where there is no error.
use gocodemunch_mcp.Base.{
  ℕ, zero, suc, ◌+◌, ◌≡◌, refl, ◌∙◌, inl, inr, ltb, leb, ◌==◌, Bool-cases, ◌&&◌, ◌||◌, Option, none,
  some, List, [], ◌∷◌, get_elem?, if◌then◌else◌, arith,
}
use gocodemunch_mcp.Orchestration.Fanout.{FanoutError}
use gocodemunch_mcp.Orchestration.Fanout.Parallel.{
  from, Worker, idle, stopped, running, Pool, Event, receive, item_ended, idle_workers, start_pool,
  set_err, set_worker, is_some, receive_job, end_item, receive_at, end_at, pool_step, run_pool,
}

-- How often `i` is in a list.
abbrev pub count : ℕ → List ℕ → ℕ
count i [] = 0
count i (x ∷ xs) = (if i == x then 1 else 0) + count i xs

abbrev works_on : ℕ → Worker → ℕ
works_on i (running x) = if i == x then 1 else 0
works_on i idle = 0
works_on i stopped = 0

-- How many workers run item `i`.
abbrev pub in_flight : ℕ → List Worker → ℕ
in_flight i [] = 0
in_flight i (w ∷ ws) = works_on i w + in_flight i ws

in_flight-set_worker :
    (i w : ℕ) (x y : Worker) (ws : List Worker)
    → get_elem? ws w ≡ some y
    → in_flight i (set_worker w x ws) + works_on i y ≡ in_flight i ws + works_on i x
in_flight-set_worker i w x y [] h = absurd (ground (arith, h))
in_flight-set_worker i zero x y (z ∷ ws) h = ground (arith, h)
in_flight-set_worker i (suc w) x y (z ∷ ws) h = ground (arith, in_flight-set_worker i w x y ws h)

-- Where item `i` is, with how often.
unfoldable pub places : ℕ → Pool → ℕ
places i p =
    count i p.queue + in_flight i p.workers + count i p.done + count i p.failed + count i p.dropped

set_err-places : (i : ℕ) (e : Option FanoutError) (p : Pool) → places i (set_err e p) ≡ places i p
unfolding set_err places
set_err-places i none p = refl
set_err-places i (some e) p = ground arith

receive_job-places :
    (i w : ℕ) (parent : Option FanoutError) (queue : List ℕ) (p : Pool)
    → p.queue ≡ queue
    → get_elem? p.workers w ≡ some idle
    → places i (receive_job w parent queue p) ≡ places i p
unfolding receive_job places
receive_job-places i w parent [] p q at =
    ground (arith, q, in_flight-set_worker i w stopped idle p.workers at)
receive_job-places i w parent (index ∷ queue) p q at =
    elim (Bool-cases (p.canceled || is_some parent)) [
      | inl ended ↦ rw ended (
          set_err-places i parent _
          ∙ ground (arith, q, in_flight-set_worker i w stopped idle p.workers at))
      | inr live ↦
          rw live (ground (arith, q, in_flight-set_worker i w (running index) idle p.workers at))
    ]

end_item-places :
    (i w index : ℕ) (e : Option FanoutError) (p : Pool)
    → get_elem? p.workers w ≡ some (running index)
    → places i (end_item w index e p) ≡ places i p
unfolding end_item places
end_item-places i w index none p at =
    ground (arith, in_flight-set_worker i w idle (running index) p.workers at)
end_item-places i w index (some e) p at =
    set_err-places i (some e)
      (record p { workers = set_worker w stopped p.workers; failed = index ∷ p.failed })
    ∙ ground (arith, in_flight-set_worker i w stopped (running index) p.workers at)

receive_at-places :
    (i w : ℕ) (parent : Option FanoutError) (o : Option Worker) (p : Pool)
    → get_elem? p.workers w ≡ o
    → places i (receive_at w parent o p) ≡ places i p
unfolding receive_at
receive_at-places i w parent (some idle) p at = receive_job-places i w parent p.queue p refl at
receive_at-places i w parent (some stopped) p at = refl
receive_at-places i w parent (some (running index)) p at = refl
receive_at-places i w parent none p at = refl

end_at-places :
    (i w : ℕ) (e : Option FanoutError) (o : Option Worker) (p : Pool)
    → get_elem? p.workers w ≡ o
    → places i (end_at w e o p) ≡ places i p
unfolding end_at
end_at-places i w e (some idle) p at = refl
end_at-places i w e (some stopped) p at = refl
end_at-places i w e (some (running index)) p at = end_item-places i w index e p at
end_at-places i w e none p at = refl

pool_step-places : (i : ℕ) (p : Pool) (event : Event) → places i (pool_step p event) ≡ places i p
unfolding pool_step
pool_step-places i p (receive w parent) =
    receive_at-places i w parent (get_elem? p.workers w) p refl
pool_step-places i p (item_ended w error) = end_at-places i w error (get_elem? p.workers w) p refl

run_pool-places :
    (i : ℕ) (p : Pool) (events : List Event) → places i (run_pool p events) ≡ places i p
unfolding run_pool
run_pool-places i p [] = refl
run_pool-places i p (event ∷ events) =
    run_pool-places i (pool_step p event) events ∙ pool_step-places i p event

count-from : (i k n : ℕ) → count i (from k n) ≡ (if (leb k i) && ltb i (k + n) then 1 else 0)
count-from i k zero = ground arith
count-from i k (suc n) = ground (arith, count-from i (suc k) n)

in_flight-idle : (i n : ℕ) → in_flight i (idle_workers n) ≡ 0
in_flight-idle i zero = refl
in_flight-idle i (suc n) = omega (arith, in_flight-idle i n)

start_pool-places : (i n total : ℕ) → places i (start_pool n total) ≡ (if ltb i total then 1 else 0)
unfolding places start_pool
start_pool-places i n total = ground (arith, count-from i 0 total, in_flight-idle i n)

-- Whatever the interleaving, an item of the batch is at every moment in exactly one place, once:
-- waiting, run by one worker, ended well, ended with an error, or dropped. No other item is anywhere.
pub run_pool-once :
    (i max_workers total : ℕ) (events : List Event)
    → places i (run_pool (start_pool max_workers total) events) ≡ (if ltb i total then 1 else 0)
run_pool-once i max_workers total events =
    run_pool-places i (start_pool max_workers total) events ∙ start_pool-places i max_workers total
