-- ===== src/Orchestration/FanoutTests.antt =====
-- The theorems on batches of tool calls at concrete inputs.
use gocodemunch_mcp.Base.{
  codes, length, ◌+◌, ◌*◌, ◌≤◌, ◌≡◌, refl, true, none, some, List, [], ◌∷◌, ltb, if◌then◌else◌,
  arith,
}
use gocodemunch_mcp.Base.Int.{pos}
use gocodemunch_mcp.Orchestration.Fanout.{FanoutConfig, item_failed, Context, Item, serial_loop}
use gocodemunch_mcp.Orchestration.Fanout.Serial.{InOrder, serial_loop-InOrder}
use gocodemunch_mcp.Orchestration.Fanout.Parallel.{
  Event, receive, item_ended, start_pool, pool_step, run_pool, all_stopped, pool_result,
  receive_job, receive_at, end_item, end_at,
}
use gocodemunch_mcp.Orchestration.Fanout.Parallel.Once.{count, places, run_pool-once}
use gocodemunch_mcp.Orchestration.Fanout.Parallel.Ends.{run_pool_complete}
use gocodemunch_mcp.Orchestration.Fanout.Parallel.Bound.{AllReady, run_pool_bound}

abbrev config : FanoutConfig
config = record {
  fanout_mode = codes "parallel";
  max_workers = pos 2;
  max_queue_depth = pos 2;
  item_timeout_ms = pos 10;
  overload_policy = codes "reject";
}

abbrev context : Context
context = record { deadline = some 100; canceled_at = none }

-- The second item fails.
abbrev run : Item
run ctx index = (5, if ltb 0 index then some (item_failed (codes "e")) else none)

serial_loop-InOrder_example : InOrder 0 3 (serial_loop run config context 3 0 0)
serial_loop-InOrder_example = serial_loop-InOrder run config context 3 0 0

-- Two workers take two items, the second ends first.
abbrev events : List Event
events =
    receive 0 none
    ∷ receive 1 none
    ∷ item_ended 1 none
    ∷ receive 1 none
    ∷ item_ended 0 none
    ∷ receive 0 none
    ∷ []

run_pool-once_example : places 1 (run_pool (start_pool 2 2) events) ≡ (if ltb 1 2 then 1 else 0)
run_pool-once_example = run_pool-once 1 2 2 events

all_returned : all_stopped (run_pool (start_pool 2 2) events).workers ≡ true
unfolding run_pool pool_step start_pool receive_at receive_job end_at end_item
all_returned = refl

no_error : pool_result none (run_pool (start_pool 2 2) events) ≡ none
unfolding pool_result run_pool pool_step start_pool receive_at receive_job end_at end_item
no_error = refl

run_pool_complete_example :
    count 1 (run_pool (start_pool 2 2) events).done ≡ (if ltb 1 2 then 1 else 0)
run_pool_complete_example = run_pool_complete 1 2 2 events none (omega arith) all_returned no_error

all_ready : AllReady (start_pool 2 2) events
unfolding pool_step start_pool receive_at receive_job end_at end_item
all_ready = (refl, (refl, (refl, (refl, (refl, (refl, tt))))))

run_pool_bound_example : length events ≤ 2 * 2 + 2
run_pool_bound_example = run_pool_bound 2 2 events all_ready
