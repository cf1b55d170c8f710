-- ===== src/Tests/PoolMetrics.antt =====
-- Runs of pool_metrics.py.
use acoj_worker.Common.{ℕ, none, some, [], ◌∷◌, ◌≡◌, arith}
use acoj_worker.Judge.PoolMetrics.{PoolStats, PoolCounter, on_events, at_start}
use acoj_worker.Judge.PoolMetrics.Totals.{total, count_of, last_of, total-on_events}

abbrev stats : (borrowed : ℕ) → PoolStats
stats borrowed = record {
  available_count = 1;
  active_count = 1;
  total_count = 2;
  borrow_count = borrowed;
  emergency_count = 0;
  replaced_count = 0;
  queue_timeout_count = none;
  borrow_last_wait_ms = some 3;
}

total-on_events_example :
    total PoolCounter.borrow (on_events at_start (stats 2 ∷ stats 5 ∷ [])).0
    ≡ count_of PoolCounter.borrow (last_of at_start (stats 2 ∷ stats 5 ∷ []))
total-on_events_example =
    total-on_events PoolCounter.borrow (stats 2 ∷ stats 5 ∷ []) (omega arith, (omega arith, tt))
