-- ===== src/Judge/PoolMetrics.antt =====
-- app/modules/judge/pool_metrics.py: what the callback of the sandbox pool reports to Prometheus. The
-- calls of its client are values.
pub mod Totals
use acoj_worker.Common.{
  ℕ, zero, suc, ◌-◌, Option, none, some, List, [], ◌∷◌, ◌++◌, get_or, truthy_nat, if◌then◌else◌,
  nat_beq,
}

-- `pool.stats()`; two of the keys may be missing.
pub record PoolStats : Type 0 where
  pub available_count : ℕ
  pub active_count : ℕ
  pub total_count : ℕ
  pub borrow_count : ℕ
  pub emergency_count : ℕ
  pub replaced_count : ℕ
  pub queue_timeout_count : Option ℕ
  pub borrow_last_wait_ms : Option ℕ

-- The four counters
pub data PoolCounter : Type 0 where
  borrow emergency replaced queue_timeout : PoolCounter

pub data MetricCall : Type 0 where
  set_workers : (available active total : ℕ) → MetricCall
  increase : PoolCounter → ℕ → MetricCall
  observe_wait : ℕ → MetricCall

-- `last`
pub record LastStats : Type 0 where
  pub last_borrow : ℕ
  pub last_emergency : ℕ
  pub last_replaced : ℕ
  pub last_queue_timeout : ℕ

-- A counter is increased unless its delta is 0; `max(0, a - b)` is the subtraction of ℕ.
abbrev pub increase_by : PoolCounter → (delta : ℕ) → List MetricCall
increase_by counter delta = if nat_beq delta 0 then [] else increase counter delta ∷ []

-- The wait is observed when there is a new borrow.
abbrev pub borrow_calls : PoolStats → (delta : ℕ) → List MetricCall
borrow_calls s delta =
    if nat_beq delta 0
    then []
    else increase borrow delta ∷ observe_wait (get_or s.borrow_last_wait_ms 0) ∷ []

abbrev pub remember : PoolStats → LastStats
remember s = record {
  last_borrow = s.borrow_count;
  last_emergency = s.emergency_count;
  last_replaced = s.replaced_count;
  last_queue_timeout = get_or s.queue_timeout_count 0;
}

-- `on_event`
unfoldable pub on_event : LastStats → PoolStats → List MetricCall × LastStats
on_event last s = (
  set_workers s.available_count s.active_count s.total_count
        ∷ borrow_calls s (s.borrow_count - last.last_borrow)
      ++ increase_by emergency (s.emergency_count - last.last_emergency)
      ++ increase_by replaced (s.replaced_count - last.last_replaced)
      ++ increase_by queue_timeout (get_or s.queue_timeout_count 0 - last.last_queue_timeout),
  remember s,
)

-- The events of a pool, one after another
unfoldable pub on_events : LastStats → List PoolStats → List MetricCall × LastStats
on_events last [] = ([], last)
on_events last (s ∷ events) =
    let (calls, last') = on_event last s in
    let (more, end) = on_events last' events in (calls ++ more, end)

-- `last` when the callback is registered
abbrev pub at_start : LastStats
at_start = record { last_borrow = 0; last_emergency = 0; last_replaced = 0; last_queue_timeout = 0 }
