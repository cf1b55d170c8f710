-- ===== src/Judge/PoolMetrics/Totals.antt =====
-- pool_metrics.py: what the increases of the counters add up to.
use acoj_worker.Common.{
  ℕ, ◌+◌, ◌-◌, ◌≤◌, Bool, true, false, List, [], ◌∷◌, ◌++◌, get_or, if◌then◌else◌, ◌≡◌, refl, arith,
}
use acoj_worker.Judge.PoolMetrics.{
  PoolStats, PoolCounter, borrow, emergency, replaced, queue_timeout, MetricCall, set_workers,
  increase, observe_wait, LastStats, increase_by, borrow_calls, remember, on_event, on_events,
  at_start,
}

abbrev pub same_counter : PoolCounter → PoolCounter → Bool
same_counter borrow borrow = true
same_counter emergency emergency = true
same_counter replaced replaced = true
same_counter queue_timeout queue_timeout = true
same_counter _ _ = false

abbrev pub count_of : PoolCounter → LastStats → ℕ
count_of borrow l = l.last_borrow
count_of emergency l = l.last_emergency
count_of replaced l = l.last_replaced
count_of queue_timeout l = l.last_queue_timeout

-- The sum of the increases of a counter
abbrev pub total : PoolCounter → List MetricCall → ℕ
total c [] = 0
total c (set_workers available active all ∷ calls) = total c calls
total c (increase d n ∷ calls) =
    let rest = total c calls in if same_counter d c then n + rest else rest
total c (observe_wait n ∷ calls) = total c calls

-- No count of an event is below the one before it.
abbrev pub IsRising : PoolCounter → LastStats → List PoolStats → Type 0
IsRising c last [] = Unit
IsRising c last (s ∷ events) =
    (count_of c last ≤ count_of c (remember s)) × IsRising c (remember s) events

total-append :
    (c : PoolCounter) (xs ys : List MetricCall) → total c (xs ++ ys) ≡ total c xs + total c ys
total-append c [] ys = omega arith
total-append c (set_workers available active all ∷ xs) ys = total-append c xs ys
total-append c (increase d n ∷ xs) ys = ground (arith, total-append c xs ys)
total-append c (observe_wait n ∷ xs) ys = total-append c xs ys

total-increase_by :
    (c d : PoolCounter) (n : ℕ) → total c (increase_by d n) ≡ (if same_counter d c then n else 0)
total-increase_by c d n = ground arith

total-borrow_calls :
    (c : PoolCounter) (s : PoolStats) (n : ℕ)
    → total c (borrow_calls s n) ≡ (if same_counter borrow c then n else 0)
total-borrow_calls c s n = ground arith

-- The increases of one event, of the four counters
total-on_event_sum :
    (c : PoolCounter) (last : LastStats) (s : PoolStats)
    → total c (on_event last s).0
      ≡ (if same_counter borrow c then s.borrow_count - last.last_borrow else 0)
        + (if same_counter emergency c then s.emergency_count - last.last_emergency else 0)
        + (if same_counter replaced c then s.replaced_count - last.last_replaced else 0)
        + (if same_counter queue_timeout c
            then get_or s.queue_timeout_count 0 - last.last_queue_timeout
            else 0)
unfolding on_event
total-on_event_sum c last s =
    let b = s.borrow_count - last.last_borrow in
    let e = s.emergency_count - last.last_emergency in
    let p = s.replaced_count - last.last_replaced in
    let q = get_or s.queue_timeout_count 0 - last.last_queue_timeout in
    let head = set_workers s.available_count s.active_count s.total_count ∷ borrow_calls s b in
    let one = total-append c head (increase_by emergency e) in
    let two = total-append c (head ++ increase_by emergency e) (increase_by replaced p) in
    let three =
      total-append c (head ++ increase_by emergency e ++ increase_by replaced p)
        (increase_by queue_timeout q) in
    omega (
      arith,
      one,
      two,
      three,
      total-borrow_calls c s b,
      total-increase_by c emergency e,
      total-increase_by c replaced p,
      total-increase_by c queue_timeout q,
    )

total-on_event :
    (c : PoolCounter) (last : LastStats) (s : PoolStats)
    → total c (on_event last s).0 ≡ count_of c (remember s) - count_of c last
total-on_event borrow last s = omega (arith, total-on_event_sum borrow last s)
total-on_event emergency last s = omega (arith, total-on_event_sum emergency last s)
total-on_event replaced last s = omega (arith, total-on_event_sum replaced last s)
total-on_event queue_timeout last s = omega (arith, total-on_event_sum queue_timeout last s)

on_event-last : (last : LastStats) (s : PoolStats) → (on_event last s).1 ≡ remember s
unfolding on_event
on_event-last last s = refl

-- What the last event has reported
abbrev pub last_of : LastStats → List PoolStats → LastStats
last_of last [] = last
last_of last (s ∷ events) = last_of (remember s) events

total-on_events_from :
    (c : PoolCounter) (last : LastStats) (events : List PoolStats)
    → IsRising c last events
    → total c (on_events last events).0 + count_of c last ≡ count_of c (last_of last events)
unfolding on_events
total-on_events_from c last [] h = omega arith
total-on_events_from c last (s ∷ events) (up, h) =
    let next = on_event-last last s in
    let more = total-on_events_from c (remember s) events h in
    let more' : total c (on_events (on_event last s).1 events).0 + count_of c (remember s)
        ≡ count_of c (last_of (remember s) events) =
      rw next more in
    let one = total-on_event c last s in
    let both = total-append c (on_event last s).0 (on_events (on_event last s).1 events).0 in
    omega arith

at_start-zero : (c : PoolCounter) → count_of c at_start ≡ 0
at_start-zero borrow = refl
at_start-zero emergency = refl
at_start-zero replaced = refl
at_start-zero queue_timeout = refl

-- While a count of the pool does not fall from one event to the next, the increases of its counter add
-- up to the last count that the pool has reported.
pub total-on_events :
    (c : PoolCounter) (events : List PoolStats)
    → IsRising c at_start events
    → total c (on_events at_start events).0 ≡ count_of c (last_of at_start events)
total-on_events c events h =
    let sum = total-on_events_from c at_start events h in
    let zero_there = at_start-zero c in omega arith
