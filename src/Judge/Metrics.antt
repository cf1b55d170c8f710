-- ===== src/Judge/Metrics.antt =====
-- app/modules/judge/metrics.py
use acoj_worker.Common.{
  ℕ, ◌+◌, ◌/◌, max, String, Bool, ◌||◌, Option, none, some, List, [], ◌∷◌, ◌==◌, string_eq,
  if◌then◌else◌,
}
use acoj_worker.Judge.Types.{Status, CaseResult}

-- `acoj_sandbox.ProcessResult`, as far as the judge reads it.
pub record Process : Type 0 where
  pub status : Status
  pub message : String
  pub cpu_time_ms : ℕ
  pub real_time_ms : ℕ
  pub memory_bytes : ℕ
  pub exit_code : ℕ

-- `status == Status.AC`
abbrev pub is_ok : Status → Bool
is_ok Status.ac = Bool.true
is_ok _ = Bool.false

-- `status == Status.TLE`
abbrev pub is_tle : Status → Bool
is_tle Status.tle = Bool.true
is_tle _ = Bool.false

module _ {F : Type 0} where
  unfoldable pub sum_time : List (CaseResult F) → ℕ
  sum_time [] = 0
  sum_time (c ∷ cs) = c.time_ms + sum_time cs

  unfoldable pub max_memory : List (CaseResult F) → ℕ
  max_memory [] = 0
  max_memory (c ∷ cs) = max c.memory_kb (max_memory cs)

  abbrev pub run_metrics_from_cases : List (CaseResult F) → ℕ × ℕ
  run_metrics_from_cases cases = (sum_time cases, max_memory cases)

unfoldable pub compile_metrics_from_process : Option Process → ℕ × ℕ
compile_metrics_from_process none = (0, 0)
compile_metrics_from_process (some p) = (p.cpu_time_ms, p.memory_bytes / 1024)

unfoldable pub reported_run_time_ms : Option Process → ℕ
reported_run_time_ms none = 0
reported_run_time_ms (some run) =
    if is_tle run.status || run.message == "time limit exceeded"
    then max run.cpu_time_ms run.real_time_ms
    else run.cpu_time_ms
