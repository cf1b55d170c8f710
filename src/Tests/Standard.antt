-- ===== src/Tests/Standard.antt =====
-- Runs of the STANDARD mode and of the dispatcher.
use acoj_worker.Common.{
  ℕ, true, false, none, some, List, [], ◌∷◌, All, length, ok, ◌≡◌, ◌↔◌, ◌⊎◌, refl, arith, option_eq,
  nat_eq, string_eq, strip, Result, raise, value_error, Option-cases, inl, inr, ap,
}
use acoj_worker.Judge.Types.{Status, Verdict, TestCase, CaseResult, JudgeResult, JobStatus}
use acoj_worker.Judge.Mapper.{
  is_passed, to_oj_result, compute_score, compute_overall_result, first_failure, score_from,
}
use acoj_worker.Judge.Metrics.{
  sum_time, max_memory, compile_metrics_from_process, reported_run_time_ms,
}
use acoj_worker.Judge.Checker.{ref_full_text, texts_match, check_output, outputs_match}
use acoj_worker.Judge.Standard.Host.{CaseRun}
use acoj_worker.Judge.Standard.Batch.{
  case_verdict, skipped_result, case_result, judge_cases, skip_rest, pad_skipped, has_batch,
  score_cases, overall_result, report,
}
use acoj_worker.Judge.Standard.Run.{judge}
use acoj_worker.Judge.Standard.Closing.{Counts, judge-closes}
use acoj_worker.Judge.Standard.Stopping.{
  StopsAtFailure, pad_skipped-StopsAtFailure, length-pad_skipped,
}
use acoj_worker.Judge.Standard.Verdict.{report-score, report-ac_iff}
use acoj_worker.Judge.Orchestrator.{execute_judge}
use acoj_worker.Judge.Orchestrator.Failing.{registry}
use acoj_worker.Judge.Orchestrator.Task.{ValidatesModel, IsOutcome, execute_judge-IsOutcome}
use acoj_worker.Tests.Samples.{
  whole_points, whole_points-Exact, case_of, result_of, problem, settings,
}
use acoj_worker.Tests.Hosts.{payload, case_run, batch_of, standard_host, spj_host, interactive_host}

standard_host-Counts : Counts standard_host (λ s. s)
standard_host-Counts = record {
  create_ok = λ spec s h. refl;
  create_raise = λ spec s x h. cc;
  run_ok = λ r s b h. refl;
  run_raise = λ r s x h. cc;
  close_batch = λ s. refl;
  close_client = λ s. refl;
  load = λ name sha256 s. refl;
}

judge-closes_example : (judge standard_host settings payload 5).1 ≡ 5
judge-closes_example = judge-closes standard_host (λ s. s) standard_host-Counts settings payload 5

abbrev three_cases : List (TestCase ℕ)
three_cases = case_of 1 none [] ∷ case_of 2 none [] ∷ case_of 3 none [] ∷ []

abbrev two_runs : List CaseRun
two_runs = case_run Status.ac (51 ∷ []) ∷ case_run Status.re [] ∷ []

pad_skipped-StopsAtFailure_example :
    let (judged, had_failure) =
      judge_cases (λ bytes. bytes) (λ path. none) true false 0 three_cases two_runs in
    StopsAtFailure (pad_skipped true had_failure judged three_cases)
pad_skipped-StopsAtFailure_example =
    pad_skipped-StopsAtFailure (λ bytes. bytes) (λ path. none) three_cases two_runs

run_all : Unit {0}
unfolding case_verdict skipped_result case_result judge_cases skip_rest pad_skipped has_batch
    score_cases overall_result report compute_score compute_overall_result first_failure score_from
    sum_time max_memory compile_metrics_from_process reported_run_time_ms ref_full_text texts_match
    check_output outputs_match to_oj_result strip
run_all = tt

length-pad_skipped_example :
    length (
      pad_skipped true true
        (judge_cases (λ bytes. bytes) (λ path. none) true false 0 three_cases two_runs).0
        three_cases)
    ≡ 3
unfolding run_all
length-pad_skipped_example =
    length-pad_skipped (λ bytes. bytes) (λ path. none) three_cases two_runs (omega arith) refl

abbrev two_results : List (CaseResult ℕ)
two_results = result_of 1 Verdict.ac 40 ∷ result_of 2 Verdict.wa 10 ∷ []

abbrev two_reported : JudgeResult ℕ
two_reported = record {
  submission_id = "s1";
  status = JobStatus.completed;
  result = some Verdict.ac;
  score = 40;
  time_ms = 10;
  memory_kb = 64;
  compile_time_ms = 7;
  compile_memory_kb = 4;
  compile_output = some "";
  compile_error = false;
  cases = two_results;
  error = none;
  wall_time_ms = none;
}

-- The score reaches the points of the problem though a case is not AC.
report_two : report "s1" false problem three_cases two_results (batch_of two_runs) ≡ ok two_reported
unfolding run_all
report_two = refl

report-score_example : two_reported.score ≡ compute_score false two_reported.cases
report-score_example =
    report-score whole_points-Exact "s1" false problem three_cases two_results (batch_of two_runs)
      {r = two_reported} report_two

report-ac_iff_example : (two_reported.result ≡ some Verdict.ac) ↔ (
    (whole_points.ge two_reported.score 40 ≡ true)
    ⊎ All (λ c. is_passed c.result ≡ true) two_reported.cases)
report-ac_iff_example =
    report-ac_iff "s1" false problem three_cases two_results (batch_of two_runs) two_reported 40
      report_two refl refl

-- Pydantic, for values of the types of the model, with None for `wall_time_ms` refused.
abbrev validated : JudgeResult ℕ → Result (JudgeResult ℕ)
validated r = elim (r.wall_time_ms) [ none ↦ raise (value_error "wall_time_ms") | some n ↦ ok r ]

validated-same : (r r' : JudgeResult ℕ) → validated r ≡ ok r' → r' ≡ r
validated-same r r' h = elim (Option-cases r.wall_time_ms) [
  | inl e ↦ absurd (ground arith)
  | inr (n, e) ↦ ground arith
]

validated-ValidatesModel : ValidatesModel validated
validated-ValidatesModel = record {
  accepts = λ r n h. rw h refl;
  status = λ r r' h. ap (λ x. x.status) (validated-same r r' h);
  result = λ r r' h. ap (λ x. x.result) (validated-same r r' h);
  error = λ r r' h. ap (λ x. x.error) (validated-same r r' h);
  length-cases = λ r r' h. ap (λ x. length x.cases) (validated-same r r' h);
}

execute_judge-IsOutcome_example :
    (r : JudgeResult ℕ) × ((execute_judge
        (registry standard_host spj_host interactive_host settings)
        (λ s. s)
        validated
        none
        payload
        0).0
      ≡ ok r)
    × IsOutcome r
execute_judge-IsOutcome_example =
    execute_judge-IsOutcome validated validated-ValidatesModel standard_host spj_host
      interactive_host settings (λ s. s) none payload 0
