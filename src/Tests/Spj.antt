-- ===== src/Tests/Spj.antt =====
-- Runs of the SPECIAL_JUDGE and INTERACTIVE modes.
use acoj_worker.Common.{
  ℕ, false, none, some, get_or, [], ◌∷◌, all, map, strip, ok, ◌≡◌, refl, ap, if◌then◌else◌,
}
use acoj_worker.Judge.Types.{Verdict, CaseResult, JudgeResult, JobStatus}
use acoj_worker.Judge.Mapper.{is_ac, score_from}
use acoj_worker.Judge.Metrics.{
  sum_time, max_memory, compile_metrics_from_process, reported_run_time_ms,
}
use acoj_worker.Judge.LanguageConfig.{build_languages_config}
use acoj_worker.Judge.CaseBuilder.{build_judge_limits}
use acoj_worker.Judge.DataLoader.{resolve_input_ref, resolve_output_ref}
use acoj_worker.Judge.Tally.{tally}
use acoj_worker.Judge.Spj.Run.{
  grader_source, points_per_case, spj_case, spj_report, judge_case, judge_cases,
  with_compiled_checker, with_checker, with_compiled_program, with_program, with_clients, judge,
}
use acoj_worker.Judge.Spj.Outcome.{judge-completed}
use acoj_worker.Tests.Samples.{whole_points, settings}
use acoj_worker.Tests.Hosts.{payload, spj_host}

abbrev spj_case_of : ℕ → CaseResult ℕ
spj_case_of n = record {
  case_no = n;
  result = Verdict.ac;
  time_ms = 7;
  memory_kb = 4;
  points = 20;
  stdout_preview = "";
  stderr_preview = "";
}

abbrev spj_result : JudgeResult ℕ
spj_result = record {
  submission_id = "s1";
  status = JobStatus.completed;
  result = some Verdict.ac;
  score = 40;
  time_ms = 14;
  memory_kb = 4;
  compile_time_ms = 7;
  compile_memory_kb = 4;
  compile_output = none;
  compile_error = false;
  cases = spj_case_of 1 ∷ spj_case_of 2 ∷ [];
  error = none;
  wall_time_ms = none;
}

judge_two : judge spj_host settings payload 0 ≡ (ok spj_result, 0)
unfolding sum_time max_memory compile_metrics_from_process reported_run_time_ms
    build_languages_config build_judge_limits resolve_input_ref resolve_output_ref tally
    grader_source points_per_case spj_case spj_report judge_case judge_cases with_compiled_checker
    with_checker with_compiled_program with_program with_clients judge strip
judge_two = refl

judge-completed_example :
    (spj_result.score ≡ score_from 0 spj_result.cases)
    × (spj_result.result
        ≡ some (if all (λ c. is_ac c.result) spj_result.cases then Verdict.ac else Verdict.wa))
    × (map (λ c. c.case_no) spj_result.cases
        ≡ map (λ tc. tc.case_no) (get_or payload.test_cases []))
judge-completed_example =
    judge-completed spj_host settings payload 0 spj_result (ap (λ r. r.0) judge_two) refl
