-- ===== src/Tests/Interactive.antt =====
-- Runs of the INTERACTIVE mode.
use acoj_worker.Common.{
  ℕ, ◌+◌, ◌-◌, true, false, none, some, get_or, [], ◌∷◌, map, strip, prefix, ok, ◌≡◌, refl, ap,
  arith,
}
use acoj_worker.Judge.Types.{Verdict, Grader, CaseResult, JudgeResult, JobStatus}
use acoj_worker.Judge.Mapper.{to_oj_result, score_from, compute_overall_result}
use acoj_worker.Judge.Metrics.{
  sum_time, max_memory, compile_metrics_from_process, reported_run_time_ms,
}
use acoj_worker.Judge.SandboxConfig.{
  IsolationConfig, CgroupConfig, build_isolation_config, build_cgroup_config,
}
use acoj_worker.Judge.LanguageConfig.{LanguageSpec, script, build_languages_config}
use acoj_worker.Judge.DataLoader.{resolve_input_ref}
use acoj_worker.Judge.Tally.{tally}
use acoj_worker.Judge.Spj.Run.{points_per_case}
use acoj_worker.Judge.Interactive.Host.{InteractiveHost}
use acoj_worker.Judge.Interactive.Race.{
  should_release, interactive_verdict, release_ab, release_ba, race, cleanup,
}
use acoj_worker.Judge.Interactive.Run.{
  grader_of, failed_case, interactive_case, first_non_ac, interactive_report, run_pair,
  run_interactor, with_interactor, run_user, case_body, judge_opened, judge_case, judge_cases,
  judge_with, with_grader, judge,
}
use acoj_worker.Judge.Interactive.Balance.{CountsDescriptors}
use acoj_worker.Judge.Interactive.Descriptors.{judge_opened-closes}
use acoj_worker.Judge.Interactive.Outcome.{judge-completed_overall}
use acoj_worker.Tests.Samples.{whole_points, problem, case_of, settings}
use acoj_worker.Tests.Hosts.{payload, script_language, interactive_host, interactive_on}

abbrev run_error : ℕ → CaseResult ℕ
run_error n = record {
  case_no = n;
  result = Verdict.re;
  time_ms = 7;
  memory_kb = 4;
  points = 0;
  stdout_preview = "";
  stderr_preview = "bye";
}

abbrev interactive_result : JudgeResult ℕ
interactive_result = record {
  submission_id = "s1";
  status = JobStatus.completed;
  result = some Verdict.re;
  score = 0;
  time_ms = 14;
  memory_kb = 4;
  compile_time_ms = 7;
  compile_memory_kb = 4;
  compile_output = none;
  compile_error = false;
  cases = run_error 1 ∷ run_error 2 ∷ [];
  error = none;
  wall_time_ms = none;
}

judge_errors : judge interactive_host settings payload 0 ≡ (ok interactive_result, 0)
unfolding sum_time max_memory compile_metrics_from_process reported_run_time_ms
    build_languages_config resolve_input_ref tally points_per_case to_oj_result should_release
    interactive_verdict release_ab release_ba race cleanup grader_of failed_case interactive_case
    first_non_ac interactive_report run_pair run_interactor with_interactor run_user case_body
    judge_opened judge_case judge_cases judge_with with_grader judge strip prefix
judge_errors = refl

judge-completed_overall_example :
    (interactive_result.score ≡ score_from 0 interactive_result.cases)
    × (interactive_result.result ≡ some (compute_overall_result false interactive_result.cases))
    × (map (λ c. c.case_no) interactive_result.cases
        ≡ map (λ tc. tc.case_no) (get_or payload.test_cases []))
judge-completed_overall_example =
    judge-completed_overall interactive_host settings payload 0 interactive_result
      (ap (λ r. r.0) judge_errors) refl

-- The state counts the descriptors of each FIFO.
abbrev two_fifos : InteractiveHost (ℕ × ℕ)
two_fifos =
    interactive_on (λ s. (s.0 + 1, s.1)) (λ s. (s.0, s.1 + 1)) (λ s. (s.0 - 1, s.1))
      (λ s. (s.0, s.1 - 1))

two_fifos_ab : CountsDescriptors two_fifos (λ s. s.0) 1 0
two_fifos_ab = record {
  close_ab = λ s. refl;
  close_ba = λ s. omega arith;
  prepare_user = λ key source i c s. refl;
  prepare_interactor = λ key source i c s. refl;
  wait_first = λ timeout u i s. refl;
  wait_pending = λ timeout s. refl;
  interactor_stderr = λ s. refl;
  close_interactor_program = λ s. refl;
  close_user_program = λ s. refl;
  close_user_client = λ s. refl;
  close_interactor_client = λ s. refl;
  remove_work_dir = λ s. refl;
}

two_fifos_ba : CountsDescriptors two_fifos (λ s. s.1) 0 1
two_fifos_ba = record {
  close_ab = λ s. omega arith;
  close_ba = λ s. refl;
  prepare_user = λ key source i c s. refl;
  prepare_interactor = λ key source i c s. refl;
  wait_first = λ timeout u i s. refl;
  wait_pending = λ timeout s. refl;
  interactor_stderr = λ s. refl;
  close_interactor_program = λ s. refl;
  close_user_program = λ s. refl;
  close_user_client = λ s. refl;
  close_interactor_client = λ s. refl;
  remove_work_dir = λ s. refl;
}

abbrev isolation : IsolationConfig
isolation = build_isolation_config (λ path. true) settings

abbrev cgroup : CgroupConfig
cgroup = build_cgroup_config settings

abbrev talk : Grader
talk = record {
  source = some "talk";
  language = some (some script_language);
  time_limit_ms = none;
  memory_limit_kb = none;
}

abbrev spec : LanguageSpec
spec = script "python3" ("python3" ∷ [])

judge_opened-closes_example :
    let after =
      (judge_opened two_fifos isolation cgroup talk "python3" "print(3)"
        (some script_language)
        (some spec)
        spec
        20
        problem
        (case_of 1 none [])
        (0, 0)
        (4, 6)).1 in
    (after.0 ≡ 3) × (after.1 ≡ 5)
judge_opened-closes_example =
    judge_opened-closes two_fifos (λ s. s.0) (λ s. s.1) two_fifos_ab two_fifos_ba isolation cgroup
      talk "python3" "print(3)" (some script_language) (some spec) spec 20 problem
      (case_of 1 none []) (0, 0) 3 5 (4, 6) refl refl
