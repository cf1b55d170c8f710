-- ===== src/Judge/Interactive/Cases.antt =====
-- What a round of the loop of the INTERACTIVE mode returns.
use acoj_worker.Common.{
  ℕ, String, true, not, ◌&&◌, Option, none, some, is_some, get_or, ◌≡◌, refl, subst, arith,
  ok-injective, ◌==◌, string_eq,
}
use acoj_worker.Common.Exec.{Ensures, Ensures-bind, Ensures-pure, Ensures-if, continue-eq-ok, pure}
use acoj_worker.Judge.Float.{FloatOps}
use acoj_worker.Judge.Types.{Status, Verdict, Language, Grader, Problem, TestCase, CaseResult}
use acoj_worker.Judge.SandboxConfig.{IsolationConfig, CgroupConfig}
use acoj_worker.Judge.Metrics.{compile_metrics_from_process}
use acoj_worker.Judge.Mapper.{is_ac, is_passed, to_oj_result}
use acoj_worker.Judge.LanguageConfig.{LanguageSpec, or_text}
use acoj_worker.Judge.DataLoader.{resolve_input_ref}
use acoj_worker.Judge.Interactive.Host.{PathRun, InteractiveHost}
use acoj_worker.Judge.Interactive.Race.{Local, on_host, race, interactive_verdict}
use acoj_worker.Judge.Interactive.Run.{
  peak, key_of, case_limits, interactor_limits, failed_case, interactive_case, run_pair,
  run_interactor, with_interactor, run_user, case_body, judge_opened, judge_case,
}

to_oj_result-ran : (s : Status) → is_passed (to_oj_result s) ≡ is_ac (to_oj_result s)
unfolding to_oj_result
to_oj_result-ran Status.ac = refl
to_oj_result-ran Status.ce = refl
to_oj_result-ran Status.re = refl
to_oj_result-ran Status.tle = refl
to_oj_result-ran Status.mle = refl
to_oj_result-ran Status.ole = refl
to_oj_result-ran Status.se = refl
to_oj_result-ran Status.ie = refl
to_oj_result-ran (Status.unlisted n) = refl

-- `SKIPPED` is no outcome of a run.
interactive_verdict-ran :
    (user interactor : Option PathRun)
    → is_passed (interactive_verdict user interactor) ≡ is_ac (interactive_verdict user interactor)
unfolding interactive_verdict
interactive_verdict-ran none interactor = refl
interactive_verdict-ran (some u) none = refl
interactive_verdict-ran (some u) (some i) =
    let user_ran = to_oj_result-ran u.status in
    let interactor_ran = to_oj_result-ran i.status in ground arith

module _ {F : Type 0} ⦃fl : FloatOps F⦄ where
  -- The result of a test case: it has its number and is not `SKIPPED`.
  abbrev pub IsJudged : TestCase F → (ℕ × ℕ) × CaseResult F → Type 0
  IsJudged tc judged =
      (judged.1.case_no ≡ tc.case_no) × (is_passed judged.1.result ≡ is_ac judged.1.result)

  module _ {S : Type 0} (host : InteractiveHost S) (isolation : IsolationConfig)
      (cgroup : CgroupConfig) (grader : Grader) (grader_key source : String)
      (language : Option Language) (spec : Option LanguageSpec) (grader_spec : LanguageSpec)
      (per_case : F) (problem : Problem F) where
    run_pair-IsJudged :
        (tc : TestCase F) (compile : ℕ × ℕ)
        → Ensures (IsJudged tc) (
            run_pair host isolation cgroup grader grader_key source language spec grader_spec
              per_case problem tc compile)
    unfolding run_pair interactive_case
    run_pair-IsJudged tc compile l judged e =
        let outcome =
          race host problem.time_limit_ms (case_limits tc problem)
            (interactor_limits grader problem) l in
        let result : String → (ℕ × ℕ) × CaseResult F =
          λ text. (compile, interactive_case per_case tc.case_no outcome.0 text) in
        let text = host.interactor_stderr outcome.1.host in
        let (t, done, rest) =
          continue-eq-ok text.0 (λ t. pure {S = Local S} (result t))
            (record outcome.1 { host = text.1 }) e in
        subst (IsJudged tc) (ok-injective rest) (
          refl,
          interactive_verdict-ran (get_or outcome.0.user none) (get_or outcome.0.interactor none),
        )

    failed_case-IsJudged :
        (tc : TestCase F) (compile : ℕ × ℕ) (verdict : Verdict) (text : String)
        → is_passed verdict ≡ is_ac verdict
        → IsJudged tc (compile, failed_case tc.case_no verdict text)
    unfolding failed_case
    failed_case-IsJudged tc compile verdict text h = (refl, h)

    with_interactor-IsJudged :
        (tc : TestCase F) (compile : ℕ × ℕ)
        → Ensures (IsJudged tc) (
            with_interactor host isolation cgroup grader grader_key source language spec grader_spec
              per_case problem tc compile)
    unfolding with_interactor run_interactor
    with_interactor-IsJudged tc compile =
        Ensures-bind (IsJudged tc)
          (on_host (host.prepare_interactor grader_key (or_text grader.source "") isolation cgroup))
          _
          (λ program l.
            Ensures-if (IsJudged tc) (not program.compiled) _ _
              (Ensures-pure (IsJudged tc) _
                (failed_case-IsJudged tc compile Verdict.ie program.compile.message refl))
              (run_pair-IsJudged tc compile) (record l { interactor_program = true }))

    case_body-IsJudged :
        (tc : TestCase F) (compile : ℕ × ℕ)
        → Ensures (IsJudged tc) (
            case_body host isolation cgroup grader grader_key source language spec grader_spec
              per_case problem tc compile)
    unfolding case_body run_user
    case_body-IsJudged tc compile =
        Ensures-if (IsJudged tc) (is_some spec && not (source == "")) _ _
          (Ensures-bind (IsJudged tc)
            (on_host (host.prepare_user (key_of language) source isolation cgroup)) _
            (λ program l.
              let peaked = peak compile (compile_metrics_from_process (some program.compile)) in
              Ensures-if (IsJudged tc) (not program.compiled) _ _
                (Ensures-pure (IsJudged tc) _
                  (failed_case-IsJudged tc peaked Verdict.ce program.compile.message refl))
                (with_interactor-IsJudged tc peaked) (record l { user_program = true })))
          (with_interactor-IsJudged tc compile)

    pub judge_case-IsJudged :
        (tc : TestCase F) (compile : ℕ × ℕ)
        → Ensures (IsJudged tc) (
            judge_case host isolation cgroup grader grader_key source language spec grader_spec
              per_case problem tc compile)
    unfolding judge_case judge_opened
    judge_case-IsJudged tc compile =
        let P = IsJudged tc in
        Ensures-bind P (resolve_input_ref host.storage tc) _ (λ input.
          Ensures-bind P host.make_work_dir _ (λ _. Ensures-bind P (host.write_input input) _ (λ _.
            Ensures-bind P host.make_fifos _ (λ _. Ensures-bind P host.open_ab _ (λ _.
              Ensures-bind P host.open_ba _ (λ _. Ensures-bind P _ _ (λ _.
                Ensures-bind P (host.create_interactor_client grader_spec) _
                  (λ _ s judged e. case_body-IsJudged tc compile _ judged e))))))))
