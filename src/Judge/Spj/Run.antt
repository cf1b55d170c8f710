-- ===== src/Judge/Spj/Run.antt =====
-- app/modules/judge/modes/spj.py: SpecialJudgeMode.judge.
use Prim.Native.String.{◌++◌}
use acoj_worker.Common.{
  ℕ, ◌*◌, ◌/◌, max, String, Bool, false, not, ◌&&◌, Option, none, some, List, [], ◌∷◌, length,
  get_or, ◌==◌, string_eq, strip_text, if◌then◌else◌, attribute_error,
}
use acoj_worker.Common.Exec.{Exec, pure, throw, lift, try_finally, ◌>>=◌, ◌>>◌}
use acoj_worker.Judge.Float.{FloatOps}
use acoj_worker.Judge.Types.{
  Verdict, Language, Grader, Problem, TestCase, Payload, CaseResult, JudgeResult, JobStatus,
}
use acoj_worker.Judge.Settings.{JudgeSettings}
use acoj_worker.Judge.SandboxConfig.{
  IsolationConfig, CgroupConfig, build_isolation_config, build_cgroup_config,
}
use acoj_worker.Judge.Metrics.{
  is_ok, run_metrics_from_cases, compile_metrics_from_process, reported_run_time_ms,
}
use acoj_worker.Judge.Scoring.{error_verdict}
use acoj_worker.Judge.LanguageConfig.{JudgeLimits, or_text, build_languages_config}
use acoj_worker.Judge.CaseBuilder.{build_judge_limits}
use acoj_worker.Judge.DataLoader.{resolve_input_ref, resolve_output_ref}
use acoj_worker.Judge.Tally.{Tally, start, tally}
use acoj_worker.Judge.Entries.{item, language_item}
use acoj_worker.Judge.Spj.Host.{CompileResult, Program, UserRun, SpjHost}

-- _CHECKER_COMPILE_LIMITS
abbrev pub checker_compile_limits : JudgeLimits
checker_compile_limits = record {
  cpu_time_ms = 60000;
  real_time_ms = 120000;
  memory_bytes = 1024 * 1024 * 1024;
  processes = 256;
  output_bytes = some (64 * 1024 * 1024);
}

-- `(compiler_output or message or "").strip()`
abbrev pub compiler_text : Option CompileResult → String
compiler_text none = ""
compiler_text (some r) = strip_text (or_text r.compiler_output (or_text r.message ""))

unfoldable pub compile_failure_text : Program → String
compile_failure_text program =
    let text = compiler_text program.compile_result in
    if not (text == "") then text else or_text (some program.compile.message) "compile failed"

-- `payload.get("spj", {}).get("source")`: an absent key is an empty dictionary, null has no `get`.
unfoldable pub grader_source : {S : Type 0} → Option (Option Grader) → Exec S (Option String)
grader_source none s = pure none s
grader_source (some none) s = throw (attribute_error "'NoneType' object has no attribute 'get'") s
grader_source (some (some grader)) s = pure grader.source s

module _ {F : Type 0} ⦃fl : FloatOps F⦄ where
  -- `problem["points"] / max(len(test_cases_data), 1)`
  unfoldable pub points_per_case : {S : Type 0} → Problem F → List (TestCase F) → Exec S F
  points_per_case problem tcs = do
    points ← item problem.points "'points'"
    pure (fl.div points (max (length tcs) 1))

  unfoldable pub spj_case :
      F → ℕ → UserRun → (accepted : Bool) → (stdout_preview stderr_preview : String) → CaseResult F
  spj_case per_case case_no user accepted stdout_preview stderr_preview =
      let case_ac = is_ok user.status && accepted in
      record {
        case_no = case_no;
        result = if case_ac then Verdict.ac else Verdict.wa;
        time_ms = reported_run_time_ms (some user.run);
        memory_kb = user.run.memory_bytes / 1024;
        points = if case_ac then per_case else fl.zero_f;
        stdout_preview = stdout_preview;
        stderr_preview = stderr_preview;
      }

  -- The result after the loop, with the compile metrics.
  unfoldable pub spj_report : (submission_id : String) → ℕ × ℕ → Tally F → JudgeResult F
  spj_report submission_id compile t = record {
    submission_id = submission_id;
    status = JobStatus.completed;
    result = some (if t.all_ac then Verdict.ac else Verdict.wa);
    score = t.total_score;
    time_ms = (run_metrics_from_cases t.all_cases).0;
    memory_kb = (run_metrics_from_cases t.all_cases).1;
    compile_time_ms = compile.0;
    compile_memory_kb = compile.1;
    compile_output = none;
    compile_error = false;
    cases = t.all_cases;
    error = none;
    wall_time_ms = none;
  }

  module _ {S : Type 0} (host : SpjHost S) (isolation : IsolationConfig)
      (cgroup : CgroupConfig) where
    -- One round of the loop over the test cases.
    unfoldable pub judge_case :
        (spj_source : String) → F → Problem F → TestCase F → Exec S (CaseResult F)
    judge_case spj_source per_case problem tc = do
      input ← resolve_input_ref host.storage tc
      expected ← resolve_output_ref host.storage tc
      user ← host.run input (build_judge_limits tc problem) isolation cgroup
      accepted ← λ s.
          host.run_checker spj_source input (host.storage.from_path s user.stdout_path)
            (get_or expected (host.storage.from_data "")) isolation cgroup s
      λ s.
          pure
            (spj_case per_case tc.case_no user accepted
              (host.storage.from_path s user.stdout_path).preview_text
              (host.storage.from_path s user.stderr_path).preview_text)
            s

    unfoldable pub judge_cases :
        (spj_source : String) → F → Problem F → Tally F → List (TestCase F) → Exec S (Tally F)
    judge_cases spj_source per_case problem t [] = pure t
    judge_cases spj_source per_case problem t (tc ∷ tcs) = do
      c ← judge_case spj_source per_case problem tc
      judge_cases spj_source per_case problem (tally t c) tcs

    -- The part of the `try` block behind the compilation of the checker.
    unfoldable pub with_compiled_checker :
        (submission_id spj_source : String)
        → ℕ × ℕ
        → Problem F
        → List (TestCase F)
        → Program
        → Exec S (JudgeResult F)
    with_compiled_checker submission_id spj_source compile problem tcs checker =
        if not checker.compiled
        then pure
            (error_verdict submission_id ("SPJ checker 编译失败: " ++ compile_failure_text checker))
        else (do
          per_case ← points_per_case problem tcs
          t ← judge_cases spj_source per_case problem start tcs
          pure (spj_report submission_id compile t))

    -- From the compiled program on; `checker_program.close()` stands in the `finally` block.
    unfoldable pub with_checker :
        (submission_id spj_source : String)
        → ℕ × ℕ
        → Problem F
        → List (TestCase F)
        → Exec S (JudgeResult F)
    with_checker submission_id spj_source compile problem tcs = do
      checker ← host.prepare_checker spj_source checker_compile_limits isolation cgroup
      try_finally (with_compiled_checker submission_id spj_source compile problem tcs checker)
          host.close_checker

    -- The part of the `try` block behind the compilation of the program.
    unfoldable pub with_compiled_program :
        (submission_id spj_source : String)
        → Problem F
        → List (TestCase F)
        → Program
        → Exec S (JudgeResult F)
    with_compiled_program submission_id spj_source problem tcs program =
        if not program.compiled
        then pure (error_verdict submission_id ("用户程序编译失败: " ++ compile_failure_text program))
        else with_checker submission_id spj_source
            (compile_metrics_from_process (some program.compile)) problem tcs

    unfoldable pub with_program :
        (submission_id key source spj_source : String)
        → Problem F
        → List (TestCase F)
        → Exec S (JudgeResult F)
    with_program submission_id key source spj_source problem tcs = do
      program ← host.prepare_program key source isolation cgroup
      try_finally (with_compiled_program submission_id spj_source problem tcs program)
          host.close_program

  module _ {S : Type 0} (host : SpjHost S) where
    -- The two clients are created before the `try`.
    unfoldable pub with_clients :
        JudgeSettings
        → (submission_id source spj_source : String) → Language
        → Problem F
        → List (TestCase F)
        → Exec S (JudgeResult F)
    with_clients cfg submission_id source spj_source language problem tcs = do
      spec ← lift (build_languages_config host.split language "main")
      host.create_client spec
      host.create_checker_client
      try_finally
          (λ s.
            with_program host (build_isolation_config (host.path_exists s) cfg)
              (build_cgroup_config cfg) submission_id language.key source spj_source problem tcs s)
          (λ s. host.close_checker_client (host.close_client s))

    unfoldable pub judge : JudgeSettings → Payload F → Exec S (JudgeResult F)
    judge cfg payload = do
      language_entry ← item payload.language "'language'"
      source ← item payload.source "'source'"
      tcs ← item payload.test_cases "'test_cases'"
      spj_source ← grader_source payload.spj
      if or_text spj_source "" == ""
          then pure (error_verdict payload.submission_id "缺少 SPJ checker 源码")
          else (do
            language ← language_item language_entry
            with_clients cfg payload.submission_id source (or_text spj_source "") language
                payload.problem tcs)
