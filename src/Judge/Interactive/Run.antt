-- ===== src/Judge/Interactive/Run.antt =====
-- app/modules/judge/modes/interactive.py: InteractiveMode.judge.
use acoj_worker.Common.{
  ℕ, ◌*◌, ◌/◌, max, String, true, false, not, ◌&&◌, Option, none, some, List, [], ◌∷◌, is_some,
  get_or, or_nat, ◌==◌, string_eq, prefix, if◌then◌else◌, attribute_error, Result, ok, raise,
}
use acoj_worker.Common.Exec.{Exec, pure, throw, lift, ◌>>=◌, ◌>>◌}
use acoj_worker.Judge.Float.{FloatOps}
use acoj_worker.Judge.Types.{
  Verdict, Language, Grader, Problem, TestCase, Payload, CaseResult, JudgeResult, JobStatus,
}
use acoj_worker.Judge.Settings.{JudgeSettings}
use acoj_worker.Judge.SandboxConfig.{
  IsolationConfig, CgroupConfig, build_isolation_config, build_cgroup_config,
}
use acoj_worker.Judge.Metrics.{
  run_metrics_from_cases, compile_metrics_from_process, reported_run_time_ms,
}
use acoj_worker.Judge.Mapper.{is_ac, is_passed}
use acoj_worker.Judge.Scoring.{error_verdict}
use acoj_worker.Judge.LanguageConfig.{JudgeLimits, LanguageSpec, or_text, build_languages_config}
use acoj_worker.Judge.CaseBuilder.{default_output_bytes}
use acoj_worker.Judge.DataLoader.{resolve_input_ref}
use acoj_worker.Judge.Tally.{Tally, start, tally}
use acoj_worker.Judge.Entries.{item, language_item}
use acoj_worker.Judge.Spj.Host.{Program}
use acoj_worker.Judge.Spj.Run.{points_per_case}
use acoj_worker.Judge.Interactive.Host.{Done, InteractiveHost}
use acoj_worker.Judge.Interactive.Race.{Local, on_host, race, cleanup, interactive_verdict}

-- `payload.get("interactor", {})`, whose `.get` fails on null.
unfoldable pub grader_of : {S : Type 0} → Option (Option Grader) → Exec S (Option Grader)
grader_of none s = pure none s
grader_of (some none) s = throw (attribute_error "'NoneType' object has no attribute 'get'") s
grader_of (some (some grader)) s = pure (some grader) s

-- `payload.get("language")`
abbrev pub language_of : Option (Option Language) → Option Language
language_of none = none
language_of (some l) = l

-- `build_languages_config(language_cfg) if language_cfg else None`
abbrev pub optional_spec :
    (String → Result (List String)) → Option Language → Result (Option LanguageSpec)
optional_spec split none = ok none
optional_spec split (some language) = elim (build_languages_config split language "main") [
  | ok spec ↦ ok (some spec)
  | raise x ↦ raise x
]

abbrev pub key_of : Option Language → String
key_of none = ""
key_of (some language) = language.key

unfoldable pub interactor_limits : {F : Type 0} → Grader → Problem F → JudgeLimits
interactor_limits grader problem =
    let cpu_ms = or_nat grader.time_limit_ms (problem.time_limit_ms * 2) in
    record {
      cpu_time_ms = cpu_ms;
      real_time_ms = cpu_ms * 2;
      memory_bytes = or_nat grader.memory_limit_kb problem.memory_limit_kb * 1024;
      processes = 256;
      output_bytes = none;
    }

-- The peak of the compile metrics so far.
abbrev pub peak : ℕ × ℕ → ℕ × ℕ → ℕ × ℕ
peak a b = (max a.0 b.0, max a.1 b.1)

module _ {F : Type 0} ⦃fl : FloatOps F⦄ where
  unfoldable pub case_limits : TestCase F → Problem F → JudgeLimits
  case_limits tc problem =
      let cpu_ms = or_nat tc.time_limit_ms problem.time_limit_ms in
      record {
        cpu_time_ms = cpu_ms;
        real_time_ms = cpu_ms * 5;
        memory_bytes = or_nat tc.memory_limit_kb problem.memory_limit_kb * 1024;
        processes = 256;
        output_bytes =
            some (
              or_nat tc.output_limit_bytes
                (or_nat problem.output_limit_bytes default_output_bytes));
      }

  -- The result of a case whose program or interactor does not compile.
  unfoldable pub failed_case : ℕ → Verdict → (stderr_preview : String) → CaseResult F
  failed_case case_no verdict stderr_preview = record {
    case_no = case_no;
    result = verdict;
    time_ms = 0;
    memory_kb = 0;
    points = fl.zero_f;
    stdout_preview = "";
    stderr_preview = stderr_preview;
  }

  unfoldable pub interactive_case : F → ℕ → Done → (stderr_text : String) → CaseResult F
  interactive_case per_case case_no done stderr_text =
      let user = get_or done.user none in
      let verdict = interactive_verdict user (get_or done.interactor none) in
      record {
        case_no = case_no;
        result = verdict;
        time_ms = elim user [ none ↦ 0 | some u ↦ reported_run_time_ms (some u.run) ];
        memory_kb = elim user [ none ↦ 0 | some u ↦ u.run.memory_bytes / 1024 ];
        points = if is_ac verdict then per_case else fl.zero_f;
        stdout_preview = elim user [ none ↦ "" | some u ↦ prefix 2048 (or_text u.stdout "") ];
        stderr_preview = prefix 4096 stderr_text;
      }

  -- `non_ac[0] if non_ac else "WA"`
  unfoldable pub first_non_ac : List (CaseResult F) → Verdict
  first_non_ac [] = Verdict.wa
  first_non_ac (c ∷ cs) = if is_passed c.result then first_non_ac cs else c.result

  unfoldable pub interactive_report : (submission_id : String) → (ℕ × ℕ) × Tally F → JudgeResult F
  interactive_report submission_id (compile, t) = record {
    submission_id = submission_id;
    status = JobStatus.completed;
    result = some (if t.all_ac then Verdict.ac else first_non_ac t.all_cases);
    score = t.total_score;
    time_ms = (run_metrics_from_cases t.all_cases).0;
    memory_kb = (run_metrics_from_cases t.all_cases).1;
    compile_time_ms = compile.0;
    compile_memory_kb = compile.1;
    compile_output = none;
    compile_error = false;
    cases = t.all_cases;
    error = none;
    wall_time_ms = none;
  }

  module _ {S : Type 0} (host : InteractiveHost S) (isolation : IsolationConfig)
      (cgroup : CgroupConfig) (grader : Grader) (grader_key source : String)
      (language : Option Language) (spec : Option LanguageSpec) (grader_spec : LanguageSpec)
      (per_case : F) (problem : Problem F) where
    -- From the start of the two threads to the end of the `try` block.
    unfoldable pub run_pair : TestCase F → ℕ × ℕ → Exec (Local S) ((ℕ × ℕ) × CaseResult F)
    run_pair tc compile l =
        let (done, l') =
          race host problem.time_limit_ms (case_limits tc problem)
            (interactor_limits grader problem) l in
        (on_host host.interactor_stderr >>= λ text.
        pure (compile, interactive_case per_case tc.case_no done text))
          l'

    -- `interactor_program` is set, and there is a run only if it has compiled.
    unfoldable pub run_interactor :
        TestCase F → ℕ × ℕ → Program → Exec (Local S) ((ℕ × ℕ) × CaseResult F)
    run_interactor tc compile program l =
        (if not program.compiled
            then pure (compile, failed_case tc.case_no Verdict.ie program.compile.message)
            else run_pair tc compile)
          (record l { interactor_program = true })

    unfoldable pub with_interactor : TestCase F → ℕ × ℕ → Exec (Local S) ((ℕ × ℕ) × CaseResult F)
    with_interactor tc compile =
        on_host (host.prepare_interactor grader_key (or_text grader.source "") isolation cgroup)
        >>= run_interactor tc compile

    -- The same for `user_program`, whose compile metrics count.
    unfoldable pub run_user : TestCase F → ℕ × ℕ → Program → Exec (Local S) ((ℕ × ℕ) × CaseResult F)
    run_user tc compile program l =
        let peaked = peak compile (compile_metrics_from_process (some program.compile)) in
        (if not program.compiled
            then pure (peaked, failed_case tc.case_no Verdict.ce program.compile.message)
            else with_interactor tc peaked)
          (record l { user_program = true })

    -- The `try` block of a case.
    unfoldable pub case_body : TestCase F → ℕ × ℕ → Exec (Local S) ((ℕ × ℕ) × CaseResult F)
    case_body tc compile =
        if is_some spec && not (source == "")
        then on_host (host.prepare_user (key_of language) source isolation cgroup)
          >>= run_user tc compile
        else with_interactor tc compile

    -- `try` / `finally` of a case, with the descriptors open and no program yet.
    unfoldable pub judge_opened : TestCase F → ℕ × ℕ → Exec S ((ℕ × ℕ) × CaseResult F)
    judge_opened tc compile s =
        let (r, l) = case_body tc compile (record {
          host = s;
          fd_ab = true;
          fd_ba = true;
          user_program = false;
          interactor_program = false;
        }) in
        (r, cleanup host (is_some spec) l)

    abbrev pub create_user : Option LanguageSpec → Exec S (Unit {0})
    create_user none = pure tt
    create_user (some languages) = host.create_user_client languages

    -- One round of the loop: what is made before the `try` block, and the block.
    unfoldable pub judge_case : TestCase F → ℕ × ℕ → Exec S ((ℕ × ℕ) × CaseResult F)
    judge_case tc compile = do
      input ← resolve_input_ref host.storage tc
      host.make_work_dir
      host.write_input input
      host.make_fifos
      host.open_ab
      host.open_ba
      create_user spec
      host.create_interactor_client grader_spec
      judge_opened tc compile

    unfoldable pub judge_cases : ℕ × ℕ → Tally F → List (TestCase F) → Exec S ((ℕ × ℕ) × Tally F)
    judge_cases compile t [] = pure (compile, t)
    judge_cases compile t (tc ∷ tcs) = do
      judged ← judge_case tc compile
      judge_cases (judged.0) (tally t (judged.1)) tcs

  module _ {S : Type 0} (host : InteractiveHost S) where
    -- `judge`, once the interactor is known to have a source
    unfoldable pub judge_with :
        JudgeSettings
        → (submission_id source : String) → Option Language
        → Grader
        → Problem F
        → List (TestCase F)
        → Exec S (JudgeResult F)
    judge_with cfg submission_id source language grader problem tcs = do
      spec ← lift (optional_spec host.split language)
      grader_entry ← item grader.language "'language'"
      grader_language ← language_item grader_entry
      grader_spec ← lift (build_languages_config host.split grader_language "interactor")
      per_case ← points_per_case problem tcs
      judged ← λ s.
          judge_cases host (build_isolation_config (host.path_exists s) cfg)
            (build_cgroup_config cfg) grader (grader_language.key) source language spec grader_spec
            per_case problem (0, 0) start tcs s
      pure (interactive_report submission_id judged)

    unfoldable pub with_grader :
        JudgeSettings
        → Payload F
        → (source : String) → List (TestCase F)
        → Option Grader
        → Exec S (JudgeResult F)
    with_grader cfg payload source tcs none = pure (error_verdict payload.submission_id "缺少交互器源码")
    with_grader cfg payload source tcs (some grader) =
        if or_text grader.source "" == ""
        then pure (error_verdict payload.submission_id "缺少交互器源码")
        else judge_with cfg payload.submission_id source (language_of payload.language) grader
            payload.problem tcs

    unfoldable pub judge : JudgeSettings → Payload F → Exec S (JudgeResult F)
    judge cfg payload = do
      source ← item payload.source "'source'"
      tcs ← item payload.test_cases "'test_cases'"
      grader ← grader_of payload.interactor
      with_grader cfg payload source tcs grader
