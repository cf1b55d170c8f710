-- ===== src/Judge/Spj/Outcome.antt =====
-- The result of the SPECIAL_JUDGE mode agrees with its cases.
use mathlib.Core.List.{append-nil}
use acoj_worker.Common.{
  ℕ, String, true, not, none, some, List, [], ◌∷◌, all, map, ok, ok-injective, ◌≡◌, refl, subst,
  ◌∙◌, ap, sym, if◌then◌else◌, get_or, is_some, string_eq, ◌==◌,
}
use acoj_worker.Common.Exec.{
  Ensures, Ensures-bind, Ensures-pure, Ensures-if, Ensures-finally, continue-eq-ok, pure, lift,
}
use acoj_worker.Judge.Float.{FloatOps}
use acoj_worker.Judge.Types.{
  Verdict, Language, Problem, TestCase, CaseResult, JudgeResult, JobStatus, Payload,
}
use acoj_worker.Judge.Settings.{JudgeSettings}
use acoj_worker.Judge.SandboxConfig.{
  IsolationConfig, CgroupConfig, build_isolation_config, build_cgroup_config,
}
use acoj_worker.Judge.Metrics.{compile_metrics_from_process}
use acoj_worker.Judge.Mapper.{is_ac, score_from}
use acoj_worker.Judge.Scoring.{error_verdict}
use acoj_worker.Judge.LanguageConfig.{or_text, build_languages_config}
use acoj_worker.Judge.CaseBuilder.{build_judge_limits}
use acoj_worker.Judge.DataLoader.{resolve_input_ref, resolve_output_ref}
use acoj_worker.Judge.Tally.{Tally, tally, start, IsAhead, start-IsAhead, next-IsAhead}
use acoj_worker.Judge.Entries.{item, language_item, Ensures-item}
use acoj_worker.Judge.Spj.Host.{SpjHost, Program}
use acoj_worker.Judge.Spj.Run.{
  checker_compile_limits, grader_source, points_per_case, spj_case, spj_report, judge_case,
  judge_cases, with_compiled_checker, with_checker, with_compiled_program, with_program,
  with_clients, judge,
}

module _ {F : Type 0} ⦃fl : FloatOps F⦄ where
  -- A completed result has one case for each test case, in order, and its verdict and score are
  -- those of the cases. Any other result is a failure with an error text, no cases and no points.
  pub record Agrees (tcs : List (TestCase F)) (r : JudgeResult F) : Type 0 where
    pub score : r.score ≡ score_from fl.zero_f r.cases
    pub verdict :
        r.status ≡ JobStatus.completed
        → r.result ≡ some (if all (λ c. is_ac c.result) r.cases then Verdict.ac else Verdict.wa)
    pub numbers :
        r.status ≡ JobStatus.completed → map (λ c. c.case_no) r.cases ≡ map (λ tc. tc.case_no) tcs
    pub failed :
        r.status ≡ JobStatus.failed → (r.result ≡ none) × (r.cases ≡ []) × (is_some r.error ≡ true)

  error_verdict-Agrees :
      (tcs : List (TestCase F)) (submission_id msg : String)
      → Agrees tcs (error_verdict submission_id msg)
  unfolding error_verdict score_from
  error_verdict-Agrees tcs submission_id msg = record {
    score = refl;
    verdict = λ e. cc;
    numbers = λ e. cc;
    failed = λ e. (refl, refl, refl);
  }

  spj_report-Agrees :
      (tcs : List (TestCase F)) (submission_id : String) (compile : ℕ × ℕ) (t : Tally F)
      → IsAhead tcs [] t
      → Agrees tcs (spj_report submission_id compile t)
  unfolding spj_report
  spj_report-Agrees tcs submission_id compile t h = record {
    score = h.tallied.score;
    verdict = λ e. ap (λ b. some (if b then Verdict.ac else Verdict.wa)) h.tallied.ac;
    numbers = λ e. sym (append-nil _) ∙ h.ahead;
    failed = λ e. cc;
  }

  module _ {S : Type 0} (host : SpjHost S) (isolation : IsolationConfig)
      (cgroup : CgroupConfig) where
    judge_case-number :
        (spj_source : String) (per_case : F) (problem : Problem F) (tc : TestCase F)
        → Ensures
            (λ c. c.case_no ≡ tc.case_no)
            (judge_case host isolation cgroup spj_source per_case problem tc)
    unfolding judge_case spj_case
    judge_case-number spj_source per_case problem tc =
        Ensures-bind _ (resolve_input_ref host.storage tc) _ (λ input.
          Ensures-bind _ (resolve_output_ref host.storage tc) _ (λ expected.
            Ensures-bind _ (host.run input (build_judge_limits tc problem) isolation cgroup) _
              (λ user.
                let check = λ (s : S).
                  host.run_checker spj_source input (host.storage.from_path s user.stdout_path)
                    (get_or expected (host.storage.from_data "")) isolation cgroup s in
                Ensures-bind _ check _
                  (λ accepted s c h. sym (ap (λ (x : CaseResult F). x.case_no) (ok-injective h))))))

    judge_cases-IsAhead :
        (spj_source : String) (per_case : F) (problem : Problem F) (all_tcs : List (TestCase F))
        (t : Tally F) (tcs : List (TestCase F))
        → IsAhead all_tcs tcs t
        → Ensures
            (IsAhead all_tcs [])
            (judge_cases host isolation cgroup spj_source per_case problem t tcs)
    unfolding judge_cases
    judge_cases-IsAhead spj_source per_case problem all_tcs t [] h s t' e =
        Ensures-pure (IsAhead all_tcs []) t h s t' e
    judge_cases-IsAhead spj_source per_case problem all_tcs t (tc ∷ tcs) h s t' e =
        let one = judge_case host isolation cgroup spj_source per_case problem tc in
        let (c, done, rest) =
          continue-eq-ok (one s).0
            (λ c. judge_cases host isolation cgroup spj_source per_case problem (tally t c) tcs)
            (one s).1 e in
        judge_cases-IsAhead spj_source per_case problem all_tcs (tally t c) tcs
          (next-IsAhead all_tcs tc tcs t c
            (judge_case-number spj_source per_case problem tc s c done) h)
          (one s).1 t' rest

    module _ (submission_id spj_source : String) (problem : Problem F)
        (tcs : List (TestCase F)) where
      with_compiled_checker-Agrees :
          (compile : ℕ × ℕ) (checker : Program)
          → Ensures (Agrees tcs) (
              with_compiled_checker host isolation cgroup submission_id spj_source compile problem
                tcs checker)
      unfolding with_compiled_checker
      with_compiled_checker-Agrees compile checker =
          Ensures-if (Agrees tcs) (not checker.compiled) _ _
            (Ensures-pure (Agrees tcs) _ (error_verdict-Agrees tcs submission_id _))
            (Ensures-bind (Agrees tcs) (points_per_case problem tcs) _ (λ per_case s r e.
              let m = judge_cases host isolation cgroup spj_source per_case problem start tcs in
              let (t, done, rest) =
                continue-eq-ok (m s).0 (λ t. pure (spj_report submission_id compile t)) (m s).1 e in
              Ensures-pure (Agrees tcs) (spj_report submission_id compile t)
                (spj_report-Agrees tcs submission_id compile t (
                  judge_cases-IsAhead spj_source per_case problem tcs start tcs (start-IsAhead tcs)
                    s t done))
                (m s).1 r rest))

      with_checker-Agrees :
          (compile : ℕ × ℕ)
          → Ensures
              (Agrees tcs)
              (with_checker host isolation cgroup submission_id spj_source compile problem tcs)
      unfolding with_checker
      with_checker-Agrees compile =
          Ensures-bind (Agrees tcs)
            (host.prepare_checker spj_source checker_compile_limits isolation cgroup) _
            (λ checker.
              Ensures-finally (Agrees tcs)
                (with_compiled_checker host isolation cgroup submission_id spj_source compile
                  problem tcs checker)
                host.close_checker (with_compiled_checker-Agrees compile checker))

      with_compiled_program-Agrees :
          (program : Program)
          → Ensures (Agrees tcs) (
              with_compiled_program host isolation cgroup submission_id spj_source problem tcs
                program)
      unfolding with_compiled_program
      with_compiled_program-Agrees program =
          Ensures-if (Agrees tcs) (not program.compiled) _ _
            (Ensures-pure (Agrees tcs) _ (error_verdict-Agrees tcs submission_id _))
            (with_checker-Agrees (compile_metrics_from_process (some program.compile)))

      with_program-Agrees :
          (key source : String)
          → Ensures
              (Agrees tcs)
              (with_program host isolation cgroup submission_id key source spj_source problem tcs)
      unfolding with_program
      with_program-Agrees key source =
          Ensures-bind (Agrees tcs) (host.prepare_program key source isolation cgroup) _ (λ program.
            Ensures-finally (Agrees tcs)
              (with_compiled_program host isolation cgroup submission_id spj_source problem tcs
                program)
              host.close_program (with_compiled_program-Agrees program))

  with_clients-Agrees :
      {S : Type 0} (host : SpjHost S) (cfg : JudgeSettings)
      (submission_id source spj_source : String) (language : Language) (problem : Problem F)
      (tcs : List (TestCase F))
      → Ensures
          (Agrees tcs)
          (with_clients host cfg submission_id source spj_source language problem tcs)
  unfolding with_clients
  with_clients-Agrees {S} host cfg submission_id source spj_source language problem tcs =
      let body = λ (s : S).
        with_program host (build_isolation_config (host.path_exists s) cfg)
          (build_cgroup_config cfg) submission_id language.key source spj_source problem tcs s in
      Ensures-bind (Agrees tcs) (lift (build_languages_config host.split language "main")) _
        (λ spec. Ensures-bind (Agrees tcs) (host.create_client spec) _ (λ _.
          Ensures-bind (Agrees tcs) host.create_checker_client _ (λ _.
            Ensures-finally (Agrees tcs) body (λ s. host.close_checker_client (host.close_client s))
              (λ s.
                with_program-Agrees host (build_isolation_config (host.path_exists s) cfg)
                  (build_cgroup_config cfg) submission_id spj_source problem tcs language.key source
                  s))))

  pub judge-Agrees :
      {S : Type 0} (host : SpjHost S) (cfg : JudgeSettings) (payload : Payload F)
      → Ensures (Agrees (get_or payload.test_cases [])) (judge host cfg payload)
  unfolding judge
  judge-Agrees host cfg payload =
      let P = Agrees (get_or payload.test_cases []) in
      Ensures-bind P (item payload.language "'language'") _ (λ entry.
        Ensures-bind P (item payload.source "'source'") _ (λ source.
          Ensures-item P payload.test_cases "'test_cases'" _ (λ tcs given.
            Ensures-bind P (grader_source payload.spj) _ (λ spj_source.
              Ensures-if P (or_text spj_source "" == "") _ _
                (Ensures-pure P _ (error_verdict-Agrees _ payload.submission_id _))
                (Ensures-bind P (language_item entry) _ (λ language.
                  subst
                    (λ l. Ensures (Agrees l) (
                      with_clients host cfg payload.submission_id source (or_text spj_source "")
                        language payload.problem tcs))
                    (sym (ap (λ o. get_or o []) given))
                    (with_clients-Agrees host cfg payload.submission_id source
                      (or_text spj_source "") language payload.problem tcs)))))))

  -- When the mode returns a completed result, its score is that of the cases, its verdict is AC if
  -- all cases are AC and WA if not, and it has one case for each test case, in order.
  pub judge-completed :
      {S : Type 0} (host : SpjHost S) (cfg : JudgeSettings) (payload : Payload F) (s : S)
      (r : JudgeResult F)
      → (judge host cfg payload s).0 ≡ ok r
      → r.status ≡ JobStatus.completed
      → (r.score ≡ score_from fl.zero_f r.cases)
        × (r.result ≡ some (if all (λ c. is_ac c.result) r.cases then Verdict.ac else Verdict.wa))
        × (map (λ c. c.case_no) r.cases ≡ map (λ tc. tc.case_no) (get_or payload.test_cases []))
  judge-completed host cfg payload s r h done =
      let agrees = judge-Agrees host cfg payload s r h in
      (agrees.score, agrees.verdict done, agrees.numbers done)
