-- ===== src/Judge/Interactive/Outcome.antt =====
-- The result of the INTERACTIVE mode agrees with its cases.
use mathlib.Core.List.{append-nil}
use acoj_worker.Common.{
  ℕ, String, true, false, Option, none, some, is_some, get_or, List, [], ◌∷◌, ◌++◌, all, All, map,
  ok, ◌≡◌, refl, sym, subst, ap, ◌∙◌, arith, if◌then◌else◌, ◌==◌, string_eq,
}
use acoj_worker.Common.Exec.{
  Ensures, Ensures-bind, Ensures-pure, Ensures-if, continue-eq-ok, pure, lift,
}
use acoj_worker.Judge.Float.{FloatOps}
use acoj_worker.Judge.Types.{
  Verdict, Language, Grader, Problem, TestCase, CaseResult, JudgeResult, JobStatus, Payload,
}
use acoj_worker.Judge.Settings.{JudgeSettings}
use acoj_worker.Judge.SandboxConfig.{
  IsolationConfig, CgroupConfig, build_isolation_config, build_cgroup_config,
}
use acoj_worker.Judge.Mapper.{is_ac, is_passed, first_failure, compute_overall_result, score_from}
use acoj_worker.Judge.Scoring.{error_verdict}
use acoj_worker.Judge.LanguageConfig.{LanguageSpec, or_text, build_languages_config}
use acoj_worker.Judge.Tally.{Tally, tally, start, IsAhead, start-IsAhead, next-IsAhead}
use acoj_worker.Judge.Entries.{item, language_item, Ensures-item}
use acoj_worker.Judge.Spj.Run.{points_per_case}
use acoj_worker.Judge.Interactive.Host.{InteractiveHost}
use acoj_worker.Judge.Interactive.Run.{
  grader_of, language_of, optional_spec, first_non_ac, interactive_report, judge_case, judge_cases,
  judge_with, with_grader, judge,
}
use acoj_worker.Judge.Interactive.Cases.{IsJudged, judge_case-IsJudged}

module _ {F : Type 0} ⦃fl : FloatOps F⦄ where
  -- A completed result has one case for each test case, in order; its verdict is the overall result
  -- of the cases and its score their score. Any other result is a failure with an error text and no cases.
  pub record AgreesOverall (tcs : List (TestCase F)) (r : JudgeResult F) : Type 0 where
    pub score : r.score ≡ score_from fl.zero_f r.cases
    pub verdict :
        r.status ≡ JobStatus.completed → r.result ≡ some (compute_overall_result false r.cases)
    pub numbers :
        r.status ≡ JobStatus.completed → map (λ c. c.case_no) r.cases ≡ map (λ tc. tc.case_no) tcs
    pub failed :
        r.status ≡ JobStatus.failed → (r.result ≡ none) × (r.cases ≡ []) × (is_some r.error ≡ true)

  error_verdict-AgreesOverall :
      (tcs : List (TestCase F)) (submission_id msg : String)
      → AgreesOverall tcs (error_verdict submission_id msg)
  unfolding error_verdict score_from
  error_verdict-AgreesOverall tcs submission_id msg = record {
    score = refl;
    verdict = λ e. cc;
    numbers = λ e. cc;
    failed = λ e. (refl, refl, refl);
  }

  abbrev IsRan : CaseResult F → Type 0
  IsRan c = is_passed c.result ≡ is_ac c.result

  first_non_ac-compute :
      (cs : List (CaseResult F))
      → All IsRan cs
      → (if all (λ c. is_ac c.result) cs then Verdict.ac else first_non_ac cs)
        ≡ compute_overall_result false cs
  unfolding first_non_ac compute_overall_result first_failure
  first_non_ac-compute [] h = refl
  first_non_ac-compute (c ∷ cs) (h, hs) = ground (arith, first_non_ac-compute cs hs, h)

  All-append_one :
      (cs : List (CaseResult F)) (c : CaseResult F)
      → All IsRan cs
      → IsRan c
      → All IsRan (cs ++ c ∷ [])
  All-append_one [] c h hc = (hc, tt)
  All-append_one (d ∷ cs) c (h, hs) hc = (h, All-append_one cs c hs hc)

  interactive_report-AgreesOverall :
      (tcs : List (TestCase F)) (submission_id : String) (compile : ℕ × ℕ) (t : Tally F)
      → IsAhead tcs [] t
      → All IsRan t.all_cases
      → AgreesOverall tcs (interactive_report submission_id (compile, t))
  unfolding interactive_report
  interactive_report-AgreesOverall tcs submission_id compile t h ran = record {
    score = h.tallied.score;
    verdict = λ e. ap some (
        ap (λ b. if b then Verdict.ac else first_non_ac t.all_cases) h.tallied.ac
        ∙ first_non_ac-compute t.all_cases ran);
    numbers = λ e. sym (append-nil _) ∙ h.ahead;
    failed = λ e. cc;
  }

  -- The loop variables, with what is known of the cases.
  IsLooping : (all_tcs tcs : List (TestCase F)) → (ℕ × ℕ) × Tally F → Type 0
  IsLooping all_tcs tcs judged = IsAhead all_tcs tcs judged.1 × All IsRan judged.1.all_cases

  next-IsLooping :
      (all_tcs : List (TestCase F)) (tc : TestCase F) (tcs : List (TestCase F)) (compile : ℕ × ℕ)
      (t : Tally F) (judged : (ℕ × ℕ) × CaseResult F)
      → IsJudged tc judged
      → IsLooping all_tcs (tc ∷ tcs) (compile, t)
      → IsLooping all_tcs tcs (judged.0, tally t judged.1)
  unfolding IsLooping tally
  next-IsLooping all_tcs tc tcs compile t judged (number, ran) (ahead, all_ran) = (
    next-IsAhead all_tcs tc tcs t judged.1 number ahead,
    All-append_one t.all_cases judged.1 all_ran ran,
  )

  module _ {S : Type 0} (host : InteractiveHost S) (isolation : IsolationConfig)
      (cgroup : CgroupConfig) (grader : Grader) (grader_key source : String)
      (language : Option Language) (spec : Option LanguageSpec) (grader_spec : LanguageSpec)
      (per_case : F) (problem : Problem F) where
    judge_cases-IsLooping :
        (all_tcs : List (TestCase F)) (compile : ℕ × ℕ) (t : Tally F) (tcs : List (TestCase F))
        → IsLooping all_tcs tcs (compile, t)
        → Ensures (IsLooping all_tcs []) (
            judge_cases host isolation cgroup grader grader_key source language spec grader_spec
              per_case problem compile t tcs)
    unfolding judge_cases
    judge_cases-IsLooping all_tcs compile t [] h s looped e =
        Ensures-pure (IsLooping all_tcs []) _ h s looped e
    judge_cases-IsLooping all_tcs compile t (tc ∷ tcs) h s looped e =
        let one =
          judge_case host isolation cgroup grader grader_key source language spec grader_spec
            per_case problem tc compile s in
        let (judged, done, rest) =
          continue-eq-ok one.0
            (λ judged.
              judge_cases host isolation cgroup grader grader_key source language spec grader_spec
                per_case problem (judged.0) (tally t (judged.1)) tcs)
            one.1 e in
        judge_cases-IsLooping all_tcs judged.0 (tally t judged.1) tcs
          (next-IsLooping all_tcs tc tcs compile t judged
            (judge_case-IsJudged host isolation cgroup grader grader_key source language spec
              grader_spec per_case problem tc compile s judged done)
            h)
          one.1 looped rest

  judge_with-AgreesOverall :
      {S : Type 0} (host : InteractiveHost S) (cfg : JudgeSettings) (submission_id source : String)
      (language : Option Language) (grader : Grader) (problem : Problem F) (tcs : List (TestCase F))
      → Ensures
          (AgreesOverall tcs)
          (judge_with host cfg submission_id source language grader problem tcs)
  unfolding judge_with IsLooping
  judge_with-AgreesOverall {S} host cfg submission_id source language grader problem tcs =
      let P = AgreesOverall tcs in
      Ensures-bind P (lift (optional_spec host.split language)) _ (λ spec.
        Ensures-bind P (item grader.language "'language'") _ (λ entry.
          Ensures-bind P (language_item entry) _ (λ (grader_language : Language).
            Ensures-bind P (lift (build_languages_config host.split grader_language "interactor")) _
              (λ grader_spec. Ensures-bind P (points_per_case problem tcs) _ (λ per_case s r e.
                let isolation = build_isolation_config (host.path_exists s) cfg in
                let m =
                  judge_cases host isolation (build_cgroup_config cfg) grader grader_language.key
                    source language spec grader_spec per_case problem (0, 0) start tcs s in
                let (judged, done, rest) =
                  continue-eq-ok m.0 (λ judged. pure (interactive_report submission_id judged)) m.1
                    e in
                let (ahead, ran) =
                  judge_cases-IsLooping host isolation (build_cgroup_config cfg) grader
                    grader_language.key source language spec grader_spec per_case problem tcs (0, 0)
                    start tcs (start-IsAhead tcs, tt) s judged done in
                Ensures-pure P (interactive_report submission_id judged)
                  (interactive_report-AgreesOverall tcs submission_id judged.0 judged.1 ahead ran)
                  m.1 r rest)))))

  with_grader-AgreesOverall :
      {S : Type 0} (host : InteractiveHost S) (cfg : JudgeSettings) (payload : Payload F)
      (source : String) (tcs : List (TestCase F)) (grader : Option Grader)
      → Ensures (AgreesOverall tcs) (with_grader host cfg payload source tcs grader)
  unfolding with_grader
  with_grader-AgreesOverall host cfg payload source tcs none =
      Ensures-pure (AgreesOverall tcs) _
        (error_verdict-AgreesOverall tcs payload.submission_id "缺少交互器源码")
  with_grader-AgreesOverall host cfg payload source tcs (some grader) =
      Ensures-if (AgreesOverall tcs) (or_text grader.source "" == "") _ _
        (Ensures-pure (AgreesOverall tcs) _
          (error_verdict-AgreesOverall tcs payload.submission_id "缺少交互器源码"))
        (judge_with-AgreesOverall host cfg payload.submission_id source
          (language_of payload.language) grader payload.problem tcs)

  pub judge-AgreesOverall :
      {S : Type 0} (host : InteractiveHost S) (cfg : JudgeSettings) (payload : Payload F)
      → Ensures (AgreesOverall (get_or payload.test_cases [])) (judge host cfg payload)
  unfolding judge
  judge-AgreesOverall host cfg payload =
      let P = AgreesOverall (get_or payload.test_cases []) in
      Ensures-bind P (item payload.source "'source'") _ (λ source.
        Ensures-item P payload.test_cases "'test_cases'" _ (λ tcs given.
          Ensures-bind P (grader_of payload.interactor) _ (λ found.
            subst (λ l. Ensures (AgreesOverall l) (with_grader host cfg payload source tcs found))
              (sym (ap (λ o. get_or o []) given))
              (with_grader-AgreesOverall host cfg payload source tcs found))))

  -- When the mode returns a completed result, its score is that of the cases, its verdict is AC if
  -- all cases are AC and else that of the first case that is not, and it has one case for each test
  -- case, in order.
  pub judge-completed_overall :
      {S : Type 0} (host : InteractiveHost S) (cfg : JudgeSettings) (payload : Payload F) (s : S)
      (r : JudgeResult F)
      → (judge host cfg payload s).0 ≡ ok r
      → r.status ≡ JobStatus.completed
      → (r.score ≡ score_from fl.zero_f r.cases)
        × (r.result ≡ some (compute_overall_result false r.cases))
        × (map (λ c. c.case_no) r.cases ≡ map (λ tc. tc.case_no) (get_or payload.test_cases []))
  judge-completed_overall host cfg payload s r h done =
      let agrees = judge-AgreesOverall host cfg payload s r h in
      (agrees.score, agrees.verdict done, agrees.numbers done)
