-- ===== src/Judge/Orchestrator/Failing.antt =====
-- The three modes behind the dispatcher: what a failed job reports.
use acoj_worker.Common.{
  ℕ, ◌-◌, arith, Result-cases, inl, inr, String, Bool, true, false, none, is_some, List, [], ◌∷◌,
  ok, raise, Result, ◌≡◌, refl, get_or, ◌==◌, string_eq, not, ◌&&◌,
}
use acoj_worker.Common.Exec.{
  Ensures, Ensures-if, Ensures-bind, Ensures-pure, Ensures-finally, pure, lift, ◌>>=◌, try_finally,
}
use acoj_worker.Judge.Float.{FloatOps}
use acoj_worker.Judge.Types.{Language, Problem, TestCase, Payload, JudgeResult, JobStatus}
use acoj_worker.Judge.Settings.{JudgeSettings}
use acoj_worker.Judge.Scoring.{error_verdict}
use acoj_worker.Judge.LanguageConfig.{LanguageSpec, build_languages_config}
use acoj_worker.Judge.DataLoader.{JudgeCase, build_judge_cases}
use acoj_worker.Judge.Entries.{item, language_item}
use acoj_worker.Judge.Standard.Host.{BatchResult, Host}
use acoj_worker.Judge.Standard.Batch.{
  judge_cases, pad_skipped, has_batch, score_cases, overall_result, report,
}
use acoj_worker.Judge.Metrics.{is_ok}
use acoj_worker.Judge.Standard.Run.{
  run_request, judge_batch, with_client, judge_payload, judge as judge_standard,
}
use acoj_worker.Judge.Spj.Host.{SpjHost}
use acoj_worker.Judge.Spj.Run.{judge as judge_spj}
use acoj_worker.Judge.Spj.Outcome.{judge-Agrees}
use acoj_worker.Judge.Interactive.Host.{InteractiveHost}
use acoj_worker.Judge.Interactive.Run.{judge as judge_interactive}
use acoj_worker.Judge.Interactive.Outcome.{judge-AgreesOverall}
use acoj_worker.Judge.Orchestrator.{ModeRegistry, mode_of, build_failed_result, outcome_of, judge}

module _ {F : Type 0} ⦃fl : FloatOps F⦄ where
  -- A failed result has an error text and neither a verdict nor cases.
  abbrev pub FailsClean : JudgeResult F → Type 0
  FailsClean r =
      r.status ≡ JobStatus.failed → (r.result ≡ none) × (r.cases ≡ []) × (is_some r.error ≡ true)

  -- MODE_REGISTRY with the three modes of the repository.
  unfoldable pub registry :
      {S : Type 0} → Host S → SpjHost S → InteractiveHost S → JudgeSettings → ModeRegistry F S
  registry host spj interactive cfg = record {
    standard = judge_standard host cfg;
    special_judge = judge_spj spj cfg;
    interactive = judge_interactive interactive cfg;
  }

  module _ {S : Type 0} (host : Host S) where
    judge_batch-FailsClean :
        (submission_id : String) (problem : Problem F) (tcs : List (TestCase F)) (stop : Bool)
        (batch : BatchResult)
        → Ensures FailsClean (judge_batch host submission_id problem tcs stop batch)
    unfolding judge_batch report
    judge_batch-FailsClean submission_id problem tcs stop batch s r e failed =
        let (raw, had_failure) =
          judge_cases host.decode (host.file_at s) stop false 0 tcs batch.cases in
        let padded = pad_skipped stop had_failure raw tcs in
        let has_ce = not (is_ok batch.compile.status) in
        let scored = score_cases (has_batch tcs) has_ce padded tcs in
        elim (Result-cases (overall_result has_ce scored.1 problem.points scored.0)) [
          | inl (v, e') ↦ absurd (ground arith)
          | inr (x, e') ↦ absurd (ground arith)
        ]

    with_client-FailsClean :
        (cfg : JudgeSettings) (submission_id source : String) (language : Language)
        (spec : LanguageSpec) (problem : Problem F) (tcs : List (TestCase F))
        (cases : List JudgeCase)
        → Ensures FailsClean
            (with_client host cfg submission_id source language spec problem tcs cases)
    unfolding with_client
    with_client-FailsClean cfg submission_id source language spec problem tcs cases =
        let stop = not (get_or problem.partial false) && not (has_batch tcs) in
        let run =
          λ (s : S). host.run_cases (run_request host cfg language.key source cases stop s) s in
        let judged = λ (batch : BatchResult).
          try_finally (judge_batch host submission_id problem tcs stop batch) host.close_batch in
        Ensures-bind FailsClean (host.create_client spec) _ (λ _.
          Ensures-finally FailsClean (run >>= judged) host.close_client (
            Ensures-bind FailsClean run judged (λ batch.
              Ensures-finally FailsClean (judge_batch host submission_id problem tcs stop batch)
                host.close_batch (judge_batch-FailsClean submission_id problem tcs stop batch))))

    error_verdict-FailsClean :
        (submission_id msg : String) → FailsClean (error_verdict submission_id msg)
    unfolding error_verdict
    error_verdict-FailsClean submission_id msg failed = (refl, refl, refl)

    judge_payload-FailsClean :
        (cfg : JudgeSettings) (submission_id source : String) (language : Language)
        (problem : Problem F) (tcs : List (TestCase F))
        → Ensures FailsClean (judge_payload host cfg submission_id source language problem tcs)
    unfolding judge_payload
    judge_payload-FailsClean cfg submission_id source language problem tcs =
        Ensures-bind FailsClean (lift (build_languages_config host.split language "main")) _
          (λ spec. Ensures-bind FailsClean (build_judge_cases host.storage tcs problem) _ (λ cases.
            elim cases
              as (λ cs. Ensures FailsClean (elim cs [
                | [] ↦ pure (error_verdict submission_id "没有测试点数据")
                | c ∷ cs' ↦
                    with_client host cfg submission_id source language spec problem tcs (c ∷ cs')
              ])) [
                | [] ↦ Ensures-pure FailsClean _ (error_verdict-FailsClean submission_id "没有测试点数据")
                | c ∷ cs ↦
                    with_client-FailsClean cfg submission_id source language spec problem tcs
                      (c ∷ cs)
              ]))

    judge_standard-FailsClean :
        (cfg : JudgeSettings) (payload : Payload F)
        → Ensures FailsClean (judge_standard host cfg payload)
    unfolding judge_standard
    judge_standard-FailsClean cfg payload =
        Ensures-bind FailsClean (item payload.language "'language'") _ (λ entry.
          Ensures-bind FailsClean (item payload.source "'source'") _ (λ source.
            Ensures-bind FailsClean (item payload.test_cases "'test_cases'") _ (λ tcs.
              Ensures-bind FailsClean (language_item entry) _ (λ language.
                judge_payload-FailsClean cfg payload.submission_id source language payload.problem
                  tcs))))

  outcome_of-FailsClean :
      (payload : Payload F) (elapsed_ms : ℕ) (r : Result (JudgeResult F))
      → ((judged : JudgeResult F) → r ≡ ok judged → FailsClean judged)
      → FailsClean (outcome_of payload elapsed_ms r)
  unfolding outcome_of build_failed_result
  outcome_of-FailsClean payload elapsed_ms (ok judged) h failed = h judged refl failed
  outcome_of-FailsClean payload elapsed_ms (raise exc) h failed = (refl, refl, refl)

  mode_of-FailsClean :
      {S : Type 0} (host : Host S) (spj : SpjHost S) (interactive : InteractiveHost S)
      (cfg : JudgeSettings) (judge_mode : String) (payload : Payload F)
      → Ensures FailsClean (mode_of (registry host spj interactive cfg) judge_mode payload)
  unfolding mode_of registry
  mode_of-FailsClean host spj interactive cfg judge_mode payload =
      Ensures-if FailsClean (judge_mode == "SPECIAL_JUDGE") _ _
        (λ s r e failed. (judge-Agrees spj cfg payload s r e).failed failed)
        (Ensures-if FailsClean (judge_mode == "INTERACTIVE") _ _
          (λ s r e failed. (judge-AgreesOverall interactive cfg payload s r e).failed failed)
          (judge_standard-FailsClean host cfg payload))

  pub judge-FailsClean :
      {S : Type 0} (host : Host S) (spj : SpjHost S) (interactive : InteractiveHost S)
      (cfg : JudgeSettings) (clock : S → ℕ) (payload : Payload F) (s : S)
      → FailsClean (judge (registry host spj interactive cfg) clock payload s).0
  unfolding judge
  judge-FailsClean host spj interactive cfg clock payload s failed =
      let mode = get_or payload.judge_mode "STANDARD" in
      let run = mode_of (registry host spj interactive cfg) mode payload s in
      outcome_of-FailsClean payload (clock run.1 - clock s) run.0
        (λ judged e. mode_of-FailsClean host spj interactive cfg mode payload s judged e) failed
