-- ===== src/Judge/Standard/Verdict.antt =====
-- The verdict and the score of a report.
use acoj_worker.Common.{
  String, Bool, true, false, not, ◌&&◌, Option, none, some, List, All, Result-cases, ok, ◌≡◌, ◌↔◌,
  ◌⊎◌, inl, inr, refl, subst, arith,
}
use acoj_worker.Judge.Float.{FloatOps, Exact}
use acoj_worker.Judge.Types.{Verdict, Problem, TestCase, CaseResult, JudgeResult}
use acoj_worker.Judge.Mapper.{is_passed, compute_score}
use acoj_worker.Judge.Mapper.Overall.{compute_overall_result-ac_iff}
use acoj_worker.Judge.Metrics.{is_ok}
use acoj_worker.Judge.Scoring.Total.{aggregate_batches-compute_score}
use acoj_worker.Judge.Standard.Host.{BatchResult}
use acoj_worker.Judge.Standard.Batch.{score_cases, overall_result, report}

module _ {F : Type 0} ⦃fl : FloatOps F⦄ where
  score_cases-compute_score :
      (exact : Exact F) (has_batch has_ce : Bool) (raw : List (CaseResult F))
      (tcs : List (TestCase F))
      → (score_cases has_batch has_ce raw tcs).1
        ≡ compute_score (has_ce && not has_batch) (score_cases has_batch has_ce raw tcs).0
  unfolding score_cases compute_score
  score_cases-compute_score exact true true raw tcs = aggregate_batches-compute_score exact raw tcs
  score_cases-compute_score exact true false raw tcs = aggregate_batches-compute_score exact raw tcs
  score_cases-compute_score exact false true raw tcs = refl
  score_cases-compute_score exact false false raw tcs = refl

  overall_result_lem :
      (has_ce : Bool) (score : F) (points : Option F) (cases : List (CaseResult F)) (v : Verdict)
      → overall_result has_ce score points cases ≡ ok v
      → (has_ce ≡ true → some v ≡ some Verdict.ce)
        × (has_ce ≡ false
            → (p : F) × (points ≡ some p)
              × ((some v ≡ some Verdict.ac)
                  ↔ ((fl.ge score p ≡ true) ⊎ All (λ c. is_passed c.result ≡ true) cases)))
  unfolding overall_result
  overall_result_lem true score points cases v h = (λ e. ground arith, λ e. cc)
  overall_result_lem false score none cases v h = cc
  overall_result_lem false score (some p) cases v h =
      (λ e. cc, λ e. (p, refl, ground (arith, compute_overall_result-ac_iff cases)))

  -- What `report` returns, field by field, if it returns.
  report-ok :
      (submission_id : String) (has_batch : Bool) (problem : Problem F) (tcs : List (TestCase F))
      (raw : List (CaseResult F)) (batch : BatchResult) {r : JudgeResult F}
      → report submission_id has_batch problem tcs raw batch ≡ ok r
      → let has_ce = not (is_ok batch.compile.status) in
        let scored = score_cases has_batch has_ce raw tcs in
        (verdict : Verdict) × (overall_result has_ce scored.1 problem.points scored.0 ≡ ok verdict)
        × (r.result ≡ some verdict)
        × (r.score ≡ scored.1)
        × (r.cases ≡ scored.0)
        × (r.compile_error ≡ has_ce)
  unfolding report
  report-ok submission_id has_batch problem tcs raw batch h =
      let has_ce = not (is_ok batch.compile.status) in
      let scored = score_cases has_batch has_ce raw tcs in
      elim (Result-cases (overall_result has_ce scored.1 problem.points scored.0)) [
        | inl (v, e) ↦ (v, e, ground arith, ground arith, ground arith, ground arith)
        | inr (x, e) ↦ absurd (ground arith)
      ]

  module _ (exact : Exact F) (submission_id : String) (has_batch : Bool) (problem : Problem F)
      (tcs : List (TestCase F)) (raw : List (CaseResult F)) (batch : BatchResult)
      {r : JudgeResult F} (h : report submission_id has_batch problem tcs raw batch ≡ ok r) where
    -- The score is the sum over the returned cases that are AC; with a compile error and no
    -- batches it is zero.
    pub report-score : r.score ≡ compute_score (r.compile_error && not has_batch) r.cases
    report-score =
        let (v, e, result, score, cases, ce) =
          report-ok submission_id has_batch problem tcs raw batch h in
        rw (score, cases, ce)
          (score_cases-compute_score exact has_batch (not (is_ok batch.compile.status)) raw tcs)

  module _ (submission_id : String) (has_batch : Bool) (problem : Problem F)
      (tcs : List (TestCase F)) (raw : List (CaseResult F)) (batch : BatchResult)
      {r : JudgeResult F} (h : report submission_id has_batch problem tcs raw batch ≡ ok r) where
    -- A compile error gives CE. Else the problem has points, and the verdict is AC exactly when
    -- the score reaches them or each case is AC or skipped.
    pub report-result :
        (r.compile_error ≡ true → r.result ≡ some Verdict.ce)
        × (r.compile_error ≡ false
            → (points : F) × (problem.points ≡ some points)
              × ((r.result ≡ some Verdict.ac)
                  ↔ ((fl.ge r.score points ≡ true) ⊎ All (λ c. is_passed c.result ≡ true) r.cases)))
    report-result =
        let (v, e, result, score, cases, ce) =
          report-ok submission_id has_batch problem tcs raw batch h in
        let same : overall_result r.compile_error r.score problem.points r.cases ≡ ok v =
          rw (ce, score, cases) e in
        rw result (overall_result_lem r.compile_error r.score problem.points r.cases v same)

  -- Without a compile error, a report of a problem with points has the verdict AC exactly when the
  -- score reaches the points or each returned case is AC or skipped.
  pub report-ac_iff :
      (submission_id : String) (has_batch : Bool) (problem : Problem F) (tcs : List (TestCase F))
      (raw : List (CaseResult F)) (batch : BatchResult) (r : JudgeResult F) (points : F)
      → report submission_id has_batch problem tcs raw batch ≡ ok r
      → r.compile_error ≡ false
      → problem.points ≡ some points
      → (r.result ≡ some Verdict.ac)
        ↔ ((fl.ge r.score points ≡ true) ⊎ All (λ c. is_passed c.result ≡ true) r.cases)
  report-ac_iff submission_id has_batch problem tcs raw batch r points h no_ce given =
      let (p, e, iff) = (report-result submission_id has_batch problem tcs raw batch h).1 no_ce in
      let same : p ≡ points = cc in
      subst
        (λ x.
          (r.result ≡ some Verdict.ac)
          ↔ ((fl.ge r.score x ≡ true) ⊎ All (λ c. is_passed c.result ≡ true) r.cases))
        same iff
