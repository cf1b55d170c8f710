-- ===== src/Judge/Mapper.antt =====
-- app/modules/judge/result_mapper.py
pub mod Overall
use acoj_worker.Common.{Bool, true, false, List, [], ◌∷◌, if◌then◌else◌}
use acoj_worker.Judge.Float.{FloatOps}
use acoj_worker.Judge.Types.{Status, Verdict, CaseResult}

-- SANDBOX_TO_OJ_RESULT.get(status, "IE")
unfoldable pub to_oj_result : Status → Verdict
to_oj_result Status.ac = Verdict.ac
to_oj_result Status.ce = Verdict.ce
to_oj_result Status.re = Verdict.re
to_oj_result Status.tle = Verdict.tle
to_oj_result Status.mle = Verdict.mle
to_oj_result Status.ole = Verdict.ole
to_oj_result Status.se = Verdict.se
to_oj_result Status.ie = Verdict.ie
to_oj_result (Status.unlisted n) = Verdict.ie

-- `result == "AC"`
abbrev pub is_ac : Verdict → Bool
is_ac Verdict.ac = true
is_ac _ = false

-- `result in ("AC", "SKIPPED")`
abbrev pub is_passed : Verdict → Bool
is_passed Verdict.ac = true
is_passed Verdict.skipped = true
is_passed _ = false

module _ {F : Type 0} where
  unfoldable pub first_failure : List (CaseResult F) → Verdict
  first_failure [] = Verdict.ac
  first_failure (c ∷ cs) = if is_passed c.result then first_failure cs else c.result

  unfoldable pub compute_overall_result : Bool → List (CaseResult F) → Verdict
  unfolding first_failure
  compute_overall_result has_compile_error cases =
      if has_compile_error then Verdict.ce else first_failure cases

module _ {F : Type 0} ⦃fl : FloatOps F⦄ where
  -- `total += points` over the cases that are AC.
  unfoldable pub score_from : F → List (CaseResult F) → F
  score_from total [] = total
  score_from total (c ∷ cs) =
      score_from (if is_ac c.result then fl.add total c.points else total) cs

  unfoldable pub compute_score : Bool → List (CaseResult F) → F
  unfolding score_from
  compute_score has_compile_error cases =
      if has_compile_error then fl.zero_f else score_from fl.zero_f cases
