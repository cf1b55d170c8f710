-- ===== src/Judge/Mapper/Overall.antt =====
-- Which verdict the cases add up to.
use acoj_worker.Common.{true, false, List, [], ◌∷◌, All, ◌≡◌, ◌↔◌, refl, arith}
use acoj_worker.Judge.Types.{Verdict, CaseResult}
use acoj_worker.Judge.Mapper.{is_passed, first_failure, compute_overall_result}

module _ {F : Type 0} where
  first_failure-ac :
      (cs : List (CaseResult F))
      → (first_failure cs ≡ Verdict.ac) ↔ All (λ c. is_passed c.result ≡ true) cs
  unfolding first_failure
  first_failure-ac [] = (λ h. tt, λ h. refl)
  first_failure-ac (c ∷ cs) = ground (arith, first_failure-ac cs)

  -- Without a compile error, the overall result is AC exactly when each case is AC or skipped.
  pub compute_overall_result-ac_iff :
      (cs : List (CaseResult F))
      → (compute_overall_result false cs ≡ Verdict.ac) ↔ All (λ c. is_passed c.result ≡ true) cs
  unfolding compute_overall_result
  compute_overall_result-ac_iff cs = first_failure-ac cs
