-- ===== src/Tests/Scoring.antt =====
-- Runs of scoring.py and result_mapper.py.
use mathlib.Core.List.{Perm}
use acoj_worker.Common.{
  ℕ, true, false, some, List, [], ◌∷◌, map, length, take, All, ◌≡◌, ◌↔◌, refl, get, put, nat_eq,
  option_eq,
}
use acoj_worker.Judge.Types.{Verdict, TestCase, CaseResult}
use acoj_worker.Judge.Mapper.{is_passed, compute_score, compute_overall_result}
use acoj_worker.Judge.Mapper.Overall.{compute_overall_result-ac_iff}
use acoj_worker.Judge.Scoring.{
  compute_batch_ac_status, skip_if_failed, apply_to_case, apply_batch_dependencies, group_from,
  settle, settle_all, aggregate_batches,
}
use acoj_worker.Judge.Scoring.Total.{aggregate_batches-compute_score}
use acoj_worker.Judge.Scoring.Cover.{numbers-aggregate_batches}
use acoj_worker.Judge.Scoring.Reference.{
  first_seen, skipped_from, settled_all, aggregate_batches-settled_all,
}
use acoj_worker.Tests.Samples.{
  whole_points, whole_points-Exact, case_of, result_of, two_batches, one_wrong,
}

program : Unit {0}
unfolding get put compute_batch_ac_status skip_if_failed apply_to_case apply_batch_dependencies
    group_from settle settle_all aggregate_batches compute_score
program = tt

-- The first batch fails, so the second is skipped; only the case with no batch scores.
aggregate_two_batches : aggregate_batches one_wrong two_batches ≡ (
  result_of 1 Verdict.ac 0
      ∷ result_of 3 Verdict.wa 0
      ∷ result_of 2 Verdict.skipped 0
      ∷ result_of 4 Verdict.ac 10
      ∷ [],
  10,
)
unfolding program
aggregate_two_batches = refl

-- A batch that depends on a batch that is itself skipped keeps its points.
abbrev chain : List (TestCase ℕ)
chain = case_of 1 (some 1) [] ∷ case_of 2 (some 2) (1 ∷ []) ∷ case_of 3 (some 3) (2 ∷ []) ∷ []

abbrev chain_results : List (CaseResult ℕ)
chain_results =
    result_of 1 Verdict.wa 10 ∷ result_of 2 Verdict.ac 10 ∷ result_of 3 Verdict.ac 10 ∷ []

aggregate_chain : aggregate_batches chain_results chain ≡ (
  result_of 1 Verdict.wa 0 ∷ result_of 2 Verdict.skipped 0 ∷ result_of 3 Verdict.ac 10 ∷ [],
  10,
)
unfolding program
aggregate_chain = refl

aggregate_batches-compute_score_example :
    (aggregate_batches one_wrong two_batches).1
    ≡ compute_score false (aggregate_batches one_wrong two_batches).0
aggregate_batches-compute_score_example =
    aggregate_batches-compute_score whole_points-Exact one_wrong two_batches

numbers-aggregate_batches_example :
    Perm
      (map (λ c. c.case_no) (aggregate_batches one_wrong two_batches).0)
      (map (λ c. c.case_no) (take (length two_batches) one_wrong))
numbers-aggregate_batches_example = numbers-aggregate_batches one_wrong two_batches

aggregate_batches-settled_all_example :
    (aggregate_batches one_wrong two_batches).0
    ≡ settled_all
        (skipped_from one_wrong two_batches one_wrong two_batches)
        two_batches
        (first_seen [] (skipped_from one_wrong two_batches one_wrong two_batches) two_batches)
aggregate_batches-settled_all_example = aggregate_batches-settled_all one_wrong two_batches

compute_overall_result-ac_iff_example :
    (compute_overall_result false one_wrong ≡ Verdict.ac)
    ↔ All (λ c. is_passed c.result ≡ true) one_wrong
compute_overall_result-ac_iff_example = compute_overall_result-ac_iff one_wrong
