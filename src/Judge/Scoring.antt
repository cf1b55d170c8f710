-- ===== src/Judge/Scoring.antt =====
-- app/modules/judge/scoring.py: IOI batches. The dictionaries of the source are association lists
-- in insertion order; its `seen` set holds what `batch_order` holds.
pub mod Batches
pub mod Total
pub mod Cover
pub mod Reference
use acoj_worker.Common.{
  ℕ, String, Bool, true, false, not, ◌&&◌, Option, none, some, List, [], ◌∷◌, ◌++◌, Dict, get, put,
  get_or, any, nat_eq, option_eq, ◌==◌, if◌then◌else◌,
}
use acoj_worker.Judge.Float.{FloatOps}
use acoj_worker.Judge.Types.{Verdict, TestCase, CaseResult, JudgeResult, JobStatus}
use acoj_worker.Judge.Mapper.{is_ac}

module _ {F : Type 0} where
  -- The body of the loop of `_compute_batch_ac_status`.
  abbrev pub note_batch : Dict ℕ Bool → Option ℕ → CaseResult F → Dict ℕ Bool
  note_batch batch_ac none cr = batch_ac
  note_batch batch_ac (some bn) cr =
      put bn (get_or (get bn batch_ac) true && is_ac cr.result) batch_ac

  unfoldable pub batch_ac_from : Dict ℕ Bool → List (CaseResult F) → List (TestCase F) → Dict ℕ Bool
  batch_ac_from batch_ac (cr ∷ crs) (tc ∷ tcs) =
      batch_ac_from (note_batch batch_ac tc.batch_no cr) crs tcs
  batch_ac_from batch_ac _ _ = batch_ac

  unfoldable pub compute_batch_ac_status : List (CaseResult F) → List (TestCase F) → Dict ℕ Bool
  unfolding batch_ac_from
  compute_batch_ac_status crs tcs = batch_ac_from [] crs tcs

  -- `tc.get("batch_depends") or tc.get("batch_dependencies") or []`
  abbrev pub depends : TestCase F → List ℕ
  depends tc = elim (tc.batch_depends) [ [] ↦ tc.batch_dependencies | d ∷ ds ↦ d ∷ ds ]

-- `dep in batch_ac and not batch_ac[dep]`
abbrev pub is_failed : Dict ℕ Bool → ℕ → Bool
is_failed batch_ac dep = elim (get dep batch_ac) [ none ↦ false | some passed ↦ not passed ]

abbrev pub Batches : Type 0 → Type 0
Batches F = Dict (Option ℕ) (List (CaseResult F))

module _ {F : Type 0} where
  -- The loop of phase 4 that fills `batch_order` and `batches`.
  unfoldable pub group_from :
      List (Option ℕ)
      → Batches F
      → List (CaseResult F)
      → List (TestCase F)
      → List (Option ℕ) × Batches F
  group_from batch_order batches (cr ∷ crs) (tc ∷ tcs) =
      group_from
        (if any (λ seen. seen == tc.batch_no) batch_order
          then batch_order
          else batch_order ++ tc.batch_no ∷ [])
        (put tc.batch_no (get_or (get tc.batch_no batches) [] ++ cr ∷ []) batches) crs tcs
  group_from batch_order batches _ _ = (batch_order, batches)

module _ {F : Type 0} ⦃fl : FloatOps F⦄ where
  abbrev pub skip : CaseResult F → CaseResult F
  skip cr = record cr { result = Verdict.skipped; points = fl.zero_f }

  -- `for dep in deps`
  unfoldable pub skip_if_failed : Dict ℕ Bool → List ℕ → CaseResult F → CaseResult F
  skip_if_failed batch_ac [] cr = cr
  skip_if_failed batch_ac (dep ∷ deps) cr =
      skip_if_failed batch_ac deps (if is_failed batch_ac dep then skip cr else cr)

  unfoldable pub apply_to_case : Dict ℕ Bool → TestCase F → CaseResult F → CaseResult F
  apply_to_case batch_ac tc cr = elim (tc.batch_no) [
    | none ↦ cr
    | some bn ↦ skip_if_failed batch_ac (depends tc) cr
  ]

  -- `_apply_batch_dependencies` writes into the results; here it returns them.
  unfoldable pub apply_batch_dependencies :
      List (CaseResult F) → List (TestCase F) → Dict ℕ Bool → List (CaseResult F)
  apply_batch_dependencies (cr ∷ crs) (tc ∷ tcs) batch_ac =
      apply_to_case batch_ac tc cr ∷ apply_batch_dependencies crs tcs batch_ac
  apply_batch_dependencies crs _ batch_ac = crs

  -- `sum(c["points"] for c in cases)`, from a start
  unfoldable pub sum_points : F → List (CaseResult F) → F
  sum_points total [] = total
  sum_points total (c ∷ cs) = sum_points (fl.add total c.points) cs

  -- `c_adj["points"] = 0.0`
  unfoldable pub zero_points : List (CaseResult F) → List (CaseResult F)
  zero_points [] = []
  zero_points (c ∷ cs) = record c { points = fl.zero_f } ∷ zero_points cs

  -- The cases with no batch: the points of those that are AC.
  unfoldable pub add_passed : F → List (CaseResult F) → F
  add_passed total [] = total
  add_passed total (c ∷ cs) =
      add_passed (if is_ac c.result then fl.add total c.points else total) cs

  -- One round of `for bn in batch_order`.
  unfoldable pub settle :
      Dict ℕ Bool
      → Option ℕ
      → List (CaseResult F)
      → List (CaseResult F) × F
      → List (CaseResult F) × F
  unfolding sum_points zero_points add_passed
  settle batch_ac none cases (case_results, total) = (case_results ++ cases, add_passed total cases)
  settle batch_ac (some bn) cases (case_results, total) =
      if get_or (get bn batch_ac) true
      then (case_results ++ cases, fl.add total (sum_points fl.zero_f cases))
      else (case_results ++ zero_points cases, total)

  unfoldable pub settle_all :
      Dict ℕ Bool → Batches F → List (Option ℕ) → List (CaseResult F) × F → List (CaseResult F) × F
  settle_all batch_ac batches [] done = done
  settle_all batch_ac batches (bn ∷ order) done =
      settle_all batch_ac batches order (settle batch_ac bn (get_or (get bn batches) []) done)

  unfoldable pub aggregate_batches :
      List (CaseResult F) → List (TestCase F) → List (CaseResult F) × F
  aggregate_batches raw tcs =
      let applied = apply_batch_dependencies raw tcs (compute_batch_ac_status raw tcs) in
      let batch_ac = compute_batch_ac_status applied tcs in
      let (batch_order, batches) = group_from [] [] applied tcs in
      settle_all batch_ac batches batch_order ([], fl.zero_f)

  unfoldable pub error_verdict : String → String → JudgeResult F
  error_verdict submission_id msg = record {
    submission_id = submission_id;
    status = JobStatus.failed;
    result = none;
    score = fl.zero_f;
    time_ms = 0;
    memory_kb = 0;
    compile_time_ms = 0;
    compile_memory_kb = 0;
    compile_output = some msg;
    compile_error = false;
    cases = [];
    error = some msg;
    wall_time_ms = none;
  }
