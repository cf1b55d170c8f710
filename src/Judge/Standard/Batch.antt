-- ===== src/Judge/Standard/Batch.antt =====
-- app/modules/judge/modes/standard.py: from the sandbox's batch result to the report.
use acoj_worker.Common.{
  ℕ, ◌+◌, String, Bool, true, false, not, ◌&&◌, ◌||◌, Option, none, some, List, [], ◌∷◌, ◌++◌, ◌/◌,
  ltb, length, drop, any, get_or, truthy_nat, nat_eq, string_eq, ◌==◌, if◌then◌else◌, key_error,
  Result, ok, raise,
}
use acoj_worker.Judge.Float.{FloatOps}
use acoj_worker.Judge.Types.{Status, Verdict, Problem, TestCase, CaseResult, JudgeResult, JobStatus}
use acoj_worker.Judge.Mapper.{is_ac, to_oj_result, compute_overall_result, score_from}
use acoj_worker.Judge.Metrics.{
  is_ok, run_metrics_from_cases, compile_metrics_from_process, reported_run_time_ms,
}
use acoj_worker.Judge.Checker.{Bytes, outputs_match}
use acoj_worker.Judge.Scoring.{aggregate_batches}
use acoj_worker.Common.{Text}
use acoj_worker.Judge.Standard.Host.{CaseRun, BatchResult}

-- The verdict of one case; `matched` is the answer of `outputs_match`.
unfoldable pub case_verdict : Status → Bool → Verdict
case_verdict status matched =
    if is_ok status && matched
    then Verdict.ac
    else (if not (is_ok status) then to_oj_result status else Verdict.wa)

module _ {F : Type 0} ⦃fl : FloatOps F⦄ where
  -- _skipped_result
  unfoldable pub skipped_result : ℕ → CaseResult F
  skipped_result case_no = record {
    case_no = case_no;
    result = Verdict.skipped;
    time_ms = 0;
    memory_kb = 0;
    points = fl.zero_f;
    stdout_preview = "";
    stderr_preview = "";
  }

  -- `int(tc_meta.get("case_no") or (i + 1))`, where `tc_meta` is the i-th test case or empty
  abbrev pub meta_no : ℕ → List (TestCase F) → ℕ
  meta_no i [] = i + 1
  meta_no i (tc ∷ tcs) = if tc.case_no == 0 then i + 1 else tc.case_no

  -- `tc_meta.get("points", 0)`
  abbrev pub meta_points : List (TestCase F) → F
  meta_points [] = fl.zero_f
  meta_points (tc ∷ tcs) = get_or tc.points fl.zero_f

  module _ (decode : Bytes → Text) (file_at : String → Option Bytes) where
    unfoldable pub case_result : ℕ → List (TestCase F) → CaseRun → CaseResult F
    unfolding case_verdict
    case_result i tcs run = record {
      case_no = meta_no i tcs;
      result =
          case_verdict run.status
            (outputs_match decode file_at run.actual_output run.expected_output);
      time_ms = reported_run_time_ms (some run.run);
      memory_kb = run.run.memory_bytes / 1024;
      points = meta_points tcs;
      stdout_preview = run.actual_output.preview_text;
      stderr_preview = run.stderr.preview_text;
    }

    -- The loop over `batch_result.cases`, from the i-th case on, with `test_cases_data[i:]`: the
    -- results, and `had_failure` at the end.
    unfoldable pub judge_cases :
        (stop had_failure : Bool)
        → ℕ
        → List (TestCase F)
        → List CaseRun
        → List (CaseResult F) × Bool
    judge_cases stop had_failure i tcs [] = ([], had_failure)
    judge_cases stop had_failure i tcs (run ∷ runs) =
        let skipping = stop && had_failure in
        let c = if skipping then skipped_result (meta_no i tcs) else case_result i tcs run in
        let failed = if skipping then had_failure else (had_failure || not (is_ac c.result)) in
        let (cs, had) = judge_cases stop failed (i + 1) (drop 1 tcs) runs in (c ∷ cs, had)

  -- `for j in range(len(raw_case_results), len(test_cases_data))`
  unfoldable pub skip_rest : ℕ → List (TestCase F) → List (CaseResult F)
  skip_rest j [] = []
  skip_rest j (tc ∷ tcs) = skipped_result (meta_no j (tc ∷ tcs)) ∷ skip_rest (j + 1) tcs

  unfoldable pub pad_skipped :
      (stop had_failure : Bool) → List (CaseResult F) → List (TestCase F) → List (CaseResult F)
  unfolding skip_rest
  pad_skipped stop had_failure raw tcs =
      if stop && (had_failure && ltb (length raw) (length tcs))
      then raw ++ skip_rest (length raw) (drop (length raw) tcs)
      else raw

  unfoldable pub has_batch : List (TestCase F) → Bool
  has_batch tcs = any (λ tc. truthy_nat tc.batch_no) tcs

  -- `case_results` and `score`
  unfoldable pub score_cases :
      (has_batch has_ce : Bool) → List (CaseResult F) → List (TestCase F) → List (CaseResult F) × F
  score_cases has_batch has_ce raw tcs =
      if has_batch
      then aggregate_batches raw tcs
      else (raw, if has_ce then fl.zero_f else score_from fl.zero_f raw)

  -- `problem["points"]` is read only if there was no compile error.
  unfoldable pub overall_result :
      (has_ce : Bool) → F → Option F → List (CaseResult F) → Result Verdict
  overall_result true score points cases = ok Verdict.ce
  overall_result false score none cases = raise (key_error "'points'")
  overall_result false score (some points) cases =
      ok (if fl.ge score points then Verdict.ac else compute_overall_result false cases)

  -- The report once all cases have their results.
  unfoldable pub report :
      (submission_id : String)
      → (has_batch : Bool) → Problem F
      → List (TestCase F)
      → List (CaseResult F)
      → BatchResult
      → Result (JudgeResult F)
  report submission_id has_batch problem tcs raw batch =
      let has_ce = not (is_ok batch.compile.status) in
      let (case_results, score) = score_cases has_batch has_ce raw tcs in
      elim (overall_result has_ce score problem.points case_results) [
        | raise x ↦ raise x
        | ok overall ↦ ok (record {
          submission_id = submission_id;
          status = JobStatus.completed;
          result = some overall;
          score = score;
          time_ms = (run_metrics_from_cases case_results).0;
          memory_kb = (run_metrics_from_cases case_results).1;
          compile_time_ms = (compile_metrics_from_process (some batch.compile)).0;
          compile_memory_kb = (compile_metrics_from_process (some batch.compile)).1;
          compile_output =
              some (if batch.message == "" then batch.compile.message else batch.message);
          compile_error = has_ce;
          cases = case_results;
          error = none;
          wall_time_ms = none;
        })
      ]
