-- ===== src/Judge/Standard/Stopping.antt =====
-- ACM mode: the first failure ends the judging.
use acoj_worker.Common.{
  ℕ, suc, ◌+◌, ◌≤◌, String, Bool, true, false, not, ◌&&◌, Option, List, [], ◌∷◌, ◌++◌, drop, length,
  length-append, length-drop, ltb, if◌then◌else◌, ◌≡◌, refl, arith, ap, all, All, All-append, Text,
  Bool-cases, inl, inr,
}
use acoj_worker.Judge.Float.{FloatOps}
use acoj_worker.Judge.Types.{Verdict, TestCase, CaseResult}
use acoj_worker.Judge.Mapper.{is_ac}
use acoj_worker.Judge.Checker.{Bytes}
use acoj_worker.Judge.Standard.Host.{CaseRun}
use acoj_worker.Judge.Standard.Batch.{
  skipped_result, case_result, judge_cases, skip_rest, pad_skipped,
}

module _ {F : Type 0} where
  abbrev pub IsSkipped : CaseResult F → Type 0
  IsSkipped c = c.result ≡ Verdict.skipped

  -- Cases that are AC, then at most one that is not, and then only skipped ones.
  abbrev pub StopsAtFailure : List (CaseResult F) → Type 0
  StopsAtFailure [] = Unit
  StopsAtFailure (c ∷ cs) = if is_ac c.result then StopsAtFailure cs else All IsSkipped cs

module _ {F : Type 0} ⦃fl : FloatOps F⦄ (decode : Bytes → Text)
    (file_at : String → Option Bytes) where
  judge_cases-after_failure :
      (i : ℕ) (tcs : List (TestCase F)) (runs : List CaseRun)
      → All IsSkipped (judge_cases decode file_at true true i tcs runs).0
        × ((judge_cases decode file_at true true i tcs runs).1 ≡ true)
  unfolding judge_cases skipped_result
  judge_cases-after_failure i tcs [] = (tt, refl)
  judge_cases-after_failure i tcs (run ∷ runs) =
      let (skipped, had) = judge_cases-after_failure (i + 1) (drop 1 tcs) runs in
      ((refl, skipped), had)

  judge_cases-StopsAtFailure :
      (i : ℕ) (tcs : List (TestCase F)) (runs : List CaseRun)
      → StopsAtFailure (judge_cases decode file_at true false i tcs runs).0
        × ((judge_cases decode file_at true false i tcs runs).1
            ≡ not (all (λ c. is_ac c.result) (judge_cases decode file_at true false i tcs runs).0))
  unfolding judge_cases
  judge_cases-StopsAtFailure i tcs [] = (tt, refl)
  judge_cases-StopsAtFailure i tcs (run ∷ runs) =
      elim (Bool-cases (is_ac (case_result decode file_at i tcs run).result)) [
        | inl e ↦ rw (e) (judge_cases-StopsAtFailure (i + 1) (drop 1 tcs) runs)
        | inr e ↦ rw e (judge_cases-after_failure (i + 1) (drop 1 tcs) runs)
      ]

  length-judge_cases :
      (stop : Bool) (runs : List CaseRun) (had : Bool) (i : ℕ) (tcs : List (TestCase F))
      → length (judge_cases decode file_at stop had i tcs runs).0 ≡ length runs
  unfolding judge_cases
  length-judge_cases stop [] had i tcs = refl
  length-judge_cases stop (run ∷ runs) had i tcs =
      ap suc (length-judge_cases stop runs _ (i + 1) (drop 1 tcs))

module _ {F : Type 0} ⦃fl : FloatOps F⦄ where
  skip_rest-IsSkipped : (j : ℕ) (tcs : List (TestCase F)) → All IsSkipped (skip_rest j tcs)
  unfolding skip_rest skipped_result
  skip_rest-IsSkipped j [] = tt
  skip_rest-IsSkipped j (tc ∷ tcs) = (refl, skip_rest-IsSkipped (j + 1) tcs)

  length-skip_rest : (j : ℕ) (tcs : List (TestCase F)) → length (skip_rest j tcs) ≡ length tcs
  unfolding skip_rest
  length-skip_rest j [] = refl
  length-skip_rest j (tc ∷ tcs) = ap suc (length-skip_rest (j + 1) tcs)

  StopsAtFailure-append :
      (cs ds : List (CaseResult F))
      → StopsAtFailure cs
      → all (λ c. is_ac c.result) cs ≡ false
      → All IsSkipped ds
      → StopsAtFailure (cs ++ ds)
  StopsAtFailure-append [] ds h failed skipped = cc
  StopsAtFailure-append (c ∷ cs) ds h failed skipped = elim (Bool-cases (is_ac c.result)) [
    | inl e ↦ rw e (StopsAtFailure-append cs ds (rw e at h) (rw e at failed) skipped)
    | inr e ↦ rw e (All-append IsSkipped cs ds (rw e at h) skipped)
  ]

  pad_skipped-both :
      (decode : Bytes → Text) (file_at : String → Option Bytes) (tcs : List (TestCase F))
      (runs : List CaseRun)
      → let judged = judge_cases decode file_at true false 0 tcs runs in
        let results = pad_skipped true judged.1 judged.0 tcs in
        StopsAtFailure results
        × (length runs ≤ length tcs → judged.1 ≡ true → length results ≡ length tcs)
  unfolding pad_skipped
  pad_skipped-both decode file_at tcs runs =
      let judged = judge_cases decode file_at true false 0 tcs runs in
      let (stops, had) = judge_cases-StopsAtFailure decode file_at 0 tcs runs in
      let len = length-judge_cases decode file_at true runs false 0 tcs in
      let n = length judged.0 in
      elim (Bool-cases (judged.1 && ltb n (length tcs))) [
        | inl e ↦ rw e (
          StopsAtFailure-append judged.0 (skip_rest n (drop n tcs)) stops (ground arith)
              (skip_rest-IsSkipped n (drop n tcs)),
          λ fits d. omega (
            arith,
            length-append judged.0 (skip_rest n (drop n tcs)),
            length-skip_rest n (drop n tcs),
            length-drop n tcs,
            len,
          ),
        )
        | inr e ↦ rw e (stops, λ fits d. ground (arith, len))
      ]

  -- In ACM mode the results are AC up to the first that is not, and skipped behind it, whatever the
  -- sandbox returns for the cases.
  pub pad_skipped-StopsAtFailure :
      (decode : Bytes → Text) (file_at : String → Option Bytes) (tcs : List (TestCase F))
      (runs : List CaseRun)
      → let (judged, had_failure) = judge_cases decode file_at true false 0 tcs runs in
        StopsAtFailure (pad_skipped true had_failure judged tcs)
  pad_skipped-StopsAtFailure decode file_at tcs runs = (pad_skipped-both decode file_at tcs runs).0

  -- In ACM mode, when the sandbox returns no more runs than there are test cases and a case fails,
  -- there is a result for each test case.
  pub length-pad_skipped :
      (decode : Bytes → Text) (file_at : String → Option Bytes) (tcs : List (TestCase F))
      (runs : List CaseRun)
      → length runs ≤ length tcs
      → (judge_cases decode file_at true false 0 tcs runs).1 ≡ true
      → length (pad_skipped true true (judge_cases decode file_at true false 0 tcs runs).0 tcs)
        ≡ length tcs
  length-pad_skipped decode file_at tcs runs fits failed =
      rw failed at ((pad_skipped-both decode file_at tcs runs).1 fits failed)
