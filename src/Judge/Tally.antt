-- ===== src/Judge/Tally.antt =====
-- The three variables that the loops of spj.py and interactive.py carry from case to case:
-- `all_cases`, `all_ac` and `total_score`.
use mathlib.Core.List.{append_assoc, map-append}
use acoj_worker.Common.{
  Bool, true, false, List, [], ◌∷◌, ◌++◌, all, map, if◌then◌else◌, ◌≡◌, refl, arith,
}
use acoj_worker.Judge.Float.{FloatOps}
use acoj_worker.Judge.Types.{TestCase, CaseResult}
use acoj_worker.Judge.Mapper.{is_ac, score_from}
use acoj_worker.Judge.Scoring.Total.{score_from-append}

pub record Tally (F : Type 0) : Type 0 where
  pub all_cases : List (CaseResult F)
  pub all_ac : Bool
  pub total_score : F

module _ {F : Type 0} ⦃fl : FloatOps F⦄ where
  abbrev pub start : Tally F
  start = record { all_cases = []; all_ac = true; total_score = fl.zero_f }

  -- The end of a round: the points count, or `all_ac` falls, and the result is appended.
  unfoldable pub tally : Tally F → CaseResult F → Tally F
  tally t c = record {
    all_cases = t.all_cases ++ c ∷ [];
    all_ac = if is_ac c.result then t.all_ac else false;
    total_score = if is_ac c.result then fl.add t.total_score c.points else t.total_score;
  }

  -- The variables agree with the list of results.
  pub record IsTallied (t : Tally F) : Type 0 where
    pub ac : t.all_ac ≡ all (λ c. is_ac c.result) t.all_cases
    pub score : t.total_score ≡ score_from fl.zero_f t.all_cases

  pub start-IsTallied : IsTallied start
  unfolding score_from
  start-IsTallied = record { ac = refl; score = refl }

  all-append_one :
      (cs : List (CaseResult F)) (c : CaseResult F)
      → all (λ x. is_ac x.result) (cs ++ c ∷ [])
        ≡ (if is_ac c.result then all (λ x. is_ac x.result) cs else false)
  all-append_one [] c = ground arith
  all-append_one (d ∷ cs) c = ground (arith, all-append_one cs c)

  pub tally-IsTallied : (t : Tally F) (c : CaseResult F) → IsTallied t → IsTallied (tally t c)
  unfolding tally score_from
  tally-IsTallied t c h = record {
    ac = ground (arith, all-append_one t.all_cases c, h.ac);
    score = ground (arith, score_from-append fl.zero_f t.all_cases (c ∷ []), h.score);
  }

  -- The results so far, and the test cases to come.
  pub record IsAhead (all_tcs tcs : List (TestCase F)) (t : Tally F) : Type 0 where
    pub tallied : IsTallied t
    pub ahead :
        map (λ c. c.case_no) t.all_cases ++ map (λ tc. tc.case_no) tcs
        ≡ map (λ tc. tc.case_no) all_tcs

  pub start-IsAhead : (tcs : List (TestCase F)) → IsAhead tcs tcs start
  start-IsAhead tcs = record { tallied = start-IsTallied; ahead = refl }

  pub next-IsAhead :
      (all_tcs : List (TestCase F)) (tc : TestCase F) (tcs : List (TestCase F)) (t : Tally F)
      (c : CaseResult F)
      → c.case_no ≡ tc.case_no
      → IsAhead all_tcs (tc ∷ tcs) t
      → IsAhead all_tcs tcs (tally t c)
  unfolding tally
  next-IsAhead all_tcs tc tcs t c e h = record {
    tallied = tally-IsTallied t c h.tallied;
    ahead =
        rw (map-append (λ (x : CaseResult F). x.case_no) t.all_cases (c ∷ []), append_assoc, e)
          h.ahead;
  }
