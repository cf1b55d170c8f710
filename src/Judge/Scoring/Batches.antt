-- ===== src/Judge/Scoring/Batches.antt =====
-- What the dictionaries of scoring.py hold, told without them.
use acoj_worker.Common.{
  ℕ, Bool, true, not, ◌&&◌, Option, none, some, List, [], ◌∷◌, ◌++◌, Dict, get, put, get-put,
  get_or, any, is_some, nat_eq, option_eq, ◌==◌, if◌then◌else◌, ◌≡◌, refl, arith, All, nat_beq_iff,
  option_beq_iff, Bool-cases, inl, inr,
}
use mathlib.Core.List.{append_assoc, append-nil}
use acoj_worker.Judge.Float.{FloatOps}
use acoj_worker.Judge.Types.{TestCase, CaseResult}
use acoj_worker.Judge.Mapper.{is_ac}
use acoj_worker.Judge.Scoring.{
  note_batch, batch_ac_from, compute_batch_ac_status, depends, is_failed, Batches, group_from, skip,
  skip_if_failed, apply_to_case,
}

module _ {F : Type 0} where
  -- Every case of the batch is AC.
  unfoldable pub batch_passed : ℕ → List (CaseResult F) → List (TestCase F) → Bool
  batch_passed bn (cr ∷ crs) (tc ∷ tcs) =
      let rest = batch_passed bn crs tcs in
      if tc.batch_no == some bn then is_ac cr.result && rest else rest
  batch_passed bn _ _ = true

  -- The results of the cases of one batch, in order.
  unfoldable pub cases_of : Option ℕ → List (CaseResult F) → List (TestCase F) → List (CaseResult F)
  cases_of k (cr ∷ crs) (tc ∷ tcs) =
      let rest = cases_of k crs tcs in if tc.batch_no == k then cr ∷ rest else rest
  cases_of k _ _ = []

  get-note_batch :
      (bn : ℕ) (ac : Dict ℕ Bool) (k : Option ℕ) (cr : CaseResult F)
      → get_or (get bn (note_batch ac k cr)) true
        ≡ (get_or (get bn ac) true && (if k == some bn then is_ac cr.result else true))
  get-note_batch bn ac none cr = ground arith
  get-note_batch bn ac (some j) cr =
      ground (arith, get-put j bn (get_or (get j ac) true && is_ac cr.result) ac, nat_beq_iff j bn)

  pub get-batch_ac_from :
      (bn : ℕ) (ac : Dict ℕ Bool) (crs : List (CaseResult F)) (tcs : List (TestCase F))
      → get_or (get bn (batch_ac_from ac crs tcs)) true
        ≡ (get_or (get bn ac) true && batch_passed bn crs tcs)
  unfolding batch_ac_from batch_passed
  get-batch_ac_from bn ac [] tcs = ground arith
  get-batch_ac_from bn ac (cr ∷ crs) [] = ground arith
  get-batch_ac_from bn ac (cr ∷ crs) (tc ∷ tcs) = ground (
    arith,
    get-batch_ac_from bn (note_batch ac tc.batch_no cr) crs tcs,
    get-note_batch bn ac tc.batch_no cr,
  )

  -- The status of a batch in `batch_ac`, a batch with no case counting as passed.
  pub get-compute_batch_ac_status :
      (bn : ℕ) (crs : List (CaseResult F)) (tcs : List (TestCase F))
      → get_or (get bn (compute_batch_ac_status crs tcs)) true ≡ batch_passed bn crs tcs
  unfolding compute_batch_ac_status get
  get-compute_batch_ac_status bn crs tcs = get-batch_ac_from bn [] crs tcs

  pub is_failed-compute :
      (bn : ℕ) (crs : List (CaseResult F)) (tcs : List (TestCase F))
      → is_failed (compute_batch_ac_status crs tcs) bn ≡ not (batch_passed bn crs tcs)
  is_failed-compute bn crs tcs = ground (arith, get-compute_batch_ac_status bn crs tcs)

  pub cases_of-AllAc :
      (bn : ℕ) (crs : List (CaseResult F)) (tcs : List (TestCase F))
      → batch_passed bn crs tcs ≡ true
      → All (λ c. is_ac c.result ≡ true) (cases_of (some bn) crs tcs)
  unfolding batch_passed cases_of
  cases_of-AllAc bn [] tcs h = tt
  cases_of-AllAc bn (cr ∷ crs) [] h = tt
  cases_of-AllAc bn (cr ∷ crs) (tc ∷ tcs) h = elim (Bool-cases (tc.batch_no == some bn)) [
    | inl e ↦ rw e (ground arith, cases_of-AllAc bn crs tcs (ground arith))
    | inr e ↦ rw e (cases_of-AllAc bn crs tcs (ground arith))
  ]

  pub get-group_from :
      (k : Option ℕ) (order : List (Option ℕ)) (batches : Batches F) (crs : List (CaseResult F))
      (tcs : List (TestCase F))
      → get_or (get k (group_from order batches crs tcs).1) []
        ≡ get_or (get k batches) [] ++ cases_of k crs tcs
  unfolding group_from cases_of
  get-group_from k order batches [] tcs = rw append-nil
  get-group_from k order batches (cr ∷ crs) [] = rw append-nil
  get-group_from k order batches (cr ∷ crs) (tc ∷ tcs) = ground (
    arith,
    get-group_from k
        (if any (λ seen. seen == tc.batch_no) order then order else order ++ tc.batch_no ∷ [])
        (put tc.batch_no (get_or (get tc.batch_no batches) [] ++ cr ∷ []) batches) crs tcs,
    get-put tc.batch_no k (get_or (get tc.batch_no batches) [] ++ cr ∷ []) batches,
    option_beq_iff tc.batch_no k,
    append_assoc (get_or (get tc.batch_no batches) []) (cr ∷ []) (cases_of k crs tcs),
  )

module _ {F : Type 0} ⦃fl : FloatOps F⦄ where
  pub skip_if_failed_lem :
      (ac : Dict ℕ Bool) (deps : List ℕ) (cr : CaseResult F)
      → skip_if_failed ac deps cr ≡ (if any (is_failed ac) deps then skip cr else cr)
  unfolding skip_if_failed
  skip_if_failed_lem ac [] cr = refl
  skip_if_failed_lem ac (dep ∷ deps) cr =
      ground (arith, skip_if_failed_lem ac deps cr, skip_if_failed_lem ac deps (skip cr))

  any-is_failed :
      (deps : List ℕ) (crs : List (CaseResult F)) (tcs : List (TestCase F))
      → any (is_failed (compute_batch_ac_status crs tcs)) deps
        ≡ any (λ d. not (batch_passed d crs tcs)) deps
  any-is_failed [] crs tcs = refl
  any-is_failed (d ∷ deps) crs tcs = rw (is_failed-compute d crs tcs, any-is_failed deps crs tcs)

  -- A case of a batch is skipped, with no points, exactly when one of the batches that it names
  -- has a case that is not AC; any other case stays as it is.
  pub apply_to_case-compute :
      (crs : List (CaseResult F)) (tcs : List (TestCase F)) (tc : TestCase F) (cr : CaseResult F)
      → apply_to_case (compute_batch_ac_status crs tcs) tc cr ≡ (
          if is_some tc.batch_no && any (λ d. not (batch_passed d crs tcs)) (depends tc)
          then skip cr
          else cr)
  unfolding apply_to_case
  apply_to_case-compute crs tcs tc cr = ground (
    arith,
    skip_if_failed_lem (compute_batch_ac_status crs tcs) (depends tc) cr,
    any-is_failed (depends tc) crs tcs,
  )
