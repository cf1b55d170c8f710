-- ===== src/Judge/Scoring/Reference.antt =====
-- A reference for `aggregate_batches` with no dictionaries: each batch is looked up in the cases.
use mathlib.Core.List.{append_assoc, append-nil}
use acoj_worker.Common.{
  ℕ, not, ◌&&◌, Option, none, some, List, [], ◌∷◌, ◌++◌, get, put, get_or, any, is_some, nat_eq,
  option_eq, ◌==◌, ◌≡◌, refl, ◌∙◌, arith, if◌then◌else◌,
}
use acoj_worker.Judge.Float.{FloatOps}
use acoj_worker.Judge.Types.{TestCase, CaseResult}
use acoj_worker.Judge.Scoring.{
  compute_batch_ac_status, depends, skip, apply_batch_dependencies, Batches, group_from,
  zero_points, settle, settle_all, aggregate_batches,
}
use acoj_worker.Judge.Scoring.Batches.{
  batch_passed, cases_of, get-compute_batch_ac_status, get-group_from, apply_to_case-compute,
}

module _ {F : Type 0} where
  -- The batch numbers of the judged cases, each at its first place.
  unfoldable pub first_seen :
      List (Option ℕ) → List (CaseResult F) → List (TestCase F) → List (Option ℕ)
  first_seen seen (cr ∷ crs) (tc ∷ tcs) =
      first_seen (if any (λ k. k == tc.batch_no) seen then seen else seen ++ tc.batch_no ∷ []) crs
        tcs
  first_seen seen _ _ = seen

  group_from-first_seen :
      (seen : List (Option ℕ)) (batches : Batches F) (crs : List (CaseResult F))
      (tcs : List (TestCase F))
      → (group_from seen batches crs tcs).0 ≡ first_seen seen crs tcs
  unfolding group_from first_seen
  group_from-first_seen seen batches [] tcs = refl
  group_from-first_seen seen batches (cr ∷ crs) [] = refl
  group_from-first_seen seen batches (cr ∷ crs) (tc ∷ tcs) =
      group_from-first_seen
        (if any (λ k. k == tc.batch_no) seen then seen else seen ++ tc.batch_no ∷ [])
        (put tc.batch_no (get_or (get tc.batch_no batches) [] ++ cr ∷ []) batches) crs tcs

module _ {F : Type 0} ⦃fl : FloatOps F⦄ where
  -- A case of a batch that names a failed batch is skipped.
  unfoldable pub skipped_from :
      (all_crs : List (CaseResult F)) (all_tcs : List (TestCase F))
      → List (CaseResult F)
      → List (TestCase F)
      → List (CaseResult F)
  skipped_from all_crs all_tcs (cr ∷ crs) (tc ∷ tcs) =
      (if is_some tc.batch_no && any (λ d. not (batch_passed d all_crs all_tcs)) (depends tc)
        then skip cr
        else cr)
      ∷ skipped_from all_crs all_tcs crs tcs
  skipped_from all_crs all_tcs crs _ = crs

  -- What one batch returns: its cases, and no points if one of them is not AC.
  unfoldable pub settled : List (CaseResult F) → List (TestCase F) → Option ℕ → List (CaseResult F)
  settled crs tcs none = cases_of none crs tcs
  settled crs tcs (some bn) =
      if batch_passed bn crs tcs
      then cases_of (some bn) crs tcs
      else zero_points (cases_of (some bn) crs tcs)

  unfoldable pub settled_all :
      List (CaseResult F) → List (TestCase F) → List (Option ℕ) → List (CaseResult F)
  settled_all crs tcs [] = []
  settled_all crs tcs (k ∷ order) = settled crs tcs k ++ settled_all crs tcs order

  apply-skipped_from :
      (all_crs : List (CaseResult F)) (all_tcs : List (TestCase F)) (crs : List (CaseResult F))
      (tcs : List (TestCase F))
      → apply_batch_dependencies crs tcs (compute_batch_ac_status all_crs all_tcs)
        ≡ skipped_from all_crs all_tcs crs tcs
  unfolding apply_batch_dependencies skipped_from
  apply-skipped_from all_crs all_tcs [] tcs = refl
  apply-skipped_from all_crs all_tcs (cr ∷ crs) [] = refl
  apply-skipped_from all_crs all_tcs (cr ∷ crs) (tc ∷ tcs) =
      rw (apply_to_case-compute all_crs all_tcs tc cr, apply-skipped_from all_crs all_tcs crs tcs)

  settle-settled :
      (crs : List (CaseResult F)) (tcs : List (TestCase F)) (k : Option ℕ)
      (done : List (CaseResult F) × F)
      → (settle (compute_batch_ac_status crs tcs) k (cases_of k crs tcs) done).0
        ≡ done.0 ++ settled crs tcs k
  unfolding settle settled
  settle-settled crs tcs none done = refl
  settle-settled crs tcs (some bn) done = ground (arith, get-compute_batch_ac_status bn crs tcs)

  settle_all-settled :
      (crs : List (CaseResult F)) (tcs : List (TestCase F)) (batches : Batches F)
      (order : List (Option ℕ)) (done : List (CaseResult F) × F)
      → ((k : Option ℕ) → get_or (get k batches) [] ≡ cases_of k crs tcs)
      → (settle_all (compute_batch_ac_status crs tcs) batches order done).0
        ≡ done.0 ++ settled_all crs tcs order
  unfolding settle_all settled_all
  settle_all-settled crs tcs batches [] done h = rw append-nil
  settle_all-settled crs tcs batches (k ∷ order) done h =
      settle_all-settled crs tcs batches order
        (settle (compute_batch_ac_status crs tcs) k (get_or (get k batches) []) done) h
      ∙ rw (h k, settle-settled crs tcs k done, append_assoc)

  -- The returned cases are those of the reference: the cases are skipped by their dependencies, then
  -- grouped by batch in the order of first appearance, and the cases of a failed batch lose their points.
  pub aggregate_batches-settled_all :
      (raw : List (CaseResult F)) (tcs : List (TestCase F))
      → (aggregate_batches raw tcs).0
        ≡ settled_all
            (skipped_from raw tcs raw tcs)
            tcs
            (first_seen [] (skipped_from raw tcs raw tcs) tcs)
  unfolding aggregate_batches get
  aggregate_batches-settled_all raw tcs =
      let applied = skipped_from raw tcs raw tcs in
      rw (
        apply-skipped_from raw tcs raw tcs,
        settle_all-settled applied tcs (group_from [] [] applied tcs).1
            (group_from [] [] applied tcs).0 ([], fl.zero_f)
            (λ k. get-group_from k [] [] applied tcs),
        group_from-first_seen,
      )
