-- ===== src/Judge/Scoring/Total.antt =====
-- The score that `aggregate_batches` returns, against the cases that it returns.
use acoj_worker.Common.{
  ℕ, Bool, true, false, Option, none, some, List, [], ◌∷◌, ◌++◌, Dict, get, get_or, nat_eq,
  option_eq, ◌≡◌, refl, sym, ◌∙◌, ap, arith, All, if◌then◌else◌,
}
use acoj_worker.Judge.Float.{FloatOps, Exact}
use acoj_worker.Judge.Types.{TestCase, CaseResult}
use acoj_worker.Judge.Mapper.{is_ac, score_from, compute_score}
use acoj_worker.Judge.Scoring.{
  compute_batch_ac_status, apply_batch_dependencies, Batches, group_from, sum_points, zero_points,
  add_passed, settle, settle_all, aggregate_batches,
}
use acoj_worker.Judge.Scoring.Batches.{get-compute_batch_ac_status, cases_of-AllAc, get-group_from}

module _ {F : Type 0} ⦃fl : FloatOps F⦄ where
  pub score_from-append :
      (t : F) (xs ys : List (CaseResult F))
      → score_from t (xs ++ ys) ≡ score_from (score_from t xs) ys
  unfolding score_from
  score_from-append t [] ys = refl
  score_from-append t (x ∷ xs) ys =
      score_from-append (if is_ac x.result then fl.add t x.points else t) xs ys

  add_passed-score_from : (t : F) (cs : List (CaseResult F)) → add_passed t cs ≡ score_from t cs
  unfolding add_passed score_from
  add_passed-score_from t [] = refl
  add_passed-score_from t (c ∷ cs) =
      add_passed-score_from (if is_ac c.result then fl.add t c.points else t) cs

  sum_points-score_from :
      (t : F) (cs : List (CaseResult F))
      → All (λ c. is_ac c.result ≡ true) cs
      → score_from t cs ≡ sum_points t cs
  unfolding sum_points score_from
  sum_points-score_from t [] h = refl
  sum_points-score_from t (c ∷ cs) h = rw (h.0) (sum_points-score_from (fl.add t c.points) cs h.1)

  module _ (exact : Exact F) where
    add-sum_points :
        (t u : F) (cs : List (CaseResult F))
        → fl.add t (sum_points u cs) ≡ sum_points (fl.add t u) cs
    unfolding sum_points
    add-sum_points t u [] = refl
    add-sum_points t u (c ∷ cs) =
        add-sum_points t (fl.add u c.points) cs
        ∙ ap (λ x. sum_points x cs) (sym (exact.add_assoc t u c.points))

    score_from-zero_points : (t : F) (cs : List (CaseResult F)) → score_from t (zero_points cs) ≡ t
    unfolding score_from zero_points
    score_from-zero_points t [] = refl
    score_from-zero_points t (c ∷ cs) =
        ground (arith, exact.add-zero_f t, score_from-zero_points t cs)

    abbrev Adds : List (CaseResult F) × F → Type 0
    Adds (cases, total) = score_from fl.zero_f cases ≡ total

    settle-Adds :
        (ac : Dict ℕ Bool) (k : Option ℕ) (cs done : List (CaseResult F)) (total : F)
        → ((bn : ℕ)
            → k ≡ some bn
            → get_or (get bn ac) true ≡ true
            → All (λ c. is_ac c.result ≡ true) cs)
        → score_from fl.zero_f done ≡ total
        → Adds (settle ac k cs (done, total))
    unfolding settle
    settle-Adds ac none cs done total pass h =
        score_from-append fl.zero_f done cs ∙ rw (h) (sym (add_passed-score_from total cs))
    settle-Adds ac (some bn) cs done total pass h = ground (
      arith,
      pass bn refl,
      score_from-append fl.zero_f done cs,
      score_from-append fl.zero_f done (zero_points cs),
      score_from-zero_points total cs,
      add-sum_points total fl.zero_f cs,
      exact.add-zero_f total,
      λ (h : All (λ (c : CaseResult F). is_ac c.result ≡ true) cs).
          sum_points-score_from total cs h,
    )

    settle_all-Adds :
        (ac : Dict ℕ Bool) (batches : Batches F) (order : List (Option ℕ))
        (done : List (CaseResult F) × F)
        → ((bn : ℕ)
            → get_or (get bn ac) true ≡ true
            → All (λ c. is_ac c.result ≡ true) (get_or (get (some bn) batches) []))
        → Adds done
        → Adds (settle_all ac batches order done)
    unfolding settle_all
    settle_all-Adds ac batches [] done pass h = h
    settle_all-Adds ac batches (k ∷ order) done pass h =
        settle_all-Adds ac batches order (settle ac k (get_or (get k batches) []) done) pass (
          settle-Adds ac k (get_or (get k batches) []) done.0 done.1 (λ bn e p. rw e (pass bn p)) h)

    -- With a sum that is associative and has the neutral element 0, the score that `aggregate_batches`
    -- returns is the sum of the points of the returned cases that are AC.
    pub aggregate_batches-compute_score :
        (raw : List (CaseResult F)) (tcs : List (TestCase F))
        → (aggregate_batches raw tcs).1 ≡ compute_score false (aggregate_batches raw tcs).0
    unfolding aggregate_batches compute_score get score_from
    aggregate_batches-compute_score raw tcs =
        let applied = apply_batch_dependencies raw tcs (compute_batch_ac_status raw tcs) in
        sym (
          settle_all-Adds (compute_batch_ac_status applied tcs) (group_from [] [] applied tcs).1
            (group_from [] [] applied tcs).0 ([], fl.zero_f)
            (λ bn p. rw (get-group_from (some bn) [] [] applied tcs) (
              cases_of-AllAc bn applied tcs (rw (get-compute_batch_ac_status bn applied tcs) at p)))
            refl)
