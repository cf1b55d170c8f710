-- ===== src/Judge/Scoring/Cover.antt =====
-- Every case that is judged comes back from `aggregate_batches`, once.
use mathlib.Core.List.{Perm, append_assoc, append-nil, perm_middle, map-append}
use mathlib.Core.List.Perm
use acoj_worker.Common.{
  ℕ, zero, suc, Bool, true, false, Option, none, some, List, [], ◌∷◌, ◌++◌, map, Dict, get, put,
  get-put, get_or, any, length, take, nat_eq, option_eq, option_beq_iff, ==-refl, ◌==◌, ◌≡◌, refl,
  ap, arith, Bool-cases, inl, inr, if◌then◌else◌,
}
use acoj_worker.Judge.Float.{FloatOps}
use acoj_worker.Judge.Types.{TestCase, CaseResult}
use acoj_worker.Judge.Scoring.Batches.{skip_if_failed_lem}
use acoj_worker.Judge.Scoring.{
  compute_batch_ac_status, depends, apply_to_case, apply_batch_dependencies, Batches, group_from,
  zero_points, settle, settle_all, aggregate_batches,
}

abbrev numbers : {F : Type 0} → List (CaseResult F) → List ℕ
numbers = map (λ c. c.case_no)

abbrev has : Option ℕ → List (Option ℕ) → Bool
has k order = any (λ seen. seen == k) order

Distinct : List (Option ℕ) → Type 0
Distinct [] = Unit
Distinct (k ∷ order) = (has k order ≡ false) × Distinct order

has-append :
    (k j : Option ℕ) (order : List (Option ℕ))
    → has k (order ++ j ∷ []) ≡ (if has k order then true else (j == k))
has-append k j [] = ground arith
has-append k j (i ∷ order) = ground (arith, has-append k j order)

Distinct-append :
    (k : Option ℕ) (order : List (Option ℕ))
    → has k order ≡ false
    → Distinct order
    → Distinct (order ++ k ∷ [])
unfolding Distinct
Distinct-append k [] h d = (refl, tt)
Distinct-append k (i ∷ order) h d = (
  ground (arith, has-append i k order, option_beq_iff i k, option_beq_iff k i),
  Distinct-append k order (ground arith) d.1,
)

abbrev next_order : Option ℕ → List (Option ℕ) → List (Option ℕ)
next_order k order = if has k order then order else order ++ k ∷ []

module _ {F : Type 0} where
  -- The batches, one behind the other, in the given order.
  flat : Batches F → List (Option ℕ) → List (CaseResult F)
  flat batches [] = []
  flat batches (k ∷ order) = get_or (get k batches) [] ++ flat batches order

  flat-put_absent :
      (k : Option ℕ) (cs : List (CaseResult F)) (batches : Batches F) (order : List (Option ℕ))
      → has k order ≡ false
      → flat (put k cs batches) order ≡ flat batches order
  unfolding flat
  flat-put_absent k cs batches [] h = refl
  flat-put_absent k cs batches (i ∷ order) h = ground (
    arith,
    get-put k i cs batches,
    flat-put_absent k cs batches order,
    option_beq_iff i k,
    option_beq_iff k i,
  )

  flat-put_here :
      (k i : Option ℕ) (cs : List (CaseResult F)) (batches : Batches F) (order : List (Option ℕ))
      → i ≡ k
      → has i order ≡ false
      → flat (put k cs batches) (i ∷ order) ≡ cs ++ flat batches order
  unfolding flat
  flat-put_here k i cs batches order e h = ground (
    arith,
    get-put k i cs batches,
    flat-put_absent k cs batches order,
    option_beq_iff k i,
    ap (λ j. has j order) e,
  )

  flat-put_there :
      (k i : Option ℕ) (cs : List (CaseResult F)) (batches : Batches F) (order : List (Option ℕ))
      → (i == k) ≡ false
      → flat (put k cs batches) (i ∷ order)
        ≡ get_or (get i batches) [] ++ flat (put k cs batches) order
  unfolding flat
  flat-put_there k i cs batches order h =
      ground (arith, get-put k i cs batches, option_beq_iff k i, option_beq_iff i k)

  -- One more case in a batch that is in the order.
  flat-put :
      (k : Option ℕ) (c : CaseResult F) (batches : Batches F) (order : List (Option ℕ))
      → has k order ≡ true
      → Distinct order
      → Perm
          (flat (put k (get_or (get k batches) [] ++ c ∷ []) batches) order)
          (c ∷ flat batches order)
  unfolding flat Distinct
  flat-put k c batches [] h d = cc
  flat-put k c batches (i ∷ order) h d = elim (Bool-cases (i == k)) [
    | inl e ↦
        let same : i ≡ k = (option_beq_iff i k).0 e in
        rw
          (
            flat-put_here k i (get_or (get k batches) [] ++ c ∷ []) batches order same d.0,
            append_assoc,
          )
          (rw same (perm_middle (get_or (get k batches) []) (flat batches order)))
    | inr e ↦ rw (flat-put_there k i (get_or (get k batches) [] ++ c ∷ []) batches order e) (
        Perm.trans
          (Perm.append_left (get_or (get i batches) [])
            (flat-put k c batches order (ground arith) d.1))
          (perm_middle (get_or (get i batches) []) (flat batches order)))
  ]

  record Inv (order : List (Option ℕ)) (batches : Batches F) : Type 0 where
    distinct : Distinct order
    fresh : (k : Option ℕ) → has k order ≡ false → get_or (get k batches) [] ≡ []

  abbrev next_batches : Option ℕ → CaseResult F → Batches F → Batches F
  next_batches k c batches = put k (get_or (get k batches) [] ++ c ∷ []) batches

  flat-append :
      (k : Option ℕ) (batches : Batches F) (order : List (Option ℕ))
      → flat batches (order ++ k ∷ []) ≡ flat batches order ++ get_or (get k batches) []
  unfolding flat
  flat-append k batches [] = append-nil (get_or (get k batches) [])
  flat-append k batches (i ∷ order) = rw (flat-append k batches order, append_assoc)

  next-Inv :
      (k : Option ℕ) (c : CaseResult F) (batches : Batches F) (order : List (Option ℕ))
      → Inv order batches
      → Inv (next_order k order) (next_batches k c batches)
  next-Inv k c batches order inv = record {
    distinct = elim (Bool-cases (has k order)) [
      | inl e ↦ rw e inv.distinct
      | inr e ↦ rw e (Distinct-append k order e inv.distinct)
    ];
    fresh = λ j h. ground (
      arith,
      inv.fresh j,
      get-put k j (get_or (get k batches) [] ++ c ∷ []) batches,
      has-append j k order,
      option_beq_iff k j,
      ap (λ i. has i order) {x = k} {y = j},
    );
  }

  next-perm :
      (k : Option ℕ) (c : CaseResult F) (batches : Batches F) (order : List (Option ℕ))
      → Inv order batches
      → Perm (flat (next_batches k c batches) (next_order k order)) (c ∷ flat batches order)
  next-perm k c batches order inv = elim (Bool-cases (has k order)) [
    | inl e ↦ rw e (flat-put k c batches order e inv.distinct)
    | inr e ↦ rw e (
        rw
          (
            flat-append k (next_batches k c batches) order,
            flat-put_absent k (get_or (get k batches) [] ++ c ∷ []) batches order e,
            get-put k k (get_or (get k batches) [] ++ c ∷ []) batches,
            ==-refl k,
            inv.fresh k e,
          )
          (Perm.trans (perm_middle (flat batches order) []) (rw append-nil (Perm.refl _))))
  ]

  flat-group_from :
      (order : List (Option ℕ)) (batches : Batches F) (crs : List (CaseResult F))
      (tcs : List (TestCase F))
      → Inv order batches
      → Perm
          (flat (group_from order batches crs tcs).1 (group_from order batches crs tcs).0)
          (flat batches order ++ take (length tcs) crs)
  unfolding group_from
  flat-group_from order batches [] [] inv = rw append-nil (Perm.refl _)
  flat-group_from order batches [] (tc ∷ tcs) inv = rw append-nil (Perm.refl _)
  flat-group_from order batches (cr ∷ crs) [] inv = rw append-nil (Perm.refl _)
  flat-group_from order batches (cr ∷ crs) (tc ∷ tcs) inv =
      Perm.trans
        (flat-group_from (next_order tc.batch_no order) (next_batches tc.batch_no cr batches) crs
          tcs (next-Inv tc.batch_no cr batches order inv))
        (Perm.trans
          (Perm.append_right (take (length tcs) crs) (next-perm tc.batch_no cr batches order inv))
          (Perm.symm (perm_middle (flat batches order) (take (length tcs) crs))))

module _ {F : Type 0} ⦃fl : FloatOps F⦄ where
  numbers-zero_points : (cs : List (CaseResult F)) → numbers (zero_points cs) ≡ numbers cs
  unfolding zero_points
  numbers-zero_points [] = refl
  numbers-zero_points (c ∷ cs) = rw (numbers-zero_points cs)

  numbers-settle :
      (ac : Dict ℕ Bool) (k : Option ℕ) (cs : List (CaseResult F)) (done : List (CaseResult F) × F)
      → numbers (settle ac k cs done).0 ≡ numbers done.0 ++ numbers cs
  unfolding settle
  numbers-settle ac none cs (done, total) = map-append (λ c. c.case_no) done cs
  numbers-settle ac (some bn) cs (done, total) = elim (Bool-cases (get_or (get bn ac) true)) [
    | inl e ↦ rw e (map-append (λ c. c.case_no) done cs)
    | inr e ↦ rw (e, ← numbers-zero_points cs) (map-append (λ c. c.case_no) done (zero_points cs))
  ]

  numbers-settle_all :
      (ac : Dict ℕ Bool) (batches : Batches F) (order : List (Option ℕ))
      (done : List (CaseResult F) × F)
      → numbers (settle_all ac batches order done).0
        ≡ numbers done.0 ++ numbers (flat batches order)
  unfolding settle_all flat
  numbers-settle_all ac batches [] done = rw append-nil
  numbers-settle_all ac batches (k ∷ order) done = rw (
    numbers-settle_all ac batches order (settle ac k (get_or (get k batches) []) done),
    numbers-settle ac k (get_or (get k batches) []) done,
    append_assoc,
    map-append (λ (c : CaseResult F). c.case_no) (get_or (get k batches) []) (flat batches order),
  )

  case_no-apply_to_case :
      (ac : Dict ℕ Bool) (tc : TestCase F) (cr : CaseResult F)
      → (apply_to_case ac tc cr).case_no ≡ cr.case_no
  unfolding apply_to_case
  case_no-apply_to_case ac tc cr = ground (arith, skip_if_failed_lem ac (depends tc) cr)

  numbers-apply :
      (crs : List (CaseResult F)) (tcs : List (TestCase F)) (n : ℕ) (ac : Dict ℕ Bool)
      → numbers (take n (apply_batch_dependencies crs tcs ac)) ≡ numbers (take n crs)
  unfolding apply_batch_dependencies
  numbers-apply [] tcs zero ac = refl
  numbers-apply [] tcs (suc n) ac = refl
  numbers-apply (cr ∷ crs) tcs zero ac = refl
  numbers-apply (cr ∷ crs) [] (suc n) ac = refl
  numbers-apply (cr ∷ crs) (tc ∷ tcs) (suc n) ac =
      rw (case_no-apply_to_case ac tc cr, numbers-apply crs tcs n ac)

  -- The returned cases have the case numbers of the results that have a test case, each as often, in
  -- some order.
  pub numbers-aggregate_batches :
      (raw : List (CaseResult F)) (tcs : List (TestCase F))
      → Perm
          (map (λ c. c.case_no) (aggregate_batches raw tcs).0)
          (map (λ c. c.case_no) (take (length tcs) raw))
  unfolding aggregate_batches flat get Distinct
  numbers-aggregate_batches raw tcs =
      let ac = compute_batch_ac_status raw tcs in
      let applied = apply_batch_dependencies raw tcs ac in
      rw
        (
          numbers-settle_all (compute_batch_ac_status applied tcs) (group_from [] [] applied tcs).1
              (group_from [] [] applied tcs).0 ([], fl.zero_f),
          ← numbers-apply raw tcs (length tcs) ac,
        )
        (Perm.map (λ c. c.case_no)
          (flat-group_from [] [] applied tcs (record { distinct = tt; fresh = λ k h. refl })))
