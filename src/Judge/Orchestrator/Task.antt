-- ===== src/Judge/Orchestrator/Task.antt =====
-- app/modules/judge/tasks.py: what `execute_judge` returns.
use acoj_worker.Common.{
  Result-cases, inl, inr, Bool, true, false, Option, none, some, is_some, List, [], ◌∷◌, ok, raise,
  Result, ◌≡◌, refl, arith, ◌⊎◌, length, ap, sym, ◌∙◌, ◌-◌, ℕ, String,
}
use acoj_worker.Judge.Float.{FloatOps}
use acoj_worker.Judge.Types.{Payload, JudgeResult, CaseResult, JobStatus}
use acoj_worker.Judge.Settings.{JudgeSettings}
use acoj_worker.Judge.Standard.Host.{Host}
use acoj_worker.Judge.Spj.Host.{SpjHost}
use acoj_worker.Judge.Interactive.Host.{InteractiveHost}
use acoj_worker.Judge.Orchestrator.{failed_result, judge, execute_judge}
use acoj_worker.Judge.Orchestrator.Failing.{FailsClean, registry, judge-FailsClean}

module _ {F : Type 0} ⦃fl : FloatOps F⦄ where
  abbrev pub is_ok_result : Result (JudgeResult F) → Bool
  is_ok_result (ok r) = true
  is_ok_result (raise x) = false

  -- The validated model of a result: a field whose value is of the type of the model is kept, and
  -- where all are, there is a model. None is no value of `wall_time_ms`, an `int`; every other field
  -- of a result is of the type of the model's.
  pub record ValidatesModel (validate : JudgeResult F → Result (JudgeResult F)) : Type 0 where
    pub accepts :
        (r : JudgeResult F) (elapsed_ms : ℕ)
        → r.wall_time_ms ≡ some elapsed_ms
        → is_ok_result (validate r) ≡ true
    pub status : (r r' : JudgeResult F) → validate r ≡ ok r' → r'.status ≡ r.status
    pub result : (r r' : JudgeResult F) → validate r ≡ ok r' → r'.result ≡ r.result
    pub error : (r r' : JudgeResult F) → validate r ≡ ok r' → r'.error ≡ r.error
    pub length-cases :
        (r r' : JudgeResult F) → validate r ≡ ok r' → length r'.cases ≡ length r.cases

  -- A result that is completed, or one that failed with an error text and neither a verdict nor cases.
  abbrev pub IsOutcome : JudgeResult F → Type 0
  IsOutcome r =
      (r.status ≡ JobStatus.completed)
      ⊎ ((r.status ≡ JobStatus.failed)
          × (r.result ≡ none)
          × (r.cases ≡ [])
          × (is_some r.error ≡ true))

  FailsClean-IsOutcome : (r : JudgeResult F) → FailsClean r → IsOutcome r
  FailsClean-IsOutcome r h = go r.status refl
    where
      go : (status : JobStatus) → r.status ≡ status → IsOutcome r
      go JobStatus.completed e = inl e
      go JobStatus.failed e = let (result, cases, error) = h e in inr (e, result, cases, error)

  no_cases : (cs : List (CaseResult F)) → length cs ≡ 0 → cs ≡ []
  no_cases [] h = refl
  no_cases (c ∷ cs) h = absurd (ground arith)

  module _ (validate : JudgeResult F → Result (JudgeResult F))
      (valid : ValidatesModel validate) where
    validate-FailsClean : (r r' : JudgeResult F) → validate r ≡ ok r' → FailsClean r → FailsClean r'
    validate-FailsClean r r' h clean failed =
        let (result, cases, error) = clean (sym (valid.status r r' h) ∙ failed) in
        (
          valid.result r r' h ∙ result,
          no_cases r'.cases (valid.length-cases r r' h ∙ ap length cases),
          ap is_some (valid.error r r' h) ∙ error,
        )

    validate-IsOutcome :
        (r : JudgeResult F) (elapsed_ms : ℕ)
        → r.wall_time_ms ≡ some elapsed_ms
        → FailsClean r
        → (r' : JudgeResult F) × (validate r ≡ ok r') × IsOutcome r'
    validate-IsOutcome r elapsed_ms timed clean = elim (Result-cases (validate r)) [
      | inl (r', e) ↦ (r', e, FailsClean-IsOutcome r' (validate-FailsClean r r' e clean))
      | inr (x, e) ↦ absurd (let accepted = valid.accepts r elapsed_ms timed in ground arith)
    ]

    -- Where the model of the result accepts every result with a wall time and keeps its fields, the
    -- task returns a result, whatever the payload is and whatever the modes raise: its status is
    -- COMPLETED, or it is FAILED with an error text and with neither a verdict nor cases.
    pub execute_judge-IsOutcome :
        {S : Type 0} (host : Host S) (spj : SpjHost S) (interactive : InteractiveHost S)
        (cfg : JudgeSettings) (clock : S → ℕ) (invalid : Option String) (payload : Payload F)
        (s : S)
        → (r : JudgeResult F) × ((execute_judge
              (registry host spj interactive cfg)
              clock
              validate
              invalid
              payload
              s).0
            ≡ ok r)
          × IsOutcome r
    unfolding execute_judge judge failed_result
    execute_judge-IsOutcome host spj interactive cfg clock (some text) payload s =
        (_, refl, inr (refl, refl, refl, refl))
    execute_judge-IsOutcome host spj interactive cfg clock none payload s =
        let (r, s') = judge (registry host spj interactive cfg) clock payload s in
        validate-IsOutcome r (clock s' - clock s) refl
          (judge-FailsClean host spj interactive cfg clock payload s)
