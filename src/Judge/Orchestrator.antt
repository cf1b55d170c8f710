-- ===== src/Judge/Orchestrator.antt =====
-- app/modules/judge/orchestrator.py, with the registry of modes/__init__.py, and
-- app/modules/judge/tasks.py. A mode is a block that returns a result or raises; the clock reads
-- milliseconds.
pub mod Failing
pub mod Task
use Prim.Native.String.{◌++◌}
use acoj_worker.Common.{
  ℕ, ◌-◌, String, Bool, true, false, Option, none, some, List, [], ◌==◌, string_eq, if◌then◌else◌,
  Exception, message, Result, ok, raise, ◌≡◌, refl, get_or,
}
use acoj_worker.Common.Exec.{Exec}
use acoj_worker.Judge.Float.{FloatOps}
use acoj_worker.Judge.Types.{Payload, JudgeResult, JobStatus}
use acoj_worker.Judge.LanguageConfig.{or_text}

-- MODE_REGISTRY: the `judge` methods of the three classes.
pub record ModeRegistry (F S : Type 0) : Type 0 where
  pub standard : Payload F → Exec S (JudgeResult F)
  pub special_judge : Payload F → Exec S (JudgeResult F)
  pub interactive : Payload F → Exec S (JudgeResult F)

-- `MODE_REGISTRY.get(judge_mode, MODE_REGISTRY["STANDARD"])`
unfoldable pub mode_of :
    {F S : Type 0} → ModeRegistry F S → String → Payload F → Exec S (JudgeResult F)
mode_of modes judge_mode payload =
    if judge_mode == "SPECIAL_JUDGE"
    then modes.special_judge payload
    else if judge_mode == "INTERACTIVE"
    then modes.interactive payload
    else modes.standard payload

module _ {F : Type 0} ⦃fl : FloatOps F⦄ where
  -- `_build_failed_result`
  unfoldable pub build_failed_result : Payload F → Exception → (elapsed_ms : ℕ) → JudgeResult F
  build_failed_result payload exc elapsed_ms = record {
    submission_id = payload.submission_id;
    status = JobStatus.failed;
    result = none;
    score = fl.zero_f;
    time_ms = 0;
    memory_kb = 0;
    compile_time_ms = 0;
    compile_memory_kb = 0;
    compile_output = none;
    compile_error = false;
    cases = [];
    error = some (message exc);
    wall_time_ms = some elapsed_ms;
  }

  -- The result, or what `except Exception` makes of the exception.
  unfoldable pub outcome_of : Payload F → (elapsed_ms : ℕ) → Result (JudgeResult F) → JudgeResult F
  outcome_of payload elapsed_ms (ok r) = r
  outcome_of payload elapsed_ms (raise exc) = build_failed_result payload exc elapsed_ms

  -- `_failed_result`: the defaults of JudgeResultOut.
  unfoldable pub failed_result : (submission_id error : String) → JudgeResult F
  failed_result submission_id error = record {
    submission_id = if submission_id == "" then "?" else submission_id;
    status = JobStatus.failed;
    result = none;
    score = fl.zero_f;
    time_ms = 0;
    memory_kb = 0;
    compile_time_ms = 0;
    compile_memory_kb = 0;
    compile_output = none;
    compile_error = false;
    cases = [];
    error = some error;
    wall_time_ms = some 0;
  }

  module _ {S : Type 0} (modes : ModeRegistry F S) (clock : S → ℕ) where
    -- `judge`: it catches what the mode raises, and sets the wall time of either result.
    unfoldable pub judge : Payload F → S → JudgeResult F × S
    judge payload s =
        let (r, s') = mode_of modes (get_or payload.judge_mode "STANDARD") payload s in
        let elapsed_ms = clock s' - clock s in
        (record (outcome_of payload elapsed_ms r) { wall_time_ms = some elapsed_ms }, s')

    -- `execute_judge`, with the text of the ValidationError of `model_validate`, if any. The payload
    -- that was received is judged, and not the model. `validate` is `model_validate` of the result and
    -- its `model_dump`; what it raises is not caught.
    unfoldable pub execute_judge :
        (validate : JudgeResult F → Result (JudgeResult F)) (invalid : Option String)
        → Payload F
        → Exec S (JudgeResult F)
    execute_judge validate (some text) payload s =
        (ok (failed_result payload.submission_id ("invalid payload: " ++ text)), s)
    execute_judge validate none payload s = let (r, s') = judge payload s in (validate r, s')
