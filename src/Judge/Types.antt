-- ===== src/Judge/Types.antt =====
-- app/modules/judge/schemas.py: the payload as the task receives it and the result that it returns.
-- The modes read the raw dictionary and not the validated model, so a key that may be absent is an
-- `Option`; where `.get` and `or` make no difference between absent and null, one `Option` is both.
use acoj_worker.Common.{ℕ, String, Bool, Option, List}

-- `acoj_sandbox.Status`: the members that the source names; `unlisted` stands for any other value.
pub data Status : Type 0 where
  ac ce re tle mle ole se ie : Status
  unlisted : ℕ → Status

-- The verdict strings that the modes produce.
pub data Verdict : Type 0 where
  ac wa ce re tle mle ole se ie skipped : Verdict

-- ProblemConfig
pub record Problem (F : Type 0) : Type 0 where
  pub code : String
  pub time_limit_ms : ℕ
  pub memory_limit_kb : ℕ
  pub points : Option F
  pub partial : Option Bool
  pub output_limit_bytes : Option ℕ

-- LanguageConfigIn
pub record Language : Type 0 where
  pub key : String
  pub source_filename : Option String
  pub compile_command : Option String
  pub run_command : Option String

-- TestCaseData
pub record TestCase (F : Type 0) : Type 0 where
  pub case_no : ℕ
  pub points : Option F
  pub time_limit_ms : Option ℕ
  pub memory_limit_kb : Option ℕ
  pub output_limit_bytes : Option ℕ
  pub input_inline : Option String
  pub output_inline : Option String
  pub input_file : Option String
  pub output_file : Option String
  pub input_sha256 : Option String
  pub output_sha256 : Option String
  pub batch_no : Option ℕ
  pub batch_depends : List ℕ
  pub batch_dependencies : List ℕ

-- The `spj` and `interactor` dictionaries; for `language` the outer `none` is an absent key.
pub record Grader : Type 0 where
  pub source : Option String
  pub language : Option (Option Language)
  pub time_limit_ms : Option ℕ
  pub memory_limit_kb : Option ℕ

-- JudgePayload. For `spj` and `interactor` the outer `none` is an absent key, the inner one null.
pub record Payload (F : Type 0) : Type 0 where
  pub submission_id : String
  pub judge_mode : Option String
  pub problem : Problem F
  pub language : Option (Option Language)
  pub source : Option String
  pub test_cases : Option (List (TestCase F))
  pub spj : Option (Option Grader)
  pub interactor : Option (Option Grader)

-- CaseResult
pub record CaseResult (F : Type 0) : Type 0 where
  pub case_no : ℕ
  pub result : Verdict
  pub time_ms : ℕ
  pub memory_kb : ℕ
  pub points : F
  pub stdout_preview : String
  pub stderr_preview : String

pub data JobStatus : Type 0 where
  completed failed : JobStatus

-- JudgeResultOut; a mode sets no `wall_time_ms`.
pub record JudgeResult (F : Type 0) : Type 0 where
  pub submission_id : String
  pub status : JobStatus
  pub result : Option Verdict
  pub score : F
  pub time_ms : ℕ
  pub memory_kb : ℕ
  pub compile_time_ms : ℕ
  pub compile_memory_kb : ℕ
  pub compile_output : Option String
  pub compile_error : Bool
  pub cases : List (CaseResult F)
  pub error : Option String
  pub wall_time_ms : Option ℕ
