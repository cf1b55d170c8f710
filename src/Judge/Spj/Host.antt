-- ===== src/Judge/Spj/Host.antt =====
-- app/modules/judge/modes/spj.py: what SpecialJudgeMode calls of the sandbox library.
use acoj_worker.Common.{String, Bool, Option, List, Result}
use acoj_worker.Common.Exec.{Exec}
use acoj_worker.Judge.Types.{Status}
use acoj_worker.Judge.SandboxConfig.{IsolationConfig, CgroupConfig}
use acoj_worker.Judge.Metrics.{Process}
use acoj_worker.Judge.Checker.{DataRef}
use acoj_worker.Judge.LanguageConfig.{JudgeLimits, LanguageSpec}
use acoj_worker.Judge.DataLoader.{Storage}

-- The attributes `compiler_output` and `message` of a `compile_result`.
pub record CompileResult : Type 0 where
  pub compiler_output : Option String
  pub message : Option String

-- What `prepare_source` returns.
pub record Program : Type 0 where
  pub compile : Process
  pub compiled : Bool
  pub compile_result : Option CompileResult

-- What `program.run` returns.
pub record UserRun : Type 0 where
  pub status : Status
  pub run : Process
  pub stdout_path : String
  pub stderr_path : String

pub record SpjHost (S : Type 0) : Type 0 where
  pub storage : Storage S
  pub split : String → Result (List String)
  pub path_exists : S → String → Bool
  -- `create_sandbox_client`, for the program and for the checker
  pub create_client : LanguageSpec → Exec S (Unit {0})
  pub create_checker_client : Exec S (Unit {0})
  -- `prepare_source`, for the program (language, source) and for the checker (source, limits)
  pub prepare_program : String → String → IsolationConfig → CgroupConfig → Exec S Program
  pub prepare_checker : String → JudgeLimits → IsolationConfig → CgroupConfig → Exec S Program
  -- `program.run`
  pub run : DataRef → JudgeLimits → IsolationConfig → CgroupConfig → Exec S UserRun
  -- `client.run_testlib_checker`: the source, the input, the output, the expected output
  pub run_checker :
      String → DataRef → DataRef → DataRef → IsolationConfig → CgroupConfig → Exec S Bool
  pub close_checker : S → S
  pub close_program : S → S
  pub close_client : S → S
  pub close_checker_client : S → S
