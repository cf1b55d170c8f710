-- ===== src/Judge/Standard/Host.antt =====
-- app/modules/judge/modes/standard.py: what StandardMode calls of the sandbox library.
use acoj_worker.Common.{ℕ, String, Bool, Option, List, nat_eq, string_eq, Result}
use acoj_worker.Common.Exec.{Exec}
use acoj_worker.Judge.Types.{Status}
use acoj_worker.Judge.SandboxConfig.{IsolationConfig, CgroupConfig}
use acoj_worker.Judge.Metrics.{Process}
use acoj_worker.Judge.Checker.{Bytes, DataRef}
use acoj_worker.Judge.LanguageConfig.{LanguageSpec}
use acoj_worker.Judge.DataLoader.{Storage, JudgeCase}
use acoj_worker.Common.{Text}

-- What `run_cases` returns for one case.
pub record CaseRun : Type 0 where
  pub status : Status
  pub run : Process
  pub actual_output : DataRef
  pub expected_output : Option DataRef
  pub stderr : DataRef

pub record BatchResult : Type 0 where
  pub compile : Process
  pub message : String
  pub cases : List CaseRun

-- The arguments of `client.run_cases`.
pub record RunRequest : Type 0 where
  pub language : String
  pub source : String
  pub cases : List JudgeCase
  pub isolation : IsolationConfig
  pub cgroup : CgroupConfig
  pub stop_on_first_failure : Bool
  pub parallelism : ℕ

-- The world of a judge run: the sandbox client and the results that it hands out, with the codec
-- and the files that the checker reads.
pub record Host (S : Type 0) : Type 0 where
  pub storage : Storage S
  pub split : String → Result (List String)
  pub decode : Bytes → Text
  pub file_at : S → String → Option Bytes
  pub path_exists : S → String → Bool
  -- `create_sandbox_client`
  pub create_client : LanguageSpec → Exec S (Unit {0})
  pub run_cases : RunRequest → Exec S BatchResult
  -- `batch_result.close()` and `client.close()`
  pub close_batch : S → S
  pub close_client : S → S
