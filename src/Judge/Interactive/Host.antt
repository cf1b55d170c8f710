-- ===== src/Judge/Interactive/Host.antt =====
-- app/modules/judge/modes/interactive.py: what InteractiveMode calls of the system and of the
-- sandbox library. Times are milliseconds.
use acoj_worker.Common.{ℕ, String, Bool, Option, List, Result}
use acoj_worker.Common.Exec.{Exec}
use acoj_worker.Judge.Types.{Status}
use acoj_worker.Judge.SandboxConfig.{IsolationConfig, CgroupConfig}
use acoj_worker.Judge.Metrics.{Process}
use acoj_worker.Judge.Checker.{DataRef}
use acoj_worker.Judge.LanguageConfig.{JudgeLimits, LanguageSpec}
use acoj_worker.Judge.DataLoader.{Storage}
use acoj_worker.Judge.Spj.Host.{Program}

-- What `run_with_paths` returns.
pub record PathRun : Type 0 where
  pub status : Status
  pub run : Process
  pub stdout : Option String

-- What one `concurrent.futures.wait` has done: for each thread nothing yet, or its result, which is
-- None where the run raised.
pub record Done : Type 0 where
  pub user : Option (Option PathRun)
  pub interactor : Option (Option PathRun)

pub record InteractiveHost (S : Type 0) : Type 0 where
  pub storage : Storage S
  pub split : String → Result (List String)
  pub path_exists : S → String → Bool
  -- `mkdtemp`, the input file with its content, `mkfifo` twice, `os.open` of each FIFO
  pub make_work_dir : Exec S (Unit {0})
  pub write_input : DataRef → Exec S (Unit {0})
  pub make_fifos : Exec S (Unit {0})
  pub open_ab : Exec S (Unit {0})
  pub open_ba : Exec S (Unit {0})
  pub create_user_client : LanguageSpec → Exec S (Unit {0})
  pub create_interactor_client : LanguageSpec → Exec S (Unit {0})
  -- `prepare_source` in the work directory: language key and source
  pub prepare_user : String → String → IsolationConfig → CgroupConfig → Exec S Program
  pub prepare_interactor : String → String → IsolationConfig → CgroupConfig → Exec S Program
  -- The first wait starts the threads, under the limits of the user and of the interactor; the
  -- second one waits for those that are pending.
  pub wait_first : (timeout : ℕ) → (user_limits interactor_limits : JudgeLimits) → S → Done × S
  pub wait_pending : (timeout : ℕ) → S → Done × S
  -- the text in `interactor.stderr`, or nothing
  pub interactor_stderr : Exec S String
  pub close_ab : S → S
  pub close_ba : S → S
  pub close_interactor_program : S → S
  pub close_user_program : S → S
  pub close_user_client : S → S
  pub close_interactor_client : S → S
  pub remove_work_dir : S → S
