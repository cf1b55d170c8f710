-- ===== src/Judge/CaseBuilder.antt =====
-- app/modules/judge/case_builder.py, without the references to the data, which `DataLoader` has.
use acoj_worker.Common.{ℕ, ◌*◌, some, or_nat}
use acoj_worker.Judge.Types.{Problem, TestCase}
use acoj_worker.Judge.LanguageConfig.{JudgeLimits}

-- _DEFAULT_OUTPUT_BYTES
abbrev pub default_output_bytes : ℕ
default_output_bytes = 8 * 1024 * 1024

module _ {F : Type 0} where
  unfoldable pub build_judge_limits : TestCase F → Problem F → JudgeLimits
  build_judge_limits tc problem =
      let cpu_ms = or_nat tc.time_limit_ms problem.time_limit_ms in
      record {
        cpu_time_ms = cpu_ms;
        real_time_ms = cpu_ms * 3;
        memory_bytes = or_nat tc.memory_limit_kb problem.memory_limit_kb * 1024;
        processes = 256;
        output_bytes =
            some (
              or_nat tc.output_limit_bytes
                (or_nat problem.output_limit_bytes default_output_bytes));
      }
