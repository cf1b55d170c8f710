-- ===== src/Tests/Samples.antt =====
-- Points as whole numbers, and small cases.
use native.Mathlib.Nat.{add-zero, add_assoc}
use acoj_worker.Common.{ℕ, ◌+◌, ◌/◌, leb, true, false, Option, none, some, List, [], ◌∷◌, ok}
use acoj_worker.Judge.Float.{FloatOps, Exact}
use acoj_worker.Judge.Types.{Status, Verdict, Language, Problem, TestCase, CaseResult}
use acoj_worker.Judge.Metrics.{Process}
use acoj_worker.Judge.Settings.{JudgeSettings}
use acoj_worker.Judge.Checker.{DataRef, RefData}
use acoj_worker.Judge.DataLoader.{Storage}

instance abbrev pub whole_points : FloatOps ℕ
whole_points = record { zero_f = 0; add = λ a b. a + b; div = λ a b. a / b; ge = λ a b. leb b a }

pub whole_points-Exact : Exact ℕ
whole_points-Exact = record { add-zero_f = add-zero; add_assoc = add_assoc }

abbrev pub case_of : ℕ → Option ℕ → List ℕ → TestCase ℕ
case_of n batch deps = record {
  case_no = n;
  points = some 10;
  time_limit_ms = none;
  memory_limit_kb = none;
  output_limit_bytes = none;
  input_inline = some "1 2";
  output_inline = some "3";
  input_file = none;
  output_file = none;
  input_sha256 = none;
  output_sha256 = none;
  batch_no = batch;
  batch_depends = deps;
  batch_dependencies = [];
}

abbrev pub result_of : ℕ → Verdict → ℕ → CaseResult ℕ
result_of n verdict points = record {
  case_no = n;
  result = verdict;
  time_ms = 5;
  memory_kb = 64;
  points = points;
  stdout_preview = "";
  stderr_preview = "";
}

-- Two batches; the second depends on the first.
abbrev pub two_batches : List (TestCase ℕ)
two_batches =
    case_of 1 (some 1) []
    ∷ case_of 2 (some 2) (1 ∷ [])
    ∷ case_of 3 (some 1) []
    ∷ case_of 4 none []
    ∷ []

abbrev pub one_wrong : List (CaseResult ℕ)
one_wrong =
    result_of 1 Verdict.ac 10
    ∷ result_of 2 Verdict.ac 10
    ∷ result_of 3 Verdict.wa 10
    ∷ result_of 4 Verdict.ac 10
    ∷ []

abbrev pub process : Status → Process
process status = record {
  status = status;
  message = "";
  cpu_time_ms = 7;
  real_time_ms = 9;
  memory_bytes = 4096;
  exit_code = 0;
}

abbrev pub problem : Problem ℕ
problem = record {
  code = "P1000";
  time_limit_ms = 1000;
  memory_limit_kb = 65536;
  points = some 40;
  partial = none;
  output_limit_bytes = none;
}

abbrev pub language : Language
language = record {
  key = "cpp17";
  source_filename = none;
  compile_command = some "g++";
  run_command = some "{exe}";
}

abbrev pub text_ref : List ℕ → DataRef
text_ref s = record { path = none; data_of = RefData.text s; sha256 = none; preview_text = "" }

abbrev pub settings : JudgeSettings
settings = record {
  sandbox_worker_pool_size = 4;
  sandbox_standard_parallelism = 4;
  sandbox_allow_emergency_worker = false;
  sandbox_compilation_cache_enabled = true;
  sandbox_enable_namespaces = false;
  sandbox_rootfs_path = "";
  sandbox_bind_system_paths = true;
  sandbox_isolate_network = true;
  sandbox_isolate_ipc = true;
  sandbox_isolate_uts = true;
  sandbox_private_mounts = true;
  sandbox_use_pivot_root = true;
  sandbox_bind_workspace = true;
  sandbox_enable_cgroup = false;
  sandbox_cgroup_version = "auto";
  sandbox_cgroup_base_path = "/sys/fs/cgroup/acoj-sandbox";
  sandbox_cgroup_v1_memory_base_path = "";
  sandbox_cgroup_v1_pids_base_path = "";
}

-- A remote storage that has every object, with the hash that is asked for.
abbrev pub remote : {S : Type 0} → Storage S
remote = record {
  get_path = none;
  resolve_or_download = λ name sha256 s. (ok (some sha256), s);
  path_exists = λ s path. true;
  from_path = λ s path. record {
    path = some path;
    data_of = RefData.no_data;
    sha256 = some path;
    preview_text = "";
  };
  from_data =
      λ text. record { path = none; data_of = RefData.text []; sha256 = none; preview_text = text };
}
