-- ===== src/Judge/Settings.antt =====
-- app/modules/judge/config.py: the settings of the sandbox that the modes read.
use acoj_worker.Common.{ℕ, String, Bool}

pub record JudgeSettings : Type 0 where
  pub sandbox_worker_pool_size : ℕ
  pub sandbox_standard_parallelism : ℕ
  pub sandbox_allow_emergency_worker : Bool
  pub sandbox_compilation_cache_enabled : Bool
  pub sandbox_enable_namespaces : Bool
  pub sandbox_rootfs_path : String
  pub sandbox_bind_system_paths : Bool
  pub sandbox_isolate_network : Bool
  pub sandbox_isolate_ipc : Bool
  pub sandbox_isolate_uts : Bool
  pub sandbox_private_mounts : Bool
  pub sandbox_use_pivot_root : Bool
  pub sandbox_bind_workspace : Bool
  pub sandbox_enable_cgroup : Bool
  pub sandbox_cgroup_version : String
  pub sandbox_cgroup_base_path : String
  pub sandbox_cgroup_v1_memory_base_path : String
  pub sandbox_cgroup_v1_pids_base_path : String
