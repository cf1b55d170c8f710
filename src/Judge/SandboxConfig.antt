-- ===== src/Judge/SandboxConfig.antt =====
-- app/modules/judge/sandbox_config.py. Log lines are values; the module's flags are a record.
pub mod Hardening
use acoj_worker.Common.{
  ℕ, ◌*◌, max, String, Bool, true, false, not, ◌&&◌, ◌||◌, Option, none, some, List, [], ◌∷◌, ◌++◌,
  ltb, ◌==◌, string_eq, if◌then◌else◌,
}
use acoj_worker.Judge.Settings.{JudgeSettings}

-- `BindMount(source=path, target=path, read_only=…, recursive=True)`
pub record BindMount : Type 0 where
  pub source : String
  pub target : String
  pub read_only : Bool
  pub recursive : Bool

pub record IsolationConfig : Type 0 where
  pub enable_namespaces : Bool
  pub isolate_network : Bool
  pub isolate_ipc : Bool
  pub isolate_uts : Bool
  pub private_mounts : Bool
  pub rootfs_path : String
  pub use_pivot_root : Bool
  pub bind_workspace : Bool
  pub bind_mounts : List BindMount

pub record CgroupConfig : Type 0 where
  pub enabled : Bool
  pub version : String
  pub base_path : String
  pub v1_memory_base_path : String
  pub v1_pids_base_path : String

-- _SYSTEM_BIND_CANDIDATES
abbrev pub system_bind_candidates : List String
system_bind_candidates = "/usr" ∷ "/etc" ∷ "/proc" ∷ []

-- The loop of `_system_bind_mounts`; `exists` is `Path(path).exists()`.
unfoldable pub bind_mounts_of : (String → Bool) → List String → List BindMount
bind_mounts_of exists [] = []
bind_mounts_of exists (path ∷ paths) =
    let rest = bind_mounts_of exists paths in
    if exists path
    then record {
      source = path;
      target = path;
      read_only = not (path == "/proc");
      recursive = true;
    }
      ∷ rest
    else rest

unfoldable pub build_isolation_config : (String → Bool) → JudgeSettings → IsolationConfig
unfolding bind_mounts_of
build_isolation_config exists cfg =
    let enable_ns = cfg.sandbox_enable_namespaces in
    record {
      enable_namespaces = enable_ns;
      isolate_network = if enable_ns then cfg.sandbox_isolate_network else false;
      isolate_ipc = if enable_ns then cfg.sandbox_isolate_ipc else false;
      isolate_uts = if enable_ns then cfg.sandbox_isolate_uts else false;
      private_mounts = if enable_ns then cfg.sandbox_private_mounts else false;
      rootfs_path = cfg.sandbox_rootfs_path;
      use_pivot_root = if enable_ns then cfg.sandbox_use_pivot_root else false;
      bind_workspace = cfg.sandbox_bind_workspace;
      bind_mounts =
          if not (cfg.sandbox_rootfs_path == "") && cfg.sandbox_bind_system_paths
          then bind_mounts_of exists system_bind_candidates
          else [];
    }

unfoldable pub build_cgroup_config : JudgeSettings → CgroupConfig
build_cgroup_config cfg = record {
  enabled = cfg.sandbox_enable_cgroup;
  version = cfg.sandbox_cgroup_version;
  base_path = cfg.sandbox_cgroup_base_path;
  v1_memory_base_path = cfg.sandbox_cgroup_v1_memory_base_path;
  v1_pids_base_path = cfg.sandbox_cgroup_v1_pids_base_path;
}

-- The lines that the two checks may log.
pub data Warning : Type 0 where
  pool_may_queue : (pool_size expected_peak : ℕ) → Warning
  not_hardened : List String → Warning

-- _capacity_warning_logged, _production_warning_logged
pub record Flags : Type 0 where
  pub capacity_warning_logged : Bool
  pub production_warning_logged : Bool

unfoldable pub warn_if_pool_capacity_is_lower_than_parallelism :
    (worker_concurrency : ℕ) → JudgeSettings → Flags → Flags × List Warning
warn_if_pool_capacity_is_lower_than_parallelism worker_concurrency cfg flags =
    let expected_peak = worker_concurrency * max 1 cfg.sandbox_standard_parallelism in
    if flags.capacity_warning_logged
    then (flags, [])
    else (if ltb cfg.sandbox_worker_pool_size expected_peak
        then (
          record flags { capacity_warning_logged = true },
          pool_may_queue cfg.sandbox_worker_pool_size expected_peak ∷ [],
        )
        else (flags, []))

-- The three tests that fill `warnings`.
unfoldable pub hardening_gaps : JudgeSettings → List String
hardening_gaps cfg =
    (if not cfg.sandbox_enable_namespaces then "namespaces disabled" ∷ [] else [])
    ++ ((if cfg.sandbox_enable_namespaces && cfg.sandbox_rootfs_path == ""
          then "namespaces enabled without rootfs_path" ∷ []
          else [])
        ++ (if not cfg.sandbox_enable_cgroup then "cgroup disabled" ∷ [] else []))

unfoldable pub warn_if_runtime_config_is_not_production_hardened :
    (debug : Bool) → JudgeSettings → Flags → Flags × List Warning
unfolding hardening_gaps
warn_if_runtime_config_is_not_production_hardened debug cfg flags =
    if flags.production_warning_logged || debug then (flags, []) else (
      record flags { production_warning_logged = true },
      elim (hardening_gaps cfg) [ [] ↦ [] | gap ∷ gaps ↦ not_hardened (gap ∷ gaps) ∷ [] ],
    )
