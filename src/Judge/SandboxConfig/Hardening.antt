-- ===== src/Judge/SandboxConfig/Hardening.antt =====
-- What the sandbox configuration guarantees.
use acoj_worker.Common.{ℕ, String, Bool, true, false, [], ◌≡◌, refl, ◌↔◌, arith, ◌==◌, string_eq}
use acoj_worker.Judge.Settings.{JudgeSettings}
use acoj_worker.Judge.SandboxConfig.{
  build_isolation_config, hardening_gaps, Flags, warn_if_pool_capacity_is_lower_than_parallelism,
  warn_if_runtime_config_is_not_production_hardened,
}

-- With namespaces disabled, the configuration isolates nothing, whatever the other settings say.
pub build_isolation_config-namespaces :
    (exists : String → Bool) (cfg : JudgeSettings)
    → cfg.sandbox_enable_namespaces ≡ false
    → ((build_isolation_config exists cfg).isolate_network ≡ false)
      × ((build_isolation_config exists cfg).isolate_ipc ≡ false)
      × ((build_isolation_config exists cfg).isolate_uts ≡ false)
      × ((build_isolation_config exists cfg).private_mounts ≡ false)
      × ((build_isolation_config exists cfg).use_pivot_root ≡ false)
unfolding build_isolation_config
build_isolation_config-namespaces exists cfg h = rw h (refl, refl, refl, refl, refl)

-- There is nothing to warn of exactly when namespaces and cgroup are on and a root is set.
pub hardening_gaps-eq-nil_iff :
    (cfg : JudgeSettings)
    → (hardening_gaps cfg ≡ []) ↔ (
        (cfg.sandbox_enable_namespaces ≡ true)
        × ((cfg.sandbox_rootfs_path == "") ≡ false)
        × (cfg.sandbox_enable_cgroup ≡ true))
unfolding hardening_gaps
hardening_gaps-eq-nil_iff cfg = ground arith

-- A second call of either warning function logs nothing, whatever the first has logged.
pub warnings_once :
    (worker_concurrency : ℕ) (debug : Bool) (cfg : JudgeSettings) (flags : Flags)
    → ((warn_if_pool_capacity_is_lower_than_parallelism worker_concurrency cfg
          (warn_if_pool_capacity_is_lower_than_parallelism worker_concurrency cfg flags).0).1
        ≡ [])
      × ((warn_if_runtime_config_is_not_production_hardened debug cfg
            (warn_if_runtime_config_is_not_production_hardened debug cfg flags).0).1
          ≡ [])
unfolding warn_if_pool_capacity_is_lower_than_parallelism
    warn_if_runtime_config_is_not_production_hardened
warnings_once worker_concurrency debug cfg flags = (ground arith, ground arith)
