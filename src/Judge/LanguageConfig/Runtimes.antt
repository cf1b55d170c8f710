-- ===== src/Judge/LanguageConfig/Runtimes.antt =====
-- Which runtimes are spared the limit on address space, and what they are given.
use acoj_worker.Common.{
  String, Bool, true, false, List, string_eq, codes, strip, is_empty, Result, ok, ◌≡◌, ◌↔◌, arith,
}
use acoj_worker.Judge.Types.{Language}
use acoj_worker.Judge.LanguageConfig.{
  LanguageSpec, virt_as, compiled, script, needs_virt_as, virt_as_spec, or_text,
  build_languages_config,
}

-- The limit on memory is only checked, not enforced by RLIMIT_AS, for compiler and program.
abbrev pub ChecksMemoryOnly : LanguageSpec → Type 0
ChecksMemoryOnly (virt_as id source_filename exe_filename compile run) =
    (compile.memory_limit_check_only ≡ true) × (run.memory_limit_check_only ≡ true)
ChecksMemoryOnly (compiled id exe_filename compile_argv run_argv compile_limits) = ⊥
ChecksMemoryOnly (script id argv) = ⊥

-- What kind of specification the language gets.
abbrev pub is_script : LanguageSpec → Bool
is_script (script id argv) = true
is_script _ = false

module _ (split : String → Result (List String)) (language : Language) (exe_filename : String) where
  -- A language with a compile command gets a limit on memory that is only checked, for compiler and
  -- program, exactly when its runtime reserves address space.
  pub build_languages_config-ChecksMemoryOnly_iff :
      {spec : LanguageSpec}
      → is_empty (strip (codes (or_text language.compile_command ""))) ≡ false
      → build_languages_config split language exe_filename ≡ ok spec
      → (ChecksMemoryOnly spec) ↔ (needs_virt_as language.key ≡ true)
  unfolding build_languages_config virt_as_spec
  build_languages_config-ChecksMemoryOnly_iff h e = (λ c. ground arith, λ c. ground arith)

  -- When the configuration can be built, it is that of a script exactly when the compile command is
  -- blank.
  pub build_languages_config-is_script :
      {spec : LanguageSpec}
      → build_languages_config split language exe_filename ≡ ok spec
      → is_script spec ≡ is_empty (strip (codes (or_text language.compile_command "")))
  unfolding build_languages_config virt_as_spec
  build_languages_config-is_script e = ground arith
