-- ===== src/Tests/Checker.antt =====
-- Runs of checker.py, sandbox_config.py and language_config.py.
use acoj_worker.Common.{
  true, false, none, some, [], ◌∷◌, strip, get_or, is_empty, codes, ◌≡◌, ◌↔◌, refl, string_eq,
  nat_eq, ◌==◌, ◌&&◌, String, Option, if◌then◌else◌,
}
use acoj_worker.Judge.Checker.{
  Bytes, DataRef, encode, encode_char, paths_match_stripped, check_output, translate_newlines,
  ref_full_text, texts_match, outputs_match,
}
use acoj_worker.Judge.Checker.Outputs.{whole_text, is_file, outputs_match_iff}
use acoj_worker.Judge.SandboxConfig.{
  Flags, warn_if_pool_capacity_is_lower_than_parallelism,
  warn_if_runtime_config_is_not_production_hardened,
}
use acoj_worker.Judge.SandboxConfig.Hardening.{warnings_once}
use acoj_worker.Judge.LanguageConfig.{script, or_text, build_languages_config}
use acoj_worker.Judge.LanguageConfig.Runtimes.{is_script, build_languages_config-is_script}
use acoj_worker.Tests.Samples.{text_ref, settings}
use acoj_worker.Tests.Hosts.{split_words, script_language}

-- Two files, "3\r\n4" and "3\n4 ".
abbrev two_outputs : String → Option Bytes
two_outputs path =
    if path == "a"
    then some (51 ∷ 13 ∷ 10 ∷ 52 ∷ [])
    else if path == "b"
    then some (51 ∷ 10 ∷ 52 ∷ 32 ∷ [])
    else none

abbrev named_ref : String → DataRef
named_ref path = record (text_ref []) { path = some path }

outputs_match_iff_example :
    (outputs_match (λ bytes. bytes) two_outputs (named_ref "a") (some (named_ref "b")) ≡ true) ↔ (
      strip (
        get_or
          (whole_text
            (λ bytes. bytes)
            two_outputs
            (is_file two_outputs (named_ref "a") && is_file two_outputs (named_ref "b"))
            (named_ref "a"))
          [])
      ≡ strip (51 ∷ 10 ∷ 52 ∷ 32 ∷ []))
outputs_match_iff_example =
    outputs_match_iff (λ bytes. bytes) two_outputs (named_ref "a") (named_ref "b")
      {t = 51 ∷ 10 ∷ 52 ∷ 32 ∷ []} refl

-- The two files differ, and the one matches the text of the other.
newlines_of_files :
    (outputs_match (λ bytes. bytes) two_outputs (named_ref "a") (some (named_ref "b")) ≡ false)
    × (outputs_match
          (λ bytes. bytes)
          two_outputs
          (named_ref "a")
          (some (text_ref (51 ∷ 10 ∷ 52 ∷ [])))
        ≡ true)
unfolding outputs_match texts_match ref_full_text translate_newlines paths_match_stripped
    check_output strip encode encode_char
newlines_of_files = (refl, refl)

abbrev no_flags : Flags
no_flags = record { capacity_warning_logged = false; production_warning_logged = false }

warnings_once_example :
    ((warn_if_pool_capacity_is_lower_than_parallelism 8 settings
        (warn_if_pool_capacity_is_lower_than_parallelism 8 settings no_flags).0).1
      ≡ [])
    × ((warn_if_runtime_config_is_not_production_hardened false settings
          (warn_if_runtime_config_is_not_production_hardened false settings no_flags).0).1
        ≡ [])
warnings_once_example = warnings_once 8 false settings no_flags

build_languages_config-is_script_example :
    is_script (script "python3" ("python3" ∷ []))
    ≡ is_empty (strip (codes (or_text script_language.compile_command "")))
unfolding build_languages_config strip
build_languages_config-is_script_example =
    build_languages_config-is_script split_words script_language "main"
      {spec = script "python3" ("python3" ∷ [])} refl
