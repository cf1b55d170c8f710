-- ===== src/Judge/LanguageConfig.antt =====
-- app/modules/judge/language_config.py. `shlex.split` is a parameter, and so is nothing else: the
-- specifications that the sandbox library builds are kept as the calls that build them.
pub mod Runtimes
use acoj_worker.Common.{
  ℕ, ◌*◌, String, Bool, true, false, not, ◌&&◌, ◌||◌, Option, none, some, List, [], ◌∷◌, ◌==◌,
  string_eq, nat_eq, list_eq, if◌then◌else◌, Text, codes, strip, lower, starts_with, is_empty,
  Result, ok, ◌>>=◌,
}
use acoj_worker.Judge.Types.{Language}

-- `acoj_sandbox.JudgeLimits`
pub record JudgeLimits : Type 0 where
  pub cpu_time_ms : ℕ
  pub real_time_ms : ℕ
  pub memory_bytes : ℕ
  pub processes : ℕ
  pub output_bytes : Option ℕ

pub record CommandSpec : Type 0 where
  pub argv : List String
  pub env : List String
  pub seccomp : String
  pub memory_limit_check_only : Bool
  pub limits : Option JudgeLimits

-- `LanguageSpec(…)`, `compiled_language(…)` and `script_language(…)`
pub data LanguageSpec : Type 0 where
  virt_as : (id source_filename exe_filename : String) (compile run : CommandSpec) → LanguageSpec
  compiled :
      (id exe_filename : String) (compile_argv run_argv : List String)
      (compile_limits : JudgeLimits)
      → LanguageSpec
  script : (id : String) (argv : List String) → LanguageSpec

-- `(language_key or "").strip().lower()`
unfoldable pub normal_key : String → Text
normal_key language_key = lower (strip (codes language_key))

-- `key in {"go", "golang"}`
unfoldable pub is_go : Text → Bool
is_go key = key == codes "go" || key == codes "golang"

unfoldable pub is_java : Text → Bool
is_java key = starts_with (codes "java") key

unfoldable pub needs_virt_as : String → Bool
needs_virt_as language_key = is_java (normal_key language_key) || is_go (normal_key language_key)

unfoldable pub default_exe_filename : String → String → String
default_exe_filename language_key exe_filename =
    if is_java (normal_key language_key) then "Main" else exe_filename

-- `value or default` on an optional text
abbrev pub or_text : Option String → String → String
or_text none d = d
or_text (some s) d = if s == "" then d else s

abbrev pub compile_limits : JudgeLimits
compile_limits = record {
  cpu_time_ms = 30000;
  real_time_ms = 60000;
  memory_bytes = 1024 * 1024 * 1024;
  processes = 256;
  output_bytes = some (64 * 1024 * 1024);
}

abbrev pub java_env : List String
java_env =
    "JAVA_HOME=/usr/lib/jvm/java-17-openjdk-amd64"
    ∷ "LD_LIBRARY_PATH=/usr/lib/jvm/java-17-openjdk-amd64/lib" ∷ []

abbrev pub go_env : List String
go_env = "GOCACHE=/tmp/go-cache" ∷ "GOPROXY=off" ∷ "GO111MODULE=off" ∷ "HOME=/tmp" ∷ []

-- The two environments, of the compiler and of the program.
unfoldable pub virt_as_env : Text → List String × List String
virt_as_env key =
    if is_go key then (go_env, []) else if is_java key then (java_env, java_env) else ([], [])

-- `LanguageSpec(…)` of a language whose runtime reserves much address space.
unfoldable pub virt_as_spec :
    Language → (exe_name : String) (compile_argv run_argv : List String) → LanguageSpec
unfolding virt_as_env
virt_as_spec language exe_name compile_argv run_argv =
    let key = normal_key language.key in
    let env = virt_as_env key in
    virt_as language.key
      (or_text language.source_filename (if is_java key then "Main.java" else "main.go")) exe_name
      (record {
        argv = compile_argv;
        env = env.0;
        seccomp = "none";
        memory_limit_check_only = true;
        limits = some compile_limits;
      })
      (record {
        argv = run_argv;
        env = env.1;
        seccomp = "none";
        memory_limit_check_only = true;
        limits = none;
      })

-- The result is the one language of the `LanguagesConfig`.
unfoldable pub build_languages_config :
    (split : String → Result (List String))
    → Language
    → (exe_filename : String) → Result LanguageSpec
build_languages_config split language exe_filename =
    let compile_cmd = or_text language.compile_command "" in
    let exe_name = default_exe_filename language.key exe_filename in
    if not (is_empty (strip (codes compile_cmd)))
    then (do
      compile_argv ← split compile_cmd
      run_argv ← split (or_text language.run_command "{exe}")
      ok (
          if needs_virt_as language.key
          then virt_as_spec language exe_name compile_argv run_argv
          else compiled language.key exe_name compile_argv run_argv compile_limits))
    else (do run_argv ← split (or_text language.run_command ""); ok (script language.key run_argv))
