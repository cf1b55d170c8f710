-- ===== src/Judge/DataLoader.antt =====
-- app/modules/judge/data_loader.py. The storage is an interface: `get_path` is there for a local
-- storage only, and `resolve_or_download` is `FileCache`'s. A text is put in a message by `++`.
pub mod Integrity
use Prim.Native.String.{◌++◌}
use acoj_worker.Common.{
  String, Bool, true, false, not, ◌&&◌, Option, none, some, List, [], ◌∷◌, ◌==◌, string_eq,
  if◌then◌else◌, get_or, Exception, runtime_error, value_error, Result, ok, raise,
}
use acoj_worker.Common.Exec.{Exec, pure, throw, lift, continue, ◌>>=◌}
use acoj_worker.Judge.Types.{Problem, TestCase}
use acoj_worker.Judge.Checker.{DataRef}
use acoj_worker.Judge.LanguageConfig.{JudgeLimits, or_text}
use acoj_worker.Judge.CaseBuilder.{build_judge_limits}
use acoj_worker.Common.{ℕ}

pub record Storage (S : Type 0) : Type 0 where
  -- `_storage.get_path`, if the storage has it
  pub get_path : Option (String → Result String)
  -- `file_cache.resolve_or_download`
  pub resolve_or_download : String → String → Exec S (Option String)
  -- `Path.exists`
  pub path_exists : S → String → Bool
  -- `DataRef.from_path(path, compute_hash="always")`
  pub from_path : S → String → DataRef
  -- `DataRef.from_data`
  pub from_data : String → DataRef

-- `acoj_sandbox.JudgeCase`; the number stands for its text, `str(tc["case_no"])`.
pub record JudgeCase : Type 0 where
  pub case_id : ℕ
  pub input : DataRef
  pub expected_output : Option DataRef
  pub limits : JudgeLimits

-- `except ValueError: return None`
abbrev pub none_of_value_error : Result String → Result (Option String)
none_of_value_error (ok path) = ok (some path)
none_of_value_error (raise (value_error m)) = ok none
none_of_value_error (raise x) = raise x

-- `expected_sha256 and ref.sha256 and ref.sha256 != expected_sha256`
abbrev pub hash_differs : String → Option String → Bool
hash_differs expected none = false
hash_differs expected (some actual) =
    not (expected == "") && (not (actual == "") && not (actual == expected))

module _ {S : Type 0} (storage : Storage S) where
  unfoldable pub resolve_file : String → String → Exec S (Option String)
  resolve_file object_name sha256 = elim (storage.get_path) [
    | some get_path ↦ lift (none_of_value_error (get_path object_name))
    | none ↦ storage.resolve_or_download object_name sha256
  ]

  -- What the two loaders do with the path that they are given, if any.
  unfoldable pub checked_ref :
      (missing differs name expected_sha256 : String) → Option String → Exec S DataRef
  checked_ref missing differs name expected_sha256 none s =
      throw (runtime_error (missing ++ name)) s
  checked_ref missing differs name expected_sha256 (some path) s =
      if storage.path_exists s path
      then (if hash_differs expected_sha256 (storage.from_path s path).sha256
          then throw (runtime_error (differs ++ name)) s
          else pure (storage.from_path s path) s)
      else throw (runtime_error (missing ++ name)) s

  -- The branch of a test case whose data are a file, for the input and for the output.
  unfoldable pub file_ref : (missing differs name expected_sha256 : String) → Exec S DataRef
  file_ref missing differs name expected_sha256 = do
    file_path ← resolve_file name expected_sha256
    checked_ref missing differs name expected_sha256 file_path

  module _ {F : Type 0} where
    unfoldable pub resolve_input_ref : TestCase F → Exec S DataRef
    resolve_input_ref tc =
        let input_file = or_text tc.input_file "" in
        if not (input_file == "")
        then file_ref "测试数据输入文件不存在或无法下载: " "测试数据文件 hash 不匹配: " input_file
            (or_text tc.input_sha256 "")
        else pure (storage.from_data (get_or tc.input_inline ""))

    unfoldable pub resolve_output_ref : TestCase F → Exec S (Option DataRef)
    resolve_output_ref tc =
        let output_file = or_text tc.output_file "" in
        if not (output_file == "")
        then (do
          ref ←
              file_ref "测试数据输出文件不存在或无法下载: " "测试数据文件 hash 不匹配: " output_file
                (or_text tc.output_sha256 "")
          pure (some ref))
        else pure (elim (tc.output_inline) [ none ↦ none | some s ↦ some (storage.from_data s) ])

    -- build_judge_cases
    unfoldable pub build_judge_cases : List (TestCase F) → Problem F → Exec S (List JudgeCase)
    build_judge_cases [] problem = pure []
    build_judge_cases (tc ∷ tcs) problem = do
      input ← resolve_input_ref tc
      expected_output ← resolve_output_ref tc
      cases ← build_judge_cases tcs problem
      pure (
          record {
            case_id = tc.case_no;
            input = input;
            expected_output = expected_output;
            limits = build_judge_limits tc problem;
          }
          ∷ cases)
