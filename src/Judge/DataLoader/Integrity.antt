-- ===== src/Judge/DataLoader/Integrity.antt =====
-- What a reference that the loader hands out has been checked for.
use acoj_worker.Common.{
  String, true, false, Option, none, some, string_eq, ◌≡◌, ◌≢◌, arith, ok, ==_of_ne, get_or, ◌⊎◌,
}
use text.Mathlib.TextEquality.{eq_iff}
use acoj_worker.Common.Exec.{continue-eq-ok}
use acoj_worker.Judge.Types.{TestCase}
use acoj_worker.Judge.Checker.{DataRef}
use acoj_worker.Judge.LanguageConfig.{or_text}
use acoj_worker.Judge.DataLoader.{
  Storage, hash_differs, resolve_file, checked_ref, file_ref, resolve_input_ref,
}

hash_differs-false :
    (expected actual : String)
    → hash_differs expected (some actual) ≡ false
    → expected ≢ ""
    → actual ≢ ""
    → actual ≡ expected
hash_differs-false expected actual h ne na =
    ground (arith, eq_iff expected "", eq_iff actual "", eq_iff actual expected)

module _ {S : Type 0} (storage : Storage S) where
  -- A reference that comes back was found as a file, and its hash does not differ.
  abbrev FromFile : String → DataRef → Type 0
  FromFile expected ref =
      (path : String) × (s : S) × (storage.path_exists s path ≡ true)
      × (ref ≡ storage.from_path s path)
      × (hash_differs expected ref.sha256 ≡ false)

  checked_ref-FromFile :
      (missing differs name expected : String) (p : Option String) (s : S) {ref : DataRef}
      → (checked_ref storage missing differs name expected p s).0 ≡ ok ref
      → FromFile expected ref
  unfolding checked_ref
  checked_ref-FromFile missing differs name expected none s h = cc
  checked_ref-FromFile missing differs name expected (some path) s h =
      (path, s, ground arith, ground arith, ground arith)

  pub file_ref-FromFile :
      (missing differs name expected : String) (s : S) {ref : DataRef}
      → (file_ref storage missing differs name expected s).0 ≡ ok ref
      → FromFile expected ref
  unfolding file_ref
  file_ref-FromFile missing differs name expected s h =
      let (r, s') = resolve_file storage name expected s in
      let (p, found, rest) =
        continue-eq-ok r (checked_ref storage missing differs name expected) s' h in
      checked_ref-FromFile missing differs name expected p s' rest

  module _ {F : Type 0} (tc : TestCase F) (s : S) where
    resolve_input_ref-file_ref :
        or_text tc.input_file "" ≢ ""
        → resolve_input_ref storage tc s
          ≡ file_ref storage "测试数据输入文件不存在或无法下载: " "测试数据文件 hash 不匹配: "
              (or_text tc.input_file "")
              (or_text tc.input_sha256 "")
              s
    unfolding resolve_input_ref
    resolve_input_ref-file_ref file = rw (==_of_ne (or_text tc.input_file "") "" file)

    -- When the input comes from a file, a hash is given, and the reference that is returned has a hash,
    -- then it is the hash that is given.
    pub resolve_input_ref-hash :
        {ref : DataRef} {actual : String}
        → (resolve_input_ref storage tc s).0 ≡ ok ref
        → or_text tc.input_file "" ≢ ""
        → or_text tc.input_sha256 "" ≢ ""
        → ref.sha256 ≡ some actual
        → actual ≢ ""
        → actual ≡ or_text tc.input_sha256 ""
    resolve_input_ref-hash {ref} {actual} h file given e na =
        let found =
          file_ref-FromFile "测试数据输入文件不存在或无法下载: " "测试数据文件 hash 不匹配: " (or_text tc.input_file "")
            (or_text tc.input_sha256 "") s (rw (resolve_input_ref-file_ref file) at h) in
        hash_differs-false (or_text tc.input_sha256 "") actual (rw e at found.4) given na

    -- The reference is to a file that the storage has, whose hash is the given one if both are there.
    abbrev pub IsFound : DataRef → Type 0
    IsFound ref =
        let expected = or_text tc.input_sha256 "" in
        let (r, s') = resolve_file storage (or_text tc.input_file "") expected s in
        (path : String) × (r ≡ ok (some path))
        × (storage.path_exists s' path ≡ true)
        × (ref ≡ storage.from_path s' path)
        × ((expected ≡ "") ⊎ ((get_or ref.sha256 "" ≡ "") ⊎ (ref.sha256 ≡ some expected)))
