-- ===== src/Judge/Checker.antt =====
-- app/modules/judge/checker.py. A text is the list of its code points, a file the list of its
-- bytes. The file system (`is_file`, `read_bytes`) and the codec `bytes.decode`
-- are parameters; `str.encode("utf-8")` is written out.
pub mod Chunks
pub mod Utf8
pub mod Outputs
use acoj_worker.Common.{
  Text, strip, ℕ, zero, suc, ◌+◌, ◌-◌, ◌*◌, ◌/◌, ◌%◌, String, Bool, true, false, ◌&&◌, ◌||◌, Option,
  none, some, List, [], ◌∷◌, ◌++◌, ltb, leb, length, take, drop, ◌==◌, nat_eq, list_eq,
  if◌then◌else◌,
}

abbrev pub Bytes : Type 0
Bytes = List ℕ

unfoldable pub encode_char : ℕ → Bytes
encode_char c =
    if ltb c 128
    then c ∷ []
    else if ltb c 2048
    then (192 + c / 64) ∷ (128 + c % 64) ∷ []
    else if ltb c 65536
    then (224 + c / 4096) ∷ (128 + c / 64 % 64) ∷ (128 + c % 64) ∷ []
    else (240 + c / 262144) ∷ (128 + c / 4096 % 64) ∷ (128 + c / 64 % 64) ∷ (128 + c % 64) ∷ []

-- `str.encode("utf-8")`
unfoldable pub encode : Text → Bytes
encode [] = []
encode (c ∷ s) = encode_char c ++ encode s

-- `acoj_sandbox.DataRef`, as far as the judge reads it.
pub data RefData : Type 0 where
  no_data : RefData
  bytes : Bytes → RefData
  text : Text → RefData

pub record DataRef : Type 0 where
  pub path : Option String
  pub data_of : RefData
  pub sha256 : Option String
  pub preview_text : String

-- `for i in range(0, len(ba), chunk_size)`, with the number of rounds left.
unfoldable pub chunks_match : ℕ → ℕ → ℕ → Bytes → Bytes → Bool
chunks_match chunk zero i ba bb = true
chunks_match chunk (suc rounds) i ba bb =
    let rest = chunks_match chunk rounds (i + chunk) ba bb in
    if take chunk (drop i ba) == take chunk (drop i bb) then rest else false

-- `len(range(0, n, chunk))`
abbrev pub range_length : ℕ → ℕ → ℕ
range_length n chunk = (n + (chunk - 1)) / chunk

unfoldable pub check_output : Text → Option Text → Bool
check_output actual_preview none = true
check_output actual_preview (some expected_text) = strip actual_preview == strip expected_text

-- What stands under a path: `none` if it is no file.
abbrev pub existing_file : (String → Option Bytes) → Option String → Option Bytes
existing_file file_at none = none
existing_file file_at (some path) = file_at path

abbrev pub text_of_data : (Bytes → Text) → RefData → Option Text
text_of_data decode no_data = none
text_of_data decode (bytes b) = some (decode b)
text_of_data decode (text s) = some s

abbrev pub line_feed : ℕ
line_feed = 10

abbrev pub carriage_return : ℕ
carriage_return = 13

abbrev pub begins_with : ℕ → Text → Bool
begins_with c [] = false
begins_with c (d ∷ s) = d == c

-- The universal newlines of `Path.read_text`: each "\r\n" and each other "\r" becomes "\n".
unfoldable pub translate_newlines : Text → Text
translate_newlines [] = []
translate_newlines (c ∷ s) =
    let rest = translate_newlines s in
    if c == carriage_return
    then (if begins_with line_feed s then rest else line_feed ∷ rest)
    else c ∷ rest

module _ (decode : Bytes → Text) where
  -- The last argument is `chunk_size`.
  unfoldable pub paths_match_stripped : Bytes → Bytes → ℕ → Bool
  unfolding chunks_match
  paths_match_stripped data_a data_b chunk_size =
      let text_a = strip (decode data_a) in
      let text_b = strip (decode data_b) in
      let ba = encode text_a in
      let bb = encode text_b in
      if length text_a == length text_b
      then (if length ba == length bb
          then chunks_match chunk_size (range_length (length ba) chunk_size) 0 ba bb
          else false)
      else false

  module _ (file_at : String → Option Bytes) where
    unfoldable pub ref_full_text : DataRef → Option Text
    ref_full_text ref = elim (existing_file file_at ref.path) [
      | some content ↦ some (translate_newlines (decode content))
      | none ↦ text_of_data decode ref.data_of
    ]

    -- The part of `outputs_match` that compares texts.
    unfoldable pub texts_match : DataRef → DataRef → Bool
    unfolding ref_full_text check_output
    texts_match actual_ref expected_ref = elim (ref_full_text expected_ref) [
      | none ↦ true
      | some expected_text ↦
          check_output (elim (ref_full_text actual_ref) [ none ↦ [] | some s ↦ s ])
            (some expected_text)
    ]

    unfoldable pub outputs_match : DataRef → Option DataRef → Bool
    outputs_match actual_ref none = true
    outputs_match actual_ref (some expected_ref) = elim (existing_file file_at actual_ref.path) [
      | none ↦ texts_match actual_ref expected_ref
      | some a ↦ elim (existing_file file_at expected_ref.path) [
        | none ↦ texts_match actual_ref expected_ref
        | some b ↦ paths_match_stripped a b (1024 * 1024)
      ]
    ]
