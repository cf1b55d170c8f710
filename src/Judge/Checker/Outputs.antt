-- ===== src/Judge/Checker/Outputs.antt =====
-- What `outputs_match` decides.
use acoj_worker.Common.{
  Text, strip, ℕ, ◌<◌, ◌*◌, String, Bool, true, false, Option, some, none, is_some, ◌&&◌, length,
  ◌==◌, nat_eq, list_eq, list_beq_iff, ==-refl, ◌≡◌, refl, ap, ◌↔◌, arith, Option-cases, get_or, [],
  inl, inr, if◌then◌else◌, subst,
}
use acoj_worker.Judge.Checker.{
  Bytes, DataRef, encode, existing_file, check_output, paths_match_stripped, ref_full_text,
  texts_match, outputs_match, text_of_data, translate_newlines,
}
use acoj_worker.Judge.Checker.Chunks.{chunks_match_iff}
use acoj_worker.Judge.Checker.Utf8.{encode-injective}

same_length_test :
    (b c : Bool) {P : Type 0}
    → (b ≡ true → (c ≡ true) ↔ P)
    → (P → b ≡ true)
    → ((if b then c else false) ≡ true) ↔ P
same_length_test true c f g = f refl
same_length_test false c f g = (λ h. cc, λ p. cc (g p))

-- The comparison of two files, with its length tests and its chunks, is the comparison of the
-- stripped texts, for every chunk size.
pub paths_match_stripped_iff :
    (decode : Bytes → Text) (a b : Bytes) (chunk : ℕ)
    → 0 < chunk
    → (paths_match_stripped decode a b chunk ≡ true) ↔ (strip (decode a) ≡ strip (decode b))
unfolding paths_match_stripped
paths_match_stripped_iff decode a b chunk h =
    same_length_test _ _
      (λ e1.
        same_length_test _ _
          (λ e2.
            let both =
              chunks_match_iff chunk (encode (strip (decode a))) (encode (strip (decode b))) h
                (ground (arith, e2)) in
            (λ m. encode-injective _ _ (both.0 m), λ p. both.1 (ap encode p)))
          (λ p.
            subst (λ t. (length (encode (strip (decode a))) == length (encode t)) ≡ true) p
              (==-refl {A = ℕ} _)))
      (λ p. subst (λ t. (length (strip (decode a)) == length t) ≡ true) p (==-refl {A = ℕ} _))

abbrev pub is_file : (String → Option Bytes) → DataRef → Bool
is_file file_at ref = is_some (existing_file file_at ref.path)

module _ (decode : Bytes → Text) (file_at : String → Option Bytes) where
  -- The whole text of a reference, with the newlines of a file as they are or as "\n".
  abbrev pub whole_text : (as_it_is : Bool) → DataRef → Option Text
  whole_text as_it_is ref = elim (existing_file file_at ref.path) [
    | none ↦ text_of_data decode ref.data_of
    | some content ↦ some (if as_it_is then decode content else translate_newlines (decode content))
  ]

  -- Against an expected output that has a text, `outputs_match` says whether the two whole texts are
  -- equal up to white space at their ends, where two files are compared in chunks and elsewhere. The
  -- newlines of two files are compared as they are; those of one file are "\n" in the comparison.
  pub outputs_match_iff :
      (actual expected : DataRef) {t : Text}
      → whole_text (is_file file_at actual && is_file file_at expected) expected ≡ some t
      → (outputs_match decode file_at actual (some expected) ≡ true) ↔ (
          strip (get_or (whole_text (is_file file_at actual && is_file file_at expected) actual) [])
          ≡ strip t)
  unfolding outputs_match ref_full_text texts_match check_output
  outputs_match_iff actual expected {t} h =
      let same =
        list_beq_iff
          (strip
            (get_or (whole_text (is_file file_at actual && is_file file_at expected) actual) []))
          (strip t) in
      elim (Option-cases (existing_file file_at actual.path)) [
        | inl e ↦ ground (arith, same)
        | inr (a, e) ↦ elim (Option-cases (existing_file file_at expected.path)) [
          | inl e' ↦ ground (arith, same)
          | inr (b, e') ↦
              ground (arith, paths_match_stripped_iff decode a b (1024 * 1024) (omega arith))
        ]
      ]
