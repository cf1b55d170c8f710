-- ===== src/Judge/Checker/Utf8.antt =====
-- UTF-8 encoding loses nothing.
use acoj_worker.Common.{Text, ℕ, [], ◌∷◌, ◌++◌, ◌≡◌, refl, arith}
use acoj_worker.Judge.Checker.{Bytes, encode_char, encode}

encode_char-append_injective :
    (c d : ℕ) (xs ys : Bytes) → encode_char c ++ xs ≡ encode_char d ++ ys → (c ≡ d) × (xs ≡ ys)
unfolding encode_char
encode_char-append_injective c d xs ys h = ground arith

encode_char-append_ne : (c : ℕ) (xs : Bytes) → encode_char c ++ xs ≡ [] → ⊥
unfolding encode_char
encode_char-append_ne c xs h = ground arith

pub encode-injective : (s t : Text) → encode s ≡ encode t → s ≡ t
unfolding encode
encode-injective [] [] h = refl
encode-injective [] (d ∷ t) h = ground (arith, encode_char-append_ne d (encode t))
encode-injective (c ∷ s) [] h = ground (arith, encode_char-append_ne c (encode s))
encode-injective (c ∷ s) (d ∷ t) h =
    let both = encode_char-append_injective c d (encode s) (encode t) h in
    ground (arith, both, encode-injective s t both.1)
