-- ===== src/Judge/Checker/Chunks.antt =====
-- Comparing chunk by chunk is comparing.
use acoj_worker.Common.{
  ℕ, zero, suc, ◌+◌, ◌*◌, ◌≤◌, ◌<◌, Bool, true, false, if◌then◌else◌, [], ◌∷◌, length, take, drop,
  take-append-drop, ◌==◌, nat_eq, list_eq, list_beq_iff, ==-refl, ◌≡◌, refl, sym, subst, ◌∙◌, ap,
  arith, ◌↔◌,
}
use native.Mathlib.Nat.{suc-add}
use acoj_worker.Judge.Checker.{Bytes, chunks_match, range_length}

drop-nil : (n : ℕ) → drop {A = ℕ} n [] ≡ []
drop-nil zero = refl
drop-nil (suc n) = refl

drop-drop : (i c : ℕ) (xs : Bytes) → drop (i + c) xs ≡ drop c (drop i xs)
drop-drop zero c xs = ap (λ n. drop n xs) (omega arith)
drop-drop (suc i) c [] = drop-nil (suc i + c) ∙ sym (drop-nil c)
drop-drop (suc i) c (x ∷ xs) = ap (λ n. drop n (x ∷ xs)) (suc-add i c) ∙ drop-drop i c xs

drop_of_length-le : (n : ℕ) (xs : Bytes) → length xs ≤ n → drop n xs ≡ []
drop_of_length-le zero [] h = refl
drop_of_length-le (suc n) [] h = refl
drop_of_length-le zero (x ∷ xs) h = absurd (omega arith)
drop_of_length-le (suc n) (x ∷ xs) h = drop_of_length-le n xs (omega arith)

first_chunk : (a b : Bool) → (if a then b else false) ≡ true → (a ≡ true) × (b ≡ true)
first_chunk a b h = ground arith

chunks_match_sound :
    (chunk rounds i : ℕ) (ba bb : Bytes)
    → length ba ≡ length bb
    → length ba ≤ i + rounds * chunk
    → chunks_match chunk rounds i ba bb ≡ true
    → drop i ba ≡ drop i bb
unfolding chunks_match
chunks_match_sound chunk zero i ba bb e h m =
    drop_of_length-le i ba (omega arith) ∙ sym (drop_of_length-le i bb (omega arith))
chunks_match_sound chunk (suc rounds) i ba bb e h m =
    let (same, rest) =
      first_chunk (take chunk (drop i ba) == take chunk (drop i bb))
        (chunks_match chunk rounds (i + chunk) ba bb) m in
    let heads = (list_beq_iff (take chunk (drop i ba)) (take chunk (drop i bb))).0 same in
    let tails = chunks_match_sound chunk rounds (i + chunk) ba bb e (grind arith) rest in
    sym (take-append-drop chunk (drop i ba))
    ∙ cc (heads, tails, drop-drop i chunk ba, drop-drop i chunk bb)
    ∙ take-append-drop chunk (drop i bb)

chunks_match_refl : (chunk rounds i : ℕ) (ba : Bytes) → chunks_match chunk rounds i ba ba ≡ true
unfolding chunks_match
chunks_match_refl chunk zero i ba = refl
chunks_match_refl chunk (suc rounds) i ba =
    rw (==-refl (take chunk (drop i ba)), chunks_match_refl chunk rounds (i + chunk) ba)

range_length-mul : (n chunk : ℕ) → 0 < chunk → n ≤ range_length n chunk * chunk
range_length-mul n chunk h = grind arith

-- The loop accepts exactly equal contents of equal length.
pub chunks_match_iff :
    (chunk : ℕ) (ba bb : Bytes)
    → 0 < chunk
    → length ba ≡ length bb
    → (chunks_match chunk (range_length (length ba) chunk) 0 ba bb ≡ true) ↔ (ba ≡ bb)
chunks_match_iff chunk ba bb h e = (
  λ m.
      chunks_match_sound chunk (range_length (length ba) chunk) 0 ba bb e
        (omega (arith, range_length-mul (length ba) chunk h)) m,
  λ p.
      subst (λ b. chunks_match chunk (range_length (length ba) chunk) 0 ba b ≡ true) p
        (chunks_match_refl chunk (range_length (length ba) chunk) 0 ba),
)
