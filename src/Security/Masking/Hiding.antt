-- ===== src/Security/Masking/Hiding.antt =====
-- What a masked text does not tell.
use acoj_worker.Common.{
  ℕ, ◌-◌, ltb, false, some, [], ◌∷◌, ◌++◌, length, drop, any, Text, codes, nat_eq, ◌==◌, ◌≡◌, refl,
  ap, sym, ◌∙◌, arith, length-append,
}
use acoj_worker.Security.Masking.{find_at, mask_at, mask_email, mask_phone}

find_at-append :
    (u d : Text) → any (λ c. c == 64) u ≡ false → find_at (u ++ 64 ∷ d) ≡ some (length u)
unfolding find_at
find_at-append [] d h = refl
find_at-append (c ∷ u) d h = let ih = find_at-append u d in ground arith

drop-append : (u v : Text) → drop (length u) (u ++ v) ≡ v
drop-append [] v = refl
drop-append (c ∷ u) v = drop-append u v

mask_email_lem :
    (x y : ℕ) (u d : Text)
    → any (λ c. c == 64) (x ∷ y ∷ u) ≡ false
    → mask_email ((x ∷ y ∷ u) ++ 64 ∷ d) ≡ x ∷ codes "***" ++ 64 ∷ d
unfolding mask_email mask_at
mask_email_lem x y u d h =
    let email = (x ∷ y ∷ u) ++ 64 ∷ d in
    let found = ap (mask_at email) (find_at-append (x ∷ y ∷ u) d h) in
    let long : ltb (length (x ∷ y ∷ u)) 2 ≡ false = ground arith in
    found ∙ rw long (ap (λ t. x ∷ codes "***" ++ t) (drop-append (x ∷ y ∷ u) (64 ∷ d)))

-- Two addresses with the same first character and the same domain, whose local parts have at least
-- two characters and no `@`, are masked to the same text: the rest of the local part stays hidden.
pub mask_email-hides :
    (x y z : ℕ) (u v d : Text)
    → any (λ c. c == 64) (x ∷ y ∷ u) ≡ false
    → any (λ c. c == 64) (x ∷ z ∷ v) ≡ false
    → mask_email ((x ∷ y ∷ u) ++ 64 ∷ d) ≡ mask_email ((x ∷ z ∷ v) ++ 64 ∷ d)
mask_email-hides x y z u v d hu hv = mask_email_lem x y u d hu ∙ sym (mask_email_lem x z v d hv)

mask_phone_lem :
    (a b c : ℕ) (u last : Text)
    → length last ≡ 4
    → mask_phone ((a ∷ b ∷ c ∷ u) ++ last) ≡ a ∷ b ∷ c ∷ codes "****" ++ last
unfolding mask_phone
mask_phone_lem a b c u last h =
    let phone = (a ∷ b ∷ c ∷ u) ++ last in
    let total = length-append (a ∷ b ∷ c ∷ u) last in
    let long : ltb (length phone) 7 ≡ false = ground arith in
    let cut : length phone - 4 ≡ length (a ∷ b ∷ c ∷ u) = omega (arith, total, h) in
    rw long (
      ap (λ n. a ∷ b ∷ c ∷ codes "****" ++ drop n phone) cut
      ∙ ap (λ t. a ∷ b ∷ c ∷ codes "****" ++ t) (drop-append (a ∷ b ∷ c ∷ u) last))

-- Two numbers with the same first three and the same last four characters are masked to the same
-- text: what is between them, and how much, stays hidden.
pub mask_phone-hides :
    (a b c : ℕ) (u v last : Text)
    → length last ≡ 4
    → mask_phone ((a ∷ b ∷ c ∷ u) ++ last) ≡ mask_phone ((a ∷ b ∷ c ∷ v) ++ last)
mask_phone-hides a b c u v last h =
    mask_phone_lem a b c u last h ∙ sym (mask_phone_lem a b c v last h)
