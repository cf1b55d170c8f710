-- ===== src/Security/Masking.antt =====
-- app/core/security/masking.py, on texts as lists of code points; `none` is None. An empty text is
-- returned as it is, like None.
pub mod Hiding
use acoj_worker.Common.{
  ℕ, suc, ◌-◌, ltb, Bool, true, false, ◌&&◌, Option, none, some, List, [], ◌∷◌, ◌++◌, length, take,
  drop, all, any, Text, codes, is_empty, nat_eq, ◌==◌, if◌then◌else◌,
}

-- `email.find("@")`; `none` is -1.
unfoldable pub find_at : Text → Option ℕ
find_at [] = none
find_at (c ∷ s) =
    let rest = find_at s in
    if c == 64 then some 0 else elim rest [ none ↦ none | some n ↦ some (suc n) ]

-- `mask_email`, with the position of the `@`
unfoldable pub mask_at : Text → Option ℕ → Text
mask_at email none = email
mask_at email (some at_idx) =
    if ltb at_idx 2 then email else take 1 email ++ codes "***" ++ drop at_idx email

-- mask_email, on a text
unfoldable pub mask_email : Text → Text
mask_email email = mask_at email (find_at email)

-- mask_phone, on a text
unfoldable pub mask_phone : Text → Text
mask_phone phone =
    if ltb (length phone) 7
    then phone
    else take 3 phone ++ codes "****" ++ drop (length phone - 4) phone

-- The part of `ip.rsplit(".", 1)` before the last dot, if there is a dot.
unfoldable pub before_last_dot : Text → Option Text
before_last_dot [] = none
before_last_dot (c ∷ s) =
    let rest = before_last_dot s in
    elim rest [ some front ↦ some (c ∷ front) | none ↦ if c == 46 then some [] else none ]

-- mask_ip, on a text
unfoldable pub mask_ip : Text → Text
mask_ip ip = elim (before_last_dot ip) [ none ↦ ip | some front ↦ front ++ codes ".*" ]

-- `re.fullmatch(r"1\d{10}", value)`, where `\d` is a decimal digit of any script.
unfoldable pub is_phone : (is_digit : ℕ → Bool) → Text → Bool
is_phone is_digit [] = false
is_phone is_digit (c ∷ s) = c == 49 && (length s == 10 && all is_digit s)

-- mask_identifier
unfoldable pub mask_identifier : (is_digit : ℕ → Bool) → Option Text → Option Text
mask_identifier is_digit none = none
mask_identifier is_digit (some value) =
    if any (λ c. c == 64) value
    then some (mask_email value)
    else if is_phone is_digit value
    then some (mask_phone value)
    else some value
