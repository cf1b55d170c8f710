-- ===== src/Security/PasswordPolicy.antt =====
-- app/core/security/password_policy.py. A `BusinessError` is a value that stands for its text;
-- `lower` is `str.lower`.
pub mod Accepting
use acoj_worker.Common.{
  ℕ, ◌+◌, min, ltb, leb, String, Bool, true, false, not, ◌&&◌, ◌||◌, Option, none, some, List, [],
  ◌∷◌, length, any, Text, codes, nat_eq, list_eq, ◌==◌, if◌then◌else◌,
}

-- settings.password_policy
pub record PasswordPolicy : Type 0 where
  pub min_length : ℕ
  pub max_length : ℕ
  pub require_uppercase : Bool
  pub require_lowercase : Bool
  pub require_digit : Bool
  pub require_special : Bool
  pub common_password_check : Bool

pub data BusinessError : Type 0 where
  too_short too_long : ℕ → BusinessError
  no_uppercase no_lowercase no_digit no_special too_common : BusinessError

-- _COMMON_PASSWORDS
unfoldable pub common_passwords : List String
common_passwords =
    "123456" ∷ "password" ∷ "12345678" ∷ "qwerty" ∷ "123456789" ∷ "12345" ∷ "1234" ∷ "111111"
    ∷ "1234567" ∷ "sunshine" ∷ "qwerty123" ∷ "iloveyou" ∷ "princess" ∷ "admin" ∷ "welcome"
    ∷ "666666" ∷ "abc123" ∷ "football" ∷ "123123" ∷ "monkey" ∷ "654321" ∷ "!@#$%^&*" ∷ "charlie"
    ∷ "aa123456" ∷ "donald" ∷ "password1" ∷ "qwerty12345" ∷ "1234567890" ∷ "letmein" ∷ "password123"
    ∷ "admin123" ∷ "passw0rd" ∷ "hello123" ∷ "test123" ∷ "root" ∷ "administrator" ∷ "p@ssw0rd"
    ∷ "qwertyuiop" ∷ "asdfghjkl" ∷ "zxcvbnm" ∷ "pass123" ∷ "password!" ∷ "default" ∷ "change123"
    ∷ "changeme" ∷ []

-- `[A-Z]`, `[a-z]`, `[0-9]` and `[^A-Za-z0-9]`
abbrev pub is_upper : ℕ → Bool
is_upper c = leb 65 c && leb c 90

abbrev pub is_lower : ℕ → Bool
is_lower c = leb 97 c && leb c 122

abbrev pub is_digit : ℕ → Bool
is_digit c = leb 48 c && leb c 57

abbrev pub is_special : ℕ → Bool
is_special c = not (is_upper c || (is_lower c || is_digit c))

unfoldable pub is_common : Text → Bool
is_common password = any (λ w. codes w == password) common_passwords

-- `validate_password_strength`: the first rule that is violated.
unfoldable pub validate_password_strength :
    PasswordPolicy → (lower : Text → Text) → Text → Option BusinessError
validate_password_strength policy lower password =
    if ltb (length password) policy.min_length
    then some (too_short policy.min_length)
    else if ltb policy.max_length (length password)
    then some (too_long policy.max_length)
    else if policy.require_uppercase && not (any is_upper password)
    then some no_uppercase
    else if policy.require_lowercase && not (any is_lower password)
    then some no_lowercase
    else if policy.require_digit && not (any is_digit password)
    then some no_digit
    else if policy.require_special && not (any is_special password)
    then some no_special
    else if policy.common_password_check && is_common (lower password)
    then some too_common
    else none

abbrev pub one_if : Bool → ℕ
one_if true = 1
one_if false = 0

-- `estimate_strength_level`
unfoldable pub estimate_strength_level : Text → ℕ
estimate_strength_level password =
    min
      (one_if (leb 8 (length password))
        + one_if (leb 12 (length password))
        + one_if (any is_upper password && any is_lower password)
        + one_if (any is_digit password && any is_special password))
      4
