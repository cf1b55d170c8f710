-- ===== src/Security/PasswordPolicy/Accepting.antt =====
-- Which passwords are accepted, and how strong they are.
use acoj_worker.Common.{◌≤◌, true, false, not, ◌&&◌, ◌||◌, none, length, any, Text, ◌≡◌, ◌↔◌, arith}
use acoj_worker.Security.PasswordPolicy.{
  PasswordPolicy, is_upper, is_lower, is_digit, is_special, is_common, validate_password_strength,
  estimate_strength_level,
}

-- A password is accepted exactly when its length is within the two bounds, it has each kind of
-- character that the policy requires, and it is not a common one where that is checked.
pub validate_password_strength_iff :
    (policy : PasswordPolicy) (lower : Text → Text) (password : Text)
    → (validate_password_strength policy lower password ≡ none) ↔ (
        (policy.min_length ≤ length password)
        × (length password ≤ policy.max_length)
        × ((not policy.require_uppercase || any is_upper password) ≡ true)
        × ((not policy.require_lowercase || any is_lower password) ≡ true)
        × ((not policy.require_digit || any is_digit password) ≡ true)
        × ((not policy.require_special || any is_special password) ≡ true)
        × ((policy.common_password_check && is_common (lower password)) ≡ false))
unfolding validate_password_strength
validate_password_strength_iff policy lower password = ground arith

-- A password that a policy accepts which asks for eight characters and for each kind of character
-- has at least the strength level 3.
pub estimate_strength_level-accepted :
    (policy : PasswordPolicy) (lower : Text → Text) (password : Text)
    → 8 ≤ policy.min_length
    → policy.require_uppercase ≡ true
    → policy.require_lowercase ≡ true
    → policy.require_digit ≡ true
    → policy.require_special ≡ true
    → validate_password_strength policy lower password ≡ none
    → 3 ≤ estimate_strength_level password
unfolding validate_password_strength estimate_strength_level
estimate_strength_level-accepted policy lower password long u l d s accepted = ground arith
