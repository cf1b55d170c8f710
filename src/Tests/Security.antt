-- ===== src/Tests/Security.antt =====
-- Runs of masking.py and password_policy.py.
use acoj_worker.Common.{
  ◌≤◌, true, false, not, ◌&&◌, ◌||◌, none, some, [], ◌∷◌, ◌++◌, length, any, Text, codes, ◌≡◌, ◌↔◌,
  refl, list_eq, nat_eq,
}
use acoj_worker.Security.Masking.{
  mask_email, mask_phone, before_last_dot, mask_ip, is_phone, mask_identifier,
}
use acoj_worker.Security.Masking.Hiding.{mask_email-hides, mask_phone-hides}
use acoj_worker.Security.PasswordPolicy.{
  PasswordPolicy, is_upper, is_lower, is_digit, is_special, is_common, common_passwords,
  validate_password_strength,
}
use acoj_worker.Security.PasswordPolicy.Accepting.{validate_password_strength_iff}

mask_ip_sample : mask_ip (codes "192.168.1.77") ≡ codes "192.168.1.*"
unfolding mask_ip before_last_dot
mask_ip_sample = refl

mask_identifier_sample :
    mask_identifier is_digit (some (codes "13812345678")) ≡ some (codes "138****5678")
unfolding mask_identifier is_phone mask_phone
mask_identifier_sample = refl

-- joe@x.io and jim@x.io
mask_email-hides_example :
    mask_email (codes "joe" ++ codes "@x.io") ≡ mask_email (codes "jim" ++ codes "@x.io")
mask_email-hides_example =
    mask_email-hides 106 111 105 (101 ∷ []) (109 ∷ []) (codes "x.io") refl refl

mask_phone-hides_example :
    mask_phone (codes "1380000" ++ codes "1234") ≡ mask_phone (codes "1389999" ++ codes "1234")
mask_phone-hides_example =
    mask_phone-hides 49 51 56 (codes "0000") (codes "9999") (codes "1234") refl

abbrev strict : PasswordPolicy
strict = record {
  min_length = 8;
  max_length = 64;
  require_uppercase = true;
  require_lowercase = true;
  require_digit = true;
  require_special = true;
  common_password_check = true;
}

abbrev same_text : Text → Text
same_text t = t

accept_strong : validate_password_strength strict same_text (codes "Ab1!cdef") ≡ none
unfolding validate_password_strength is_common common_passwords
accept_strong = refl

validate_password_strength_iff_example :
    (validate_password_strength strict same_text (codes "Ab1!cdef") ≡ none) ↔ (
      (8 ≤ length (codes "Ab1!cdef"))
      × (length (codes "Ab1!cdef") ≤ 64)
      × ((not true || any is_upper (codes "Ab1!cdef")) ≡ true)
      × ((not true || any is_lower (codes "Ab1!cdef")) ≡ true)
      × ((not true || any is_digit (codes "Ab1!cdef")) ≡ true)
      × ((not true || any is_special (codes "Ab1!cdef")) ≡ true)
      × ((true && is_common (codes "Ab1!cdef")) ≡ false))
validate_password_strength_iff_example =
    validate_password_strength_iff strict same_text (codes "Ab1!cdef")
