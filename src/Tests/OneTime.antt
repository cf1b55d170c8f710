-- ===== src/Tests/OneTime.antt =====
-- Runs of the captcha and of the password key, on a Redis that is a dictionary.
use acoj_worker.Common.{
  true, false, none, some, [], ◌∷◌, Text, codes, lower, strip, nat_eq, list_eq, ◌==◌, Dict, get,
  put, remove, get-put, get-remove, ◌≡◌, refl, arith,
}
use acoj_worker.Security.OneTime.{
  Secrets, IsSecrets, captcha_key, expired_key, passwords, password_crypto_key, create_captcha,
  verify_captcha, create_password_key, decrypt_values, decrypt_passwords,
}
use acoj_worker.Security.OneTime.Use.{verify_captcha-once, create_captcha-verify}

-- A hash is the text behind a mark.
abbrev plain : Secrets
plain = record {
  Redis = Dict Text Text;
  Key = Text;
  get = λ k s. get k s;
  setex = λ k ttl v s. put k v s;
  delete = λ k s. remove k s;
  lower = lower;
  hash_password = λ t. 35 ∷ t;
  verify_password = λ t hashed. hashed == 35 ∷ t;
  load_key = λ pem. some pem;
  decrypt = λ key value. some value;
  captcha_ttl_seconds = 60;
  password_crypto_key_ttl_seconds = 60;
}

plain-IsSecrets : IsSecrets plain
plain-IsSecrets = record {
  get-setex = λ j k ttl v s long. get-put k j v s;
  get-delete = λ j k s. get-remove k j s;
  captcha_ttl-positive = omega arith;
  hash-filled = λ t. refl;
}

verify_captcha_sample :
    (verify_captcha plain
      (codes "1")
      (codes " ab2c ")
      (create_captcha plain (codes "1") (codes "AB2C") [])).0
    ≡ true
unfolding verify_captcha create_captcha captcha_key get put lower strip
verify_captcha_sample = refl

decrypt_passwords_sample :
    (decrypt_passwords plain
      (codes "k")
      (none ∷ some (codes "x") ∷ [])
      (create_password_key plain (codes "k") (codes "pem") [])).0
    ≡ passwords (none ∷ some (codes "x") ∷ [])
unfolding decrypt_passwords create_password_key decrypt_values password_crypto_key get put
decrypt_passwords_sample = refl

verify_captcha-once_example :
    ((verify_captcha plain
        (codes "1")
        (codes "ab2c")
        (verify_captcha plain
          (codes "1")
          (codes "x")
          (create_captcha plain (codes "1") (codes "AB2C") [])).1).0
      ≡ false)
    × ((decrypt_passwords plain
          (codes "k")
          []
          (decrypt_passwords plain
            (codes "k")
            []
            (create_captcha plain (codes "1") (codes "AB2C") [])).1).0
        ≡ expired_key)
verify_captcha-once_example =
    verify_captcha-once plain plain-IsSecrets (codes "1") (codes "x") (codes "ab2c") (codes "k") []
      [] (create_captcha plain (codes "1") (codes "AB2C") [])

create_captcha-verify_example :
    (verify_captcha plain
      (codes "1")
      (codes "ab2c")
      (create_captcha plain (codes "1") (codes "AB2C") [])).0
    ≡ (35 ∷ lower (codes "AB2C") == 35 ∷ lower (strip (codes "ab2c")))
create_captcha-verify_example =
    create_captcha-verify plain plain-IsSecrets (codes "1") (codes "AB2C") (codes "ab2c") []
