-- ===== src/Security/OneTime/Use.antt =====
-- transport.py: the uses of a captcha and of a password key.
use acoj_worker.Common.{
  false, Option, none, some, List, Text, strip, is_empty, nat_eq, list_eq, ==-refl, Bool-cases, ◌≡◌,
  refl, ap, arith, inl, inr,
}
use acoj_worker.Security.OneTime.{
  Secrets, IsSecrets, captcha_key, password_crypto_key, expired_key, create_captcha, is_answer,
  verify_captcha, decrypt_stored, decrypt_passwords,
}

module _ (c : Secrets) (laws : IsSecrets c) where
  gone : (key : Text) (s : c.Redis) → c.get key (c.delete key s) ≡ none
  gone key s = let deleted = laws.get-delete key key s in let itself = ==-refl key in ground arith

  decrypt_stored-again :
      (key : Text) (raw : Option Text) (values : List (Option Text)) (s : c.Redis)
      → c.get key s ≡ raw
      → (second : List (Option Text))
      → let s' = (decrypt_stored c key raw values s).1 in
        (decrypt_stored c key (c.get key s') second s').0 ≡ expired_key
  decrypt_stored-again key none values s e second = rw e refl
  decrypt_stored-again key (some raw) values s e second = elim (Bool-cases (is_empty raw)) [
    | inl empty ↦ rw (empty, e, empty) refl
    | inr filled ↦ rw (filled, gone key s) refl
  ]

  -- Whatever the first answer is, a second answer to a captcha is not accepted, and whatever becomes
  -- of the first use of a password key, the second finds none.
  pub verify_captcha-once :
      (captcha_id first second : Text) (password_key_id : Text) (values others : List (Option Text))
      (s : c.Redis)
      → ((verify_captcha c captcha_id second (verify_captcha c captcha_id first s).1).0 ≡ false)
        × ((decrypt_passwords c password_key_id others
              (decrypt_passwords c password_key_id values s).1).0
            ≡ expired_key)
  unfolding verify_captcha decrypt_passwords
  verify_captcha-once captcha_id first second password_key_id values others s =
      let key = password_crypto_key password_key_id in
      (
        ap (λ raw. is_answer c raw second) (gone (captcha_key captcha_id) s),
        decrypt_stored-again key (c.get key s) values s refl others,
      )

  -- The answer to a captcha that has just been made is accepted exactly when it matches the hash of
  -- the characters, both in lower case and the answer without white space around it.
  pub create_captcha-verify :
      (captcha_id value answer : Text) (s : c.Redis)
      → (verify_captcha c captcha_id answer (create_captcha c captcha_id value s)).0
        ≡ c.verify_password (c.lower (strip answer)) (c.hash_password (c.lower value))
  unfolding verify_captcha create_captcha
  create_captcha-verify captcha_id value answer s =
      let key = captcha_key captcha_id in
      let hash = c.hash_password (c.lower value) in
      let stored = laws.get-setex key key c.captcha_ttl_seconds hash s laws.captcha_ttl-positive in
      let itself = ==-refl key in
      let found : c.get key (create_captcha c captcha_id value s) ≡ some hash = ground arith in
      let filled = laws.hash-filled (c.lower value) in rw found (ground arith)
