-- ===== src/Security/OneTime.antt =====
-- app/core/security/transport.py: the captcha and the password key, which Redis keeps for one use.
-- Redis, the hash of a password and the private key are a record; drawing and encoding are elsewhere.
pub mod Use
use acoj_worker.Common.{
  ℕ, ◌<◌, Bool, true, false, not, ◌&&◌, Option, none, some, List, [], ◌∷◌, ◌++◌, Text, codes, strip,
  is_empty, nat_eq, list_eq, ◌==◌, if◌then◌else◌, ◌≡◌,
}

pub record Secrets : Type 1 where
  pub Redis : Type 0
  pub Key : Type 0
  pub get : Text → Redis → Option Text
  pub setex : Text → ℕ → Text → Redis → Redis
  pub delete : Text → Redis → Redis
  pub lower : Text → Text
  pub hash_password : Text → Text
  pub verify_password : (plain hashed : Text) → Bool
  pub load_key : (pem : Text) → Option Key
  pub decrypt : Key → Text → Option Text
  pub captcha_ttl_seconds : ℕ
  pub password_crypto_key_ttl_seconds : ℕ

-- What Redis documents of its commands, and that no hash is the empty text
pub record IsSecrets (c : Secrets) : Type 0 where
  pub get-setex :
      (j k : Text) (ttl : ℕ) (v : Text) (s : c.Redis)
      → 0 < ttl
      → c.get j (c.setex k ttl v s) ≡ (if k == j then some v else c.get j s)
  pub get-delete :
      (j k : Text) (s : c.Redis) → c.get j (c.delete k s) ≡ (if k == j then none else c.get j s)
  pub captcha_ttl-positive : 0 < c.captcha_ttl_seconds
  pub hash-filled : (t : Text) → is_empty (c.hash_password t) ≡ false

unfoldable pub captcha_key : Text → Text
captcha_key captcha_id = codes "captcha:" ++ captcha_id

unfoldable pub password_crypto_key : Text → Text
password_crypto_key key_id = codes "password:crypto:" ++ key_id

-- A BusinessError, an exception of the key's format, or the values
pub data Decrypted : Type 0 where
  expired_key invalid_password other_exception : Decrypted
  passwords : List (Option Text) → Decrypted

module _ (c : Secrets) where
  -- `create_captcha`, for the characters and the id that are drawn
  unfoldable pub create_captcha : (captcha_id value : Text) → c.Redis → c.Redis
  create_captcha captcha_id value s =
      c.setex (captcha_key captcha_id) c.captcha_ttl_seconds (c.hash_password (c.lower value)) s

  abbrev pub is_answer : Option Text → (captcha_value : Text) → Bool
  is_answer none captcha_value = false
  is_answer (some raw) captcha_value =
      not (is_empty raw) && c.verify_password (c.lower (strip captcha_value)) raw

  -- `verify_captcha`: whether it returns, and what it leaves in Redis
  unfoldable pub verify_captcha : (captcha_id captcha_value : Text) → c.Redis → Bool × c.Redis
  verify_captcha captcha_id captcha_value s = (
    is_answer (c.get (captcha_key captcha_id) s) captcha_value,
    c.delete (captcha_key captcha_id) s,
  )

  -- `create_password_key`, for the id and the private key that are drawn
  unfoldable pub create_password_key : (key_id private_pem : Text) → c.Redis → c.Redis
  create_password_key key_id private_pem s =
      c.setex (password_crypto_key key_id) c.password_crypto_key_ttl_seconds private_pem s

  abbrev pub and_value : Option Text → Decrypted → Decrypted
  and_value value (passwords values) = passwords (value ∷ values)
  and_value value failed = failed

  -- The loop over the values, of which an empty one stays none
  unfoldable pub decrypt_values : c.Key → List (Option Text) → Decrypted
  decrypt_values key [] = passwords []
  decrypt_values key (none ∷ values) = and_value none (decrypt_values key values)
  decrypt_values key (some value ∷ values) =
      let rest = decrypt_values key values in
      let one : Decrypted = elim (c.decrypt key value) [
        | none ↦ invalid_password
        | some plain ↦ and_value (some plain) rest
      ] in
      if is_empty value then and_value none rest else one

  abbrev pub decrypt_with : Option c.Key → List (Option Text) → Decrypted
  decrypt_with none values = other_exception
  decrypt_with (some key) values = decrypt_values key values

  abbrev pub decrypt_stored :
      (key : Text) → Option Text → List (Option Text) → c.Redis → Decrypted × c.Redis
  decrypt_stored key none values s = (expired_key, s)
  decrypt_stored key (some raw) values s =
      if is_empty raw
      then (expired_key, s)
      else (decrypt_with (c.load_key raw) values, c.delete key s)

  -- `decrypt_passwords`; the key is deleted in the `finally`.
  unfoldable pub decrypt_passwords :
      (password_key_id : Text) → List (Option Text) → c.Redis → Decrypted × c.Redis
  decrypt_passwords password_key_id values s =
      let key = password_crypto_key password_key_id in decrypt_stored key (c.get key s) values s
