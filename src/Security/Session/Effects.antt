-- ===== src/Security/Session/Effects.antt =====
-- The keys of session.py: which are apart, and what a list of them has.
use acoj_worker.Common.{
  char_at, other_char, true, false, ◌||◌, List, [], ◌∷◌, ◌++◌, map, mem, Text, nat_eq, list_eq,
  list_beq_iff, ◌==◌, ==_of_ne, ◌≡◌, ◌≢◌, ◌↔◌, refl, sym, ap, arith,
}
use acoj_worker.Security.Session.Store.{
  login_token_key, login_account_tokens_key, login_tokens_key, Target, account_key,
}

pub token_key-injective : (t u : Text) → login_token_key t ≡ login_token_key u → t ≡ u
unfolding login_token_key
token_key-injective t u h = cc

pub text_iff : (t u : Text) → ((t == u) ≡ true) ↔ (t ≡ u)
text_iff t u = list_beq_iff t u

-- The key of a token is that of no account, and neither is the key of all tokens.
pub account_key-token_key : (a : Target) (t : Text) → account_key a ≢ login_token_key t
unfolding login_token_key login_account_tokens_key char_at
account_key-token_key a t h = other_char 97 116 refl (ap (char_at 6) h)

pub token_key-account_key : (t : Text) (a : Target) → login_token_key t ≢ account_key a
token_key-account_key t a h = account_key-token_key a t (sym h)

pub tokens_key-token_key : (t : Text) → login_tokens_key ≢ login_token_key t
unfolding login_token_key login_tokens_key char_at
tokens_key-token_key t h = other_char 115 58 refl (ap (char_at 11) h)

pub tokens_key-account_key : (a : Target) → login_tokens_key ≢ account_key a
unfolding login_tokens_key login_account_tokens_key char_at
tokens_key-account_key a h = other_char 116 97 refl (ap (char_at 6) h)

pub token_key-eqb : (t u : Text) → (login_token_key t == login_token_key u) ≡ (t == u)
token_key-eqb t u =
    let forth = token_key-injective t u in
    let back = λ (h : t ≡ u). ap login_token_key h in
    ground (arith, text_iff t u, text_iff (login_token_key t) (login_token_key u))

-- A key against the keys of a list
mem-map_token_key :
    (t : Text) (us : List Text) → mem (login_token_key t) (map login_token_key us) ≡ mem t us
mem-map_token_key t [] = refl
mem-map_token_key t (u ∷ us) = ground (arith, token_key-eqb u t, mem-map_token_key t us)

mem-map-none :
    {A : Type 0} (f : A → Text) (k : Text) (xs : List A)
    → ((x : A) → f x ≢ k)
    → mem k (map f xs) ≡ false
mem-map-none f k [] h = refl
mem-map-none f k (x ∷ xs) h =
    let apart = ==_of_ne (f x) k (h x) in ground (arith, mem-map-none f k xs h)

mem-append : (k : Text) (xs ys : List Text) → mem k (xs ++ ys) ≡ (mem k xs || mem k ys)
mem-append k [] ys = refl
mem-append k (x ∷ xs) ys = ground (arith, mem-append k xs ys)

-- The keys that `delete_accounts_sessions` deletes
pub mem-keys_token :
    (t : Text) (tokens : List Text) (targets : List Target)
    → mem (login_token_key t) (map login_token_key tokens ++ map account_key targets) ≡ mem t tokens
mem-keys_token t tokens targets =
    let none_here =
      mem-map-none account_key (login_token_key t) targets (λ a. account_key-token_key a t) in
    ground (
      arith,
      mem-append (login_token_key t) (map login_token_key tokens) (map account_key targets),
      mem-map_token_key t tokens,
    )

pub mem-keys_account :
    (a : Target) (tokens : List Text) (targets : List Target)
    → mem (account_key a) (map login_token_key tokens ++ map account_key targets)
      ≡ mem (account_key a) (map account_key targets)
mem-keys_account a tokens targets =
    let none_here =
      mem-map-none login_token_key (account_key a) tokens (λ t. token_key-account_key t a) in
    ground
      (arith, mem-append (account_key a) (map login_token_key tokens) (map account_key targets))
