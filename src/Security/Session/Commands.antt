-- ===== src/Security/Session/Commands.antt =====
-- session.py: what the operations do to the string of a token and to the set of an account.
use acoj_worker.Common.{
  mem-unique, unique, ℕ, ◌<◌, Bool, false, ◌&&◌, ◌||◌, Option, none, some, List, [], ◌∷◌, ◌++◌, map,
  mem, Text, nat_eq, list_eq, pair_eq, ◌==◌, ==_of_ne, if◌then◌else◌, ◌≡◌, refl, ap, ◌∙◌, arith,
}
use acoj_worker.Security.Session.Services.{SessionPayload, Services, IsRedis}
use acoj_worker.Security.Session.Store.{
  login_token_key, login_tokens_key, Target, account_key, target_of, each_of, store_session,
  all_tokens, get_accounts_tokens, delete_accounts_sessions,
}
use acoj_worker.Security.Session.Effects.{
  token_key-eqb, token_key-account_key, account_key-token_key, tokens_key-token_key,
  tokens_key-account_key, mem-keys_token, mem-keys_account,
}

module _ (r : Services) where
  -- The string of a token, and whether a token is in the set of an account
  abbrev pub entry : Text → r.Redis → Option r.Raw
  entry t s = r.get (login_token_key t) s

  abbrev pub in_set : Target → Text → r.Redis → Bool
  in_set a t s = mem t (r.smembers (account_key a) s)

  -- The tokens of the accounts
  abbrev pub online : List Target → r.Redis → List Text
  online targets s = all_tokens r (get_accounts_tokens r targets s)

  module _ (laws : IsRedis r) where
    pub entry-store_session :
        (t u : Text) (ttl : ℕ) (p : SessionPayload) (s : r.Redis)
        → 0 < ttl
        → entry t (store_session r u ttl p s) ≡ (if u == t then some (r.dumps p) else entry t s)
    unfolding store_session
    entry-store_session t u ttl p s h =
        let written = r.setex (login_token_key u) ttl (r.dumps p) s in
        laws.get-sadd (login_token_key t) login_tokens_key u
          (r.sadd (account_key (target_of p)) u written) (tokens_key-token_key t)
        ∙ laws.get-sadd (login_token_key t) (account_key (target_of p)) u written
            (account_key-token_key (target_of p) t)
        ∙ laws.get-setex (login_token_key t) (login_token_key u) ttl (r.dumps p) s h
        ∙ ap (λ b. if b then some (r.dumps p) else entry t s) (token_key-eqb u t)

    pub in_set-store_session :
        (a : Target) (t u : Text) (ttl : ℕ) (p : SessionPayload) (s : r.Redis)
        → in_set a t (store_session r u ttl p s)
          ≡ ((account_key (target_of p) == account_key a && u == t) || in_set a t s)
    unfolding store_session
    in_set-store_session a t u ttl p s =
        let written = r.setex (login_token_key u) ttl (r.dumps p) s in
        let apart = ==_of_ne login_tokens_key (account_key a) (tokens_key-account_key a) in
        let outer =
          laws.mem-sadd (account_key a) login_tokens_key t u
            (r.sadd (account_key (target_of p)) u written) in
        let inner = laws.mem-sadd (account_key a) (account_key (target_of p)) t u written in
        let same =
          laws.smembers-setex (account_key a) (login_token_key u) ttl (r.dumps p) s
            (token_key-account_key u a) in
        let same_mem : in_set a t written ≡ in_set a t s = ap (mem t) same in ground arith

    pub entry-each_srem :
        (t : Text) (us : List Text) (s : r.Redis)
        → entry t (each_of (r.srem login_tokens_key) us s) ≡ entry t s
    entry-each_srem t [] s = refl
    entry-each_srem t (u ∷ us) s =
        entry-each_srem t us (r.srem login_tokens_key u s)
        ∙ laws.get-srem (login_token_key t) login_tokens_key u s (tokens_key-token_key t)

    pub in_set-srem :
        (a : Target) (t u : Text) (s : r.Redis)
        → in_set a t (r.srem login_tokens_key u s) ≡ in_set a t s
    in_set-srem a t u s =
        let apart = ==_of_ne login_tokens_key (account_key a) (tokens_key-account_key a) in
        let one = laws.mem-srem (account_key a) login_tokens_key t u s in ground arith

    pub in_set-each_srem :
        (a : Target) (t : Text) (us : List Text) (s : r.Redis)
        → in_set a t (each_of (r.srem login_tokens_key) us s) ≡ in_set a t s
    in_set-each_srem a t [] s = refl
    in_set-each_srem a t (u ∷ us) s =
        in_set-each_srem a t us (r.srem login_tokens_key u s) ∙ in_set-srem a t u s

    get-each_delete :
        (j : Text) (ks : List Text) (s : r.Redis)
        → r.get j (each_of r.delete ks s) ≡ (if mem j ks then none else r.get j s)
    get-each_delete j [] s = refl
    get-each_delete j (k ∷ ks) s =
        let ih = get-each_delete j ks (r.delete k s) in
        let one = laws.get-delete j k s in ground arith

    mem-each_delete :
        (j t : Text) (ks : List Text) (s : r.Redis)
        → mem t (r.smembers j (each_of r.delete ks s))
          ≡ (if mem j ks then false else mem t (r.smembers j s))
    mem-each_delete j t [] s = refl
    mem-each_delete j t (k ∷ ks) s =
        let ih = mem-each_delete j t ks (r.delete k s) in
        let one = laws.mem-delete j k t s in ground arith

    pub entry-delete_accounts_sessions :
        (t : Text) (targets : List Target) (s : r.Redis)
        → entry t (delete_accounts_sessions r targets s)
          ≡ (if mem t (online targets s) then none else entry t s)
    unfolding delete_accounts_sessions
    entry-delete_accounts_sessions t targets s =
        let tokens = online targets s in
        let keys = map login_token_key tokens ++ map account_key (unique targets) in
        entry-each_srem t tokens (each_of r.delete (unique keys) s)
        ∙ get-each_delete (login_token_key t) (unique keys) s
        ∙ ap (λ b. if b then none else entry t s)
            (mem-unique (login_token_key t) keys ∙ mem-keys_token t tokens (unique targets))

    pub in_set-delete_accounts_sessions :
        (a : Target) (t : Text) (targets : List Target) (s : r.Redis)
        → in_set a t (delete_accounts_sessions r targets s)
          ≡ (if mem (account_key a) (map account_key (unique targets)) then false else in_set a t s)
    unfolding delete_accounts_sessions
    in_set-delete_accounts_sessions a t targets s =
        let tokens = online targets s in
        let keys = map login_token_key tokens ++ map account_key (unique targets) in
        in_set-each_srem a t tokens (each_of r.delete (unique keys) s)
        ∙ mem-each_delete (account_key a) t (unique keys) s
        ∙ ap (λ b. if b then false else in_set a t s)
            (mem-unique (account_key a) keys ∙ mem-keys_account a tokens (unique targets))
