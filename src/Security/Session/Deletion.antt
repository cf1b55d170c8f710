-- ===== src/Security/Session/Deletion.antt =====
-- session.py: the sets of the accounts and `delete`.
use acoj_worker.Common.{
  ℕ, Option, none, some, Text, nat_eq, list_eq, pair_eq, ◌==◌, ==-refl, ==_of_ne, Bool-cases, ◌≡◌,
  sym, ap, ◌∙◌, arith, inl, inr,
}
use acoj_worker.Security.Session.Services.{SessionPayload, Services, IsRedis}
use acoj_worker.Security.Session.Store.{
  login_token_key, login_tokens_key, account_key, target_of, get, delete, forget,
}
use acoj_worker.Security.Session.Effects.{
  text_iff, token_key-account_key, account_key-token_key, tokens_key-token_key,
}
use acoj_worker.Security.Session.Commands.{entry, in_set-srem}
use acoj_worker.Security.Session.Index.{IsIndexed, is_indexed-keep}

module _ (r : Services) (laws : IsRedis r) where
  -- Removing the token from one account's set
  forget-IsIndexed :
      (o : Option SessionPayload) (token : Text) (s : r.Redis)
      → entry r token s ≡ none
      → IsIndexed r s
      → IsIndexed r (forget r o token s)
  forget-IsIndexed none token s gone h u = h u
  forget-IsIndexed (some p) token s gone h u =
      let key = account_key (target_of p) in
      let same =
        laws.get-srem (login_token_key u) key token s (account_key-token_key (target_of p) u) in
      is_indexed-keep r u s (r.srem key token s) (inr same)
        (λ raw there on.
          let kept = laws.mem-srem (account_key (target_of (r.loads raw))) key u token s in
          elim (Bool-cases (token == u)) [
            | inl e ↦
                let is_u = (text_iff token u).0 e in
                let gone_u : entry r u s ≡ none = ap (λ t. entry r t s) (sym is_u) ∙ gone in
                absurd (ground arith)
            | inr e ↦ ground arith
          ])
        (h u)

  delete_key-IsIndexed :
      (token : Text) (s : r.Redis)
      → IsIndexed r s
      → IsIndexed r (r.srem login_tokens_key token (r.delete (login_token_key token) s))
  delete_key-IsIndexed token s h u =
      let s1 = r.delete (login_token_key token) s in
      let s2 = r.srem login_tokens_key token s1 in
      let same =
        laws.get-srem (login_token_key u) login_tokens_key token s1 (tokens_key-token_key u) in
      let deleted = laws.get-delete (login_token_key u) (login_token_key token) s in
      is_indexed-keep r u s s2
        (elim (Bool-cases (login_token_key token == login_token_key u)) [
          | inl e ↦ inl (ground arith)
          | inr e ↦ inr (ground arith)
        ])
        (λ raw there on.
          let a = target_of (r.loads raw) in
          let other =
            ==_of_ne (login_token_key token) (account_key a) (token_key-account_key token a) in
          let one = laws.mem-delete (account_key a) (login_token_key token) u s in
          let two = in_set-srem r laws a u token s1 in ground arith)
        (h u)

  pub delete-IsIndexed :
      (now : ℕ) (token : Text) (s : r.Redis) → IsIndexed r s → IsIndexed r (delete r now token s)
  unfolding delete
  delete-IsIndexed now token s h =
      let s1 = r.delete (login_token_key token) s in
      let same =
        laws.get-srem (login_token_key token) login_tokens_key token s1
          (tokens_key-token_key token) in
      let deleted = laws.get-delete (login_token_key token) (login_token_key token) s in
      let itself = ==-refl (login_token_key token) in
      forget-IsIndexed (get r now token s) token (r.srem login_tokens_key token s1) (ground arith)
        (delete_key-IsIndexed token s h)
