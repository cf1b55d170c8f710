-- ===== src/Security/Session/Index.antt =====
-- session.py: the sets of the accounts and the sessions that Redis holds, one operation at a time.
use acoj_worker.Common.{
  unique, ℕ, ◌<◌, Bool, true, ◌&&◌, Option, none, some, List, [], ◌∷◌, map, mem, mem-append_left,
  mem-append_right, Text, nat_eq, list_eq, pair_eq, ◌==◌, ==-refl, if◌then◌else◌, Bool-cases,
  Option-cases, ◌≡◌, ◌⊎◌, refl, sym, ap, subst, ◌∙◌, arith, inl, inr,
}
use acoj_worker.Security.Session.Services.{SessionPayload, Services, IsRedis}
use acoj_worker.Security.Session.Store.{
  login_token_key, Target, account_key, target_of, store_session, set, touch, touched,
  delete_accounts_sessions, all_tokens, get_accounts_tokens,
}
use acoj_worker.Security.Session.Effects.{text_iff, token_key-eqb, token_key-account_key}
use acoj_worker.Security.Session.Commands.{
  entry, in_set, online, entry-store_session, in_set-store_session, entry-delete_accounts_sessions,
  in_set-delete_accounts_sessions,
}

module _ (r : Services) where
  abbrev pub checked : Text → Option r.Raw → r.Redis → Bool
  checked t none s = true
  checked t (some raw) s = let p = r.loads raw in p.token == t && in_set r (target_of p) t s

  -- The session that is stored under the token, if any, is that token's, and the token is in the set of
  -- the session's account.
  abbrev pub is_indexed : Text → r.Redis → Bool
  is_indexed t s = checked t (entry r t s) s

  abbrev pub IsIndexed : r.Redis → Type 0
  IsIndexed s = (t : Text) → is_indexed t s ≡ true

  -- Another state in which the session is the same or gone, and in which its account's set still has
  -- the token
  pub is_indexed-keep :
      (t : Text) (s s' : r.Redis)
      → ((entry r t s' ≡ none) ⊎ (entry r t s' ≡ entry r t s))
      → ((raw : r.Raw)
          → entry r t s' ≡ some raw
          → in_set r (target_of (r.loads raw)) t s ≡ true
          → in_set r (target_of (r.loads raw)) t s' ≡ true)
      → is_indexed t s ≡ true
      → is_indexed t s' ≡ true
  is_indexed-keep t s s' (inl e) keep h = rw e refl
  is_indexed-keep t s s' (inr e) keep h = elim (Option-cases (entry r t s)) [
    | inl none_there ↦ rw (e, none_there) refl
    | inr (raw, there) ↦
        let before : checked t (some raw) s ≡ true = rw there at h in
        let kept = keep raw (e ∙ there) in rw (e, there) (ground arith)
  ]

  all_tokens-mem :
      (k : Text) (u : Text) (ts : List Target) (s : r.Redis)
      → mem k (map account_key ts) ≡ true
      → mem u (r.smembers k s) ≡ true
      → mem u (all_tokens r (map (λ t. (t, r.smembers (account_key t) s)) ts)) ≡ true
  all_tokens-mem k u [] s h on = cc
  all_tokens-mem k u (t ∷ ts) s h on =
      let here = r.smembers (account_key t) s in
      let later = all_tokens r (map (λ t. (t, r.smembers (account_key t) s)) ts) in
      elim (Bool-cases (account_key t == k)) [
        | inl e ↦
            let same = (text_iff (account_key t) k).0 e in mem-append_left u here later (rw same on)
        | inr e ↦ mem-append_right u here later (all_tokens-mem k u ts s (ground arith) on)
      ]

  -- A token in the set of one of the accounts is among their tokens.
  pub mem-online :
      (a : Target) (u : Text) (targets : List Target) (s : r.Redis)
      → mem (account_key a) (map account_key (unique targets)) ≡ true
      → in_set r a u s ≡ true
      → mem u (online r targets s) ≡ true
  unfolding get_accounts_tokens
  mem-online a u targets s h on = all_tokens-mem (account_key a) u (unique targets) s h on

  module _ (laws : IsRedis r) where
    pub store_session-IsIndexed :
        (t : Text) (ttl : ℕ) (p : SessionPayload) (s : r.Redis)
        → 0 < ttl
        → p.token ≡ t
        → IsIndexed s
        → IsIndexed (store_session r t ttl p s)
    store_session-IsIndexed t ttl p s long same h u =
        let stored = entry-store_session r laws u t ttl p s long in
        let read_back = laws.loads-dumps p in
        let itself = ==-refl (account_key (target_of p)) in
        elim (Bool-cases (t == u)) [
          | inl e ↦
              let is_u = (text_iff t u).0 e in
              let added = in_set-store_session r laws (target_of p) u t ttl p s in
              let found : entry r u (store_session r t ttl p s) ≡ some (r.dumps p) = ground arith in
              let token_is : (p.token == u) ≡ true = (text_iff p.token u).1 (same ∙ is_u) in
              rw (found, read_back) (ground arith)
          | inr e ↦
              is_indexed-keep u s (store_session r t ttl p s) (inr (ground arith))
                (λ raw there on.
                  let added = in_set-store_session r laws (target_of (r.loads raw)) u t ttl p s in
                  ground arith)
                (h u)
        ]

    pub set-IsIndexed :
        (p : SessionPayload) (ttl : ℕ) (s : r.Redis)
        → 0 < ttl
        → IsIndexed s
        → IsIndexed (set r p ttl s)
    unfolding set
    set-IsIndexed p ttl s long h = store_session-IsIndexed p.token ttl p s long refl h

    touched-IsIndexed :
        (now : ℕ) (token : Text) (o : Option r.Raw) (s : r.Redis)
        → entry r token s ≡ o
        → IsIndexed s
        → IsIndexed (touched r now token o s)
    touched-IsIndexed now token none s there h u = h u
    touched-IsIndexed now token (some raw) s there h u =
        let p = r.loads raw in
        let ttl = if p.remember_me then r.token_ttl_seconds else r.token_ttl_short_seconds in
        let q : SessionPayload = record p { last_active_at = some (r.isoformat now) } in
        let key = login_token_key token in
        let long : 0 < ttl =
          let one = laws.ttl-positive in let two = laws.short_ttl-positive in ground arith in
        let stored = laws.get-setex (login_token_key u) key ttl (r.dumps q) s long in
        let eqb = token_key-eqb token u in
        let sets = λ (a : Target). ap (mem u) (
          laws.smembers-setex (account_key a) key ttl (r.dumps q) s
            (token_key-account_key token a)) in
        elim (Bool-cases (token == u)) [
          | inl e ↦
              let is_u = (text_iff token u).0 e in
              let found : entry r u (touched r now token (some raw) s) ≡ some (r.dumps q) =
                ground arith in
              let before : checked u (some raw) s ≡ true =
                subst (λ t. checked t (some raw) s ≡ true) is_u
                  (subst (λ o. checked token o s ≡ true) there (h token)) in
              let kept = sets (target_of p) in rw (found, laws.loads-dumps q) (ground arith)
          | inr e ↦
              is_indexed-keep u s (touched r now token (some raw) s) (inr (ground arith))
                (λ v there' on. let kept = sets (target_of (r.loads v)) in ground arith) (h u)
        ]

    pub touch-IsIndexed :
        (now : ℕ) (token : Text) (s : r.Redis) → IsIndexed s → IsIndexed (touch r now token s)
    unfolding touch
    touch-IsIndexed now token s h = touched-IsIndexed now token (entry r token s) s refl h

    pub delete_accounts_sessions-IsIndexed :
        (targets : List Target) (s : r.Redis)
        → IsIndexed s
        → IsIndexed (delete_accounts_sessions r targets s)
    delete_accounts_sessions-IsIndexed targets s h u =
        let after = entry-delete_accounts_sessions r laws u targets s in
        elim (Bool-cases (mem u (online r targets s))) [
          | inl on ↦
              is_indexed-keep u s (delete_accounts_sessions r targets s) (inl (ground arith))
                (λ raw there before. absurd (ground arith)) (h u)
          | inr off ↦
              is_indexed-keep u s (delete_accounts_sessions r targets s) (inr (ground arith))
                (λ raw there before.
                  let account = target_of (r.loads raw) in
                  let sets = in_set-delete_accounts_sessions r laws account u targets s in
                  let others = mem-online (account) u targets s in ground arith)
                (h u)
        ]

    pub elapse-IsIndexed : (n : ℕ) (s : r.Redis) → IsIndexed s → IsIndexed (r.elapse n s)
    elapse-IsIndexed n s h u =
        let keep = λ (raw : r.Raw) (there : entry r u (r.elapse n s) ≡ some raw).
          laws.get-elapse (login_token_key u) n raw s there in
        is_indexed-keep u s (r.elapse n s)
          (elim (Option-cases (entry r u (r.elapse n s))) [
            | inl e ↦ inl e
            | inr (raw, e) ↦ inr (e ∙ sym (keep raw e))
          ])
          (λ raw there on.
            ap (mem u) (laws.smembers-elapse (account_key (target_of (r.loads raw))) n s) ∙ on)
          (h u)
