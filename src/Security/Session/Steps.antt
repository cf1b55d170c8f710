-- ===== src/Security/Session/Steps.antt =====
-- session.py: the states that the operations lead to.
use acoj_worker.Common.{
  unique, ℕ, ◌<◌, Bool, true, false, Option, none, some, List, [], ◌∷◌, leb, length, All,
  All-append, Text, nat_eq, list_eq, pair_eq, if◌then◌else◌, ◌≡◌, refl, ◌∙◌, inr,
}
use acoj_worker.Security.Session.Services.{SessionPayload, Services, IsRedis}
use acoj_worker.Security.Session.Store.{
  login_token_key, login_tokens_key, Target, account_key, target_of, each_of, store_session, set,
  touch, delete, list_account_sessions, list_sessions_by_tokens, prune_excess_sessions,
  delete_accounts_sessions, refresh_accounts_sessions, Factories, updates_of, target_updates,
  all_updates, set_sessions, tokens_of, excess, stale_tokens,
}
use acoj_worker.Security.Session.Commands.{entry-each_srem, in_set-each_srem}
use acoj_worker.Security.Session.Deletion.{delete-IsIndexed}
use acoj_worker.Security.Session.Index.{
  IsIndexed, is_indexed-keep, store_session-IsIndexed, set-IsIndexed, touch-IsIndexed,
  delete_accounts_sessions-IsIndexed, elapse-IsIndexed,
}

module _ (r : Services) where
  -- What a factory makes for a token carries that token.
  abbrev pub KeepsToken : Factories r → Type 0
  KeepsToken factories =
      (t : Target) (f : Text → SessionPayload) → factories t ≡ some f → (u : Text) → (f u).token ≡ u

  -- One operation, or the passing of time
  pub data Step : r.Redis → r.Redis → Type 0 where
    logged_in : (p : SessionPayload) (ttl : ℕ) (s : r.Redis) → 0 < ttl → Step s (set r p ttl s)
    touched : (now : ℕ) (token : Text) (s : r.Redis) → Step s (touch r now token s)
    listed :
        (now : ℕ) (tokens : List Text) (s : r.Redis)
        → Step s (list_sessions_by_tokens r now tokens s).1
    pruned :
        (now : ℕ) (target : Target) (max_sessions : ℕ) (s : r.Redis)
        → Step s (prune_excess_sessions r now target max_sessions s)
    refreshed :
        (targets : List Target) (factories : Factories r) (s : r.Redis)
        → KeepsToken factories
        → Step s (refresh_accounts_sessions r targets factories s)
    logged_out : (now : ℕ) (token : Text) (s : r.Redis) → Step s (delete r now token s)
    revoked : (targets : List Target) (s : r.Redis) → Step s (delete_accounts_sessions r targets s)
    elapsed : (n : ℕ) (s : r.Redis) → Step s (r.elapse n s)

  pub data Reachable : r.Redis → Type 0 where
    fresh : Reachable r.empty
    next : {s s' : r.Redis} → Reachable s → Step s s' → Reachable s'

  if-IsIndexed :
      (b : Bool) (s s' : r.Redis)
      → IsIndexed r s
      → IsIndexed r s'
      → IsIndexed r (if b then s else s')
  if-IsIndexed true s s' h h' = h
  if-IsIndexed false s s' h h' = h'

  -- An update that stores a session under its own token
  abbrev Keeps : SessionPayload × Text → Type 0
  Keeps update = update.0.token ≡ update.1

  updates_of-All :
      (f : Text → SessionPayload) (tokens : List Text) (s : r.Redis)
      → ((u : Text) → (f u).token ≡ u)
      → All Keeps (updates_of r f tokens s)
  updates_of-All f [] s h = tt
  updates_of-All f (t ∷ tokens) s h =
      let rest = updates_of-All f tokens s h in
      elim (r.get (login_token_key t) s)
        as (λ o. All Keeps (elim o [
          | none ↦ updates_of r f tokens s
          | some raw ↦ (f t, t) ∷ updates_of r f tokens s
        ])) [ none ↦ rest | some raw ↦ (h t, rest) ]

  target_updates-All :
      (factories : Factories r) (t : Target) (o : Option (Text → SessionPayload)) (s : r.Redis)
      → factories t ≡ o
      → KeepsToken factories
      → All Keeps (target_updates r o (r.smembers (account_key t) s) s)
  target_updates-All factories t none s e h = tt
  target_updates-All factories t (some f) s e h =
      updates_of-All f (r.smembers (account_key t) s) s (h t f e)

  all_updates-All :
      (factories : Factories r) (targets : List Target) (s : r.Redis)
      → KeepsToken factories
      → All Keeps (all_updates r factories targets s)
  all_updates-All factories [] s h = tt
  all_updates-All factories (t ∷ ts) s h =
      All-append Keeps (target_updates r (factories t) (r.smembers (account_key t) s) s)
        (all_updates r factories ts s) (target_updates-All factories t (factories t) s refl h)
        (all_updates-All factories ts s h)

  module _ (laws : IsRedis r) where
    set_sessions-IsIndexed :
        (updates : List (SessionPayload × Text)) (s : r.Redis)
        → All Keeps updates
        → IsIndexed r s
        → IsIndexed r (set_sessions r updates s)
    set_sessions-IsIndexed [] s all h = h
    set_sessions-IsIndexed ((p, token) ∷ updates) s (same, all) h =
        set_sessions-IsIndexed updates (store_session r token r.token_ttl_seconds p s) all
          (store_session-IsIndexed r laws token r.token_ttl_seconds p s laws.ttl-positive same h)

    each_srem-IsIndexed :
        (us : List Text) (s : r.Redis)
        → IsIndexed r s
        → IsIndexed r (each_of (r.srem login_tokens_key) us s)
    each_srem-IsIndexed us s h t =
        is_indexed-keep r t s (each_of (r.srem login_tokens_key) us s)
          (inr (entry-each_srem r laws t us s))
          (λ raw there on. in_set-each_srem r laws (target_of (r.loads raw)) t us s ∙ on) (h t)

    each_delete-IsIndexed :
        (now : ℕ) (us : List Text) (s : r.Redis)
        → IsIndexed r s
        → IsIndexed r (each_of (delete r now) us s)
    each_delete-IsIndexed now [] s h = h
    each_delete-IsIndexed now (u ∷ us) s h =
        each_delete-IsIndexed now us (delete r now u s) (delete-IsIndexed r laws now u s h)

    prune-IsIndexed :
        (now : ℕ) (target : Target) (max_sessions : ℕ) (s : r.Redis)
        → IsIndexed r s
        → IsIndexed r (prune_excess_sessions r now target max_sessions s)
    unfolding prune_excess_sessions list_account_sessions list_sessions_by_tokens
    prune-IsIndexed now target max_sessions s h =
        let tokens = unique (r.smembers (account_key target) s) in
        let sessions = (list_account_sessions r now target s).0 in
        let s' = (list_account_sessions r now target s).1 in
        let listed = each_srem-IsIndexed (stale_tokens r now tokens s) s h in
        let deleted =
          each_delete-IsIndexed now (tokens_of r (excess r max_sessions sessions)) s' listed in
        if-IsIndexed (leb max_sessions 0) s _ h
          (if-IsIndexed (leb (length sessions) max_sessions) s' _ listed deleted)

    Step-IsIndexed : {s s' : r.Redis} → Step s s' → IsIndexed r s → IsIndexed r s'
    unfolding refresh_accounts_sessions list_sessions_by_tokens
    Step-IsIndexed (Step.logged_in p ttl s long) h = set-IsIndexed r laws p ttl s long h
    Step-IsIndexed (Step.touched now token s) h = touch-IsIndexed r laws now token s h
    Step-IsIndexed (Step.listed now tokens s) h =
        each_srem-IsIndexed (stale_tokens r now (unique tokens) s) s h
    Step-IsIndexed (Step.pruned now target max_sessions s) h =
        prune-IsIndexed now target max_sessions s h
    Step-IsIndexed (Step.refreshed targets factories s keeps) h =
        set_sessions-IsIndexed (all_updates r factories (unique targets) s) s
          (all_updates-All factories (unique targets) s keeps) h
    Step-IsIndexed (Step.logged_out now token s) h = delete-IsIndexed r laws now token s h
    Step-IsIndexed (Step.revoked targets s) h =
        delete_accounts_sessions-IsIndexed r laws targets s h
    Step-IsIndexed (Step.elapsed n s) h = elapse-IsIndexed r laws n s h

    -- Whatever operations have led there, and however much time has passed between them, the session
    -- that is stored under a token is that token's, and the set of the session's account has the token.
    pub Reachable-IsIndexed : (s : r.Redis) → Reachable s → IsIndexed r s
    Reachable-IsIndexed s Reachable.fresh = λ t. rw (laws.get-empty (login_token_key t)) refl
    Reachable-IsIndexed s (Reachable.next before step) =
        Step-IsIndexed step (Reachable-IsIndexed _ before)
