-- ===== src/Security/Session/Prune.antt =====
-- session.py: what is read back of a login, and which sessions prune_excess_sessions deletes.
use acoj_worker.Common.{
  ℕ, ◌<◌, ◌≤◌, ◌+◌, ◌*◌, ◌&&◌, not, is_empty, get_or, Bool, none, some, List, [], ◌∷◌, ltb, All,
  Text, nat_eq, list_eq, ◌==◌, if◌then◌else◌, Bool-cases, ◌≡◌, ap, ◌∙◌, arith, inl, inr,
}
use acoj_worker.Security.Session.Services.{SessionPayload, Services, IsRedis}
use acoj_worker.Security.Session.Store.{
  set, check_idle_timeout, parse_datetime_or_epoch, read, get, logged_in_at,
}
use acoj_worker.Security.Session.Commands.{entry, entry-store_session}

module _ (r : Services) where
  -- The time of the last activity, in microseconds, plus the timeout, is before now.
  abbrev pub is_idle : (now : ℕ) → SessionPayload → Bool
  is_idle now p =
      ltb 0 r.session_idle_timeout_seconds
      && not (is_empty (get_or p.last_active_at []))
      && ltb (parse_datetime_or_epoch r p.last_active_at + r.session_idle_timeout_seconds * 1000000)
          now

  check_idle_timeout_lem :
      (now : ℕ) (p : SessionPayload)
      → check_idle_timeout r now p ≡ (if is_idle now p then none else some p)
  unfolding check_idle_timeout
  check_idle_timeout_lem now p = ground arith

  -- The sessions of the list are in the order of their logins.
  IsSorted : List SessionPayload → Type 0
  IsSorted [] = Unit
  IsSorted (p ∷ ps) = All (λ q. logged_in_at r p ≤ logged_in_at r q) ps × IsSorted ps

  -- Each session of the one list has logged in no later than each of the other.
  abbrev pub Before : (older newer : List SessionPayload) → Type 0
  Before older newer = All (λ p. All (λ q. logged_in_at r p ≤ logged_in_at r q) newer) older

  module _ (laws : IsRedis r) where
    -- When a session is set with a positive time to live, its token then gives that session, except
    -- that it gives none where the idle timeout is positive and the time at which the session was last
    -- active, given and not empty, is more than the timeout before now; every other token gives what
    -- it gave.
    pub set-get :
        (p : SessionPayload) (ttl now : ℕ) (u : Text) (s : r.Redis)
        → 0 < ttl
        → get r now u (set r p ttl s)
          ≡ (if p.token == u then (if is_idle now p then none else some p) else get r now u s)
    unfolding get set
    set-get p ttl now u s long =
        let stored = entry-store_session r laws u p.token ttl p s long in
        elim (Bool-cases (p.token == u)) [
          | inl e ↦ rw e (
              ap (read r now) (stored ∙ ap (λ b. if b then some (r.dumps p) else entry r u s) e)
              ∙ ap (check_idle_timeout r now) (laws.loads-dumps p)
              ∙ check_idle_timeout_lem now p)
          | inr e ↦
              rw e
                (ap (read r now) (stored ∙ ap (λ b. if b then some (r.dumps p) else entry r u s) e))
        ]
