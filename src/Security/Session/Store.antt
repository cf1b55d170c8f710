-- ===== src/Security/Session/Store.antt =====
-- The keys, and the operations of SessionStore, each run to its end before the next.
use acoj_worker.Common.{
  ◌==◌, unique, ℕ, ◌-◌, ◌*◌, Bool, false, not, Option, none, some, is_some, List, [], ◌∷◌, ◌++◌,
  map, select, length, take, ltb, leb, Text, codes, is_empty, nat_eq, list_eq, pair_eq,
  if◌then◌else◌,
}
use acoj_worker.Security.Session.Services.{SessionPayload, Services}

unfoldable pub login_token_key : Text → Text
login_token_key token = codes "login:token:" ++ token

unfoldable pub login_account_tokens_key : (account_type account_id : Text) → Text
login_account_tokens_key account_type account_id =
    codes "login:account:" ++ account_type ++ codes ":" ++ account_id

unfoldable pub login_tokens_key : Text
login_tokens_key = codes "login:tokens"

-- An account type and an account id
abbrev pub Target : Type 0
Target = Text × Text

abbrev pub account_key : Target → Text
account_key t = login_account_tokens_key t.0 t.1

abbrev pub target_of : SessionPayload → Target
target_of p = (p.account_type, p.account_id)

-- A command on each of several keys or members, in one call
abbrev pub each_of : {R : Type 0} → (Text → R → R) → List Text → R → R
each_of f [] s = s
each_of f (k ∷ ks) s = each_of f ks (f k s)

module _ (r : Services) where
  -- The three commands of `set` and of each update in `_set_sessions`
  unfoldable pub store_session : Text → (ttl : ℕ) → SessionPayload → r.Redis → r.Redis
  store_session token ttl payload s = r.sadd login_tokens_key token (
      r.sadd (account_key (target_of payload)) token
        (r.setex (login_token_key token) ttl (r.dumps payload) s))

  unfoldable pub set : SessionPayload → (ttl_seconds : ℕ) → r.Redis → r.Redis
  set payload ttl_seconds = store_session payload.token ttl_seconds payload

  -- A text that is missing, empty or no date is datetime.min.
  unfoldable pub parse_datetime_or_epoch : Option Text → ℕ
  parse_datetime_or_epoch none = 0
  parse_datetime_or_epoch (some value) =
      if is_empty value then 0 else elim (r.fromisoformat value) [ none ↦ 0 | some t ↦ t ]

  abbrev pub is_given : Option Text → Bool
  is_given none = false
  is_given (some t) = not (is_empty t)

  -- `_check_idle_timeout`. It calls `redis.delete` and `redis.srem` of the asyncio client without
  -- awaiting them, so that they are not run.
  unfoldable pub check_idle_timeout : (now : ℕ) → SessionPayload → Option SessionPayload
  check_idle_timeout now session =
      if leb r.session_idle_timeout_seconds 0
      then some session
      else if not (is_given session.last_active_at)
      then some session
      else if ltb (r.session_idle_timeout_seconds * 1000000)
          (now - parse_datetime_or_epoch session.last_active_at)
      then none
      else some session

  abbrev pub read : (now : ℕ) → Option r.Raw → Option SessionPayload
  read now none = none
  read now (some raw) = check_idle_timeout now (r.loads raw)

  unfoldable pub get : (now : ℕ) → (token : Text) → r.Redis → Option SessionPayload
  get now token s = read now (r.get (login_token_key token) s)

  abbrev pub touched : (now : ℕ) → (token : Text) → Option r.Raw → r.Redis → r.Redis
  touched now token none s = s
  touched now token (some raw) s =
      let session = r.loads raw in
      r.setex (login_token_key token)
        (if session.remember_me then r.token_ttl_seconds else r.token_ttl_short_seconds)
        (r.dumps (record session { last_active_at = some (r.isoformat now) })) s

  unfoldable pub touch : (now : ℕ) → (token : Text) → r.Redis → r.Redis
  touch now token s = touched now token (r.get (login_token_key token) s) s

  -- The sessions of the tokens, and the tokens that have none
  abbrev pub found_sessions : (now : ℕ) → List Text → r.Redis → List SessionPayload
  found_sessions now [] s = []
  found_sessions now (t ∷ ts) s =
      let rest = found_sessions now ts s in elim (get now t s) [ none ↦ rest | some p ↦ p ∷ rest ]

  abbrev pub stale_tokens : (now : ℕ) → List Text → r.Redis → List Text
  stale_tokens now ts s = select (λ t. not (is_some (get now t s))) ts

  -- `list_sessions_by_tokens`, and what it leaves in Redis
  unfoldable pub list_sessions_by_tokens :
      (now : ℕ) → List Text → r.Redis → List SessionPayload × r.Redis
  list_sessions_by_tokens now tokens s = (
    found_sessions now (unique tokens) s,
    each_of (r.srem login_tokens_key) (stale_tokens now (unique tokens) s) s,
  )

  -- `get_accounts_tokens`, in the order of the accounts
  unfoldable pub get_accounts_tokens : List Target → r.Redis → List (Target × List Text)
  get_accounts_tokens targets s = map (λ t. (t, r.smembers (account_key t) s)) (unique targets)

  abbrev pub get_account_tokens : Target → r.Redis → List Text
  get_account_tokens target s = r.smembers (account_key target) s

  abbrev pub logged_in_at : SessionPayload → ℕ
  logged_in_at p = parse_datetime_or_epoch p.login_at

  -- `sessions.sort`, which keeps the order of sessions of one time
  abbrev pub insert_session : SessionPayload → List SessionPayload → List SessionPayload
  insert_session p [] = p ∷ []
  insert_session p (q ∷ qs) =
      let rest = insert_session p qs in
      if ltb (logged_in_at q) (logged_in_at p) then q ∷ rest else p ∷ q ∷ qs

  abbrev pub sort_sessions : List SessionPayload → List SessionPayload
  sort_sessions [] = []
  sort_sessions (p ∷ ps) = insert_session p (sort_sessions ps)

  unfoldable pub list_account_sessions :
      (now : ℕ) → Target → r.Redis → List SessionPayload × r.Redis
  list_account_sessions now target s =
      let (sessions, s') = list_sessions_by_tokens now (get_account_tokens target s) s in
      (sort_sessions sessions, s')

  abbrev pub forget : Option SessionPayload → Text → r.Redis → r.Redis
  forget none token s = s
  forget (some payload) token s = r.srem (account_key (target_of payload)) token s

  -- The session is read before its key is deleted.
  unfoldable pub delete : (now : ℕ) → (token : Text) → r.Redis → r.Redis
  delete now token s =
      forget (get now token s) token
        (r.srem login_tokens_key token (r.delete (login_token_key token) s))

  abbrev pub tokens_of : List SessionPayload → List Text
  tokens_of = map (λ p. p.token)

  -- `sessions[:-max_sessions]` of more than max_sessions sessions
  abbrev pub excess : ℕ → List SessionPayload → List SessionPayload
  excess max_sessions sessions = take (length sessions - max_sessions) sessions

  unfoldable pub prune_excess_sessions : (now : ℕ) → Target → (max_sessions : ℕ) → r.Redis → r.Redis
  prune_excess_sessions now target max_sessions s =
      let (sessions, s') = list_account_sessions now target s in
      if leb max_sessions 0
      then s
      else if leb (length sessions) max_sessions
      then s'
      else each_of (delete now) (tokens_of (excess max_sessions sessions)) s'

  abbrev pub all_tokens : List (Target × List Text) → List Text
  all_tokens [] = []
  all_tokens ((t, tokens) ∷ rest) = tokens ++ all_tokens rest

  unfoldable pub delete_accounts_sessions : List Target → r.Redis → r.Redis
  delete_accounts_sessions targets s =
      let tokens = all_tokens (get_accounts_tokens targets s) in
      let keys = map login_token_key tokens ++ map account_key (unique targets) in
      each_of (r.srem login_tokens_key) tokens (each_of r.delete (unique keys) s)

  -- What `payload_factories[target](token)` gives, `none` for an account that is no key of it.
  abbrev pub Factories : Type 0
  Factories = Target → Option (Text → SessionPayload)

  abbrev pub updates_of :
      (factory : Text → SessionPayload) → List Text → r.Redis → List (SessionPayload × Text)
  updates_of factory [] s = []
  updates_of factory (token ∷ tokens) s =
      let rest = updates_of factory tokens s in
      elim (r.get (login_token_key token) s) [
        | none ↦ rest
        | some raw ↦ (factory token, token) ∷ rest
      ]

  abbrev pub target_updates :
      Option (Text → SessionPayload) → List Text → r.Redis → List (SessionPayload × Text)
  target_updates none tokens s = []
  target_updates (some factory) tokens s = updates_of factory tokens s

  abbrev pub all_updates : Factories → List Target → r.Redis → List (SessionPayload × Text)
  all_updates factories [] s = []
  all_updates factories (t ∷ ts) s =
      target_updates (factories t) (r.smembers (account_key t) s) s ++ all_updates factories ts s

  abbrev pub set_sessions : List (SessionPayload × Text) → r.Redis → r.Redis
  set_sessions [] s = s
  set_sessions ((refreshed, token) ∷ updates) s =
      set_sessions updates (store_session token r.token_ttl_seconds refreshed s)

  -- All sessions are read before the first is written.
  unfoldable pub refresh_accounts_sessions : List Target → Factories → r.Redis → r.Redis
  refresh_accounts_sessions targets factories s =
      set_sessions (all_updates factories (unique targets) s) s

  -- The operations on one account, and the index of all tokens
  abbrev pub delete_account_sessions : Target → r.Redis → r.Redis
  delete_account_sessions target s = delete_accounts_sessions (target ∷ []) s

  abbrev pub only : Target → (Text → SessionPayload) → Factories
  only target factory t = if t == target then some factory else none

  abbrev pub refresh_account_sessions : Target → (Text → SessionPayload) → r.Redis → r.Redis
  refresh_account_sessions target factory s =
      refresh_accounts_sessions (target ∷ []) (only target factory) s

  abbrev pub list_tokens : r.Redis → List Text
  list_tokens s = r.smembers login_tokens_key s
