-- ===== src/Tests/Session.antt =====
-- Runs of session.py on a Redis that keeps its strings and its sets in two lists.
use acoj_worker.Common.{
  Bool, true, false, not, ◌&&◌, none, some, List, [], ◌∷◌, mem, length, Text, codes, nat_eq,
  list_eq, list_beq_iff, pair_eq, ◌==◌, if◌then◌else◌, Dict, get, put, remove, get-put, get-remove,
  ◌≡◌, ◌↔◌, refl, arith,
}
use acoj_worker.Security.Session.Services.{SessionPayload, Services, IsRedis}
use acoj_worker.Security.Session.Store as Store
use acoj_worker.Security.Session.Steps.{Step, Reachable}
use acoj_worker.Security.Session.Revoke.{owned_by, delete_accounts_sessions-revokes}
use acoj_worker.Security.Session.Prune.{is_idle, set-get}

pub record Lists : Type 0 where
  pub strings : Dict Text SessionPayload
  pub sets : List (Text × Text)

abbrev pub members : Text → List (Text × Text) → List Text
members k [] = []
members k ((j, t) ∷ sets) = let rest = members k sets in if j == k then t ∷ rest else rest

abbrev pub without : (Text × Text → Bool) → List (Text × Text) → List (Text × Text)
without p [] = []
without p (e ∷ sets) = let rest = without p sets in if p e then rest else e ∷ rest

-- The strings expire whenever time passes.
abbrev pub lists : Services
lists = record {
  Raw = SessionPayload;
  Redis = Lists;
  empty = record { strings = []; sets = [] };
  get = λ k s. get k s.strings;
  setex = λ k ttl v s. record s { strings = put k v s.strings };
  delete = λ k s. record { strings = remove k s.strings; sets = without (λ e. e.0 == k) s.sets };
  smembers = λ k s. members k s.sets;
  sadd = λ k t s. record s { sets = (k, t) ∷ s.sets };
  srem = λ k t s. record s { sets = without (λ e. e.0 == k && e.1 == t) s.sets };
  elapse = λ n s. record s { strings = [] };
  dumps = λ p. p;
  loads = λ p. p;
  isoformat = λ t. codes "now";
  fromisoformat = λ t. some 5;
  token_ttl_seconds = 3600;
  token_ttl_short_seconds = 60;
  session_idle_timeout_seconds = 0;
}

text_iff : (t u : Text) → ((t == u) ≡ true) ↔ (t ≡ u)
text_iff t u = list_beq_iff t u

mem-delete :
    (j k t : Text) (sets : List (Text × Text))
    → mem t (members j (without (λ e. e.0 == k) sets))
      ≡ (if k == j then false else mem t (members j sets))
mem-delete j k t [] = ground arith
mem-delete j k t ((i, u) ∷ sets) =
    ground (arith, mem-delete j k t sets, text_iff i k, text_iff k j, text_iff i j)

mem-srem :
    (j k t u : Text) (sets : List (Text × Text))
    → mem t (members j (without (λ e. e.0 == k && e.1 == u) sets))
      ≡ (not (k == j && u == t) && mem t (members j sets))
mem-srem j k t u [] = ground arith
mem-srem j k t u ((i, v) ∷ sets) = ground (
  arith,
  mem-srem j k t u sets,
  text_iff i k,
  text_iff k j,
  text_iff i j,
  text_iff v u,
  text_iff u t,
  text_iff v t,
)

pub lists-IsRedis : IsRedis lists
unfolding get
lists-IsRedis = record {
  get-empty = λ j. refl;
  get-setex = λ j k ttl v s long. get-put k j v s.strings;
  get-delete = λ j k s. get-remove k j s.strings;
  get-sadd = λ j k t s apart. refl;
  get-srem = λ j k t s apart. refl;
  smembers-setex = λ j k ttl v s apart. refl;
  mem-delete = λ j k t s. mem-delete j k t s.sets;
  mem-sadd = λ j k t u s. ground arith;
  mem-srem = λ j k t u s. mem-srem j k t u s.sets;
  get-elapse = λ j n v s h. cc;
  smembers-elapse = λ j n s. refl;
  loads-dumps = λ p. refl;
  ttl-positive = omega arith;
  short_ttl-positive = omega arith;
}

abbrev pub session : (token : Text) → SessionPayload
session token = record {
  token = token;
  account_id = codes "7";
  account_type = codes "ADMIN";
  role_ids = [];
  dept_ids = [];
  group_ids = [];
  resource_ids = [];
  button_codes = [];
  permission_keys = codes "judge:run" ∷ [];
  permission_grants = [];
  client_ip = none;
  user_agent = none;
  remember_me = true;
  password_expired = false;
  device_label = none;
  login_at = none;
  last_active_at = none;
  expires_at = none;
}

abbrev pub account : Text × Text
account = (codes "ADMIN", codes "7")

abbrev pub one_login : Lists
one_login = Store.set lists (session (codes "abc")) 60 lists.empty

delete_accounts_sessions-revokes_example :
    owned_by lists (account ∷ []) (
      Store.get lists 9
        (codes "abc")
        (Store.delete_accounts_sessions lists (account ∷ []) one_login))
    ≡ false
delete_accounts_sessions-revokes_example =
    delete_accounts_sessions-revokes lists lists-IsRedis one_login 9 (codes "abc") (account ∷ []) (
      Reachable.next Reachable.fresh
        (Step.logged_in (session (codes "abc")) 60 lists.empty (omega arith)))

set-get_example : Store.get lists 9 (codes "abc") one_login ≡ (
    if codes "abc" == codes "abc"
    then (if is_idle lists 9 (session (codes "abc")) then none else some (session (codes "abc")))
    else Store.get lists 9 (codes "abc") lists.empty)
set-get_example =
    set-get lists lists-IsRedis (session (codes "abc")) 60 9 (codes "abc") lists.empty (omega arith)

abbrev two_logins : Lists
two_logins = Store.set lists (session (codes "def")) 60 one_login

-- One of the two sessions is left.
prune_excess_sessions_sample :
    length
      (Store.list_account_sessions lists 9 account
        (Store.prune_excess_sessions lists 9 account 1 two_logins)).0
    ≡ 1
unfolding Store.list_account_sessions Store.list_sessions_by_tokens Store.prune_excess_sessions
    Store.get Store.set Store.store_session Store.delete Store.login_token_key
    Store.login_account_tokens_key Store.login_tokens_key Store.check_idle_timeout
    Store.parse_datetime_or_epoch get put remove
prune_excess_sessions_sample = refl
