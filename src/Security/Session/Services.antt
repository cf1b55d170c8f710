-- ===== src/Security/Session/Services.antt =====
-- SessionPayload, and what session.py uses of redis.asyncio, json, datetime and the settings.
use acoj_worker.Common.{
  ℕ, ◌<◌, Bool, false, not, ◌&&◌, ◌||◌, Option, none, some, List, mem, Text, nat_eq, list_eq, ◌==◌,
  if◌then◌else◌, ◌≡◌, ◌≢◌,
}

pub record PermissionGrantPayload : Type 0 where
  pub permission_key : Text
  pub data_scope : Text
  pub custom_scope_dept_ids : List Text
  pub effect : Text
  pub source_type : Text
  pub source_id : Text

-- `account_type` is a StrEnum or a text, and `str` of it is the text.
pub record SessionPayload : Type 0 where
  pub token : Text
  pub account_id : Text
  pub account_type : Text
  pub role_ids : List Text
  pub dept_ids : List Text
  pub group_ids : List Text
  pub resource_ids : List Text
  pub button_codes : List Text
  pub permission_keys : List Text
  pub permission_grants : List PermissionGrantPayload
  pub client_ip : Option Text
  pub user_agent : Option Text
  pub remember_me : Bool
  pub password_expired : Bool
  pub device_label : Option Text
  pub login_at : Option Text
  pub last_active_at : Option Text
  pub expires_at : Option Text

-- Redis: strings with an expiry under some keys and sets of strings under others. A command is a
-- function of what Redis holds, and `elapse` is what the passing of time does to it.
-- A datetime is a number of microseconds since datetime.min, and a text that has no time zone is
-- read as UTC by `fromisoformat`.
pub record Services : Type 1 where
  pub Raw : Type 0
  pub Redis : Type 0
  pub empty : Redis
  pub get : Text → Redis → Option Raw
  pub setex : Text → ℕ → Raw → Redis → Redis
  pub delete : Text → Redis → Redis
  pub smembers : Text → Redis → List Text
  pub sadd : Text → Text → Redis → Redis
  pub srem : Text → Text → Redis → Redis
  pub elapse : ℕ → Redis → Redis
  pub dumps : SessionPayload → Raw
  pub loads : Raw → SessionPayload
  pub isoformat : ℕ → Text
  pub fromisoformat : Text → Option ℕ
  pub token_ttl_seconds : ℕ
  pub token_ttl_short_seconds : ℕ
  pub session_idle_timeout_seconds : ℕ

-- The documented behaviour. A command on a set does not concern the string of another key, nor one
-- on a string the set of another key; an expiry has to be positive.
pub record IsRedis (r : Services) : Type 0 where
  pub get-empty : (j : Text) → r.get j r.empty ≡ none
  pub get-setex :
      (j k : Text) (ttl : ℕ) (v : r.Raw) (s : r.Redis)
      → 0 < ttl
      → r.get j (r.setex k ttl v s) ≡ (if k == j then some v else r.get j s)
  pub get-delete :
      (j k : Text) (s : r.Redis) → r.get j (r.delete k s) ≡ (if k == j then none else r.get j s)
  pub get-sadd : (j k t : Text) (s : r.Redis) → k ≢ j → r.get j (r.sadd k t s) ≡ r.get j s
  pub get-srem : (j k t : Text) (s : r.Redis) → k ≢ j → r.get j (r.srem k t s) ≡ r.get j s
  pub smembers-setex :
      (j k : Text) (ttl : ℕ) (v : r.Raw) (s : r.Redis)
      → k ≢ j
      → r.smembers j (r.setex k ttl v s) ≡ r.smembers j s
  pub mem-delete :
      (j k t : Text) (s : r.Redis)
      → mem t (r.smembers j (r.delete k s)) ≡ (if k == j then false else mem t (r.smembers j s))
  pub mem-sadd :
      (j k t u : Text) (s : r.Redis)
      → mem t (r.smembers j (r.sadd k u s)) ≡ ((k == j && u == t) || mem t (r.smembers j s))
  pub mem-srem :
      (j k t u : Text) (s : r.Redis)
      → mem t (r.smembers j (r.srem k u s)) ≡ (not (k == j && u == t) && mem t (r.smembers j s))
  pub get-elapse :
      (j : Text) (n : ℕ) (v : r.Raw) (s : r.Redis)
      → r.get j (r.elapse n s) ≡ some v
      → r.get j s ≡ some v
  pub smembers-elapse :
      (j : Text) (n : ℕ) (s : r.Redis) → r.smembers j (r.elapse n s) ≡ r.smembers j s
  pub loads-dumps : (p : SessionPayload) → r.loads (r.dumps p) ≡ p
  pub ttl-positive : 0 < r.token_ttl_seconds
  pub short_ttl-positive : 0 < r.token_ttl_short_seconds
