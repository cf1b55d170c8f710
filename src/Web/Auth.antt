-- ===== src/Web/Auth.antt =====
-- app/deps/auth.py: the session of a request, and what a handler requires of it.
pub mod Revoked
use acoj_worker.Common.{
  ℕ, Bool, true, false, not, ◌&&◌, Option, none, some, List, mem, Text, strip, is_empty, nat_eq,
  list_eq, ◌==◌, if◌then◌else◌,
}
use acoj_worker.Network.ClientIp.{IpAddress, Request, get_client_ip}
use acoj_worker.Security.Permission.{has_permission, is_account_type_allowed}
use acoj_worker.Security.Session.Services.{SessionPayload, Services}
use acoj_worker.Security.Session.Store as Store

-- What raises an AuthenticationError, and then an AuthorizationError
pub data AuthError : Type 0 where
  missing_token invalid_token ip_mismatch user_agent_mismatch : AuthError
  account_type_denied permission_denied : AuthError

-- An accepted request: its session, and the token that is touched in the background
pub record Accepted : Type 0 where
  pub session : SessionPayload
  pub touched : Text

pub data Decision : Type 0 where
  denied : AuthError → Decision
  accepted : Accepted → Decision

pub record Headers : Type 0 where
  pub authorization : Option Text
  pub user_agent : Option Text
  pub connection : Request

-- The settings that are read here
pub record AuthSettings : Type 0 where
  pub session_bind_ip : Bool
  pub session_bind_user_agent : Bool
  pub trusted_proxies : List Text

abbrev pub and_then : Decision → (Accepted → Decision) → Decision
and_then (denied e) f = denied e
and_then (accepted a) f = f a

-- `bound and current and current != bound`
abbrev pub differs : (bound current : Option Text) → Bool
differs (some b) (some c) = not (is_empty b) && not (is_empty c) && not (c == b)
differs _ _ = false

-- `_validate_session_ip`
unfoldable pub validate_session_ip : AuthSettings → (current_ip : Option Text) → Accepted → Decision
validate_session_ip cfg current_ip a =
    if not cfg.session_bind_ip
    then accepted a
    else if differs a.session.client_ip current_ip
    then denied ip_mismatch
    else accepted a

-- `_validate_session_user_agent`
unfoldable pub validate_session_user_agent :
    AuthSettings → (current_ua : Option Text) → Accepted → Decision
validate_session_user_agent cfg current_ua a =
    if not cfg.session_bind_user_agent
    then accepted a
    else if differs a.session.user_agent current_ua
    then denied user_agent_mismatch
    else accepted a

module _ {Address : Type 0} (ips : IpAddress Address) (r : Services) (cfg : AuthSettings) where
  unfoldable pub validate_session : Headers → (token : Text) → Option SessionPayload → Decision
  validate_session headers token none = denied invalid_token
  validate_session headers token (some session) =
      and_then
        (validate_session_ip cfg (get_client_ip ips cfg.trusted_proxies headers.connection)
          (record { session = session; touched = token }))
        (validate_session_user_agent cfg headers.user_agent)

  abbrev pub session_of_header : (now : ℕ) → Headers → Option Text → r.Redis → Decision
  session_of_header now headers none s = denied missing_token
  session_of_header now headers (some authorization) s =
      let token = strip authorization in
      if is_empty authorization
      then denied missing_token
      else validate_session headers token (Store.get r now token s)

  -- `get_current_session`; the touch in the background is a step of its own.
  unfoldable pub get_current_session : (now : ℕ) → Headers → r.Redis → Decision
  get_current_session now headers s = session_of_header now headers headers.authorization s

  unfoldable pub require_account_type :
      (account_types : List Text) → (now : ℕ) → Headers → r.Redis → Decision
  require_account_type account_types now headers s =
      and_then (get_current_session now headers s) (λ a.
        if is_account_type_allowed a.session.account_type account_types
        then accepted a
        else denied account_type_denied)

  unfoldable pub require_permission :
      (permission_code : Text) → (now : ℕ) → Headers → r.Redis → Decision
  require_permission permission_code now headers s =
      and_then (get_current_session now headers s) (λ a.
        if has_permission a.session.permission_keys permission_code
        then accepted a
        else denied permission_denied)
