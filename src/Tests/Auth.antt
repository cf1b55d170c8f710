-- ===== src/Tests/Auth.antt =====
-- Runs of auth.py and data_scope.py.
use acoj_worker.Common.{
  true, false, none, some, [], ◌∷◌, mem, Text, codes, strip, nat_eq, list_eq, pair_eq, ◌≡◌, refl,
  get, put, remove, arith,
}
use acoj_worker.Network.ClientIp.{IpAddress, is_in_any, is_trusted_proxy, get_client_ip}
use acoj_worker.Security.Permission.{has_permission}
use acoj_worker.Security.Session.Store as Store
use acoj_worker.Security.Session.Steps.{Step, Reachable}
use acoj_worker.Security.Session.Services.{PermissionGrantPayload, SessionPayload}
use acoj_worker.Security.DataScope.{
  data_scope_of, find_permission_grant, resolve_data_scope_dept_ids,
}
use acoj_worker.Security.DataScope.Unrestricted.{
  IsUnrestricted, resolve_data_scope_dept_ids-IsUnrestricted,
}
use acoj_worker.Web.Auth.{
  Accepted, denied, ip_mismatch, Headers, AuthSettings, validate_session_ip,
  validate_session_user_agent, validate_session, get_current_session, require_permission,
}
use acoj_worker.Web.Auth.Revoked.{require_permission-revoked}
use acoj_worker.Tests.Session.{lists, lists-IsRedis, session, account, one_login}

abbrev single : IpAddress Text
single = record { ip_address = λ t. some t; in_network = λ a item. none }

abbrev bound : AuthSettings
bound = record { session_bind_ip = true; session_bind_user_agent = true; trusted_proxies = [] }

abbrev headers : Headers
headers = record {
  authorization = some (codes " abc ");
  user_agent = none;
  connection = record {
    client_host = some (codes "10.0.0.1");
    x_real_ip = none;
    x_forwarded_for = none;
  };
}

abbrev user : Accepted
user = record { session = session (codes "abc"); touched = codes "abc" }

-- A session that was made from another address
require_permission_other_ip :
    validate_session_ip bound (some (codes "10.0.0.1")) (record {
      session = record (session (codes "abc")) { client_ip = some (codes "10.0.0.2") };
      touched = codes "abc";
    })
    ≡ denied ip_mismatch
unfolding validate_session_ip
require_permission_other_ip = refl

-- The sessions of another account are deleted.
require_permission-revoked_example :
    (mem account ((codes "ADMIN", codes "8") ∷ []) ≡ false)
    × (has_permission (codes "judge:run" ∷ []) (codes "judge:run") ≡ true)
unfolding require_permission get_current_session validate_session validate_session_ip
    validate_session_user_agent has_permission get_client_ip is_trusted_proxy is_in_any strip
    Store.delete_accounts_sessions Store.get_accounts_tokens Store.get Store.set Store.store_session
    Store.login_token_key Store.login_account_tokens_key Store.login_tokens_key
    Store.check_idle_timeout get put remove
require_permission-revoked_example =
    require_permission-revoked single lists bound lists-IsRedis one_login
      ((codes "ADMIN", codes "8") ∷ []) (codes "judge:run") 9 headers user
      (Reachable.next Reachable.fresh
        (Step.logged_in (session (codes "abc")) 60 lists.empty (omega arith)))
      refl

abbrev grant : (data_scope : Text) → PermissionGrantPayload
grant data_scope = record {
  permission_key = codes "judge:run";
  data_scope = data_scope;
  custom_scope_dept_ids = [];
  effect = [];
  source_type = [];
  source_id = [];
}

abbrev granted : SessionPayload
granted = record (session (codes "abc")) {
  permission_grants = grant (codes "SELF") ∷ grant (codes "ALL") ∷ [];
}

resolve_data_scope_dept_ids-IsUnrestricted_example : IsUnrestricted granted (codes "judge:run")
unfolding resolve_data_scope_dept_ids find_permission_grant data_scope_of
resolve_data_scope_dept_ids-IsUnrestricted_example =
    resolve_data_scope_dept_ids-IsUnrestricted (λ ids. ids) granted (codes "judge:run") refl
