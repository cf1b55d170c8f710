-- ===== src/Web/Auth/Revoked.antt =====
-- auth.py: the session of an accepted request, and the sessions that have been deleted.
use acoj_worker.Common.{
  ℕ, true, false, Option, none, some, List, mem, Text, strip, is_empty, nat_eq, list_eq, pair_eq,
  if◌then◌else◌, Bool-cases, ◌≡◌, refl, sym, ap, ◌∙◌, arith, inl, inr,
}
use acoj_worker.Network.ClientIp.{IpAddress, get_client_ip}
use acoj_worker.Security.Permission.{has_permission}
use acoj_worker.Security.Session.Services.{SessionPayload, Services, IsRedis}
use acoj_worker.Security.Session.Store as Store
use acoj_worker.Security.Session.Steps.{Reachable}
use acoj_worker.Security.Session.Revoke.{owned_by, delete_accounts_sessions-revokes}
use acoj_worker.Web.Auth.{
  AuthError, Accepted, Decision, denied, accepted, Headers, AuthSettings, and_then, differs,
  validate_session_ip, validate_session_user_agent, validate_session, session_of_header,
  get_current_session, require_permission,
}

and_then-eq-accepted :
    (d : Decision) (f : Accepted → Decision) {a : Accepted}
    → and_then d f ≡ accepted a
    → (b : Accepted) × (d ≡ accepted b) × (f b ≡ accepted a)
and_then-eq-accepted (denied e) f h = cc
and_then-eq-accepted (accepted b) f h = (b, refl, h)

accepted-injective : {a b : Accepted} → accepted a ≡ accepted b → a ≡ b
accepted-injective h = cc

validate_session_ip-same :
    (cfg : AuthSettings) (ip : Option Text) (a b : Accepted)
    → validate_session_ip cfg ip a ≡ accepted b
    → a ≡ b
unfolding validate_session_ip
validate_session_ip-same cfg ip a b h = accepted-injective (elim (Bool-cases cfg.session_bind_ip) [
  | inl on ↦ elim (Bool-cases (differs a.session.client_ip ip)) [
    | inl d ↦ absurd (ground arith)
    | inr d ↦ rw (on, d) at h
  ]
  | inr off ↦ rw off at h
])

validate_session_user_agent-same :
    (cfg : AuthSettings) (ua : Option Text) (a b : Accepted)
    → validate_session_user_agent cfg ua a ≡ accepted b
    → a ≡ b
unfolding validate_session_user_agent
validate_session_user_agent-same cfg ua a b h =
    accepted-injective (elim (Bool-cases cfg.session_bind_user_agent) [
      | inl on ↦ elim (Bool-cases (differs a.session.user_agent ua)) [
        | inl d ↦ absurd (ground arith)
        | inr d ↦ rw (on, d) at h
      ]
      | inr off ↦ rw off at h
    ])

module _ {Address : Type 0} (ips : IpAddress Address) (r : Services) (cfg : AuthSettings) where
  validate_session-accepted :
      (headers : Headers) (token : Text) (o : Option SessionPayload) (a : Accepted)
      → validate_session ips r cfg headers token o ≡ accepted a
      → (o ≡ some a.session) × (token ≡ a.touched)
  unfolding validate_session
  validate_session-accepted headers token none a h = cc
  validate_session-accepted headers token (some p) a h =
      let ip = get_client_ip ips cfg.trusted_proxies headers.connection in
      let first : Accepted = record { session = p; touched = token } in
      let (b, one, two) =
        and_then-eq-accepted (validate_session_ip cfg ip first)
          (validate_session_user_agent cfg headers.user_agent) h in
      let same =
        validate_session_ip-same cfg ip first b one
        ∙ validate_session_user_agent-same cfg headers.user_agent b a two in
      (ap (λ x. some x.session) same, ap (λ x. x.touched) same)

  session_of_header-accepted :
      (now : ℕ) (headers : Headers) (o : Option Text) (s : r.Redis) (a : Accepted)
      → session_of_header ips r cfg now headers o s ≡ accepted a
      → Store.get r now a.touched s ≡ some a.session
  session_of_header-accepted now headers none s a h = cc
  session_of_header-accepted now headers (some text) s a h = elim (Bool-cases (is_empty text)) [
    | inl e ↦ absurd (ground arith)
    | inr e ↦
        let (found, same) =
          validate_session-accepted headers (strip text) (Store.get r now (strip text) s) a
            (rw e at h) in
        ap (λ t. Store.get r now t s) (sym same) ∙ found
  ]

  -- What is accepted is the session that is stored under the token, and has the permission.
  require_permission-accepted :
      (code : Text) (now : ℕ) (headers : Headers) (s : r.Redis) (a : Accepted)
      → require_permission ips r cfg code now headers s ≡ accepted a
      → (Store.get r now a.touched s ≡ some a.session)
        × (has_permission a.session.permission_keys code ≡ true)
  unfolding require_permission get_current_session
  require_permission-accepted code now headers s a h =
      let check : Accepted → Decision = λ a.
        if has_permission a.session.permission_keys code
        then accepted a
        else denied AuthError.permission_denied in
      let (b, one, two) =
        and_then-eq-accepted (session_of_header ips r cfg now headers headers.authorization s) check
          h in
      elim (Bool-cases (has_permission b.session.permission_keys code)) [
        | inl on ↦
            let same = accepted-injective (rw on at two) in
            (
              rw (sym same) (session_of_header-accepted now headers headers.authorization s b one),
              rw (sym same) on,
            )
        | inr off ↦ absurd (ground arith)
      ]

  -- In a state that the operations lead to, where logins have a positive time to live and refreshed
  -- sessions keep their tokens: once the sessions of some accounts have been deleted, a request that
  -- passes the check of a permission has a session of another account, which has that permission.
  pub require_permission-revoked :
      (laws : IsRedis r) (s : r.Redis) (targets : List Store.Target) (code : Text) (now : ℕ)
      (headers : Headers) (a : Accepted)
      → Reachable r s
      → require_permission ips r cfg code now headers (Store.delete_accounts_sessions r targets s)
        ≡ accepted a
      → (mem (Store.target_of a.session) targets ≡ false)
        × (has_permission a.session.permission_keys code ≡ true)
  require_permission-revoked laws s targets code now headers a reached h =
      let after = Store.delete_accounts_sessions r targets s in
      let (stored, allowed) = require_permission-accepted code now headers after a h in
      let none_owned = delete_accounts_sessions-revokes r laws s now a.touched targets reached in
      (sym (ap (owned_by r targets) stored) ∙ none_owned, allowed)
