-- ===== src/Security/Session/Revoke.antt =====
-- session.py: what is left after delete_accounts_sessions.
use acoj_worker.Common.{
  mem-unique, unique, ℕ, Bool, true, false, Option, none, some, List, [], ◌∷◌, map, mem, Text,
  nat_eq, list_eq, pair_eq, pair_beq_iff, ◌==◌, ==-refl, Bool-cases, ◌≡◌, refl, arith, inl, inr,
}
use acoj_worker.Security.Session.Services.{SessionPayload, Services, IsRedis}
use acoj_worker.Security.Session.Store.{
  Target, account_key, target_of, check_idle_timeout, read, get, delete_accounts_sessions,
}
use acoj_worker.Security.Session.Commands.{entry, online, entry-delete_accounts_sessions}
use acoj_worker.Security.Session.Index.{checked, mem-online}
use acoj_worker.Security.Session.Steps.{Reachable, Reachable-IsIndexed}

module _ (r : Services) where
  abbrev pub owned_by : List Target → Option SessionPayload → Bool
  owned_by targets none = false
  owned_by targets (some p) = mem (target_of p) targets

  check_idle_timeout-owned :
      (now : ℕ) (p : SessionPayload) (targets : List Target)
      → mem (target_of p) targets ≡ false
      → owned_by targets (check_idle_timeout r now p) ≡ false
  unfolding check_idle_timeout
  check_idle_timeout-owned now p targets h = ground arith

  mem-map :
      (a : Target) (ts : List Target)
      → mem a ts ≡ true
      → mem (account_key a) (map account_key ts) ≡ true
  mem-map a [] h = cc
  mem-map a (t ∷ ts) h =
      let rest = mem-map a ts in
      let itself = ==-refl (account_key a) in
      elim (Bool-cases (t == a)) [
        | inl e ↦
            let same : t ≡ a = (pair_beq_iff t a).0 e in
            let here : (account_key t == account_key a) ≡ true = rw same itself in ground arith
        | inr e ↦ ground arith
      ]

  module _ (laws : IsRedis r) where
    read-owned :
        (now : ℕ) (t : Text) (o : Option r.Raw) (targets : List Target) (s : r.Redis)
        → mem t (online r targets s) ≡ false
        → checked r t o s ≡ true
        → owned_by targets (read r now o) ≡ false
    read-owned now t none targets s off h = refl
    read-owned now t (some raw) targets s off h =
        let p = r.loads raw in
        let account = mem-map (target_of p) (unique targets) in
        let among = mem-unique (target_of p) targets in
        let on = mem-online r (target_of p) t targets s in
        check_idle_timeout-owned now p targets (elim (Bool-cases (mem (target_of p) targets)) [
          | inl e ↦ absurd (ground arith)
          | inr e ↦ e
        ])

    -- In a state that the operations lead to, where logins have a positive time to live and refreshed
    -- sessions keep their tokens: once the sessions of some accounts have been deleted, no token gives
    -- a session of one of these accounts.
    pub delete_accounts_sessions-revokes :
        (s : r.Redis) (now : ℕ) (token : Text) (targets : List Target)
        → Reachable r s
        → owned_by targets (get r now token (delete_accounts_sessions r targets s)) ≡ false
    unfolding get
    delete_accounts_sessions-revokes s now token targets h =
        let after = entry-delete_accounts_sessions r laws token targets s in
        elim (Bool-cases (mem token (online r targets s))) [
          | inl on ↦
              let gone : entry r token (delete_accounts_sessions r targets s) ≡ none =
                ground arith in
              rw gone refl
          | inr off ↦
              let kept : entry r token (delete_accounts_sessions r targets s) ≡ entry r token s =
                ground arith in
              rw kept (
                read-owned now token (entry r token s) targets s off
                  (Reachable-IsIndexed r laws s h token))
        ]
