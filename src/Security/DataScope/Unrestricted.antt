-- ===== src/Security/DataScope/Unrestricted.antt =====
-- data_scope.py: when a session sees the data of all departments.
use acoj_worker.Common.{
  true, false, Option, none, some, List, [], ◌∷◌, ◌++◌, mem, Text, codes, nat_eq, list_eq,
  list_beq_iff, ◌==◌, All, Bool-cases, Option-cases, ◌≡◌, inl, inr, refl, ap, ◌∙◌, sym, arith,
}
use acoj_worker.Security.Session.Services.{PermissionGrantPayload, SessionPayload}
use acoj_worker.Security.DataScope.{
  DataScope, data_scope_of, find_permission_grant, scope_ids, dept_ids_of, granted_ids,
  resolve_data_scope_dept_ids,
}

-- The grant is the last one of the key.
pub record IsLast (key : Text) (grants : List PermissionGrantPayload)
    (grant : PermissionGrantPayload) : Type 0 where
  pub before : List PermissionGrantPayload
  pub after : List PermissionGrantPayload
  pub split : grants ≡ before ++ grant ∷ after
  pub has_key : grant.permission_key ≡ key
  pub no_later : All (λ g. (g.permission_key == key) ≡ false) after

find_permission_grant-none :
    (grants : List PermissionGrantPayload) (key : Text)
    → find_permission_grant grants key ≡ none
    → All (λ g. (g.permission_key == key) ≡ false) grants
unfolding find_permission_grant
find_permission_grant-none [] key h = tt
find_permission_grant-none (g ∷ grants) key h =
    elim (Option-cases (find_permission_grant grants key)) [
      | inl e ↦ (ground arith, find_permission_grant-none grants key e)
      | inr (t, e) ↦ absurd (ground arith)
    ]

find_permission_grant-IsLast :
    (grants : List PermissionGrantPayload) (key : Text) (grant : PermissionGrantPayload)
    → find_permission_grant grants key ≡ some grant
    → IsLast key grants grant
unfolding find_permission_grant
find_permission_grant-IsLast [] key grant h = cc
find_permission_grant-IsLast (g ∷ grants) key grant h =
    elim (Option-cases (find_permission_grant grants key)) [
      | inl e ↦
          let iff = list_beq_iff g.permission_key key in
          let same : g ≡ grant = ground arith in
          let keyed : g.permission_key ≡ key = ground arith in
          record {
            before = [];
            after = grants;
            split = ap (λ x. x ∷ grants) same;
            has_key = ap (λ x. x.permission_key) (sym same) ∙ keyed;
            no_later = find_permission_grant-none grants key e;
          }
      | inr (t, e) ↦
          let there : find_permission_grant grants key ≡ some grant = ground arith in
          let ih = find_permission_grant-IsLast grants key grant there in
          record {
            before = g ∷ ih.before;
            after = ih.after;
            split = ap (λ x. g ∷ x) ih.split;
            has_key = ih.has_key;
            no_later = ih.no_later;
          }
    ]

data_scope_of-all : (value : Text) → data_scope_of value ≡ some DataScope.all → value ≡ codes "ALL"
unfolding data_scope_of
data_scope_of-all value h = let iff = list_beq_iff value (codes "ALL") in ground arith

-- The session has the permission of everything, or the last grant of the key has the scope ALL.
pub data IsUnrestricted (session : SessionPayload) (key : Text) : Type 0 where
  superuser : mem (codes "*:*:*") session.permission_keys ≡ true → IsUnrestricted session key
  by_grant :
      (grant : PermissionGrantPayload)
      → IsLast key session.permission_grants grant
      → grant.data_scope ≡ codes "ALL"
      → IsUnrestricted session key

scope_ids-injective : {a b : Option (List Text)} → scope_ids a ≡ scope_ids b → a ≡ b
scope_ids-injective h = cc

module _ (children : List Text → List Text) (session : SessionPayload) (key : Text) where
  dept_ids_of-none :
      (grant : PermissionGrantPayload) (scope : Option DataScope)
      → dept_ids_of children session grant scope ≡ scope_ids none
      → scope ≡ some DataScope.all
  dept_ids_of-none grant none h = cc
  dept_ids_of-none grant (some DataScope.all) h = refl
  dept_ids_of-none grant (some DataScope.dept) h = let e = scope_ids-injective h in cc
  dept_ids_of-none grant (some DataScope.dept_and_child) h = let e = scope_ids-injective h in cc
  dept_ids_of-none grant (some DataScope.custom) h = let e = scope_ids-injective h in cc
  dept_ids_of-none grant (some DataScope.self) h = let e = scope_ids-injective h in cc

  granted_ids-none :
      (found : Option PermissionGrantPayload)
      → find_permission_grant session.permission_grants key ≡ found
      → granted_ids children session found ≡ scope_ids none
      → IsUnrestricted session key
  granted_ids-none none e h = let e' = scope_ids-injective h in absurd (ground arith)
  granted_ids-none (some grant) e h =
      IsUnrestricted.by_grant grant
        (find_permission_grant-IsLast session.permission_grants key grant e)
        (data_scope_of-all grant.data_scope
          (dept_ids_of-none grant (data_scope_of grant.data_scope) h))

  -- When no restriction to departments is returned, the session has the permission of everything or
  -- the last of its grants of the key has the scope ALL.
  pub resolve_data_scope_dept_ids-IsUnrestricted :
      resolve_data_scope_dept_ids children session key ≡ scope_ids none → IsUnrestricted session key
  unfolding resolve_data_scope_dept_ids
  resolve_data_scope_dept_ids-IsUnrestricted h =
      elim (Bool-cases (mem (codes "*:*:*") session.permission_keys)) [
        | inl e ↦ IsUnrestricted.superuser e
        | inr e ↦
            granted_ids-none (find_permission_grant session.permission_grants key) refl (rw e at h)
      ]
