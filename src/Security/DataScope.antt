-- ===== src/Security/DataScope.antt =====
-- app/core/security/data_scope.py: the departments whose data a permission lets a session see.
pub mod Unrestricted
use acoj_worker.Common.{
  Bool, true, false, not, Option, none, some, List, [], ◌∷◌, mem, unique, select, Text, codes,
  is_empty, sort_texts, nat_eq, list_eq, ◌==◌, if◌then◌else◌,
}
use acoj_worker.Security.Session.Services.{PermissionGrantPayload, SessionPayload}

pub data DataScope : Type 0 where
  all dept_and_child dept self custom : DataScope

-- `DataScope(value)`, `none` where it raises a ValueError
unfoldable pub data_scope_of : Text → Option DataScope
data_scope_of value =
    if value == codes "ALL"
    then some DataScope.all
    else if value == codes "DEPT_AND_CHILD"
    then some DataScope.dept_and_child
    else if value == codes "DEPT"
    then some DataScope.dept
    else if value == codes "SELF"
    then some DataScope.self
    else if value == codes "CUSTOM"
    then some DataScope.custom
    else none

-- The last grant of the key
unfoldable pub find_permission_grant :
    List PermissionGrantPayload → (permission_key : Text) → Option PermissionGrantPayload
find_permission_grant [] permission_key = none
find_permission_grant (grant ∷ grants) permission_key =
    let later = find_permission_grant grants permission_key in
    elim later [
      | some g ↦ some g
      | none ↦ if grant.permission_key == permission_key then some grant else none
    ]

-- The ids of the departments, `none` for no restriction, or the ValueError of a scope that is none
pub data ScopeResult : Type 0 where
  invalid_scope : Text → ScopeResult
  scope_ids : Option (List Text) → ScopeResult

-- `_unique_ids`
unfoldable pub unique_ids : List Text → List Text
unique_ids values = sort_texts (unique (select (λ value. not (is_empty value)) values))

module _ (list_dept_and_child_ids : List Text → List Text) where
  abbrev pub dept_ids_of : SessionPayload → PermissionGrantPayload → Option DataScope → ScopeResult
  dept_ids_of session grant none = invalid_scope grant.data_scope
  dept_ids_of session grant (some DataScope.all) = scope_ids none
  dept_ids_of session grant (some DataScope.dept) = scope_ids (some (unique_ids session.dept_ids))
  dept_ids_of session grant (some DataScope.dept_and_child) =
      scope_ids (some (list_dept_and_child_ids session.dept_ids))
  dept_ids_of session grant (some DataScope.custom) =
      scope_ids (some (unique_ids grant.custom_scope_dept_ids))
  dept_ids_of session grant (some DataScope.self) = scope_ids (some [])

  -- Without a grant the scope is SELF.
  abbrev pub granted_ids : SessionPayload → Option PermissionGrantPayload → ScopeResult
  granted_ids session none = scope_ids (some [])
  granted_ids session (some grant) = dept_ids_of session grant (data_scope_of grant.data_scope)

  -- `resolve_data_scope_dept_ids`, with `has_unrestricted_data_scope`, which looks up the same grant
  unfoldable pub resolve_data_scope_dept_ids :
      SessionPayload → (permission_key : Text) → ScopeResult
  resolve_data_scope_dept_ids session permission_key =
      if mem (codes "*:*:*") session.permission_keys
      then scope_ids none
      else granted_ids session (find_permission_grant session.permission_grants permission_key)
