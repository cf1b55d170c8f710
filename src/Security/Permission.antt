-- ===== src/Security/Permission.antt =====
-- app/core/security/permission.py and account_type.py.
use acoj_worker.Common.{Bool, ◌||◌, List, mem, Text, codes, nat_eq, list_eq}

unfoldable pub has_permission : (permissions : List Text) → (permission_code : Text) → Bool
has_permission permissions permission_code =
    mem permission_code permissions || mem (codes "*:*:*") permissions

-- Whether `assert_account_type_allowed` returns; it raises an AuthorizationError where not.
unfoldable pub is_account_type_allowed : (actual : Text) → (expected : List Text) → Bool
is_account_type_allowed actual expected = mem actual expected
