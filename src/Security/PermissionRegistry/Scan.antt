-- ===== src/Security/PermissionRegistry/Scan.antt =====
-- scan_permission_registry: one resource for each permission key, in the order of the keys.
use acoj_worker.Common.{
  ℕ, Bool, true, false, not, ◌&&◌, ◌||◌, Option, none, some, List, [], ◌∷◌, mem, select, map, leb,
  Text, codes, text_lt, sort_texts, strip, nat_eq, list_eq, ◌==◌, if◌then◌else◌,
}
use acoj_worker.Security.PermissionRegistry.Routes.{
  Route, Routes, PermissionResource, iter_dependant_calls, iter_api_route_candidates,
  normalize_permission_route_path, resolve_route_name,
}

-- `[a-z0-9*]`
abbrev pub is_key_char : ℕ → Bool
is_key_char c = (leb 97 c && leb c 122) || (leb 48 c && leb c 57) || c == 42

-- PERMISSION_KEY_PATTERN on the rest of a text: whether the part before it is not empty, and whether
-- a colon has been read
unfoldable pub key_from : (part colon : Bool) → Text → Bool
key_from part colon [] = part && colon
key_from part colon (c ∷ s) =
    let more = key_from true colon s in
    let next_part = key_from false true s in
    if is_key_char c then more else if c == 58 then part && next_part else false

-- `PERMISSION_KEY_PATTERN.fullmatch(key)`
abbrev pub is_permission_key : Text → Bool
is_permission_key key = key_from false false key

abbrev pub first : List Text → Option Text
first [] = none
first (t ∷ ts) = some t

-- `_extract_permission_key`; the pattern does not match the empty text.
unfoldable pub extract_permission_key : Route → Option Text
extract_permission_key route =
    first (sort_texts (select is_permission_key (map strip (iter_dependant_calls route.dependant))))

-- `_normalize_methods`
unfoldable pub normalize_methods : Route → List Text
normalize_methods route =
    sort_texts (select (λ m. not (m == codes "HEAD" || m == codes "OPTIONS")) route.methods)

unfoldable pub resource_of :
    (fallback : Text) → Route → (permission_key method : Text) → PermissionResource
resource_of fallback route permission_key method = record {
  permission_key = permission_key;
  name = resolve_route_name fallback route;
  route_path = normalize_permission_route_path route;
  method = method;
}

-- The resource of a route that has a key and a method, when the key has not been seen
unfoldable pub new_resource :
    (fallback : Text)
    → (seen : List Text) → Route
    → (key method : Option Text) → Option PermissionResource
new_resource fallback seen route (some key) (some method) =
    if mem key seen then none else some (resource_of fallback route key method)
new_resource fallback seen route _ _ = none

unfoldable pub scan_routes :
    (fallback : Text) → (seen : List Text) → List Route → List PermissionResource
scan_routes fallback seen [] = []
scan_routes fallback seen (route ∷ routes) =
    let without = scan_routes fallback seen routes in
    elim (new_resource fallback seen route (extract_permission_key route)
      (first (normalize_methods route))) [
        | none ↦ without
        | some resource ↦ resource ∷ scan_routes fallback (resource.permission_key ∷ seen) routes
      ]

unfoldable pub insert_resource :
    PermissionResource → List PermissionResource → List PermissionResource
insert_resource r [] = r ∷ []
insert_resource r (t ∷ ts) =
    let rest = insert_resource r ts in
    if text_lt t.permission_key r.permission_key then t ∷ rest else r ∷ t ∷ ts

unfoldable pub sort_resources : List PermissionResource → List PermissionResource
sort_resources [] = []
sort_resources (r ∷ rs) = insert_resource r (sort_resources rs)

-- `scan_permission_registry`
unfoldable pub scan_permission_registry : (fallback : Text) → Routes → List PermissionResource
scan_permission_registry fallback app =
    sort_resources (scan_routes fallback [] (iter_api_route_candidates app))
