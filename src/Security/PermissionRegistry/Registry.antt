-- ===== src/Security/PermissionRegistry/Registry.antt =====
-- The copy of the registry in Redis: written by sync_permission_registry, read by the others. Redis
-- and json are a record.
use acoj_worker.Common.{
  not, Option, none, some, List, [], ◌∷◌, ◌++◌, map, mem, unique, select, Text, codes, is_empty,
  sort_texts, nat_eq, list_eq, ◌==◌, if◌then◌else◌, ◌≡◌,
}
use acoj_worker.Security.PermissionRegistry.Routes.{Routes, PermissionResource, resource_text}
use acoj_worker.Security.PermissionRegistry.Scan.{scan_permission_registry}

pub record JsonCache : Type 1 where
  pub Raw : Type 0
  pub Redis : Type 0
  pub get : Text → Redis → Option Raw
  pub set : Text → Raw → Redis → Redis
  pub dumps_list : List Text → Raw
  pub dumps_map : List (Text × Text) → Raw
  pub loads_list : Raw → List Text

-- What is set is read, until another value is set under its key, and JSON keeps a list of texts.
pub record IsJsonCache (c : JsonCache) : Type 0 where
  pub get-set :
      (j k : Text) (v : c.Raw) (s : c.Redis)
      → c.get j (c.set k v s) ≡ (if k == j then some v else c.get j s)
  pub loads-dumps : (ts : List Text) → c.loads_list (c.dumps_list ts) ≡ ts

-- `cache_key`
unfoldable pub cache_key : Text → Text
cache_key name = codes "Cache:" ++ name

abbrev pub permission_resource_cache_key : Text
permission_resource_cache_key = cache_key (codes "permission-resource")

abbrev pub permission_resource_method_cache_key : Text
permission_resource_method_cache_key = cache_key (codes "permission-resource-method")

-- The two RuntimeErrors and the BusinessError, and a call that returns
pub data Registry (A : Type 0) : Type 0 where
  no_resources not_synced : Registry A
  not_registered : List Text → Registry A
  returned : A → Registry A

-- `resource[:index]`, where `index` is the place of the first `[`, if it has one
unfoldable pub before_bracket : Text → Text
before_bracket [] = []
before_bracket (c ∷ s) = let rest = before_bracket s in if c == 91 then [] else c ∷ rest

module _ (c : JsonCache) where
  abbrev pub write_registry : List PermissionResource → c.Redis → c.Redis
  write_registry resources s =
      c.set permission_resource_method_cache_key
        (c.dumps_map (map (λ r. (resource_text r, r.method)) resources))
        (c.set permission_resource_cache_key (c.dumps_list (map resource_text resources)) s)

  abbrev pub sync_resources :
      List PermissionResource → c.Redis → Registry (List PermissionResource) × c.Redis
  sync_resources [] s = (no_resources, s)
  sync_resources (r ∷ rs) s = (returned (r ∷ rs), write_registry (r ∷ rs) s)

  -- `sync_permission_registry`; nothing is written for an empty scan.
  unfoldable pub sync_permission_registry :
      (fallback : Text) → Routes → c.Redis → Registry (List PermissionResource) × c.Redis
  sync_permission_registry fallback app s = sync_resources (scan_permission_registry fallback app) s

  abbrev pub read_resources : Option c.Raw → Registry (List Text)
  read_resources none = not_synced
  read_resources (some raw) = returned (c.loads_list raw)

  unfoldable pub list_permission_resources : c.Redis → Registry (List Text)
  list_permission_resources s = read_resources (c.get permission_resource_cache_key s)

  abbrev pub keys_of : Registry (List Text) → Registry (List Text)
  keys_of (returned resources) = returned (unique (map before_bracket resources))
  keys_of no_resources = no_resources
  keys_of not_synced = not_synced
  keys_of (not_registered keys) = not_registered keys

  unfoldable pub list_registered_permission_keys : c.Redis → Registry (List Text)
  list_registered_permission_keys s = keys_of (list_permission_resources s)

  abbrev pub report_missing : List Text → Registry Unit
  report_missing [] = returned tt
  report_missing (k ∷ ks) = not_registered (k ∷ ks)

  abbrev pub check_keys : List Text → Registry (List Text) → Registry Unit
  check_keys wanted (returned registered) =
      report_missing (select (λ k. not (mem k registered)) wanted)
  check_keys wanted no_resources = no_resources
  check_keys wanted not_synced = not_synced
  check_keys wanted (not_registered keys) = not_registered keys

  abbrev pub ensure_wanted : List Text → c.Redis → Registry Unit
  ensure_wanted [] s = returned tt
  ensure_wanted (k ∷ ks) s = check_keys (k ∷ ks) (list_registered_permission_keys s)

  -- `ensure_registered_permission_keys`
  unfoldable pub ensure_registered_permission_keys : List Text → c.Redis → Registry Unit
  ensure_registered_permission_keys permission_keys s =
      ensure_wanted (sort_texts (unique (select (λ k. not (is_empty k)) permission_keys))) s
