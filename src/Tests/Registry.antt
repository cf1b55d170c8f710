-- ===== src/Tests/Registry.antt =====
-- Runs of permission_registry.py on a Redis that is a dictionary of lists.
use acoj_worker.Common.{
  ◌||◌, none, some, List, [], ◌∷◌, map, mem, Text, codes, text_lt, insert_text, sort_texts, strip,
  starts_with, is_empty, all, nat_eq, list_eq, Dict, get, put, get-put, ◌≡◌, refl,
}
use acoj_worker.Security.PermissionRegistry.Routes.{
  Dependencies, Routes, PermissionResource, iter_dependant_calls, iter_api_route_candidates,
  drop_digits, remove_version, normalize_route_path, strip_slashes_left, without_tag,
  normalize_permission_route_path, resolve_route_name,
}
use acoj_worker.Security.PermissionRegistry.Scan.{
  key_from, extract_permission_key, normalize_methods, resource_of, new_resource, scan_routes,
  insert_resource, sort_resources, scan_permission_registry,
}
use acoj_worker.Security.PermissionRegistry.Registry.{
  JsonCache, IsJsonCache, write_registry, sync_permission_registry,
  ensure_registered_permission_keys,
}
use acoj_worker.Security.PermissionRegistry.Registered.{
  keys, is_returned, ensure_registered_permission_keys-synced,
}

abbrev dictionary : JsonCache
dictionary = record {
  Raw = List Text;
  Redis = Dict Text (List Text);
  get = λ k s. get k s;
  set = λ k v s. put k v s;
  dumps_list = λ ts. ts;
  dumps_map = λ m. map (λ e. e.0) m;
  loads_list = λ raw. raw;
}

dictionary-IsJsonCache : IsJsonCache dictionary
dictionary-IsJsonCache = record { get-set = λ j k v s. get-put k j v s; loads-dumps = λ ts. refl }

-- A route in a group, whose dependency asks for a permission
abbrev app : Routes
app = Routes.other_route (
    Routes.candidates
      (Routes.api_route
        (record {
          dependant =
              Dependencies.and_call none
                (Dependencies.and_call (some (codes " judge:run ")) Dependencies.nothing
                  Dependencies.nothing)
                (Dependencies.and_call (some (codes "Judge")) Dependencies.nothing
                  Dependencies.nothing);
          methods = codes "POST" ∷ codes "HEAD" ∷ [];
          path = codes "/api/v1/judge/run";
          tags = codes "/judge/" ∷ [];
          summary = some (codes "Run[1]");
          endpoint_name = codes "run";
        })
        Routes.no_routes)
      Routes.no_routes)

abbrev resource : PermissionResource
resource = record {
  permission_key = codes "judge:run";
  name = codes "Run[1]";
  route_path = codes "/run";
  method = codes "POST";
}

scan_sample : scan_permission_registry (codes "?") app ≡ resource ∷ []
unfolding scan_permission_registry scan_routes sort_resources insert_resource new_resource
    resource_of extract_permission_key normalize_methods key_from iter_dependant_calls
    iter_api_route_candidates drop_digits remove_version normalize_route_path strip_slashes_left
    without_tag normalize_permission_route_path resolve_route_name sort_texts insert_text text_lt
    strip starts_with
scan_sample = refl

ensure_registered_permission_keys-synced_example :
    is_returned (
      ensure_registered_permission_keys dictionary
        (codes "judge:run" ∷ [] ∷ [])
        (write_registry dictionary (resource ∷ []) []))
    ≡ all (λ k. is_empty k || mem k (keys (resource ∷ []))) (codes "judge:run" ∷ [] ∷ [])
unfolding sync_permission_registry scan_permission_registry scan_routes sort_resources
    insert_resource new_resource resource_of extract_permission_key normalize_methods key_from
    iter_dependant_calls iter_api_route_candidates drop_digits remove_version normalize_route_path
    strip_slashes_left without_tag normalize_permission_route_path resolve_route_name sort_texts
    insert_text text_lt strip starts_with
ensure_registered_permission_keys-synced_example =
    ensure_registered_permission_keys-synced dictionary dictionary-IsJsonCache (codes "?") app
      (codes "judge:run" ∷ [] ∷ []) (resource ∷ []) []
      (write_registry dictionary (resource ∷ []) []) refl
