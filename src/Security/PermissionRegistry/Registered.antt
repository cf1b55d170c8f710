-- ===== src/Security/PermissionRegistry/Registered.antt =====
-- permission_registry.py: the keys of the routes and the registered ones.
use acoj_worker.Common.{
  Bool, true, false, not, ◌||◌, Option, none, some, List, [], ◌∷◌, map, mem, unique, select, Text,
  is_empty, sort_texts, nat_eq, list_eq, ==-refl, ==_of_ne, if◌then◌else◌, all, All, ◌≡◌, ◌≢◌, refl,
  ap, sym, ◌∙◌, arith, mem-unique, text_lt, char_at, other_char,
}
use acoj_worker.Security.PermissionRegistry.Routes.{
  Route, Routes, PermissionResource, resource_text, iter_api_route_candidates,
}
use acoj_worker.Security.PermissionRegistry.Scan.{
  first, extract_permission_key, normalize_methods, new_resource, scan_routes, insert_resource,
  sort_resources, scan_permission_registry,
}
use acoj_worker.Security.PermissionRegistry.Registry.{
  JsonCache, IsJsonCache, cache_key, permission_resource_cache_key,
  permission_resource_method_cache_key, Registry, returned, before_bracket, write_registry,
  sync_resources, sync_permission_registry, list_permission_resources,
  list_registered_permission_keys, report_missing, ensure_wanted, ensure_registered_permission_keys,
}
use acoj_worker.Security.PermissionRegistry.Keys.{
  HasKey, new_resource-HasKey, resource_text-before_bracket, all-sort_texts, all-unique, all-select,
}

scan_routes-HasKey :
    (fallback : Text) (seen : List Text) (routes : List Route)
    → All HasKey (scan_routes fallback seen routes)
unfolding scan_routes
scan_routes-HasKey fallback seen [] = tt
scan_routes-HasKey fallback seen (route ∷ routes) =
    added
      (new_resource fallback seen route (extract_permission_key route)
        (first (normalize_methods route)))
      (λ r e.
        new_resource-HasKey fallback seen route (extract_permission_key route)
          (first (normalize_methods route)) r refl e)
      (λ s. scan_routes-HasKey fallback s routes)
  where
    added :
        (o : Option PermissionResource)
        → ((r : PermissionResource) → o ≡ some r → HasKey r)
        → ((s : List Text) → All HasKey (scan_routes fallback s routes))
        → All HasKey (elim o [
          | none ↦ scan_routes fallback seen routes
          | some resource ↦ resource ∷ scan_routes fallback (resource.permission_key ∷ seen) routes
        ])
    added none h rest = rest seen
    added (some r) h rest = (h r refl, rest (r.permission_key ∷ seen))

insert_resource-HasKey :
    (r : PermissionResource) (rs : List PermissionResource)
    → HasKey r
    → All HasKey rs
    → All HasKey (insert_resource r rs)
unfolding insert_resource
insert_resource-HasKey r [] h hs = (h, tt)
insert_resource-HasKey r (t ∷ ts) h (ht, hs) =
    let rest = insert_resource-HasKey r ts h hs in
    elim (text_lt t.permission_key r.permission_key)
      as (λ b. All HasKey (if b then t ∷ insert_resource r ts else r ∷ t ∷ ts)) [
        | true ↦ (ht, rest)
        | false ↦ (h, (ht, hs))
      ]

sort_resources-HasKey :
    (rs : List PermissionResource) → All HasKey rs → All HasKey (sort_resources rs)
unfolding sort_resources
sort_resources-HasKey [] h = tt
sort_resources-HasKey (r ∷ rs) (h, hs) =
    insert_resource-HasKey r (sort_resources rs) h (sort_resources-HasKey rs hs)

scan-HasKey : (fallback : Text) (app : Routes) → All HasKey (scan_permission_registry fallback app)
unfolding scan_permission_registry
scan-HasKey fallback app =
    let found = scan_routes fallback [] (iter_api_route_candidates app) in
    sort_resources-HasKey found (scan_routes-HasKey fallback [] (iter_api_route_candidates app))

abbrev pub keys : List PermissionResource → List Text
keys resources = map (λ r. r.permission_key) resources

read_keys :
    (rs : List PermissionResource)
    → All HasKey rs
    → map before_bracket (map resource_text rs) ≡ keys rs
read_keys [] h = refl
read_keys (r ∷ rs) (h, hs) =
    ap (λ k. k ∷ map before_bracket (map resource_text rs)) (resource_text-before_bracket r h)
    ∙ ap (λ ks. r.permission_key ∷ ks) (read_keys rs hs)

-- The two keys of the cache differ at their end.
cache_keys : permission_resource_method_cache_key ≢ permission_resource_cache_key
unfolding cache_key char_at
cache_keys h = other_char 45 0 refl (ap (char_at 25) h)

abbrev pub is_returned : {A : Type 0} → Registry A → Bool
is_returned (returned a) = true
is_returned _ = false

all-eq : (p q : Text → Bool) (ts : List Text) → ((t : Text) → p t ≡ q t) → all p ts ≡ all q ts
all-eq p q [] h = refl
all-eq p q (t ∷ ts) h = let here = h t in ground (arith, all-eq p q ts h)

module _ (c : JsonCache) (laws : IsJsonCache c) where
  write_registry-get :
      (rs : List PermissionResource) (s : c.Redis)
      → list_permission_resources c (write_registry c rs s) ≡ returned (map resource_text rs)
  unfolding list_permission_resources
  write_registry-get rs s =
      let text = c.dumps_list (map resource_text rs) in
      let methods = c.dumps_map (map (λ r. (resource_text r, r.method)) rs) in
      let resource_key = permission_resource_cache_key in
      let method_key = permission_resource_method_cache_key in
      let outer = laws.get-set resource_key method_key methods (c.set resource_key text s) in
      let inner = laws.get-set resource_key resource_key text s in
      let apart = ==_of_ne method_key resource_key cache_keys in
      let itself = ==-refl resource_key in
      let found : c.get resource_key (write_registry c rs s) ≡ some text = ground arith in
      rw found (ap returned (laws.loads-dumps (map resource_text rs)))

  synced-keys :
      (rs resources : List PermissionResource) (s s' : c.Redis)
      → All HasKey rs
      → sync_resources c rs s ≡ (returned resources, s')
      → list_registered_permission_keys c s' ≡ returned (unique (keys resources))
  unfolding list_registered_permission_keys
  synced-keys [] resources s s' all h = let one = ap (λ x. x.0) h in cc
  synced-keys (r ∷ rs) resources s s' all h =
      let state : write_registry c (r ∷ rs) s ≡ s' = ap (λ x. x.1) h in
      let value : returned (r ∷ rs) ≡ returned resources = ap (λ x. x.0) h in
      let same : r ∷ rs ≡ resources = cc in
      rw (sym state, write_registry-get (r ∷ rs) s)
        (ap (λ ks. returned (unique ks)) (read_keys (r ∷ rs) all ∙ ap keys same))

  report_missing-all :
      (registered wanted : List Text)
      → is_returned (report_missing c (select (λ k. not (mem k registered)) wanted))
        ≡ all (λ k. mem k registered) wanted
  report_missing-all registered [] = refl
  report_missing-all registered (k ∷ ks) = ground (arith, report_missing-all registered ks)

  ensure_wanted-all :
      (registered wanted : List Text) (s : c.Redis)
      → list_registered_permission_keys c s ≡ returned registered
      → is_returned (ensure_wanted c wanted s) ≡ all (λ k. mem k registered) wanted
  ensure_wanted-all registered [] s h = refl
  ensure_wanted-all registered (k ∷ ks) s h = rw h (report_missing-all registered (k ∷ ks))

  -- Once the registry of the routes has been written, a check of keys returns exactly when each of
  -- them that is not empty is the key of one of the resources that were written.
  pub ensure_registered_permission_keys-synced :
      (fallback : Text) (app : Routes) (wanted : List Text) (resources : List PermissionResource)
      (s s' : c.Redis)
      → sync_permission_registry c fallback app s ≡ (returned resources, s')
      → is_returned (ensure_registered_permission_keys c wanted s')
        ≡ all (λ k. is_empty k || mem k (keys resources)) wanted
  unfolding sync_permission_registry ensure_registered_permission_keys
  ensure_registered_permission_keys-synced fallback app wanted resources s s' h =
      let registered = unique (keys resources) in
      let read =
        synced-keys (scan_permission_registry fallback app) resources s s'
          (scan-HasKey fallback app) h in
      let given = select (λ k. not (is_empty k)) wanted in
      let in_registry = λ (k : Text). mem k registered in
      ensure_wanted-all registered (sort_texts (unique given)) s' read
      ∙ all-sort_texts in_registry (unique given)
      ∙ all-unique in_registry given
      ∙ all-select in_registry (λ k. not (is_empty k)) wanted
      ∙ all-eq (λ k. not (not (is_empty k)) || mem k registered)
          (λ k. is_empty k || mem k (keys resources)) wanted
          (λ k. let same = mem-unique k (keys resources) in ground arith)
