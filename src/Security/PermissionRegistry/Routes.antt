-- ===== src/Security/PermissionRegistry/Routes.antt =====
-- The routes of the application, as far as the scan looks at them, and the paths it makes of theirs.
use mathlib.Core.List.{reverse}
use acoj_worker.Common.{
  ℕ, Bool, false, not, ◌&&◌, ◌||◌, Option, none, some, List, [], ◌∷◌, ◌++◌, drop, leb, select,
  length, Text, codes, is_empty, strip, starts_with, nat_eq, list_eq, ◌==◌, if◌then◌else◌, map,
}

-- What a dependency calls: `permission_key` of its metadata, if it has any. A list of dependencies is
-- a tree, since each has dependencies of its own.
pub data Dependencies : Type 0 where
  nothing : Dependencies
  and_call : (call : Option Text) → (inner : Dependencies) → (others : Dependencies) → Dependencies

pub record Route : Type 0 where
  pub dependant : Dependencies
  pub methods : List Text
  pub path : Text
  pub tags : List Text
  pub summary : Option Text
  pub endpoint_name : Text

-- A list of `app.routes`: an API route, a group with candidates of its own, or another route
pub data Routes : Type 0 where
  no_routes : Routes
  api_route : Route → Routes → Routes
  candidates : Routes → Routes → Routes
  other_route : Routes → Routes

pub record PermissionResource : Type 0 where
  pub permission_key : Text
  pub name : Text
  pub route_path : Text
  pub method : Text

-- `resource_text`
unfoldable pub resource_text : PermissionResource → Text
resource_text r = r.permission_key ++ (codes "[" ++ (r.name ++ codes "]"))

-- `_iter_dependant_calls`, the metadata of the calls
unfoldable pub iter_dependant_calls : Dependencies → List Text
iter_dependant_calls nothing = []
iter_dependant_calls (and_call (some key) inner others) =
    key ∷ iter_dependant_calls inner ++ iter_dependant_calls others
iter_dependant_calls (and_call none inner others) =
    iter_dependant_calls inner ++ iter_dependant_calls others

-- `_iter_api_route_candidates`
unfoldable pub iter_api_route_candidates : Routes → List Route
iter_api_route_candidates no_routes = []
iter_api_route_candidates (api_route route rest) = route ∷ iter_api_route_candidates rest
iter_api_route_candidates (candidates group rest) =
    iter_api_route_candidates group ++ iter_api_route_candidates rest
iter_api_route_candidates (other_route rest) = iter_api_route_candidates rest

-- `value or default`
abbrev pub text_or : Text → Text → Text
text_or value default = if is_empty value then default else value

abbrev pub is_version_digit : ℕ → Bool
is_version_digit c = leb 48 c && leb c 57

unfoldable pub drop_digits : Text → Text
drop_digits [] = []
drop_digits (c ∷ s) = let rest = drop_digits s in if is_version_digit c then rest else c ∷ s

abbrev pub starts_with_digit : Text → Bool
starts_with_digit [] = false
starts_with_digit (c ∷ s) = is_version_digit c

-- `API_VERSION_PREFIX_PATTERN.sub("", path, count=1)`: `/api/v`, digits, and then `/` or the end
unfoldable pub remove_version : Text → Text
remove_version path =
    let behind = drop 6 path in
    let rest = drop_digits behind in
    if starts_with (codes "/api/v") path
      && starts_with_digit behind
      && (is_empty rest || starts_with (codes "/") rest)
    then rest
    else path

unfoldable pub normalize_route_path : Text → Text
normalize_route_path path =
    let normalized = text_or (strip path) (codes "/") in
    if normalized == codes "/api"
    then codes "/"
    else text_or (remove_version normalized) (codes "/")

-- `str.strip("/")`
unfoldable pub strip_slashes_left : Text → Text
strip_slashes_left [] = []
strip_slashes_left (c ∷ s) = let rest = strip_slashes_left s in if c == 47 then rest else c ∷ s

abbrev pub strip_slashes : Text → Text
strip_slashes s = reverse (strip_slashes_left (reverse (strip_slashes_left s)))

-- The loop over the tags that have a text
unfoldable pub without_tag : Text → List Text → Text
without_tag normalized [] = normalized
without_tag normalized (tag ∷ tags) =
    let prefix = codes "/" ++ tag in
    let rest = without_tag normalized tags in
    if normalized == prefix
    then codes "/"
    else if starts_with (prefix ++ codes "/") normalized
    then drop (length prefix) normalized
    else rest

unfoldable pub normalize_permission_route_path : Route → Text
normalize_permission_route_path route =
    without_tag (normalize_route_path route.path)
      (select (λ tag. not (is_empty tag)) (map strip_slashes route.tags))

-- `_resolve_route_name`; the text for a route without a name is an input.
unfoldable pub resolve_route_name : (fallback : Text) → Route → Text
resolve_route_name fallback route = elim (route.summary) [
  | none ↦ text_or route.endpoint_name fallback
  | some summary ↦ if is_empty summary then text_or route.endpoint_name fallback else summary
]
