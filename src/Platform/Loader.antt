-- ===== src/Platform/Loader.antt =====
-- app/platform/module/loader.py, hooks.py and router.py: what is imported, run and included for the
-- modules, in which order. The imports and the calls themselves are not modelled.
use mathlib.Core.List.{reverse}
use acoj_worker.Common.{
  ℕ, String, Bool, not, ◌&&◌, ◌||◌, List, [], ◌∷◌, ◌++◌, map, select, ltb, is_some, Text, codes,
  text_lt, is_empty, Dict, get, put, string_eq, nat_eq, ◌==◌, if◌then◌else◌,
}
use acoj_worker.Platform.Spec.{RouteSpec, BeatScheduleSpec, ModuleSpec}

-- The items of the modules, module by module
abbrev pub each_module : {A : Type 0} → (ModuleSpec → List A) → List ModuleSpec → List A
each_module f [] = []
each_module f (s ∷ specs) = f s ++ each_module f specs

-- `load_declared_models` and `load_declared_tasks`: the imports
abbrev pub load_declared_models : List ModuleSpec → List String
load_declared_models specs = each_module (λ s. s.models) specs

abbrev pub load_declared_tasks : List ModuleSpec → List String
load_declared_tasks specs = each_module (λ s. s.tasks) specs

-- `run_startup_hooks`, `run_shutdown_hooks` and `run_event_handlers`: the hooks
abbrev pub run_startup_hooks : List ModuleSpec → List String
run_startup_hooks specs = each_module (λ s. s.startup_hooks) specs

abbrev pub run_shutdown_hooks : List ModuleSpec → List String
run_shutdown_hooks specs = each_module (λ s. s.shutdown_hooks) (reverse specs)

abbrev pub run_event_handlers : List ModuleSpec → List String
run_event_handlers specs = each_module (λ s. s.event_handlers) specs

-- The ValueError of a name that is there twice, or the schedule
pub data BeatSchedule : Type 0 where
  duplicate_schedule : String → BeatSchedule
  beat_schedule : Dict String (String × ℕ) → BeatSchedule

unfoldable pub add_schedules : Dict String (String × ℕ) → List BeatScheduleSpec → BeatSchedule
add_schedules schedule [] = beat_schedule schedule
add_schedules schedule (item ∷ items) =
    let rest = add_schedules (put item.name (item.task, item.schedule) schedule) items in
    if is_some (get item.name schedule) then duplicate_schedule item.name else rest

-- `collect_beat_schedule`
unfoldable pub collect_beat_schedule : List ModuleSpec → BeatSchedule
collect_beat_schedule specs = add_schedules [] (each_module (λ s. s.beat_schedules) specs)

-- `(version, order, module order, module name)` of the one before that of the other
abbrev pub route_before : ModuleSpec × RouteSpec → ModuleSpec × RouteSpec → Bool
route_before (m, r) (n, q) =
    text_lt (codes r.version) (codes q.version)
    || (r.version == q.version
        && (ltb r.order q.order
            || (r.order == q.order
                && (ltb m.order n.order
                    || (m.order == n.order && text_lt (codes m.name) (codes n.name))))))

unfoldable pub insert_route :
    ModuleSpec × RouteSpec → List (ModuleSpec × RouteSpec) → List (ModuleSpec × RouteSpec)
insert_route x [] = x ∷ []
insert_route x (y ∷ ys) =
    let rest = insert_route x ys in if route_before y x then y ∷ rest else x ∷ y ∷ ys

unfoldable pub sort_routes : List (ModuleSpec × RouteSpec) → List (ModuleSpec × RouteSpec)
sort_routes [] = []
sort_routes (x ∷ xs) = insert_route x (sort_routes xs)

-- `part.strip("/")`
unfoldable pub left_slashes : Text → Text
left_slashes [] = []
left_slashes (c ∷ s) = let rest = left_slashes s in if c == 47 then rest else c ∷ s

abbrev pub trim_slashes : Text → Text
trim_slashes s = reverse (left_slashes (reverse (left_slashes s)))

abbrev pub join_slashes : List Text → Text
join_slashes [] = []
join_slashes (part ∷ []) = part
join_slashes (part ∷ next ∷ parts) = part ++ codes "/" ++ join_slashes (next ∷ parts)

-- `_join_prefixes`
unfoldable pub join_prefixes : List Text → Text
join_prefixes parts =
    codes "/" ++ join_slashes (select (λ p. not (is_empty p)) (map trim_slashes parts))

-- A call of `include_router`
pub record IncludedRouter : Type 0 where
  pub router : String
  pub prefix : Text
  pub tags : List String

abbrev pub include_router : ModuleSpec × RouteSpec → IncludedRouter
include_router (m, r) = record {
  router = r.router;
  prefix = join_prefixes (codes "/api" ∷ codes r.version ∷ codes r.prefix ∷ []);
  tags = r.tags;
}

-- `build_api_router`: its calls, where each path leads to a router
unfoldable pub build_api_router : List ModuleSpec → List IncludedRouter
build_api_router specs =
    map include_router (sort_routes (each_module (λ s. map (λ r. (s, r)) s.routes) specs))
