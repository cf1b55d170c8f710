-- ===== src/Tests/Platform.antt =====
-- Runs of discovery.py, loader.py and router.py.
use acoj_worker.Common.{
  ℕ, map, codes, text_lt, false, get, put, String, true, List, [], ◌∷◌, select, string_eq, ◌==◌,
  if◌then◌else◌, ◌≡◌, refl, arith,
}
use acoj_worker.Platform.Spec.{ModuleSpec}
use acoj_worker.Platform.Discovery.Visit.{
  LoadError, failed, done, find_spec, each, visit_spec, visit_with, visit, sort_specs,
  add_remaining, topological_sort, is_module_enabled, collect_specs, load_module_specs,
}
use acoj_worker.Platform.Loader.{
  duplicate_schedule, add_schedules, collect_beat_schedule, insert_route, sort_routes, left_slashes,
  join_prefixes, IncludedRouter, build_api_router,
}
use acoj_worker.Platform.Discovery.Order.{IsOrdered}
use acoj_worker.Platform.Discovery.Complete.{Placed, load_module_specs_complete}
use acoj_worker.Platform.Discovery.Fuel.{Ends, topological_sort-returns}
use acoj_worker.Platform.Discovery.Acyclic.{is_done, topological_sort-is_done}

abbrev module_named : String → List String → ModuleSpec
module_named name depends_on = record {
  name = name;
  enabled = true;
  enabled_key = "";
  routes =
      record { version = "v1"; router = name; prefix = "/judge/"; tags = []; order = 100 } ∷ [];
  models = [];
  tasks = [];
  config_model = "";
  config_from_db = false;
  services = [];
  beat_schedules = record { name = "tick"; task = name; schedule = 5 } ∷ [];
  startup_hooks = [];
  shutdown_hooks = [];
  event_handlers = [];
  order = 0;
  depends_on = depends_on;
}

abbrev judge : ModuleSpec
judge = module_named "judge" ("auth" ∷ "mail" ∷ [])

abbrev auth : ModuleSpec
auth = module_named "auth" []

-- A module comes behind the one that it names, and a name of no module is passed over.
topological_sort_sample : topological_sort (judge ∷ auth ∷ []) ≡ done (auth ∷ judge ∷ [])
unfolding topological_sort each visit visit_with visit_spec find_spec add_remaining sort_specs
topological_sort_sample = refl

-- Two modules that name each other
topological_sort_cycle :
    topological_sort (module_named "a" ("b" ∷ []) ∷ module_named "b" ("a" ∷ []) ∷ [])
    ≡ failed (LoadError.circular_dependency ("b" ∷ "a" ∷ []) "a")
unfolding topological_sort each visit visit_with visit_spec find_spec add_remaining sort_specs
topological_sort_cycle = refl

-- The number of a name in the sample
abbrev rank : String → ℕ
rank name = if name == "judge" then 1 else 0

load_module_specs_complete_example :
    let specs = select (is_module_enabled [] []) (judge ∷ auth ∷ []) in
    Placed specs (auth ∷ judge ∷ []) specs × IsOrdered specs [] (auth ∷ judge ∷ [])
unfolding load_module_specs collect_specs is_module_enabled topological_sort each visit visit_with
    visit_spec find_spec add_remaining sort_specs
load_module_specs_complete_example =
    load_module_specs_complete [] [] (judge ∷ auth ∷ []) (auth ∷ judge ∷ []) refl

topological_sort-is_done_example : is_done (topological_sort (judge ∷ auth ∷ [])) ≡ true
topological_sort-is_done_example =
    topological_sort-is_done rank (judge ∷ auth ∷ []) ((omega arith, (omega arith, tt)), (tt, tt))

topological_sort-returns_example : Ends (topological_sort (judge ∷ auth ∷ []))
topological_sort-returns_example = topological_sort-returns (judge ∷ auth ∷ [])

-- A route of each, in the order of the names
build_api_router_sample :
    map (λ (i : IncludedRouter). i.router) (build_api_router (judge ∷ auth ∷ []))
    ≡ "auth" ∷ "judge" ∷ []
unfolding build_api_router sort_routes insert_route text_lt join_prefixes left_slashes
build_api_router_sample = refl

join_prefixes_sample :
    join_prefixes (codes "/api" ∷ codes "v1" ∷ [] ∷ codes "/judge/" ∷ []) ≡ codes "/api/v1/judge"
unfolding join_prefixes left_slashes
join_prefixes_sample = refl

collect_beat_schedule_sample : collect_beat_schedule (judge ∷ auth ∷ []) ≡ duplicate_schedule "tick"
unfolding collect_beat_schedule add_schedules get put
collect_beat_schedule_sample = refl
