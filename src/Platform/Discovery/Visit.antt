-- ===== src/Platform/Discovery/Visit.antt =====
-- app/platform/module/discovery.py: _topological_sort and _load_module_specs_cached.
use acoj_worker.Common.{
  ℕ, zero, suc, ltb, String, Bool, true, false, not, ◌&&◌, ◌||◌, Option, none, some, List, [], ◌∷◌,
  ◌++◌, map, select, length, mem, codes, text_lt, nat_eq, string_eq, ◌==◌, if◌then◌else◌, ◌≡◌, refl,
}
use acoj_worker.Platform.Spec.{ModuleSpec}

-- A ValueError, or that the model's recursion is too short, which `Fuel` rules out.
pub data LoadError : Type 0 where
  circular_dependency : (path : List String) → (name : String) → LoadError
  duplicate_name : String → LoadError
  out_of_fuel : LoadError

pub data Outcome (A : Type 0) : Type 0 where
  failed : LoadError → Outcome A
  done : A → Outcome A

-- `visited` and `result`
pub record Sorting : Type 0 where
  pub visited : List String
  pub result : List ModuleSpec

-- `by_name.get(name)`: of two modules with one name, the later.
unfoldable pub find_spec : String → List ModuleSpec → Option ModuleSpec
find_spec name [] = none
find_spec name (s ∷ specs) =
    let rest = find_spec name specs in
    elim rest [ some t ↦ some t | none ↦ if s.name == name then some s else none ]

abbrev pub and_then : {A B : Type 0} → Outcome A → (A → Outcome B) → Outcome B
and_then (failed e) f = failed e
and_then (done a) f = f a

-- `for dep in deps: visit(dep, path)`
unfoldable pub each :
    (visit : String → Sorting → Outcome Sorting) → List String → Sorting → Outcome Sorting
each visit [] st = done st
each visit (d ∷ ds) st = and_then (visit d st) (each visit ds)

pub and_then-eq-done :
    {A B : Type 0} (o : Outcome A) (f : A → Outcome B) {b : B}
    → and_then o f ≡ done b
    → (a : A) × (o ≡ done a) × (f a ≡ done b)
and_then-eq-done (failed e) f h = cc
and_then-eq-done (done a) f h = (a, refl, h)

pub done-injective : {A : Type 0} {a b : A} → done a ≡ done b → a ≡ b
done-injective h = cc

-- The end of `visit`, after the dependencies.
abbrev pub append_spec : String → ModuleSpec → Sorting → Outcome Sorting
append_spec name spec st =
    done (record { visited = name ∷ st.visited; result = st.result ++ spec ∷ [] })

-- `visit`, where `deeper` is the loop over the dependencies with the name added to `path`.
unfoldable pub visit_spec :
    (deeper : List String → Sorting → Outcome Sorting)
    → String
    → Option ModuleSpec
    → Sorting
    → Outcome Sorting
visit_spec deeper name none st = done (record st { visited = name ∷ st.visited })
visit_spec deeper name (some spec) st = and_then (deeper spec.depends_on st) (append_spec name spec)

unfoldable pub visit_with :
    List ModuleSpec
    → (deeper : List String → Sorting → Outcome Sorting) → (path : List String) → String
    → Sorting
    → Outcome Sorting
visit_with specs deeper path name st =
    if mem name st.visited
    then done st
    else if mem name path
    then failed (circular_dependency path name)
    else visit_spec deeper name (find_spec name specs) st

-- The recursion on the depth of the path.
unfoldable pub visit :
    ℕ → List ModuleSpec → (path : List String) → String → Sorting → Outcome Sorting
visit zero specs path name = visit_with specs (λ deps st. failed out_of_fuel) path name
visit (suc n) specs path name =
    visit_with specs (each (λ dep. visit n specs (name ∷ path) dep)) path name

-- `(s.order, s.name)` before `(t.order, t.name)`
abbrev pub comes_before : ModuleSpec → ModuleSpec → Bool
comes_before s t =
    ltb s.order t.order || (s.order == t.order && text_lt (codes s.name) (codes t.name))

unfoldable pub insert_spec : ModuleSpec → List ModuleSpec → List ModuleSpec
insert_spec s [] = s ∷ []
insert_spec s (t ∷ ts) =
    let rest = insert_spec s ts in if comes_before t s then t ∷ rest else s ∷ t ∷ ts

unfoldable pub sort_specs : List ModuleSpec → List ModuleSpec
sort_specs [] = []
sort_specs (s ∷ ts) = insert_spec s (sort_specs ts)

abbrev pub names : List ModuleSpec → List String
names specs = map (λ s. s.name) specs

-- `specs` whose names are not in `result`, sorted, at the end of it.
unfoldable pub add_remaining : List ModuleSpec → Sorting → Outcome (List ModuleSpec)
add_remaining specs st =
    done (st.result ++ sort_specs (select (λ s. not (mem s.name (names st.result))) specs))

abbrev pub nothing_visited : Sorting
nothing_visited = record { visited = []; result = [] }

-- `_topological_sort`; `visit` tests again that a module has not been visited.
unfoldable pub topological_sort : List ModuleSpec → Outcome (List ModuleSpec)
topological_sort specs =
    and_then (each (λ name. visit (length specs) specs [] name) (names specs) nothing_visited)
      (add_remaining specs)

-- `_is_module_enabled`
unfoldable pub is_module_enabled : (disabled enabled : List String) → ModuleSpec → Bool
is_module_enabled disabled enabled spec =
    if mem spec.name disabled then false else if mem spec.name enabled then true else spec.enabled

-- The loop over the manifests, in the order in which they are found.
unfoldable pub collect_specs :
    (disabled enabled : List String)
    → (seen : List String) → List ModuleSpec
    → Outcome (List ModuleSpec)
collect_specs disabled enabled seen [] = done []
collect_specs disabled enabled seen (s ∷ found) =
    let without = collect_specs disabled enabled seen found in
    let more = collect_specs disabled enabled (s.name ∷ seen) found in
    if mem s.name seen
    then failed (duplicate_name s.name)
    else if not (is_module_enabled disabled enabled s)
    then without
    else and_then more (λ rest. done (s ∷ rest))

-- `_load_module_specs_cached`, on the manifests that are ModuleSpecs
unfoldable pub load_module_specs :
    (disabled enabled : List String) → List ModuleSpec → Outcome (List ModuleSpec)
load_module_specs disabled enabled found =
    and_then (collect_specs disabled enabled [] found) topological_sort
