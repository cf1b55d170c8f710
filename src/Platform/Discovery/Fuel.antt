-- ===== src/Platform/Discovery/Fuel.antt =====
-- _topological_sort of discovery.py: the depth of its recursion.
use acoj_worker.Common.{
  ℕ, zero, suc, ◌≤◌, ◌<◌, String, Bool, true, false, Option, none, some, List, [], ◌∷◌, length, mem,
  string_eq, if◌then◌else◌, Bool-cases, Option-cases, ◌≡◌, refl, arith, inl, inr,
}
use acoj_worker.Platform.Spec.{ModuleSpec}
use acoj_worker.Platform.Discovery.Visit.{
  out_of_fuel, circular_dependency, duplicate_name, Outcome, failed, done, Sorting, find_spec,
  and_then, each, append_spec, visit_spec, visit_with, visit, names, add_remaining, nothing_visited,
  topological_sort,
}

-- The modules whose names are not on the path.
pub unseen : List String → List ModuleSpec → ℕ
unseen path [] = 0
unseen path (s ∷ specs) = let rest = unseen path specs in if mem s.name path then rest else suc rest

unseen-cons-le :
    (name : String) (path : List String) (specs : List ModuleSpec)
    → unseen (name ∷ path) specs ≤ unseen path specs
unfolding unseen
unseen-cons-le name path [] = omega arith
unseen-cons-le name path (s ∷ specs) = ground (arith, unseen-cons-le name path specs)

-- The name of a module that is not on the path yet lowers their number.
pub unseen-cons-lt :
    (name : String) (path : List String) (specs : List ModuleSpec) (spec : ModuleSpec)
    → mem name path ≡ false
    → find_spec name specs ≡ some spec
    → unseen (name ∷ path) specs < unseen path specs
unfolding unseen find_spec
unseen-cons-lt name path [] spec h f = cc
unseen-cons-lt name path (s ∷ specs) spec h f =
    let less = unseen-cons-le name path specs in
    let iff = string_eq.eqb_iff s.name name in
    let sym_iff = string_eq.eqb_iff name s.name in
    elim (Option-cases (find_spec name specs)) [
      | inl e ↦ ground arith
      | inr (t, e) ↦ let ih = unseen-cons-lt name path specs t h e in ground arith
    ]

pub unseen-nil : (specs : List ModuleSpec) → unseen [] specs ≡ length specs
unfolding unseen
unseen-nil [] = refl
unseen-nil (s ∷ specs) = omega (arith, unseen-nil specs)

-- It returns, or raises the error of a circular dependency.
abbrev pub ends : {A : Type 0} → Outcome A → Bool
ends (done a) = true
ends (failed (circular_dependency path name)) = true
ends (failed (duplicate_name name)) = false
ends (failed out_of_fuel) = false

abbrev pub Ends : {A : Type 0} → Outcome A → Type 0
Ends o = ends o ≡ true

and_then-Ends :
    {A B : Type 0} (o : Outcome A) (f : A → Outcome B)
    → Ends o
    → ((a : A) → Ends (f a))
    → Ends (and_then o f)
and_then-Ends (failed e) f ho hf = ho
and_then-Ends (done a) f ho hf = hf a

each-Ends :
    (f : String → Sorting → Outcome Sorting) (ds : List String) (st : Sorting)
    → ((d : String) (st' : Sorting) → Ends (f d st'))
    → Ends (each f ds st)
unfolding each
each-Ends f [] st h = refl
each-Ends f (d ∷ ds) st h =
    and_then-Ends (f d st) (each f ds) (h d st) (λ st'. each-Ends f ds st' h)

visit_spec-Ends :
    (deeper : List String → Sorting → Outcome Sorting) (name : String) (found : Option ModuleSpec)
    (st : Sorting)
    → ((spec : ModuleSpec)
        → found ≡ some spec
        → (ds : List String) (st' : Sorting) → Ends (deeper ds st'))
    → Ends (visit_spec deeper name found st)
unfolding visit_spec
visit_spec-Ends deeper name none st h = refl
visit_spec-Ends deeper name (some spec) st h =
    and_then-Ends (deeper spec.depends_on st) (append_spec name spec)
      (h spec refl spec.depends_on st) (λ st'. refl)

visit_with-Ends :
    (specs : List ModuleSpec) (deeper : List String → Sorting → Outcome Sorting)
    (path : List String) (name : String) (st : Sorting)
    → ((spec : ModuleSpec)
        → mem name path ≡ false
        → find_spec name specs ≡ some spec
        → (ds : List String) (st' : Sorting) → Ends (deeper ds st'))
    → Ends (visit_with specs deeper path name st)
unfolding visit_with
visit_with-Ends specs deeper path name st h = elim (Bool-cases (mem name path)) [
  | inl on ↦ ground arith
  | inr off ↦
      let last =
        visit_spec-Ends deeper name (find_spec name specs) st (λ spec found. h spec off found) in
      ground arith
]

visit-Ends :
    (n : ℕ) (specs : List ModuleSpec) (path : List String) (name : String) (st : Sorting)
    → unseen path specs ≤ n
    → Ends (visit n specs path name st)
unfolding visit
visit-Ends zero specs path name st h =
    visit_with-Ends specs (λ deps st'. failed out_of_fuel) path name st
      (λ spec off found.
        absurd (let less = unseen-cons-lt name path specs spec off found in omega arith))
visit-Ends (suc n) specs path name st h =
    visit_with-Ends specs (each (λ dep. visit n specs (name ∷ path) dep)) path name st
      (λ spec off found ds st'.
        each-Ends (λ dep. visit n specs (name ∷ path) dep) ds st'
          (λ d st''.
            visit-Ends n specs (name ∷ path) d st''
              (let less = unseen-cons-lt name path specs spec off found in omega arith)))

-- On any modules, the sort returns a list or raises the error of a circular dependency: its recursion
-- ends, and within the depth that the model gives it.
pub topological_sort-returns : (specs : List ModuleSpec) → Ends (topological_sort specs)
unfolding topological_sort add_remaining
topological_sort-returns specs =
    and_then-Ends (each (λ name. visit (length specs) specs [] name) (names specs) nothing_visited)
      (add_remaining specs)
      (each-Ends (λ name. visit (length specs) specs [] name) (names specs) nothing_visited
        (λ d st. visit-Ends (length specs) specs [] d st (omega (arith, unseen-nil specs))))
      (λ st'. refl)
