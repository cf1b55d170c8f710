-- ===== src/Platform/Discovery/Acyclic.antt =====
-- _topological_sort of discovery.py on dependencies without a cycle: a number for each name, smaller
-- for a dependency than for the module that names it, says that they have none.
use acoj_worker.Common.{
  ℕ, zero, suc, ◌<◌, ◌≤◌, String, Bool, true, false, some, List, [], ◌∷◌, length, mem, string_eq,
  ◌==◌, All, All-map, Bool-cases, Option-cases, ◌≡◌, refl, subst, arith, inl, inr,
}
use acoj_worker.Platform.Spec.{ModuleSpec}
use acoj_worker.Platform.Discovery.Visit.{
  LoadError, Outcome, failed, done, Sorting, find_spec, and_then, each, append_spec, visit_spec,
  visit_with, visit, names, add_remaining, nothing_visited, topological_sort,
}
use acoj_worker.Platform.Discovery.Order.{find_spec-name}
use acoj_worker.Platform.Discovery.Fuel.{unseen, unseen-cons-lt, unseen-nil}

abbrev pub is_done : {A : Type 0} → Outcome A → Bool
is_done (done a) = true
is_done (failed e) = false

and_then-is_done :
    {A B : Type 0} (o : Outcome A) (f : A → Outcome B)
    → is_done o ≡ true
    → ((a : A) → is_done (f a) ≡ true)
    → is_done (and_then o f) ≡ true
and_then-is_done (failed e) f ho hf = cc
and_then-is_done (done a) f ho hf = hf a

-- What is true of all modules is true of the one that is found.
find_spec-All :
    (P : ModuleSpec → Type 0) (name : String) (specs : List ModuleSpec) {spec : ModuleSpec}
    → All P specs
    → find_spec name specs ≡ some spec
    → P spec
unfolding find_spec
find_spec-All P name [] h f = cc
find_spec-All P name (s ∷ specs) {spec} (h, hs) f = elim (Option-cases (find_spec name specs)) [
  | inl e ↦ let same : s ≡ spec = ground arith in subst P same h
  | inr (t, e) ↦ find_spec-All P name specs hs (let same : t ≡ spec = ground arith in ground arith)
]

-- Each dependency of the module has a smaller number.
abbrev pub IsAbove : (rank : String → ℕ) → ModuleSpec → Type 0
IsAbove rank s = All (λ d. rank d < rank s.name) s.depends_on

module _ (rank : String → ℕ) (specs : List ModuleSpec) where
  -- The names of the path have larger numbers.
  abbrev Below : List String → String → Type 0
  Below path name = All (λ p. rank name < rank p) path

  Below-mem : (path : List String) (name : String) → Below path name → mem name path ≡ false
  Below-mem [] name h = refl
  Below-mem (p ∷ path) name (h, hs) =
      let same = string_eq.eqb_iff p name in
      let rest = Below-mem path name hs in
      elim (Bool-cases (p == name)) [
        | inl e ↦ absurd (
            let equal : p ≡ name = same.0 e in
            let less : rank name < rank name = subst (λ x. rank name < rank x) equal h in
            omega arith)
        | inr e ↦ ground arith
      ]

  each-is_done :
      (f : String → Sorting → Outcome Sorting) (ds : List String) (st : Sorting)
      → All (λ d. (st' : Sorting) → is_done (f d st') ≡ true) ds
      → is_done (each f ds st) ≡ true
  unfolding each
  each-is_done f [] st h = refl
  each-is_done f (d ∷ ds) st (h, hs) =
      and_then-is_done (f d st) (each f ds) (h st) (λ st'. each-is_done f ds st' hs)

  visit_with-is_done :
      (deeper : List String → Sorting → Outcome Sorting) (path : List String) (name : String)
      (st : Sorting)
      → Below path name
      → ((spec : ModuleSpec)
          → find_spec name specs ≡ some spec
          → is_done (deeper spec.depends_on st) ≡ true)
      → is_done (visit_with specs deeper path name st) ≡ true
  unfolding visit_with visit_spec
  visit_with-is_done deeper path name st below h =
      let off = Below-mem path name below in
      elim (Option-cases (find_spec name specs)) [
        | inl e ↦ ground arith
        | inr (spec, e) ↦
            let rest =
              and_then-is_done (deeper spec.depends_on st) (append_spec name spec) (h spec e)
                (λ st'. refl) in
            ground arith
      ]

  visit-is_done :
      (n : ℕ) (path : List String) (name : String) (st : Sorting)
      → All (IsAbove rank) specs
      → unseen path specs ≤ n
      → Below path name
      → is_done (visit n specs path name st) ≡ true
  unfolding visit
  visit-is_done zero path name st h deep below =
      visit_with-is_done (λ deps st'. failed LoadError.out_of_fuel) path name st below
        (λ spec found. absurd (
          let less = unseen-cons-lt name path specs spec (Below-mem path name below) found in
          omega arith))
  visit-is_done (suc n) path name st h deep below =
      visit_with-is_done (each (λ dep. visit n specs (name ∷ path) dep)) path name st below
        (λ spec found.
          let less = unseen-cons-lt name path specs spec (Below-mem path name below) found in
          let named = find_spec-name name specs found in
          let above : IsAbove rank spec = find_spec-All (IsAbove rank) name specs h found in
          each-is_done (λ dep. visit n specs (name ∷ path) dep) spec.depends_on st
            (All-map spec.depends_on
              (λ d smaller st'.
                let next : rank d < rank name = subst (λ x. rank d < rank x) named smaller in
                visit-is_done n (name ∷ path) d st' h (omega arith)
                  (next, All-map path (λ p larger. omega arith) below))
              above))

-- When each dependency of each module has a smaller number than the module, the sort returns a list.
pub topological_sort-is_done :
    (rank : String → ℕ) (specs : List ModuleSpec)
    → All (IsAbove rank) specs
    → is_done (topological_sort specs) ≡ true
unfolding topological_sort add_remaining
topological_sort-is_done rank specs h =
    and_then-is_done
      (each (λ name. visit (length specs) specs [] name) (names specs) nothing_visited)
      (add_remaining specs)
      (each-is_done rank specs (λ name. visit (length specs) specs [] name) (names specs)
        nothing_visited (every (names specs)))
      (λ st'. refl)
  where
    every :
        (ns : List String)
        → All (λ d. (st' : Sorting) → is_done (visit (length specs) specs [] d st') ≡ true) ns
    every [] = tt
    every (n ∷ ns) = (
      λ st'.
          visit-is_done rank specs (length specs) [] n st' h (omega (arith, unseen-nil specs)) tt,
      every ns,
    )
