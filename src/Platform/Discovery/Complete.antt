-- ===== src/Platform/Discovery/Complete.antt =====
-- _topological_sort and _load_module_specs_cached of discovery.py: which modules are in the result.
use mathlib.Core.List.{append-nil}
use acoj_worker.Common.{
  String, true, not, is_some, List, [], ◌∷◌, ◌++◌, length, select, mem, string_eq, ==-refl, All,
  All-map, Bool-cases, Option-cases, ◌≡◌, refl, sym, ap, ◌∙◌, subst, arith, inl, inr,
}
use acoj_worker.Platform.Spec.{ModuleSpec}
use acoj_worker.Platform.Discovery.Visit.{
  done, find_spec, and_then-eq-done, done-injective, each, visit, names, add_remaining,
  nothing_visited, topological_sort, sort_specs, is_module_enabled, collect_specs,
  load_module_specs,
}
use acoj_worker.Platform.Discovery.Order.{is_met, IsOrdered, all-Visited}

-- What a name of a module finds.
find_spec-names :
    (name : String) (specs : List ModuleSpec)
    → mem name (names specs) ≡ true
    → is_some (find_spec name specs) ≡ true
unfolding find_spec
find_spec-names name [] h = cc
find_spec-names name (s ∷ specs) h =
    let ih = find_spec-names name specs in
    elim (Option-cases (find_spec name specs)) [ inl e ↦ ground arith | inr (t, e) ↦ ground arith ]

module _ (specs : List ModuleSpec) (placed : List ModuleSpec) where
  abbrev pub Placed : List ModuleSpec → Type 0
  Placed some_specs = All (λ n. mem n (names placed) ≡ true) (names some_specs)

  Placed-met :
      (some_specs : List ModuleSpec)
      → ((n : String) → mem n (names some_specs) ≡ true → mem n (names specs) ≡ true)
      → All (λ n. is_met specs placed n ≡ true) (names some_specs)
      → Placed some_specs
  Placed-met [] within h = tt
  Placed-met (s ∷ rest) within (h, hs) =
      let here = within s.name in
      let itself = ==-refl s.name in
      let found = find_spec-names s.name specs in
      (ground arith, Placed-met rest (λ n m. let more = within n in ground arith) hs)

  nothing-remains :
      (some_specs : List ModuleSpec)
      → Placed some_specs
      → select (λ s. not (mem s.name (names placed))) some_specs ≡ []
  nothing-remains [] h = refl
  nothing-remains (s ∷ rest) (h, hs) = let ih = nothing-remains rest hs in ground arith

record IsSorted (specs result : List ModuleSpec) : Type 0 where
  ordered : IsOrdered specs [] result
  complete : Placed specs result specs

topological_sort-IsSorted :
    (specs result : List ModuleSpec) → topological_sort specs ≡ done result → IsSorted specs result
unfolding topological_sort add_remaining sort_specs
topological_sort-IsSorted specs result h =
    let (st, visiting, rest) =
      and_then-eq-done
        (each (λ name. visit (length specs) specs [] name) (names specs) nothing_visited)
        (add_remaining specs) h in
    let v = all-Visited specs st visiting in
    let placed =
      Placed-met specs st.result specs (λ n m. m)
        (All-map (names specs) v.sound.placed v.all_visited) in
    let none_left = nothing-remains specs st.result specs placed in
    let same : st.result ≡ result =
      sym (append-nil st.result)
      ∙ ap (λ l. st.result ++ sort_specs l) (sym none_left)
      ∙ done-injective rest in
    record {
      ordered = subst (λ r. IsOrdered specs [] r) same v.sound.ordered;
      complete = subst (λ r. Placed specs r specs) same placed;
    }

-- When the sort returns a list, each module's dependencies that are modules stand before it there,
-- and the name of each of the modules is in it.
pub topological_sort-IsOrdered :
    (specs result : List ModuleSpec)
    → topological_sort specs ≡ done result
    → IsOrdered specs [] result × Placed specs result specs
topological_sort-IsOrdered specs result h =
    let sorted = topological_sort-IsSorted specs result h in (sorted.ordered, sorted.complete)

collect_specs-select :
    (disabled enabled seen : List String) (found : List ModuleSpec) {specs : List ModuleSpec}
    → collect_specs disabled enabled seen found ≡ done specs
    → specs ≡ select (is_module_enabled disabled enabled) found
unfolding collect_specs
collect_specs-select disabled enabled seen [] h = sym (done-injective h)
collect_specs-select disabled enabled seen (s ∷ found) {specs} h =
    elim (Bool-cases (mem s.name seen)) [
      | inl duplicate ↦ absurd (ground arith)
      | inr new ↦ elim (Bool-cases (is_module_enabled disabled enabled s)) [
        | inl on ↦
            let (rest, first, last) =
              and_then-eq-done (collect_specs disabled enabled (s.name ∷ seen) found)
                (λ rest. done (s ∷ rest)) (rw (new, on) at h) in
            let ih = collect_specs-select disabled enabled (s.name ∷ seen) found first in
            let same : s ∷ rest ≡ specs = done-injective last in
            rw on (sym same ∙ ap (λ l. s ∷ l) ih)
        | inr off ↦ rw off (collect_specs-select disabled enabled seen found (rw (new, off) at h))
      ]
    ]

-- When the modules are loaded, the name of each module that is found and enabled is among them, and
-- each of them stands behind those of its dependencies that are found and enabled.
pub load_module_specs_complete :
    (disabled enabled : List String) (found result : List ModuleSpec)
    → load_module_specs disabled enabled found ≡ done result
    → let specs = select (is_module_enabled disabled enabled) found in
      Placed specs result specs × IsOrdered specs [] result
unfolding load_module_specs
load_module_specs_complete disabled enabled found result h =
    let (specs, first, rest) =
      and_then-eq-done (collect_specs disabled enabled [] found) topological_sort h in
    let sorted = topological_sort-IsOrdered specs result rest in
    rw (sym (collect_specs-select disabled enabled [] found first)) (sorted.1, sorted.0)
