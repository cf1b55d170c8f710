-- ===== src/Platform/Discovery/Order.antt =====
-- Lemmas for _topological_sort of discovery.py: the place of a module and those of its dependencies.
use mathlib.Core.List.{append_assoc, append-nil, map-append}
use acoj_worker.Common.{
  ℕ, zero, suc, String, Bool, true, not, ◌||◌, Option, none, some, is_some, List, [], ◌∷◌, ◌++◌,
  length, mem, mem-append_left, mem-append_right, mem-here, string_eq, ◌==◌, All, All-map,
  Bool-cases, Option-cases, ◌≡◌, refl, sym, ap, ◌∙◌, subst, arith, inl, inr,
}
use acoj_worker.Platform.Spec.{ModuleSpec}
use acoj_worker.Platform.Discovery.Visit.{
  LoadError, Outcome, failed, done, Sorting, find_spec, and_then-eq-done, done-injective, each,
  append_spec, visit_spec, visit_with, visit, names, nothing_visited,
}

-- The dependency is in `placed`, or is no module.
abbrev pub is_met : List ModuleSpec → List ModuleSpec → String → Bool
is_met specs placed d = mem d (names placed) || not (is_some (find_spec d specs))

-- Each module of `rest` stands behind the modules that it depends on, `placed` first.
abbrev pub IsOrdered : List ModuleSpec → (placed rest : List ModuleSpec) → Type 0
IsOrdered specs placed [] = Unit
IsOrdered specs placed (s ∷ rest) =
    All (λ d. is_met specs placed d ≡ true) s.depends_on × IsOrdered specs (placed ++ s ∷ []) rest

pub find_spec-name :
    (name : String) (specs : List ModuleSpec) {spec : ModuleSpec}
    → find_spec name specs ≡ some spec
    → spec.name ≡ name
unfolding find_spec
find_spec-name name [] h = cc
find_spec-name name (s ∷ specs) h =
    let iff = string_eq.eqb_iff s.name name in
    elim (Option-cases (find_spec name specs)) [
      | inl e ↦ ground arith
      | inr (t, e) ↦ let ih = find_spec-name name specs {spec = t} e in ground arith
    ]

is_met-append :
    (specs placed : List ModuleSpec) (spec : ModuleSpec) (d : String)
    → is_met specs placed d ≡ true
    → is_met specs (placed ++ spec ∷ []) d ≡ true
is_met-append specs placed spec d h =
    let names_of = map-append (λ (s : ModuleSpec). s.name) placed (spec ∷ []) in
    let more = mem-append_left d (names placed) (spec.name ∷ []) in rw names_of (ground arith)

is_met-last :
    (specs placed : List ModuleSpec) (spec : ModuleSpec)
    → is_met specs (placed ++ spec ∷ []) spec.name ≡ true
is_met-last specs placed spec =
    let names_of = map-append (λ (s : ModuleSpec). s.name) placed (spec ∷ []) in
    let last = mem-append_right spec.name (names placed) (spec.name ∷ []) (mem-here spec.name []) in
    rw names_of (ground arith)

module _ (specs : List ModuleSpec) where
  IsOrdered-append :
      (placed xs ys : List ModuleSpec)
      → IsOrdered specs placed xs
      → IsOrdered specs (placed ++ xs) ys
      → IsOrdered specs placed (xs ++ ys)
  IsOrdered-append placed [] ys h k = subst (λ p. IsOrdered specs p ys) (append-nil placed) k
  IsOrdered-append placed (x ∷ xs) ys (h, hs) k = (
    h,
    IsOrdered-append (placed ++ x ∷ []) xs ys hs
        (subst (λ p. IsOrdered specs p ys) (sym (append_assoc placed (x ∷ []) xs)) k),
  )

  -- A name that has been visited is that of a placed module, or of none.
  abbrev pub IsPlaced : Sorting → Type 0
  IsPlaced st = (v : String) → mem v st.visited ≡ true → is_met specs st.result v ≡ true

  pub record IsSound (st : Sorting) : Type 0 where
    pub ordered : IsOrdered specs [] st.result
    pub placed : IsPlaced st

  -- What has been visited stays visited.
  abbrev pub Grows : Sorting → Sorting → Type 0
  Grows st st' = (v : String) → mem v st.visited ≡ true → mem v st'.visited ≡ true

  pub record Visited (st : Sorting) (ds : List String) (st' : Sorting) : Type 0 where
    pub sound : IsSound st'
    pub grows : Grows st st'
    pub all_visited : All (λ d. mem d st'.visited ≡ true) ds

  -- A rule for a call that visits names: from a sound state to a sound one.
  abbrev Visits : (Sorting → Outcome Sorting) → List String → Type 0
  Visits call ds = (st st' : Sorting) → IsSound st → call st ≡ done st' → Visited st ds st'

  each-Visits :
      (f : String → Sorting → Outcome Sorting) (ds : List String)
      → ((d : String) → Visits (f d) (d ∷ []))
      → Visits (each f ds) ds
  unfolding each
  each-Visits f [] h st st' sound e =
      subst (Visited st []) (done-injective e)
        (record { sound = sound; grows = λ v m. m; all_visited = tt })
  each-Visits f (d ∷ ds) h st st' sound e =
      let (mid, first, rest) = and_then-eq-done (f d st) (each f ds) e in
      let one = h d st mid sound first in
      let others = each-Visits f ds h mid st' one.sound rest in
      record {
        sound = others.sound;
        grows = λ v m. others.grows v (one.grows v m);
        all_visited = (others.grows d one.all_visited.0, others.all_visited);
      }

  append_spec-Visited :
      (st mid : Sorting) (name : String) (spec : ModuleSpec)
      → find_spec name specs ≡ some spec
      → Visited st spec.depends_on mid
      → Visited st
          (name ∷ [])
          (record { visited = name ∷ mid.visited; result = mid.result ++ spec ∷ [] })
  append_spec-Visited st mid name spec found v = record {
    sound = record {
      ordered =
          IsOrdered-append [] mid.result (spec ∷ []) v.sound.ordered
            (All-map spec.depends_on v.sound.placed v.all_visited, tt);
      placed = λ w m.
          let same = (string_eq.eqb_iff name w).0 in
          let itself = is_met-last specs mid.result spec in
          let named = find_spec-name name specs found in
          elim (Bool-cases (name == w)) [
            | inl e ↦
                subst (λ x. is_met specs (mid.result ++ spec ∷ []) x ≡ true) (named ∙ same e) itself
            | inr e ↦ is_met-append specs mid.result spec w (v.sound.placed w (ground arith))
          ];
    };
    grows = λ w m. let mine = v.grows w m in ground arith;
    all_visited = (mem-here name mid.visited, tt);
  }

  visit_spec-Visits :
      (deeper : List String → Sorting → Outcome Sorting) (name : String) (found : Option ModuleSpec)
      → found ≡ find_spec name specs
      → ((ds : List String) → Visits (deeper ds) ds)
      → Visits (visit_spec deeper name found) (name ∷ [])
  unfolding visit_spec
  visit_spec-Visits deeper name none from h st st' sound e =
      subst (Visited st (name ∷ [])) (done-injective e) (record {
        sound = record {
          ordered = sound.ordered;
          placed = λ w m.
              let same = (string_eq.eqb_iff name w).0 in
              let before = sound.placed w in
              elim (Bool-cases (name == w)) [
                | inl e' ↦
                    let none_there : find_spec w specs ≡ none =
                      ap (λ x. find_spec x specs) (sym (same e')) ∙ sym from in
                    ground arith
                | inr e' ↦ ground arith
              ];
        };
        grows = λ w m. ground arith;
        all_visited = (mem-here name st.visited, tt);
      })
  visit_spec-Visits deeper name (some spec) from h st st' sound e =
      let (mid, inner, rest) =
        and_then-eq-done (deeper spec.depends_on st) (append_spec name spec) e in
      subst (Visited st (name ∷ [])) (done-injective rest)
        (append_spec-Visited st mid name spec (sym from) (h spec.depends_on st mid sound inner))

  visit_with-Visits :
      (deeper : List String → Sorting → Outcome Sorting) (path : List String) (name : String)
      → ((ds : List String) → Visits (deeper ds) ds)
      → Visits (visit_with specs deeper path name) (name ∷ [])
  unfolding visit_with
  visit_with-Visits deeper path name h st st' sound e = elim (Bool-cases (mem name st.visited)) [
    | inl on ↦
        subst (Visited st (name ∷ [])) (done-injective (rw on at e))
          (record { sound = sound; grows = λ w m. m; all_visited = (on, tt) })
    | inr off ↦ elim (Bool-cases (mem name path)) [
      | inl cycle ↦ absurd (ground arith)
      | inr fresh ↦
          visit_spec-Visits deeper name (find_spec name specs) refl h st st' sound
            (rw (off, fresh) at e)
    ]
  ]

  visit-Visits :
      (n : ℕ) (path : List String) (name : String) → Visits (visit n specs path name) (name ∷ [])
  unfolding visit
  visit-Visits zero path name =
      visit_with-Visits (λ deps st. failed LoadError.out_of_fuel) path name
        (λ ds st st' sound e. cc)
  visit-Visits (suc n) path name =
      visit_with-Visits (each (λ dep. visit n specs (name ∷ path) dep)) path name (λ ds.
        each-Visits (λ dep. visit n specs (name ∷ path) dep) ds
          (λ d. visit-Visits n (name ∷ path) d))

  pub all-Visited :
      (st : Sorting)
      → each (λ name. visit (length specs) specs [] name) (names specs) nothing_visited ≡ done st
      → Visited nothing_visited (names specs) st
  all-Visited st e =
      each-Visits (λ name. visit (length specs) specs [] name) (names specs)
        (λ d. visit-Visits (length specs) [] d) nothing_visited st
        (record { ordered = tt; placed = λ v m. cc }) e
