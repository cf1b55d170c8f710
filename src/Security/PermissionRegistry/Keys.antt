-- ===== src/Security/PermissionRegistry/Keys.antt =====
-- permission_registry.py: the keys that a scan finds, and how they are read back from their texts.
use acoj_worker.Common.{
  Bool, true, false, not, ◌||◌, Option, none, some, List, [], ◌∷◌, ◌++◌, map, mem, unique, select,
  Text, codes, insert_text, sort_texts, strip, nat_eq, list_eq, list_beq_iff, ◌==◌, if◌then◌else◌,
  all, Bool-cases, ◌≡◌, refl, ap, sym, ◌∙◌, arith, inl, inr,
}
use acoj_worker.Security.PermissionRegistry.Routes.{
  Route, PermissionResource, resource_text, iter_dependant_calls,
}
use acoj_worker.Security.PermissionRegistry.Scan.{
  is_key_char, key_from, is_permission_key, first, extract_permission_key, resource_of,
  new_resource,
}
use acoj_worker.Security.PermissionRegistry.Registry.{before_bracket}

-- A key has no bracket.
key_from-before_bracket :
    (part colon : Bool) (key rest : Text)
    → key_from part colon key ≡ true
    → before_bracket (key ++ 91 ∷ rest) ≡ key
unfolding key_from before_bracket
key_from-before_bracket part colon [] rest h = refl
key_from-before_bracket part colon (c ∷ key) rest h =
    let more = key_from-before_bracket true colon key rest in
    let next = key_from-before_bracket false true key rest in
    elim (Bool-cases (is_key_char c)) [
      | inl e ↦
          let ih = more (ground arith) in
          let other : (c == 91) ≡ false = ground arith in rw other (ap (λ x. c ∷ x) ih)
      | inr e ↦
          let ih = next (ground arith) in
          let other : (c == 91) ≡ false = ground arith in rw other (ap (λ x. c ∷ x) ih)
    ]

pub resource_text-before_bracket :
    (r : PermissionResource)
    → is_permission_key r.permission_key ≡ true
    → before_bracket (resource_text r) ≡ r.permission_key
unfolding resource_text
resource_text-before_bracket r h =
    key_from-before_bracket false false r.permission_key (r.name ++ codes "]") h

all-insert_text :
    (p : Text → Bool) (t : Text) (ts : List Text)
    → all p (insert_text t ts) ≡ (if p t then all p ts else false)
unfolding insert_text
all-insert_text p t [] = refl
all-insert_text p t (u ∷ us) = ground (arith, all-insert_text p t us)

-- A test of all texts, of the sorted list
pub all-sort_texts : (p : Text → Bool) (ts : List Text) → all p (sort_texts ts) ≡ all p ts
unfolding sort_texts
all-sort_texts p [] = refl
all-sort_texts p (t ∷ ts) = ground (arith, all-insert_text p t (sort_texts ts), all-sort_texts p ts)

all-other :
    (p : Text → Bool) (x : Text) (ts : List Text)
    → p x ≡ true
    → all p (select (λ y. not (x == y)) ts) ≡ all p ts
all-other p x [] h = refl
all-other p x (y ∷ ys) h =
    let iff = list_beq_iff x y in
    elim (Bool-cases (x == y)) [
      | inl e ↦
          let same : p y ≡ true = ap p (sym (iff.0 e)) ∙ h in ground (arith, all-other p x ys h)
      | inr e ↦ ground (arith, all-other p x ys h)
    ]

-- A test of all texts, of each once
pub all-unique : (p : Text → Bool) (ts : List Text) → all p (unique ts) ≡ all p ts
all-unique p [] = refl
all-unique p (x ∷ xs) =
    let ih = all-unique p xs in
    elim (Bool-cases (p x)) [
      | inl e ↦ let other = all-other p x (unique xs) e in ground arith
      | inr e ↦ ground arith
    ]

pub all-select :
    (p q : Text → Bool) (ts : List Text) → all p (select q ts) ≡ all (λ t. not (q t) || p t) ts
all-select p q [] = refl
all-select p q (t ∷ ts) = ground (arith, all-select p q ts)

all-first :
    (p : Text → Bool) (ts : List Text) (t : Text) → all p ts ≡ true → first ts ≡ some t → p t ≡ true
all-first p [] t h f = cc
all-first p (u ∷ us) t h f =
    let same : u ≡ t = ground arith in
    ap p (sym same) ∙ (let here : p u ≡ true = ground arith in here)

select-all : (p : Text → Bool) (ts : List Text) → all p (select p ts) ≡ true
select-all p [] = refl
select-all p (t ∷ ts) = ground (arith, select-all p ts)

-- The key of a route matches the pattern.
extract_permission_key-matches :
    (route : Route) (key : Text)
    → extract_permission_key route ≡ some key
    → is_permission_key key ≡ true
unfolding extract_permission_key
extract_permission_key-matches route key h =
    let keys = select is_permission_key (map strip (iter_dependant_calls route.dependant)) in
    all-first is_permission_key (sort_texts keys) key
      (all-sort_texts is_permission_key keys
        ∙ select-all is_permission_key (map strip (iter_dependant_calls route.dependant)))
      h

abbrev pub HasKey : PermissionResource → Type 0
HasKey r = is_permission_key r.permission_key ≡ true

pub new_resource-HasKey :
    (fallback : Text) (seen : List Text) (route : Route) (key method : Option Text)
    (r : PermissionResource)
    → extract_permission_key route ≡ key
    → new_resource fallback seen route key method ≡ some r
    → HasKey r
unfolding new_resource resource_of
new_resource-HasKey fallback seen route none method r e h = cc
new_resource-HasKey fallback seen route (some key) none r e h = cc
new_resource-HasKey fallback seen route (some key) (some method) r e h =
    let matches = extract_permission_key-matches route key e in
    elim (Bool-cases (mem key seen)) [
      | inl on ↦ absurd (ground arith)
      | inr off ↦
          let same : resource_of fallback route key method ≡ r = ground arith in
          ap (λ x. is_permission_key x.permission_key) (sym same) ∙ matches
    ]
