-- ===== src/Common/Member.antt =====
-- Membership by a decidable equality.
use mathlib.Core.Path.{◌≡◌, refl}
use mathlib.Core.Bool.{Bool, true, false, not}
use mathlib.Core.List.{List, [], ◌∷◌, ◌++◌}
use native.Mathlib.Omega.{arith}
use acoj_worker.Common.Tests.{if◌then◌else◌}
use acoj_worker.Common.Lists.{select}
use acoj_worker.Common.Equality.{Eq, ◌==◌, ==-refl}

module _ {ℓ} {A : Type ℓ} ⦃e : Eq A⦄ where
  -- `a in xs`
  abbrev pub mem : A → List A → Bool
  mem a [] = false
  mem a (x ∷ xs) = let rest = mem a xs in if x == a then true else rest

  pub mem-append_left : (a : A) (xs ys : List A) → mem a xs ≡ true → mem a (xs ++ ys) ≡ true
  mem-append_left a [] ys h = cc
  mem-append_left a (x ∷ xs) ys h = ground (arith, mem-append_left a xs ys)

  pub mem-append_right : (a : A) (xs ys : List A) → mem a ys ≡ true → mem a (xs ++ ys) ≡ true
  mem-append_right a [] ys h = h
  mem-append_right a (x ∷ xs) ys h = ground (arith, mem-append_right a xs ys h)

  pub mem-here : (a : A) (xs : List A) → mem a (a ∷ xs) ≡ true
  mem-here a xs = let here = ==-refl a in ground arith

  -- `list(dict.fromkeys(xs))`
  abbrev pub unique : List A → List A
  unique [] = []
  unique (x ∷ xs) = x ∷ select (λ y. not (x == y)) (unique xs)

  mem-select :
      (k x : A) (xs : List A) → (x == k) ≡ false → mem k (select (λ y. not (x == y)) xs) ≡ mem k xs
  mem-select k x [] h = refl
  mem-select k x (y ∷ ys) h =
      let other = λ (same : y ≡ k). same in
      ground (arith, mem-select k x ys h, e.eqb_iff y k, e.eqb_iff x y, e.eqb_iff x k)

  pub mem-unique : (k : A) (xs : List A) → mem k (unique xs) ≡ mem k xs
  mem-unique k [] = refl
  mem-unique k (x ∷ xs) = ground (arith, mem-unique k xs, mem-select k x (unique xs))
