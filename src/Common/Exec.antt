-- ===== src/Common/Exec.antt =====
-- Statements that read and change a state and may raise. The state outlives an exception.
use mathlib.Core.Path.{◌≡◌, refl, subst}
use mathlib.Core.Bool.{Bool, true, false}
use acoj_worker.Common.Tests.{if◌then◌else◌}
use acoj_worker.Common.Outcome.{Exception, Result, ok, raise, ok-injective}

abbrev pub Exec : Type 0 → Type 0 → Type 0
Exec S A = S → Result A × S

module _ {S : Type 0} where
  abbrev pub pure : {A : Type 0} → A → Exec S A
  pure a s = (ok a, s)

  abbrev pub throw : {A : Type 0} → Exception → Exec S A
  throw x s = (raise x, s)

  abbrev pub lift : {A : Type 0} → Result A → Exec S A
  lift r s = (r, s)

  -- A call that only acts on the state, such as a `close`.
  abbrev pub act : (S → S) → Exec S (Unit {0})
  act f s = (ok tt, f s)

  abbrev pub continue : {A B : Type 0} → Result A → (A → Exec S B) → Exec S B
  continue (ok a) f s = f a s
  continue (raise x) f s = (raise x, s)

  infixl 5 ◌>>=◌ ◌>>◌
  abbrev pub ◌>>=◌ : {A B : Type 0} → Exec S A → (A → Exec S B) → Exec S B
  ◌>>=◌ m f s = let (r, s') = m s in continue r f s'

  abbrev pub ◌>>◌ : {A B : Type 0} → Exec S A → Exec S B → Exec S B
  m >> k = m >>= λ _. k

  -- `try: body` / `finally: cleanup`
  abbrev pub try_finally : {A : Type 0} → Exec S A → (S → S) → Exec S A
  try_finally body cleanup s = let (r, s') = body s in (r, cleanup s')

  -- A block that returns has returned from each of its statements.
  pub continue-eq-ok :
      {A B : Type 0} (r : Result A) (f : A → Exec S B) (s : S) {b : B}
      → (continue r f s).0 ≡ ok b
      → (a : A) × (r ≡ ok a) × ((f a s).0 ≡ ok b)
  continue-eq-ok (ok a) f s h = (a, refl, h)
  continue-eq-ok (raise x) f s h = cc

  -- What a block returns, if it returns, satisfies `P`.
  abbrev pub Ensures : {A : Type 0} → (A → Type 0) → Exec S A → Type 0
  Ensures {A} P m = (s : S) (a : A) → (m s).0 ≡ ok a → P a

  pub Ensures-bind :
      {A B : Type 0} (P : B → Type 0) (m : Exec S A) (f : A → Exec S B)
      → ((a : A) → Ensures P (f a))
      → Ensures P (m >>= f)
  Ensures-bind P m f kf s b h =
      let (a, done, rest) = continue-eq-ok (m s).0 f (m s).1 h in kf a (m s).1 b rest

  pub Ensures-pure : {A : Type 0} (P : A → Type 0) (a : A) → P a → Ensures P (pure {A = A} a)
  Ensures-pure P a p s b h = subst P (ok-injective h) p

  pub Ensures-if :
      {A : Type 0} (P : A → Type 0) (b : Bool) (m n : Exec S A)
      → Ensures P m
      → Ensures P n
      → Ensures P (if b then m else n)
  Ensures-if P true m n hm hn = hm
  Ensures-if P false m n hm hn = hn

  pub Ensures-finally :
      {A : Type 0} (P : A → Type 0) (m : Exec S A) (cleanup : S → S)
      → Ensures P m
      → Ensures P (try_finally m cleanup)
  Ensures-finally P m cleanup h s a e = h s a e
