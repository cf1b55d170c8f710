-- ===== src/Judge/Float.antt =====
-- Python's `float` as the judge uses it: a type with the four operations that the scores need.
-- `Exact` says that sums of the points at hand lose nothing, as those of small whole numbers do.
use acoj_worker.Common.{ℕ, Bool, ◌≡◌}

pub record FloatOps (F : Type 0) : Type 0 where
  pub zero_f : F
  pub add : F → F → F
  pub div : F → ℕ → F
  pub ge : F → F → Bool

pub record Exact (F : Type 0) ⦃fl : FloatOps F⦄ : Type 0 where
  pub add-zero_f : (x : F) → fl.add x fl.zero_f ≡ x
  pub add_assoc : (x y z : F) → fl.add (fl.add x y) z ≡ fl.add x (fl.add y z)
