-- ===== src/Common/Int.antt =====
-- Python's `int`, as far as the drawing of lines needs it: a sum, a sign and two tests. A number is
-- read through how far it is above and below zero.
use Prim.Native.Nat.{ℕ, suc, ◌+◌, ◌-◌}
use mathlib.Core.Path.{◌≡◌, refl}
use mathlib.Core.Logic.{◌⊎◌, inl, inr}
use mathlib.Core.Bool.{Bool}
use native.Mathlib.Omega.{arith}
use acoj_worker.Common.Tests.{leb, nat_beq, if◌then◌else◌}

-- `negsuc n` is -(n + 1).
pub data ℤ : Type 0 where
  pos negsuc : ℕ → ℤ

abbrev pub below : ℤ → ℕ
below (pos n) = 0
below (negsuc n) = suc n

abbrev pub above : ℤ → ℕ
above (pos n) = n
above (negsuc n) = 0

-- The number that is `m` above and `n` below
abbrev pub balance : (m n : ℕ) → ℤ
balance m n = if leb n m then pos (m - n) else negsuc (n - m - 1)

infixl 65 ◌+ℤ◌
unfoldable pub ◌+ℤ◌ : ℤ → ℤ → ℤ
x +ℤ y = balance (above x + above y) (below x + below y)

-- `-x`
unfoldable pub neg_ℤ : ℤ → ℤ
neg_ℤ x = balance (below x) (above x)

abbrev pub leb_ℤ : ℤ → ℤ → Bool
leb_ℤ x y = leb (above x + below y) (above y + below x)

abbrev pub eqb_ℤ : ℤ → ℤ → Bool
eqb_ℤ x y = nat_beq (above x + below y) (above y + below x)

-- `abs(x)`
unfoldable pub abs_ℤ : ℤ → ℤ
abs_ℤ x = pos (above x + below x)

pub +ℤ_balance :
    (x y : ℤ) → above (x +ℤ y) + (below x + below y) ≡ below (x +ℤ y) + (above x + above y)
unfolding ◌+ℤ◌
+ℤ_balance x y = ground arith

pub neg_ℤ_balance : (x : ℤ) → above (neg_ℤ x) + above x ≡ below (neg_ℤ x) + below x
unfolding neg_ℤ
neg_ℤ_balance x = ground arith

-- One of the two parts is 0.
pub one_sided : (x : ℤ) → (above x ≡ 0) ⊎ (below x ≡ 0)
one_sided (pos n) = inr refl
one_sided (negsuc n) = inl refl
