-- ===== src/Common/Outcome.antt =====
-- What a Python call gives: a value, or an exception with the text that `str(exc)` shows.
use Prim.Native.String.{String}
use mathlib.Core.Path.{◌≡◌, refl}
use mathlib.Core.Logic.{◌⊎◌, inl, inr}

pub data Exception : Type 0 where
  key_error attribute_error type_error value_error runtime_error other_error : String → Exception

pub data Result {ℓ} (V : Type ℓ) : Type ℓ where
  raise : Exception → Result V
  ok : V → Result V

-- `str(exc)`
abbrev pub message : Exception → String
message (key_error m) = m
message (attribute_error m) = m
message (type_error m) = m
message (value_error m) = m
message (runtime_error m) = m
message (other_error m) = m

infixl 5 ◌>>=◌
-- The statements behind a call that raises do not run.
abbrev pub ◌>>=◌ {ℓ κ} : {V : Type ℓ} {W : Type κ} → Result V → (V → Result W) → Result W
◌>>=◌ (raise exc) next = raise exc
◌>>=◌ (ok value) next = next value

pub ok-injective {ℓ} : {A : Type ℓ} {a b : A} → ok a ≡ ok b → a ≡ b
ok-injective h = cc

pub Result-cases {ℓ} :
    {A : Type ℓ} (r : Result A) → ((a : A) × (r ≡ ok a)) ⊎ ((x : Exception) × (r ≡ raise x))
Result-cases (ok a) = inl (a, refl)
Result-cases (raise x) = inr (x, refl)
