-- ===== src/Prelude/Arrays.antt =====
-- numpy's tests on values that may not be finite, which are `none`, and the element at an index.
use Prim.Native.Nat.{ℕ, zero, suc}
use mathlib.Core.Bool.{Bool, false}
use mathlib.Core.Option.{Option, none, some}
use mathlib.Core.List.{List, [], ◌∷◌}
use crypto_microstructure_ma.Prelude.Tests.{◌==◌, if◌then◌else◌}

-- `a == b`, where both are finite.
abbrev pub equal_finite : Option ℕ → Option ℕ → Bool
equal_finite (some a) (some b) = a == b
equal_finite none o = false
equal_finite (some a) none = false

-- `fillna(0)`
abbrev pub or_zero : Option ℕ → ℕ
or_zero none = 0
or_zero (some n) = n

-- `valid[i]`, and false past the end.
abbrev pub flag_at : List Bool → ℕ → Bool
flag_at [] i = false
flag_at (b ∷ bs) zero = b
flag_at (b ∷ bs) (suc i) = flag_at bs i

-- `values[i]`, and not finite past the end.
abbrev pub value_at : List (Option ℕ) → ℕ → Option ℕ
value_at [] i = none
value_at (v ∷ vs) zero = v
value_at (v ∷ vs) (suc i) = value_at vs i

module _ {ℓ} {A : Type ℓ} where
  -- `np.where(test, a, nan)`
  abbrev pub when : Bool → A → Option A
  when test a = if test then some a else none

  -- A test that is false where the value is not finite.
  abbrev pub finite_and : (A → Bool) → Option A → Bool
  finite_and test none = false
  finite_and test (some v) = test v
