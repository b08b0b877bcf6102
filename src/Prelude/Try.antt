-- ===== src/Prelude/Try.antt =====
-- A computation that returns or raises, where it touches no state.
use mathlib.Core.Path.{◌≡◌, refl}

pub data Try {ℓ κ} (E : Type ℓ) (A : Type κ) : Type (ℓ ⊔ κ) where
  value : A → Try E A
  error : E → Try E A

module _ {ℓ κ ν} {E : Type ℓ} {A : Type κ} {B : Type ν} where
  -- `return` of what the rest makes of the value; a raise skips the rest
  abbrev pub and_then : Try E A → (A → Try E B) → Try E B
  and_then (value a) f = f a
  and_then (error e) f = error e

  pub and_then-eq-value :
      (t : Try E A) (f : A → Try E B) {b : B}
      → and_then t f ≡ value b
      → (a : A) × (t ≡ value a) × (f a ≡ value b)
  and_then-eq-value (value a) f h = (a, refl, h)
  and_then-eq-value (error e) f h = absurd (cc)
