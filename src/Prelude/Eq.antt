-- ===== src/Prelude/Eq.antt =====
-- Decidable equality as an interface, for keys and identifiers.
use Prim.Native.Nat.{ℕ}
use Prim.Native.String.{String}
use mathlib.Core.Path.{◌≡◌, refl, ap}
use mathlib.Core.Logic.{◌↔◌}
use mathlib.Core.Option.{Option, none, some}
use mathlib.Core.Bool.{Bool, true, false, ◌&&◌}
use text.Mathlib.Text.{◌==◌ as str_eq}
use text.Mathlib.TextEquality.{eq_iff}
use turtlemap.Prelude.Tests.{nat_beq, nat_beq_iff}

-- A test that decides equality.
pub record Eq {ℓ} (Key : Type ℓ) : Type ℓ where
  pub tests : Key → Key → Bool
  pub decides : (j k : Key) → (tests j k ≡ true) ↔ (j ≡ k)

module _ {ℓ} {Key : Type ℓ} ⦃keys : Eq Key⦄ where
  infix 50 ◌==◌
  abbrev pub ◌==◌ : Key → Key → Bool
  j == k = keys.tests j k

instance abbrev pub string_eq : Eq String
string_eq = record { tests = str_eq; decides = eq_iff }

instance abbrev pub nat_eq : Eq ℕ
nat_eq = record { tests = nat_beq; decides = nat_beq_iff }

-- Pairs are equal when both halves are.
abbrev pair_tests {ℓ κ} : {A : Type ℓ} {B : Type κ} ⦃a : Eq A⦄ ⦃b : Eq B⦄ → A × B → A × B → Bool
pair_tests (x, y) (x', y') = x == x' && y == y'

both : (p q : Bool) → (p && q) ≡ true → (p ≡ true) × (q ≡ true)
both true true h = (refl, refl)
both true false h = absurd (cc)
both false q h = absurd (cc)

pub pair_decides {ℓ κ} :
    {A : Type ℓ} {B : Type κ} ⦃a : Eq A⦄ ⦃b : Eq B⦄ (p q : A × B)
    → (pair_tests p q ≡ true) ↔ (p ≡ q)
pair_decides {A} {B} ⦃a⦄ ⦃b⦄ (x, y) (x', y') = (
  (λ h.
      let (first, second) = both (x == x') (y == y') h in
      let e : x ≡ x' = (a.decides x x').0 first in
      let f : y ≡ y' = (b.decides y y').0 second in cc),
  (λ h.
      let e : x ≡ x' = ap (λ (r : A × B). r.0) h in
      let f : y ≡ y' = ap (λ (r : A × B). r.1) h in
      rw ((a.decides x x').1 e, (b.decides y y').1 f) refl),
)

instance abbrev pub pair_eq {ℓ κ} : {A : Type ℓ} {B : Type κ} ⦃a : Eq A⦄ ⦃b : Eq B⦄ → Eq (A × B)
pair_eq = record { tests = pair_tests; decides = pair_decides }

-- Optional values are equal when both are missing or both are the same.
abbrev option_tests {ℓ} : {A : Type ℓ} ⦃a : Eq A⦄ → Option A → Option A → Bool
option_tests none none = true
option_tests (some x) (some y) = x == y
option_tests _ _ = false

pub option_decides {ℓ} :
    {A : Type ℓ} ⦃a : Eq A⦄ (p q : Option A) → (option_tests p q ≡ true) ↔ (p ≡ q)
option_decides none none = (λ h. refl, λ h. refl)
option_decides none (some y) = (λ h. absurd (cc), λ h. absurd (cc))
option_decides (some x) none = (λ h. absurd (cc), λ h. absurd (cc))
option_decides {A} ⦃a⦄ (some x) (some y) =
    ((λ h. ap some ((a.decides x y).0 h)), (λ h. let e : x ≡ y = cc in (a.decides x y).1 e))

instance abbrev pub option_eq {ℓ} : {A : Type ℓ} ⦃a : Eq A⦄ → Eq (Option A)
option_eq = record { tests = option_tests; decides = option_decides }
