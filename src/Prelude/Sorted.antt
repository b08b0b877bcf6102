-- ===== src/Prelude/Sorted.antt =====
-- Python's `sorted` by a key that is a number: stable, in increasing order.
use Prim.Native.Nat.{ℕ, ◌≤◌}
use mathlib.Core.Logic.{inl, inr}
use native.Mathlib.Omega.{arith}
use mathlib.Core.List.{List, [], ◌∷◌}
use turtlemap.Prelude.Tests.{leb→le, Bool-cases, leb, if◌then◌else◌}
use turtlemap.Prelude.Lists.{All, All-map}

module _ {ℓ} {A : Type ℓ} (key : A → ℕ) where
  -- before the first element whose key is not smaller
  unfoldable pub put_sorted : A → List A → List A
  put_sorted x [] = x ∷ []
  put_sorted x (y ∷ ys) =
      let rest = put_sorted x ys in if leb (key x) (key y) then x ∷ y ∷ ys else y ∷ rest

  unfoldable pub sorted : List A → List A
  sorted [] = []
  sorted (x ∷ xs) = put_sorted x (sorted xs)

  -- Each element's key is at most the next ones'.
  abbrev pub IsSorted : List A → Type 0
  IsSorted [] = Unit
  IsSorted (x ∷ xs) = All (λ y. key x ≤ key y) xs × IsSorted xs

  put_sorted-All {κ} :
      (P : A → Type κ) (x : A) (ys : List A) → P x → All P ys → All P (put_sorted x ys)
  unfolding put_sorted
  put_sorted-All P x [] p h = (p, tt)
  put_sorted-All P x (y ∷ ys) p h = elim (Bool-cases (leb (key x) (key y))) [
    | inl small ↦ rw small (p, h)
    | inr large ↦ rw large (h.0, put_sorted-All P x ys p h.1)
  ]

  pub sorted-All {κ} : (P : A → Type κ) (xs : List A) → All P xs → All P (sorted xs)
  unfolding sorted
  sorted-All P [] h = tt
  sorted-All P (x ∷ xs) h = put_sorted-All P x (sorted xs) h.0 (sorted-All P xs h.1)

  put_sorted-IsSorted : (x : A) (ys : List A) → IsSorted ys → IsSorted (put_sorted x ys)
  unfolding put_sorted
  put_sorted-IsSorted x [] h = (tt, tt)
  put_sorted-IsSorted x (y ∷ ys) h = elim (Bool-cases (leb (key x) (key y))) [
    | inl small ↦
        let le : key x ≤ key y = leb→le (key x) (key y) small in
        rw small ((le, All-map (λ z l. omega (arith, l, le)) ys h.0), h)
    | inr large ↦
        let le : key y ≤ key x = ground arith in
        rw large (put_sorted-All (λ z. key y ≤ key z) x ys le h.0, put_sorted-IsSorted x ys h.1)
  ]

  pub sorted-IsSorted : (xs : List A) → IsSorted (sorted xs)
  unfolding sorted
  sorted-IsSorted [] = tt
  sorted-IsSorted (x ∷ xs) = put_sorted-IsSorted x (sorted xs) (sorted-IsSorted xs)
