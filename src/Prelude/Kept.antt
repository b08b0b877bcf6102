-- ===== src/Prelude/Kept.antt =====
-- What is kept of a list by a test.
use mathlib.Core.Path.{◌≡◌, refl, sym, ◌∙◌, ap}
use mathlib.Core.Logic.{inl, inr}
use mathlib.Core.Bool.{Bool, true, false, ◌&&◌}
use mathlib.Core.Option.{Option, none, some}
use mathlib.Core.List.{reverse, reverse-cons, List, [], ◌∷◌, ◌++◌, append-nil}
use native.Mathlib.Omega.{arith}
use turtlemap.Prelude.Tests.{Bool-cases}
use turtlemap.Prelude.Lists.{keep, All}

abbrev pub or_empty {ℓ} : {A : Type ℓ} → Option (List A) → List A
or_empty none = []
or_empty (some xs) = xs

abbrev pub is_some {ℓ} : {A : Type ℓ} → Option A → Bool
is_some none = false
is_some (some a) = true

module _ {ℓ} {A : Type ℓ} where
  pub keep-cons_true :
      (p : A → Bool) (x : A) (xs : List A) → p x ≡ true → keep p (x ∷ xs) ≡ x ∷ keep p xs
  keep-cons_true p x xs h = rw (keep, h) refl

  pub keep-cons_false :
      (p : A → Bool) (x : A) (xs : List A) → p x ≡ false → keep p (x ∷ xs) ≡ keep p xs
  keep-cons_false p x xs h = rw (keep, h) refl

  pub keep-append : (p : A → Bool) (xs ys : List A) → keep p (xs ++ ys) ≡ keep p xs ++ keep p ys
  keep-append p [] ys = refl
  keep-append p (x ∷ xs) ys = elim (Bool-cases (p x)) [
    | inl p_true ↦
        simp
          (keep-cons_true p x xs p_true, keep-cons_true p x (xs ++ ys) p_true, keep-append p xs ys)
    | inr p_false ↦ simp (
      keep-cons_false p x xs p_false,
      keep-cons_false p x (xs ++ ys) p_false,
      keep-append p xs ys,
    )
  ]

  pub keep-keep :
      (p q r : A → Bool) (xs : List A)
      → ((x : A) → (p x && q x) ≡ r x)
      → keep p (keep q xs) ≡ keep r xs
  keep-keep p q r [] h = refl
  keep-keep p q r (x ∷ xs) h = elim (Bool-cases (q x)) [
    | inl p_true ↦ ground (arith, h x, keep-keep p q r xs h)
    | inr p_false ↦ ground (arith, h x, keep-keep p q r xs h)
  ]

  pub keep-reverse : (p : A → Bool) (xs : List A) → keep p (reverse xs) ≡ reverse (keep p xs)
  keep-reverse p [] = refl
  keep-reverse p (x ∷ xs) = elim (Bool-cases (p x)) [
    | inl p_true ↦
        ap (keep p) (reverse-cons x xs)
        ∙ keep-append p (reverse xs) (x ∷ [])
        ∙ rw (keep-reverse p xs, keep-cons_true p x [] p_true) refl
        ∙ sym (ap reverse (keep-cons_true p x xs p_true) ∙ reverse-cons x (keep p xs))
    | inr p_false ↦
        ap (keep p) (reverse-cons x xs)
        ∙ keep-append p (reverse xs) (x ∷ [])
        ∙ rw (keep-reverse p xs, keep-cons_false p x [] p_false) (append-nil (reverse (keep p xs)))
        ∙ sym (ap reverse (keep-cons_false p x xs p_false))
  ]

  pub keep-all : (xs : List A) → keep (λ x. true) xs ≡ xs
  keep-all [] = refl
  keep-all (x ∷ xs) = ap (λ r. x ∷ r) (keep-all xs)

module _ {ℓ} {A : Type ℓ} where
  abbrev pub IsFull : List A → Type 0
  IsFull [] = ⊥
  IsFull (x ∷ xs) = Unit

  pub keep-All {κ} : (P : A → Type κ) (p : A → Bool) (xs : List A) → All P xs → All P (keep p xs)
  keep-All P p [] h = tt
  keep-All P p (x ∷ xs) h = elim (Bool-cases (p x)) [
    | inl p_true ↦ rw (keep-cons_true p x xs p_true) (h.0, keep-All P p xs h.1)
    | inr p_false ↦ rw (keep-cons_false p x xs p_false) (keep-All P p xs h.1)
  ]
