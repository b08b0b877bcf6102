-- ===== src/Prelude/Lists.antt =====
-- Lists measured by native numbers, under the library's names.
use Prim.Native.Nat.{ℕ, zero, suc, ◌+◌, ◌-◌}
use mathlib.Core.Path.{◌≡◌, refl, subst}
use mathlib.Core.List.{List, [], ◌∷◌, ◌++◌, map}
use mathlib.Core.Option.{Option, none, some}
use mathlib.Core.Bool.{Bool, true, false}
use native.Mathlib.Omega.{arith}

module _ {ℓ} {A : Type ℓ} where
  abbrev pub length : List A → ℕ
  length [] = 0
  length (x ∷ xs) = suc (length xs)

  -- `xs[:n]` and `xs[n:]`
  abbrev pub take : ℕ → List A → List A
  take zero xs = []
  take (suc n) [] = []
  take (suc n) (x ∷ xs) = x ∷ take n xs

  abbrev pub drop : ℕ → List A → List A
  drop zero xs = xs
  drop (suc n) [] = []
  drop (suc n) (x ∷ xs) = drop n xs

  -- `xs[-1]`
  abbrev pub get_last? : List A → Option A
  get_last? [] = none
  get_last? (x ∷ []) = some x
  get_last? (x ∷ y ∷ xs) = get_last? (y ∷ xs)

  -- what `xs.pop()` leaves
  abbrev pub drop_last : List A → List A
  drop_last [] = []
  drop_last (x ∷ []) = []
  drop_last (x ∷ y ∷ xs) = x ∷ drop_last (y ∷ xs)

  -- a comprehension with a condition
  abbrev pub keep : (A → Bool) → List A → List A
  keep p [] = []
  keep p (x ∷ xs) = let rest = keep p xs in elim (p x) [ true ↦ x ∷ rest | false ↦ rest ]

  -- `next((x for x in xs if p(x)), None)`
  abbrev pub find? : (A → Bool) → List A → Option A
  find? p [] = none
  find? p (x ∷ xs) = elim (p x) [ true ↦ some x | false ↦ find? p xs ]

  abbrev pub all : (A → Bool) → List A → Bool
  all p [] = true
  all p (x ∷ xs) = elim (p x) [ true ↦ all p xs | false ↦ false ]

  -- `P` of every element, as a tuple that tactics read
  abbrev pub All {κ} : (A → Type κ) → List A → Type κ
  All P [] = Unit
  All P (x ∷ xs) = P x × All P xs

  pub All-map {κ ν} :
      {P : A → Type κ} {Q : A → Type ν} (f : (x : A) → P x → Q x) (xs : List A)
      → All P xs
      → All Q xs
  All-map f [] h = tt
  All-map f (x ∷ xs) h = (f x h.0, All-map f xs h.1)

  pub find?-eq-none : (p : A → Bool) (xs : List A) → find? p xs ≡ none → All (λ x. p x ≡ false) xs
  find?-eq-none p [] h = tt
  find?-eq-none p (x ∷ xs) h =
      elim (p x)
          as (λ b.
            p x ≡ b
            → elim b [ true ↦ some x | false ↦ find? p xs ] ≡ none
            → (p x ≡ false) × All (λ x. p x ≡ false) xs) [
              | true ↦ λ e k. cc
              | false ↦ λ e k. (e, find?-eq-none p xs k)
            ]
        refl h

  pub find?-eq-some {κ} :
      (Q : A → Type κ) (p : A → Bool) (xs : List A) (x : A)
      → All Q xs
      → find? p xs ≡ some x
      → (p x ≡ true) × Q x
  find?-eq-some Q p [] x q h = absurd (cc)
  find?-eq-some Q p (y ∷ xs) x q h =
      elim (p y)
          as (λ b.
            p y ≡ b → elim b [ true ↦ some y | false ↦ find? p xs ] ≡ some x → (p x ≡ true) × Q x) [
              | true ↦ λ e k. let same : y ≡ x = cc in (cc, subst Q same q.0)
              | false ↦ λ e k. find?-eq-some Q p xs x q.1 k
            ]
        refl h

  pub find?-cons_true :
      (p : A → Bool) (x : A) (xs : List A) → p x ≡ true → find? p (x ∷ xs) ≡ some x
  find?-cons_true p x xs h = rw (h, find?)

  pub find?-cons_false :
      (p : A → Bool) (x : A) (xs : List A) → p x ≡ false → find? p (x ∷ xs) ≡ find? p xs
  find?-cons_false p x xs h = rw (h, find?)

  pub length-append : (xs ys : List A) → length (xs ++ ys) ≡ length xs + length ys
  length-append [] ys = omega arith
  length-append (x ∷ xs) ys = omega (arith, length-append xs ys)

  pub take-append-drop : (n : ℕ) (xs : List A) → take n xs ++ drop n xs ≡ xs
  take-append-drop zero xs = refl
  take-append-drop (suc n) [] = refl
  take-append-drop (suc n) (x ∷ xs) = rw (take-append-drop n xs)

  pub length-drop : (n : ℕ) (xs : List A) → length (drop n xs) ≡ length xs - n
  length-drop zero xs = omega arith
  length-drop (suc n) [] = omega arith
  length-drop (suc n) (x ∷ xs) = omega (arith, length-drop n xs)

  pub get_last?-append : (xs : List A) (x : A) → get_last? (xs ++ x ∷ []) ≡ some x
  get_last?-append [] x = refl
  get_last?-append (y ∷ []) x = refl
  get_last?-append (y ∷ z ∷ xs) x = get_last?-append (z ∷ xs) x

  pub drop_last-append : (xs : List A) (x : A) → drop_last (xs ++ x ∷ []) ≡ xs
  drop_last-append [] x = refl
  drop_last-append (y ∷ []) x = refl
  drop_last-append (y ∷ z ∷ xs) x = rw (drop_last-append (z ∷ xs) x)

  pub take-length : (xs : List A) → take (length xs) xs ≡ xs
  take-length [] = refl
  take-length (x ∷ xs) = rw (take-length xs)

  pub drop-length : (xs : List A) → drop (length xs) xs ≡ []
  drop-length [] = refl
  drop-length (x ∷ xs) = drop-length xs

  pub drop-append : (xs ys : List A) → drop (length xs) (xs ++ ys) ≡ ys
  drop-append [] ys = refl
  drop-append (x ∷ xs) ys = drop-append xs ys

  pub All-append {κ} : (P : A → Type κ) (xs ys : List A) → All P xs → All P ys → All P (xs ++ ys)
  All-append P [] ys p q = q
  All-append P (x ∷ xs) ys p q = (p.0, All-append P xs ys p.1 q)

  pub All-drop {κ} : (P : A → Type κ) (n : ℕ) (xs : List A) → All P xs → All P (drop n xs)
  All-drop P zero xs h = h
  All-drop P (suc n) [] h = tt
  All-drop P (suc n) (x ∷ xs) h = All-drop P n xs h.1

module _ {ℓ κ ν} {A : Type ℓ} {B : Type κ} where
  pub map-All :
      (P : B → Type ν) (f : A → B) (xs : List A) → All (λ x. P (f x)) xs → All P (map f xs)
  map-All P f [] h = tt
  map-All P f (x ∷ xs) h = (h.0, map-All P f xs h.1)
