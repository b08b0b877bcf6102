-- ===== src/Prelude/Blocks.antt =====
-- Lists that are made of one block for each key, as a list that was grouped by its keys is written back.
use mathlib.Core.Path.{◌≡◌, refl, ◌∙◌, ap, subst}
use mathlib.Core.Logic.{inl, inr}
use mathlib.Core.Bool.{Bool, true, false, not}
use mathlib.Core.List.{List, [], ◌∷◌, ◌++◌, append-nil}
use native.Mathlib.Omega.{arith}
use turtlemap.Prelude.Tests.{if◌then◌else◌, Bool-cases}
use turtlemap.Prelude.Lists.{keep, All, All-map}
use turtlemap.Prelude.Eq.{Eq, ◌==◌}
use turtlemap.Prelude.Kept.{IsFull, keep-append, keep-keep, keep-cons_true, keep-cons_false}
use turtlemap.Prelude.Groups.{mem, first_keys, with_key}

-- `out.extend(f(k))` for each `k`
unfoldable pub concat_map {ℓ κ} : {K : Type ℓ} {A : Type κ} → (K → List A) → List K → List A
concat_map f [] = []
concat_map f (k ∷ ks) = f k ++ concat_map f ks

pub concat_map-ext {ℓ κ} :
    {K : Type ℓ} {A : Type κ} (f g : K → List A) (ks : List K)
    → ((k : K) → f k ≡ g k)
    → concat_map f ks ≡ concat_map g ks
unfolding concat_map
concat_map-ext f g [] h = refl
concat_map-ext f g (k ∷ ks) h = rw (h k, concat_map-ext f g ks h) refl

module _ {ℓ κ} {K : Type ℓ} {A : Type κ} ⦃e : Eq K⦄ (key : A → K) where
  -- no key twice
  abbrev pub IsUnique : List K → Type 0
  IsUnique [] = Unit
  IsUnique (k ∷ ks) = (mem k ks ≡ false) × IsUnique ks

  mem-keep :
      (k j : K) (ks : List K) → mem j ks ≡ false → mem j (keep (λ i. not (k == i)) ks) ≡ false
  mem-keep k j [] h = refl
  mem-keep k j (i ∷ ks) h = elim (Bool-cases (i == j)) [
    | inl same ↦ absurd (ground arith)
    | inr other ↦ ground (arith, mem-keep k j ks)
  ]

  mem-dropped : (k : K) (ks : List K) → mem k (keep (λ i. not (k == i)) ks) ≡ false
  mem-dropped k [] = refl
  mem-dropped k (i ∷ ks) = ground (arith, mem-dropped k ks, e.decides k i, e.decides i k)

  keep-IsUnique : (k : K) (ks : List K) → IsUnique ks → IsUnique (keep (λ i. not (k == i)) ks)
  keep-IsUnique k [] h = tt
  keep-IsUnique k (i ∷ ks) h = elim (Bool-cases (k == i)) [
    | inl same ↦
        rw (keep-cons_false (λ i. not (k == i)) i ks (ap not same)) (keep-IsUnique k ks h.1)
    | inr other ↦
        rw (keep-cons_true (λ i. not (k == i)) i ks (ap not other))
          (mem-keep k i ks h.0, keep-IsUnique k ks h.1)
  ]

  pub first_keys-IsUnique : (xs : List A) → IsUnique (first_keys key xs)
  unfolding first_keys
  first_keys-IsUnique [] = tt
  first_keys-IsUnique (x ∷ xs) = (
    mem-dropped (key x) (first_keys key xs),
    keep-IsUnique (key x) (first_keys key xs) (first_keys-IsUnique xs),
  )

  -- what has other keys is not kept
  keep-none :
      (p : K → Bool) (xs : List A) → All (λ x. p (key x) ≡ false) xs → keep (λ x. p (key x)) xs ≡ []
  keep-none p [] h = refl
  keep-none p (x ∷ xs) h = keep-cons_false (λ x. p (key x)) x xs h.0 ∙ keep-none p xs h.1

  keep-every :
      (p : K → Bool) (xs : List A) → All (λ x. p (key x) ≡ true) xs → keep (λ x. p (key x)) xs ≡ xs
  keep-every p [] h = refl
  keep-every p (x ∷ xs) h =
      keep-cons_true (λ x. p (key x)) x xs h.0 ∙ ap (λ r. x ∷ r) (keep-every p xs h.1)

  other_keys : (k : K) (ks : List K) → mem k ks ≡ false → keep (λ i. not (k == i)) ks ≡ ks
  other_keys k [] h = refl
  other_keys k (i ∷ ks) h = elim (Bool-cases (i == k)) [
    | inl same ↦ absurd (ground arith)
    | inr other ↦
        let off : (k == i) ≡ false = ground (arith, e.decides k i, e.decides i k) in
        rw (keep-cons_true (λ i. not (k == i)) i ks (ap not off), other_keys k ks (rw other at h))
          refl
  ]

  module _ (block : K → List A) (keys : (k : K) → All (λ x. key x ≡ k) (block k)) where
    own :
        (j : K) (ks : List K)
        → with_key key j (concat_map block ks) ≡ []
        → with_key key j (block j ++ concat_map block ks) ≡ block j
    own j ks h =
        keep-append (λ x. key x == j) (block j) (concat_map block ks)
        ∙ ap (λ r. r ++ with_key key j (concat_map block ks))
            (keep-every (λ i. i == j) (block j)
              (All-map (λ x h. (e.decides (key x) j).1 h) (block j) (keys j)))
        ∙ ap (λ r. block j ++ r) h
        ∙ append-nil (block j)

    once_more :
        (j k : K) (ks : List K)
        → j ≡ k
        → j ∷ keep (λ i. not (j == i)) (k ∷ keep (λ i. not (k == i)) ks)
          ≡ k ∷ keep (λ i. not (k == i)) ks
    once_more j k ks h =
        let p : K → Bool = λ i. not (k == i) in
        ap (λ j. j ∷ keep (λ i. not (j == i)) (k ∷ keep p ks)) h
        ∙ ap (λ r. k ∷ r)
            (keep-cons_false p k (keep p ks) (ap not ((e.decides k k).1 refl))
              ∙ keep-keep p p p ks λ i. ground arith)

    -- the elements of one key are its block
    pub with_key-concat_map :
        (ks : List K) (k : K)
        → IsUnique ks
        → with_key key k (concat_map block ks) ≡ (if mem k ks then block k else [])
    unfolding concat_map
    with_key-concat_map [] k h = refl
    with_key-concat_map (j ∷ ks) k h = elim (Bool-cases (j == k)) [
      | inl same ↦ rw same (
          subst (λ i. with_key key i (block j ++ concat_map block ks) ≡ block i)
            ((e.decides j k).0 same) (own j ks (with_key-concat_map ks j h.1 ∙ rw h.0 refl)))
      | inr other ↦ rw other (
          keep-append (λ x. key x == k) (block j) (concat_map block ks)
          ∙ ap (λ r. r ++ with_key key k (concat_map block ks))
              (keep-none (λ i. i == k) (block j)
                (All-map (λ x h. ap (λ i. i == k) h ∙ other) (block j) (keys j)))
          ∙ with_key-concat_map ks k h.1)
    ]

    first_keys-block :
        (k : K) (ys zs : List A)
        → IsFull ys
        → All (λ x. key x ≡ k) ys
        → first_keys key (ys ++ zs) ≡ k ∷ keep (λ i. not (k == i)) (first_keys key zs)
    unfolding first_keys
    first_keys-block k [] zs h a = absurd h
    first_keys-block k (y ∷ []) zs h a =
        ap (λ j. j ∷ keep (λ i. not (j == i)) (first_keys key zs)) a.0
    first_keys-block k (y ∷ y' ∷ ys) zs h a =
        ap (λ r. key y ∷ keep (λ i. not (key y == i)) r) (first_keys-block k (y' ∷ ys) zs tt a.1)
        ∙ once_more (key y) k (first_keys key zs) a.0

    pub first_keys-concat_map :
        (ks : List K)
        → IsUnique ks
        → All (λ k. IsFull (block k)) ks
        → first_keys key (concat_map block ks) ≡ ks
    unfolding concat_map first_keys
    first_keys-concat_map [] u f = refl
    first_keys-concat_map (k ∷ ks) u f =
        first_keys-block k (block k) (concat_map block ks) f.0 (keys k)
        ∙ ap (λ r. k ∷ keep (λ i. not (k == i)) r) (first_keys-concat_map ks u.1 f.1)
        ∙ ap (λ r. k ∷ r) (other_keys k ks u.0)
