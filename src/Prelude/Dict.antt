-- ===== src/Prelude/Dict.antt =====
-- Python's `dict` as an association list in insertion order: a write to a key that is there keeps
-- its place, a new key goes to the end.
use mathlib.Core.Path.{◌≡◌, refl, sym, subst}
use mathlib.Core.Option.{Option, none, some}
use mathlib.Core.List.{List, [], ◌∷◌, ◌++◌}
use native.Mathlib.Omega.{arith}
use mathlib.Core.Logic.{inl, inr}
use mathlib.Core.Bool.{false}
use turtlemap.Prelude.Tests.{if◌then◌else◌, Bool-cases}
use turtlemap.Prelude.Lists.{All}
use turtlemap.Prelude.Eq.{Eq, ◌==◌}

abbrev pub Dict {ℓ κ} : Type ℓ → Type κ → Type (ℓ ⊔ κ)
Dict K V = List (K × V)

module _ {ℓ κ} {K : Type ℓ} {V : Type κ} ⦃e : Eq K⦄ where
  -- `d.get(k)`
  unfoldable pub lookup : K → Dict K V → Option V
  lookup k [] = none
  lookup k ((j, v) ∷ d) = if j == k then some v else lookup k d

  -- `d[k] = v`
  unfoldable pub insert : K → V → Dict K V → Dict K V
  insert k v [] = (k, v) ∷ []
  insert k v ((j, w) ∷ d) = if j == k then (j, v) ∷ d else (j, w) ∷ insert k v d

  -- `d.pop(k, None)`
  unfoldable pub erase : K → Dict K V → Dict K V
  erase k [] = []
  erase k ((j, v) ∷ d) = let rest = erase k d in if j == k then rest else (j, v) ∷ rest

  pub lookup-insert :
      (k j : K) (v : V) (d : Dict K V)
      → lookup j (insert k v d) ≡ (if k == j then some v else lookup j d)
  unfolding lookup insert
  lookup-insert k j v [] = refl
  lookup-insert k j v ((i, w) ∷ d) =
      ground (arith, e.decides k j, e.decides i k, e.decides i j, lookup-insert k j v d)

  pub lookup-erase :
      (k j : K) (d : Dict K V) → lookup j (erase k d) ≡ (if k == j then none else lookup j d)
  unfolding lookup erase
  lookup-erase k j [] = ground arith
  lookup-erase k j ((i, w) ∷ d) =
      ground (arith, e.decides k j, e.decides i k, e.decides i j, lookup-erase k j d)

  -- a new key goes to the end, and taking it out again leaves the rest
  pub insert-new :
      (k : K) (v : V) (d : Dict K V) → lookup k d ≡ none → insert k v d ≡ d ++ (k, v) ∷ []
  unfolding lookup insert
  insert-new k v [] h = refl
  insert-new k v ((j, w) ∷ d) h = elim (Bool-cases (j == k)) [
    | inl same ↦ absurd (ground arith)
    | inr other ↦ rw (other, insert-new k v d (ground arith)) refl
  ]

  pub erase-append-new :
      (k : K) (v : V) (d : Dict K V) → lookup k d ≡ none → erase k (d ++ (k, v) ∷ []) ≡ d
  unfolding lookup erase
  erase-append-new k v [] h = rw ((e.decides k k).1 refl) refl
  erase-append-new k v ((j, w) ∷ d) h = elim (Bool-cases (j == k)) [
    | inl same ↦ absurd (ground arith)
    | inr other ↦ rw (other, erase-append-new k v d (ground arith)) refl
  ]

  pub lookup-append_new :
      (k : K) (v : V) (d : Dict K V) → lookup k d ≡ none → lookup k (d ++ (k, v) ∷ []) ≡ some v
  unfolding lookup
  lookup-append_new k v [] h = rw ((e.decides k k).1 refl) refl
  lookup-append_new k v ((j, w) ∷ d) h = elim (Bool-cases (j == k)) [
    | inl same ↦ absurd (ground arith)
    | inr other ↦ rw other (lookup-append_new k v d (ground arith))
  ]

  pub lookup-tail :
      (k j : K) (v : V) (d : Dict K V) → lookup k ((j, v) ∷ d) ≡ none → lookup k d ≡ none
  unfolding lookup
  lookup-tail k j v d h = elim (Bool-cases (j == k)) [
    | inl same ↦ absurd (ground arith)
    | inr other ↦ ground arith
  ]

  -- properties of all entries
  pub lookup-All {ν} :
      (P : K × V → Type ν) (k : K) (v : V) (d : Dict K V) → All P d → lookup k d ≡ some v → P (k, v)
  unfolding lookup
  lookup-All P k v [] h f = absurd (cc)
  lookup-All P k v ((j, w) ∷ d) h f = elim (Bool-cases (j == k)) [
    | inl same ↦
        let key : j ≡ k = (e.decides j k).0 same in
        let val : w ≡ v = ground arith in subst (λ z. P (z, v)) key (subst (λ z. P (j, z)) val h.0)
    | inr other ↦ lookup-All P k v d h.1 (ground arith)
  ]

  pub insert-All {ν} :
      (P : K × V → Type ν) (k : K) (v : V) (d : Dict K V)
      → All P d
      → P (k, v)
      → All P (insert k v d)
  unfolding insert
  insert-All P k v [] h p = (p, tt)
  insert-All P k v ((j, w) ∷ d) h p = elim (Bool-cases (j == k)) [
    | inl same ↦ rw same (subst (λ z. P (z, v)) (sym ((e.decides j k).0 same)) p, h.1)
    | inr other ↦ rw other (h.0, insert-All P k v d h.1 p)
  ]

  pub erase-All {ν} : (P : K × V → Type ν) (k : K) (d : Dict K V) → All P d → All P (erase k d)
  unfolding erase
  erase-All P k [] h = tt
  erase-All P k ((j, w) ∷ d) h = elim (Bool-cases (j == k)) [
    | inl same ↦ rw same (erase-All P k d h.1)
    | inr other ↦ rw other (h.0, erase-All P k d h.1)
  ]

pub ruleset dict_laws = (lookup-insert, lookup-erase)

module _ {ℓ κ} {K : Type ℓ} {V : Type κ} ⦃e : Eq K⦄ where
  -- No key stands twice.
  unfoldable pub IsDistinct : Dict K V → Type κ
  IsDistinct [] = Unit
  IsDistinct ((k, v) ∷ d) = (lookup k d ≡ none) × IsDistinct d

  pub insert-IsDistinct : (k : K) (v : V) (d : Dict K V) → IsDistinct d → IsDistinct (insert k v d)
  unfolding insert lookup IsDistinct
  insert-IsDistinct k v [] h = (refl, tt)
  insert-IsDistinct k v ((j, w) ∷ d) h = elim (Bool-cases (j == k)) [
    | inl same ↦ rw same h
    | inr other ↦
        let off : (k == j) ≡ false = ground (arith, e.decides j k, e.decides k j) in
        rw other (rw (lookup-insert k j v d, off) h.0, insert-IsDistinct k v d h.1)
  ]

  -- what holds of every value that is found holds of all entries
  pub All-lookup {ν} :
      (P : K × V → Type ν) (d : Dict K V)
      → IsDistinct d
      → ((k : K) (v : V) → lookup k d ≡ some v → P (k, v))
      → All P d
  unfolding lookup IsDistinct
  All-lookup P [] h f = tt
  All-lookup P ((j, w) ∷ d) h f = (
    f j w (rw ((e.decides j j).1 refl) refl),
    All-lookup P d h.1 λ k v l. f k v (elim (Bool-cases (j == k)) [
      | inl same ↦
          let none_there : lookup k d ≡ none =
            subst (λ i. lookup i d ≡ none) ((e.decides j k).0 same) h.0 in
          absurd (cc)
      | inr other ↦ rw other l
    ]),
  )
