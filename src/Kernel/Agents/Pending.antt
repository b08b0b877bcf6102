-- ===== src/Kernel/Agents/Pending.antt =====
-- What is pending, and what the names that are not found yet may still add to it.
use turtlemap.Prelude.{
  ℕ, ◌+◌, ◌≤◌, ◌≡◌, ◌⊎◌, refl, ap, sym, ◌∙◌, true, false, none, some, List, [], ◌∷◌, ◌++◌, String,
  arith, if◌then◌else◌, Bool-cases, Option-cases, inl, inr, All, All-map,
}
use turtlemap.Prelude.Eq.{◌==◌, string_eq}
use turtlemap.Prelude.Dict.{lookup, insert, lookup-insert}
use turtlemap.Kernel.Agents.{Agents, pop_pending, is_known}

abbrev pub Occurs : ℕ → List ℕ → Type 0
Occurs a [] = ⊥
Occurs a (x ∷ xs) = (x ≡ a) ⊎ Occurs a xs

pub Occurs-append : (a : ℕ) (xs ys : List ℕ) → Occurs a (xs ++ ys) → Occurs a xs ⊎ Occurs a ys
Occurs-append a [] ys o = inr o
Occurs-append a (x ∷ xs) ys (inl e) = inl (inl e)
Occurs-append a (x ∷ xs) ys (inr o) = elim (Occurs-append a xs ys o) [
  | inl l ↦ inl (inr l)
  | inr r ↦ inr r
]

pub Occurs-left : (a : ℕ) (xs ys : List ℕ) → Occurs a xs → Occurs a (xs ++ ys)
Occurs-left a [] ys o = absurd o
Occurs-left a (x ∷ xs) ys (inl e) = inl e
Occurs-left a (x ∷ xs) ys (inr o) = inr (Occurs-left a xs ys o)

pub Occurs-right : (a : ℕ) (xs ys : List ℕ) → Occurs a ys → Occurs a (xs ++ ys)
Occurs-right a [] ys o = o
Occurs-right a (x ∷ xs) ys o = inr (Occurs-right a xs ys o)

pub each-Occurs : (xs : List ℕ) → All (λ a. Occurs a xs) xs
each-Occurs [] = tt
each-Occurs (x ∷ xs) = (inl refl, All-map (λ a o. inr o) xs (each-Occurs xs))

pub pop-none : (xs : List ℕ) → pop_pending xs ≡ none → xs ≡ []
pop-none [] h = refl
pop-none (x ∷ xs) h = absurd (cc)

last_of : (xs ys : List ℕ) (x y : ℕ) → xs ≡ ys → x ≡ y → xs ++ x ∷ [] ≡ ys ++ y ∷ []
last_of xs ys x y e f = rw (e, f) refl

pub pop-append : (xs ys : List ℕ) (y : ℕ) → pop_pending xs ≡ some (ys, y) → xs ≡ ys ++ y ∷ []
pop-append [] ys y h = absurd (cc)
pop-append (x ∷ xs) ys y h = elim (Option-cases (pop_pending xs)) [
  | inl e ↦
      let k = rw e at h in
      let rest : [] ≡ ys = cc in
      let last : x ≡ y = cc in rw (pop-none xs e) (last_of [] ys x y rest last)
  | inr ((zs, z), e) ↦
      let k = rw e at h in
      let rest : x ∷ zs ≡ ys = cc in
      let last : z ≡ y = cc in rw (pop-append xs zs z e) (last_of (x ∷ zs) ys z y rest last)
]

-- what the names that are not found yet may still add, at `d` handoffs each
abbrev pub weight : ℕ → List String → Agents → ℕ
weight d [] found = 0
weight d (k ∷ ks) found =
    let rest = weight d ks found in if is_known (lookup k found) then rest else d + rest

pub lookup-found :
    (j k : String) (a : ℕ) (found : Agents)
    → (k == j) ≡ false
    → lookup j (insert k a found) ≡ lookup j found
lookup-found j k a found other = lookup-insert k j a found ∙ rw other refl

pub lookup-same :
    (j k : String) (a : ℕ) (found : Agents) → (k == j) ≡ true → lookup j (insert k a found) ≡ some a
lookup-same j k a found same = lookup-insert k j a found ∙ rw same refl

pub weight-insert :
    (d : ℕ) (ks : List String) (k : String) (a : ℕ) (found : Agents)
    → weight d ks (insert k a found) ≤ weight d ks found
weight-insert d [] k a found = omega arith
weight-insert d (j ∷ ks) k a found = elim (Bool-cases (k == j)) [
  | inl same ↦
      let known : is_known (lookup j (insert k a found)) ≡ true =
        ap is_known (lookup-same j k a found same) in
      rw known (elim (Bool-cases (is_known (lookup j found))) [
        | inl before ↦ rw before (weight-insert d ks k a found)
        | inr new ↦ rw new (omega (arith, weight-insert d ks k a found))
      ])
  | inr other ↦ rw (lookup-found j k a found other) (elim (Bool-cases (is_known (lookup j found))) [
    | inl before ↦ rw before (weight-insert d ks k a found)
    | inr new ↦ rw new (omega (arith, weight-insert d ks k a found))
  ])
]

abbrev pub Named : String → List String → Type 0
Named k [] = ⊥
Named k (j ∷ ks) = (j ≡ k) ⊎ Named k ks

pub weight-drops :
    (d : ℕ) (ks : List String) (k : String) (a : ℕ) (found : Agents)
    → Named k ks
    → is_known (lookup k found) ≡ false
    → weight d ks (insert k a found) + d ≤ weight d ks found
weight-drops d [] k a found n new = absurd n
weight-drops d (j ∷ ks) k a found (inl e) new =
    let known : is_known (lookup j (insert k a found)) ≡ true =
      ap is_known (lookup-same j k a found ((string_eq.decides k j).1 (sym e))) in
    let new_j : is_known (lookup j found) ≡ false = ap (λ z. is_known (lookup z found)) e ∙ new in
    rw (known, new_j) (omega (arith, weight-insert d ks k a found))
weight-drops d (j ∷ ks) k a found (inr n) new = elim (Bool-cases (k == j)) [
  | inl same ↦
      let e : k ≡ j = (string_eq.decides k j).0 same in
      let known : is_known (lookup j (insert k a found)) ≡ true =
        ap is_known (lookup-same j k a found same) in
      let new_j : is_known (lookup j found) ≡ false =
        ap (λ z. is_known (lookup z found)) (sym e) ∙ new in
      rw (known, new_j) (omega (arith, weight-drops d ks k a found n new))
  | inr other ↦ rw (lookup-found j k a found other) (elim (Bool-cases (is_known (lookup j found))) [
    | inl before ↦ rw before (weight-drops d ks k a found n new)
    | inr new_j ↦ rw new_j (omega (arith, weight-drops d ks k a found n new))
  ])
]
