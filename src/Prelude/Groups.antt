-- ===== src/Prelude/Groups.antt =====
-- Python's `d.setdefault(key(x), []).append(x)` over a list, with the list of the keys as they first
-- appear beside it.
use mathlib.Core.Path.{◌≡◌, refl, sym, ◌∙◌, ap}
use mathlib.Core.Logic.{inl, inr}
use mathlib.Core.Bool.{Bool, true, false, not, ◌&&◌}
use mathlib.Core.List.{map, List, [], ◌∷◌, ◌++◌, append-nil, append_assoc}
use native.Mathlib.Omega.{arith}
use turtlemap.Prelude.Tests.{if◌then◌else◌, Bool-cases}
use turtlemap.Prelude.Lists.{keep, All, All-map, map-All}
use turtlemap.Prelude.Eq.{Eq, ◌==◌}
use turtlemap.Prelude.Dict.{Dict, lookup, insert, lookup-insert}
use turtlemap.Prelude.Kept.{
  keep-All, or_empty, is_some, keep-cons_true, keep-cons_false, keep-keep, keep-all, IsFull,
}

map-ext {ℓ κ} :
    {A : Type ℓ} {B : Type κ} (f g : A → B) (xs : List A)
    → ((x : A) → f x ≡ g x)
    → map f xs ≡ map g xs
map-ext f g [] h = refl
map-ext f g (x ∷ xs) h = rw (h x, map-ext f g xs h) refl

module _ {ℓ} {K : Type ℓ} ⦃e : Eq K⦄ where
  -- `k in ks`, over a list
  abbrev pub mem : K → List K → Bool
  mem k [] = false
  mem k (j ∷ ks) = if j == k then true else mem k ks

  pub mem-append :
      (j k : K) (ks : List K) → mem j (ks ++ k ∷ []) ≡ (if k == j then true else mem j ks)
  mem-append j k [] = refl
  mem-append j k (i ∷ ks) = elim (Bool-cases (i == j)) [
    | inl same ↦ rw same (ground arith)
    | inr other ↦ rw (other, mem-append j k ks) refl
  ]

  pub keep-mem :
      (k j : K) (ks : List K)
      → (k == j) ≡ false
      → mem j (keep (λ i. not (k == i)) ks) ≡ false
      → mem j ks ≡ false
  keep-mem k j [] h m = refl
  keep-mem k j (i ∷ ks) h m = elim (Bool-cases (k == i)) [
    | inl same ↦
        let off : (i == j) ≡ false = ap (λ l. l == j) (sym ((e.decides k i).0 same)) ∙ h in
        let rest = rw (keep-cons_false (λ i. not (k == i)) i ks (ap not same)) at m in
        rw off (keep-mem k j ks h rest)
    | inr other ↦
        let rest = rw (keep-cons_true (λ i. not (k == i)) i ks (ap not other)) at m in
        elim (Bool-cases (i == j)) [
          | inl found ↦ absurd (ground arith)
          | inr off ↦ rw off (keep-mem k j ks h (rw off at rest))
        ]
  ]

  known_key :
      (k j : K) (ks : List K) → mem k ks ≡ true → (not (mem j ks) && not (k == j)) ≡ not (mem j ks)
  known_key k j ks h = elim (Bool-cases (k == j)) [
    | inl same ↦
        let eq : mem j ks ≡ true = ap (λ i. mem i ks) (sym ((e.decides k j).0 same)) ∙ h in
        rw (same, eq) refl
    | inr other ↦ ground (arith)
  ]

  new_key : (k j : K) (ks : List K) → (not (mem j ks) && not (k == j)) ≡ not (mem j (ks ++ k ∷ []))
  new_key k j ks = ground (arith, mem-append j k ks)

module _ {ℓ κ} {K : Type ℓ} {A : Type κ} ⦃e : Eq K⦄ where
  -- `d.get(k, [])`
  abbrev pub get_all : K → Dict K (List A) → List A
  get_all k d = or_empty (lookup k d)

  -- `d.setdefault(k, []).append(x)`
  unfoldable pub append_to : K → A → Dict K (List A) → Dict K (List A)
  append_to k x d = insert k (get_all k d ++ x ∷ []) d

  pub get_all-append_to :
      (k j : K) (x : A) (d : Dict K (List A))
      → get_all j (append_to k x d) ≡ (if k == j then get_all k d ++ x ∷ [] else get_all j d)
  unfolding append_to
  get_all-append_to k j x d = elim (Bool-cases (k == j)) [
    | inl same ↦ rw (lookup-insert k j (get_all k d ++ x ∷ []) d, same) refl
    | inr other ↦ rw (lookup-insert k j (get_all k d ++ x ∷ []) d, other) refl
  ]

  pub is_some-append_to :
      (k j : K) (x : A) (d : Dict K (List A))
      → is_some (lookup j (append_to k x d)) ≡ (if k == j then true else is_some (lookup j d))
  unfolding append_to
  is_some-append_to k j x d = elim (Bool-cases (k == j)) [
    | inl same ↦ rw (lookup-insert k j (get_all k d ++ x ∷ []) d, same) refl
    | inr other ↦ rw (lookup-insert k j (get_all k d ++ x ∷ []) d, other) refl
  ]

  module _ (key : A → K) where
    -- the loop over `xs`, from the keys `ks` and the dict `d`
    unfoldable pub group : List A → List K → Dict K (List A) → List K × Dict K (List A)
    group [] ks d = (ks, d)
    group (x ∷ xs) ks d =
        group xs (if is_some (lookup (key x) d) then ks else ks ++ key x ∷ [])
          (append_to (key x) x d)

    -- the keys of `xs` as they first appear
    unfoldable pub first_keys : List A → List K
    first_keys [] = []
    first_keys (x ∷ xs) = key x ∷ keep (λ k. not (key x == k)) (first_keys xs)

    -- the elements with the key `k`
    abbrev pub with_key : K → List A → List A
    with_key k xs = keep (λ x. key x == k) xs

    pub get_all-group :
        (xs : List A) (ks : List K) (d : Dict K (List A)) (k : K)
        → get_all k (group xs ks d).1 ≡ get_all k d ++ with_key k xs
    unfolding group
    get_all-group [] ks d k = sym (append-nil (get_all k d))
    get_all-group (x ∷ xs) ks d k =
        let ks' = if is_some (lookup (key x) d) then ks else ks ++ key x ∷ [] in
        let rest = get_all-group xs ks' (append_to (key x) x d) k in
        let here = get_all-append_to (key x) k x d in
        elim (Bool-cases (key x == k)) [
          | inl same ↦
              let eq : key x ≡ k = (e.decides (key x) k).0 same in
              let cons = keep-cons_true (λ x. key x == k) x xs same in
              rw (rest, here, same, ap (λ j. get_all j d) eq, cons)
                (append_assoc (get_all k d) (x ∷ []) (with_key k xs))
          | inr other ↦ rw (rest, here, other, keep-cons_false (λ x. key x == k) x xs other) refl
        ]

    keys_step :
        (k : K) (ks : List K) (fs : List K) (b : Bool)
        → mem k ks ≡ b
        → (if b then ks else ks ++ k ∷ [])
            ++ keep (λ j. not (mem j (if b then ks else ks ++ k ∷ []))) fs
          ≡ ks ++ keep (λ j. not (mem j ks)) (k ∷ keep (λ j. not (k == j)) fs)
    keys_step k ks fs true h =
        let p : K → Bool = λ j. not (mem j ks) in
        rw
          (
            keep-cons_false p k (keep (λ j. not (k == j)) fs) (ap not h),
            keep-keep p (λ j. not (k == j)) p fs λ j. known_key k j ks h,
          )
          refl
    keys_step k ks fs false h =
        let p : K → Bool = λ j. not (mem j ks) in
        let q : K → Bool = λ j. not (mem j (ks ++ k ∷ [])) in
        rw
          (
            keep-cons_true p k (keep (λ j. not (k == j)) fs) (ap not h),
            keep-keep p (λ j. not (k == j)) q fs λ j. new_key k j ks,
          )
          (append_assoc ks (k ∷ []) (keep q fs))

    is_known :
        (x : A) (ks : List K) (d : Dict K (List A))
        → ((k : K) → is_some (lookup k d) ≡ mem k ks)
        → (k : K)
        → is_some (lookup k (append_to (key x) x d))
          ≡ mem k (if is_some (lookup (key x) d) then ks else ks ++ key x ∷ [])
    is_known x ks d h k =
        let found = is_some-append_to (key x) k x d in
        elim (Bool-cases (is_some (lookup (key x) d))) [
          | inl old ↦ elim (Bool-cases (key x == k)) [
            | inl same ↦
                let eq : mem k ks ≡ true =
                  sym (h k)
                  ∙ ap (λ j. is_some (lookup j d)) (sym ((e.decides (key x) k).0 same))
                  ∙ old in
                rw (found, old, same, eq) refl
            | inr other ↦ rw (found, old, other) (h k)
          ]
          | inr new ↦ elim (Bool-cases (key x == k)) [
            | inl same ↦ rw (found, new, mem-append k (key x) ks, same) refl
            | inr other ↦ rw (found, new, mem-append k (key x) ks, other) (h k)
          ]
        ]

    -- the keys in the order in which they first appear, new ones behind those that were there
    pub group-keys :
        (xs : List A) (ks : List K) (d : Dict K (List A))
        → ((k : K) → is_some (lookup k d) ≡ mem k ks)
        → (group xs ks d).0 ≡ ks ++ keep (λ k. not (mem k ks)) (first_keys xs)
    unfolding group first_keys
    group-keys [] ks d h = sym (append-nil ks)
    group-keys (x ∷ xs) ks d h =
        let b = is_some (lookup (key x) d) in
        group-keys xs (if b then ks else ks ++ key x ∷ []) (append_to (key x) x d)
          (is_known x ks d h)
        ∙ keys_step (key x) ks (first_keys xs) b (sym (h (key x)))

    -- the groups, one for each key
    pub group-by_key :
        (xs : List A)
        → map (λ k. get_all k (group xs [] []).1) (group xs [] []).0
          ≡ map (λ k. with_key k xs) (first_keys xs)
    unfolding lookup
    group-by_key xs =
        let keys : (group xs [] []).0 ≡ first_keys xs =
          group-keys xs [] [] (λ k. refl) ∙ keep-all (first_keys xs) in
        ap (map (λ k. get_all k (group xs [] []).1)) keys
        ∙ map-ext (λ k. get_all k (group xs [] []).1) (λ k. with_key k xs) (first_keys xs)
            (get_all-group xs [] [])

    with_key-IsFull :
        (x : A) (xs : List A) (k : K) → IsFull (with_key k xs) → IsFull (with_key k (x ∷ xs))
    with_key-IsFull x xs k h = elim (Bool-cases (key x == k)) [
      | inl same ↦ rw (keep-cons_true (λ x. key x == k) x xs same) tt
      | inr other ↦ rw (keep-cons_false (λ x. key x == k) x xs other) h
    ]

    pub first_keys-IsFull : (xs : List A) → All (λ k. IsFull (with_key k xs)) (first_keys xs)
    unfolding first_keys
    first_keys-IsFull [] = tt
    first_keys-IsFull (x ∷ xs) = (
      rw (keep-cons_true (λ y. key y == key x) x xs ((e.decides (key x) (key x)).1 refl)) tt,
      keep-All (λ k. IsFull (with_key k (x ∷ xs))) (λ k. not (key x == k)) (first_keys xs)
          (All-map (λ k. with_key-IsFull x xs k) (first_keys xs) (first_keys-IsFull xs)),
    )

    -- none of the groups is empty
    pub groups-IsFull : (xs : List A) → All IsFull (map (λ k. with_key k xs) (first_keys xs))
    groups-IsFull xs = map-All IsFull (λ k. with_key k xs) (first_keys xs) (first_keys-IsFull xs)

    pub with_key-keys : (k : K) (xs : List A) → All (λ x. key x ≡ k) (with_key k xs)
    with_key-keys k [] = tt
    with_key-keys k (x ∷ xs) = elim (Bool-cases (key x == k)) [
      | inl same ↦
          rw (keep-cons_true (λ x. key x == k) x xs same)
            ((e.decides (key x) k).0 same, with_key-keys k xs)
      | inr other ↦ rw (keep-cons_false (λ x. key x == k) x xs other) (with_key-keys k xs)
    ]

    pub with_key-absent : (k : K) (xs : List A) → mem k (first_keys xs) ≡ false → with_key k xs ≡ []
    unfolding first_keys
    with_key-absent k [] h = refl
    with_key-absent k (x ∷ xs) h = elim (Bool-cases (key x == k)) [
      | inl same ↦ absurd (ground arith)
      | inr other ↦
          keep-cons_false (λ x. key x == k) x xs other
          ∙ with_key-absent k xs (keep-mem (key x) k (first_keys xs) other (rw other at h))
    ]
