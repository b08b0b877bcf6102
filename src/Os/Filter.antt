-- ===== src/Os/Filter.antt =====
-- os/service.py `_filter_runtime_events_before_save`: what of a task's events is saved.
use turtlemap.Prelude.{
  ℕ, ◌≡◌, refl, sym, ap, ◌∙◌, Bool, true, false, ◌&&◌, List, [], ◌∷◌, keep, All, All-map,
  if◌then◌else◌,
}
use turtlemap.Prelude.Eq.{nat_eq}
use turtlemap.Prelude.Dict.{lookup}
use turtlemap.Prelude.Kept.{IsFull, keep-all, keep-keep, keep-All}
use turtlemap.Prelude.Groups.{
  first_keys-IsFull, with_key-keys, with_key-absent, get_all, mem, group, first_keys, with_key,
  get_all-group, group-keys,
}
use turtlemap.Prelude.Blocks.{
  concat_map-ext, concat_map, IsUnique, first_keys-IsUnique, with_key-concat_map,
  first_keys-concat_map,
}
use turtlemap.Events.{RuntimeEvent}
use turtlemap.Events.Final.{is_final}

abbrev pub id_of : RuntimeEvent → ℕ
id_of e = e.event_id

-- `xs or ys`
abbrev or_list : List RuntimeEvent → List RuntimeEvent → List RuntimeEvent
or_list [] ys = ys
or_list (x ∷ xs) ys = x ∷ xs

-- `final_events or events`
unfoldable pub final_or_all : List RuntimeEvent → List RuntimeEvent
final_or_all es = or_list (keep (λ e. is_final e.event_phase) es) es

-- `_filter_runtime_events_before_save`
unfoldable pub filter_runtime_events_before_save : List RuntimeEvent → List RuntimeEvent
filter_runtime_events_before_save es =
    let (ids, d) = group id_of es [] [] in concat_map (λ i. final_or_all (get_all i d)) ids

-- the chain of an id, as it is saved
abbrev block : List RuntimeEvent → ℕ → List RuntimeEvent
block es i = final_or_all (with_key id_of i es)

filter-blocks :
    (es : List RuntimeEvent)
    → filter_runtime_events_before_save es ≡ concat_map (block es) (first_keys id_of es)
unfolding filter_runtime_events_before_save lookup
filter-blocks es =
    let ids : (group id_of es [] []).0 ≡ first_keys id_of es =
      group-keys id_of es [] [] (λ k. refl) ∙ keep-all (first_keys id_of es) in
    ap (concat_map (λ i. final_or_all (get_all i (group id_of es [] []).1))) ids
    ∙ concat_map-ext (λ i. final_or_all (get_all i (group id_of es [] []).1)) (block es)
        (first_keys id_of es) λ i. ap final_or_all (get_all-group id_of es [] [] i)

or_list-All {ℓ} :
    (P : RuntimeEvent → Type ℓ) (xs ys : List RuntimeEvent)
    → All P xs
    → All P ys
    → All P (or_list xs ys)
or_list-All P [] ys h k = k
or_list-All P (x ∷ xs) ys h k = h

final_or_all-All {ℓ} :
    (P : RuntimeEvent → Type ℓ) (es : List RuntimeEvent) → All P es → All P (final_or_all es)
unfolding final_or_all
final_or_all-All P es h =
    or_list-All P (keep (λ e. is_final e.event_phase) es) es
      (keep-All P (λ e. is_final e.event_phase) es h) h

final_or_all-IsFull : (es : List RuntimeEvent) → IsFull es → IsFull (final_or_all es)
unfolding final_or_all
final_or_all-IsFull es h = go (keep (λ e. is_final e.event_phase) es)
  where
    go : (xs : List RuntimeEvent) → IsFull (or_list xs es)
    go [] = h
    go (x ∷ xs) = tt

both_same : (b : Bool) → (b && b) ≡ b
both_same true = refl
both_same false = refl

final_or_all-twice : (es : List RuntimeEvent) → final_or_all (final_or_all es) ≡ final_or_all es
unfolding final_or_all
final_or_all-twice es = go (keep (λ e. is_final e.event_phase) es) refl
  where
    p : RuntimeEvent → Bool
    p e = is_final e.event_phase

    go :
        (xs : List RuntimeEvent)
        → keep p es ≡ xs
        → or_list (keep p (or_list xs es)) (or_list xs es) ≡ or_list xs es
    go [] h = rw h refl
    go (x ∷ xs) h =
        let again : keep p (x ∷ xs) ≡ x ∷ xs =
          ap (keep p) (sym h) ∙ keep-keep p p p es (λ e. both_same (p e)) ∙ h in
        rw again refl

block-keys : (es : List RuntimeEvent) (i : ℕ) → All (λ e. id_of e ≡ i) (block es i)
block-keys es i =
    final_or_all-All (λ e. id_of e ≡ i) (with_key id_of i es) (with_key-keys id_of i es)

-- an id that does not occur
absent :
    (es : List RuntimeEvent) (i : ℕ)
    → mem i (first_keys id_of es) ≡ false
    → with_key id_of i es ≡ []
absent es i h = with_key-absent id_of i es h

-- Of each chain of events that have one id, the filter keeps the final events if there are any and all
-- of the chain otherwise, in their order; the ids keep the order in which they first occur; and what is
-- kept is kept again by a second filter.
pub filter-IsFolded :
    (es : List RuntimeEvent)
    → ((i : ℕ)
        → with_key id_of i (filter_runtime_events_before_save es)
          ≡ final_or_all (with_key id_of i es))
      × (first_keys id_of (filter_runtime_events_before_save es) ≡ first_keys id_of es)
      × (filter_runtime_events_before_save (filter_runtime_events_before_save es)
          ≡ filter_runtime_events_before_save es)
unfolding final_or_all
filter-IsFolded es = (chains, ids, again)
  where
    unique : IsUnique id_of (first_keys id_of es)
    unique = first_keys-IsUnique id_of es

    chains :
        (i : ℕ)
        → with_key id_of i (filter_runtime_events_before_save es)
          ≡ final_or_all (with_key id_of i es)
    chains i =
        ap (with_key id_of i) (filter-blocks es)
        ∙ with_key-concat_map id_of (block es) (block-keys es) (first_keys id_of es) i unique
        ∙ found (mem i (first_keys id_of es)) refl
      where
        found :
            (b : Bool)
            → mem i (first_keys id_of es) ≡ b
            → (if b then block es i else []) ≡ final_or_all (with_key id_of i es)
        found true h = refl
        found false h = ap final_or_all (sym (absent es i h))

    ids : first_keys id_of (filter_runtime_events_before_save es) ≡ first_keys id_of es
    ids =
        ap (first_keys id_of) (filter-blocks es)
        ∙ first_keys-concat_map id_of (block es) (block-keys es) (first_keys id_of es) unique (
            All-map (λ i. final_or_all-IsFull (with_key id_of i es)) (first_keys id_of es)
              (first_keys-IsFull id_of es))

    again :
        filter_runtime_events_before_save (filter_runtime_events_before_save es)
        ≡ filter_runtime_events_before_save es
    again =
        let out = filter_runtime_events_before_save es in
        filter-blocks out
        ∙ ap (concat_map (block out)) ids
        ∙ concat_map-ext (block out) (block es) (first_keys id_of es)
            (λ i. ap final_or_all (chains i) ∙ final_or_all-twice (with_key id_of i es))
        ∙ sym (filter-blocks es)
