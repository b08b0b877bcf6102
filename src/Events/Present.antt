-- ===== src/Events/Present.antt =====
-- os/event_bus/models.py `MessageEvent`: which choices the chunks of a message build.
use turtlemap.Prelude.{
  ℕ, String, ◌≡◌, refl, sym, ap, ◌∙◌, Bool, true, none, some, List, [], ◌∷◌, ◌++◌, map, Bool-cases,
  inl, inr, leb, if◌then◌else◌, All, arith,
}
use turtlemap.Prelude.Eq.{◌==◌, nat_eq}
use turtlemap.Prelude.Dict.{Dict, insert}
use turtlemap.Prelude.Groups.{mem}
use turtlemap.Prelude.Sorted.{sorted, put_sorted, sorted-All}
use turtlemap.Prelude.Try.{value, and_then-eq-value}
use turtlemap.Events.{
  ChunkChoice, CompletionChoice, EventBody, input_event, message_event, tool_call_event,
  tool_result_event, compression_event, interrupted_event, agent_frame_change_event, custom_event,
  RuntimeEvent, RuntimeEventPhase,
}
use turtlemap.Events.Final.{is_process}
use turtlemap.Events.Message.{
  Tools, Accumulated, nothing_yet, add_choice, add_choices, add_chunk, add_events, merge_head,
  finish_choice, completion_of,
}
use turtlemap.Events.Indexed.{IsIndexed}

-- the indices of the choices in the chunks of a chain's events in progress
abbrev chunk_indices : EventBody → List ℕ
chunk_indices (message_event (some c) m) = map (λ x. x.index) c.choices
chunk_indices _ = []

unfoldable pub streamed_indices : List RuntimeEvent → List ℕ
streamed_indices [] = []
streamed_indices (e ∷ es) =
    let rest = streamed_indices es in
    if is_process e.event_phase then chunk_indices e.body ++ rest else rest

abbrev either : Bool → Bool → Bool
either a b = if a then true else b

mem-either : (i : ℕ) (xs ys : List ℕ) → mem i (xs ++ ys) ≡ either (mem i xs) (mem i ys)
mem-either i [] ys = refl
mem-either i (x ∷ xs) ys = elim (Bool-cases (x == i)) [
  | inl same ↦ rw same refl
  | inr other ↦ rw other (mem-either i xs ys)
]

-- whether a dict has the key
abbrev keys {ℓ} : {A : Type ℓ} → Dict ℕ A → List ℕ
keys d = map (λ e. e.0) d

mem-insert {ℓ} :
    {A : Type ℓ} (k i : ℕ) (v : A) (d : Dict ℕ A)
    → mem i (keys (insert k v d)) ≡ either (k == i) (mem i (keys d))
unfolding insert
mem-insert k i v [] = refl
mem-insert k i v ((j, w) ∷ d) = elim (Bool-cases (j == k)) [
  | inl same ↦ rw (same, (nat_eq.decides j k).0 same) (ground arith)
  | inr other ↦ rw (other, mem-insert k i v d) (ground arith)
]

has-add_choices :
    (g : ℕ → ℕ → String) (i : ℕ) (p : RuntimeEventPhase) (cs : List ChunkChoice) (acc : Accumulated)
    → mem i (keys (add_choices g p cs acc).idx2choice)
      ≡ either (mem i (map (λ x. x.index) cs)) (mem i (keys acc.idx2choice))
unfolding add_choice
has-add_choices g i p [] acc = refl
has-add_choices g i p (c ∷ cs) acc =
    has-add_choices g i p cs (add_choice g p c acc)
    ∙ ap (either (mem i (map (λ x. x.index) cs))) (mem-insert c.index i _ acc.idx2choice)
    ∙ ground arith

has-add_chunk :
    (g : ℕ → ℕ → String) (i : ℕ) (p : RuntimeEventPhase) (b : EventBody) (acc acc' : Accumulated)
    → add_chunk g p b acc ≡ value acc'
    → mem i (keys acc'.idx2choice) ≡ either (mem i (chunk_indices b)) (mem i (keys acc.idx2choice))
has-add_chunk g i p (message_event (some c) m) acc acc' h =
    let next : add_choices g p c.choices (record acc { head = merge_head c acc.head }) ≡ acc' =
      cc in
    ap (λ a. mem i (keys a.idx2choice)) (sym next)
    ∙ has-add_choices g i p c.choices (record acc { head = merge_head c acc.head })
has-add_chunk g i p (message_event none m) acc acc' h = absurd (cc)
has-add_chunk g i p (input_event x) acc acc' h = absurd (cc)
has-add_chunk g i p (tool_call_event x) acc acc' h = absurd (cc)
has-add_chunk g i p (tool_result_event x r) acc acc' h = absurd (cc)
has-add_chunk g i p (compression_event x r) acc acc' h = absurd (cc)
has-add_chunk g i p (interrupted_event x) acc acc' h = absurd (cc)
has-add_chunk g i p (agent_frame_change_event x) acc acc' h = absurd (cc)
has-add_chunk g i p (custom_event x) acc acc' h = absurd (cc)

has-add_events :
    (g : ℕ → ℕ → String) (i : ℕ) (es : List RuntimeEvent) (acc acc' : Accumulated)
    → add_events g es acc ≡ value acc'
    → mem i (keys acc'.idx2choice)
      ≡ either (mem i (streamed_indices es)) (mem i (keys acc.idx2choice))
unfolding add_events streamed_indices
has-add_events g i [] acc acc' h =
    let same : acc' ≡ acc = cc in ap (λ a. mem i (keys a.idx2choice)) same
has-add_events g i (e ∷ es) acc acc' h = elim (Bool-cases (is_process e.event_phase)) [
  | inl process ↦
      let (mid, first, rest) =
        and_then-eq-value (add_chunk g e.event_phase e.body acc) (add_events g es)
          (rw process at h) in
      has-add_events g i es mid acc' rest
      ∙ ap (either (mem i (streamed_indices es)))
          (has-add_chunk g i e.event_phase e.body acc mid first)
      ∙ rw (process, mem-either i (chunk_indices e.body) (streamed_indices es)) (ground arith)
  | inr other ↦ has-add_events g i es acc acc' (rw other at h) ∙ rw other refl
]

-- sorting keeps the keys
mem-put_sorted {ℓ} :
    {A : Type ℓ} (key : A → ℕ) (i : ℕ) (x : A) (ys : List A)
    → mem i (map key (put_sorted key x ys)) ≡ either (key x == i) (mem i (map key ys))
unfolding put_sorted
mem-put_sorted key i x [] = refl
mem-put_sorted key i x (y ∷ ys) = elim (Bool-cases (leb (key x) (key y))) [
  | inl small ↦ rw small refl
  | inr large ↦ rw (large, mem-put_sorted key i x ys) (ground arith)
]

mem-sorted {ℓ} :
    {A : Type ℓ} (key : A → ℕ) (i : ℕ) (xs : List A)
    → mem i (map key (sorted key xs)) ≡ mem i (map key xs)
unfolding sorted
mem-sorted key i [] = refl
mem-sorted key i (x ∷ xs) =
    mem-put_sorted key i x (sorted key xs) ∙ ap (either (key x == i)) (mem-sorted key i xs)

-- each choice has the index of its key
indices-keys :
    (tools : Dict ℕ Tools) (d : Dict ℕ CompletionChoice)
    → All (λ e. e.1.index ≡ e.0) d
    → map (λ c. c.index) (map (finish_choice tools) (map (λ e. e.1) d)) ≡ keys d
indices-keys tools [] h = refl
indices-keys tools ((k, c) ∷ d) h = rw (h.0, indices-keys tools d h.1) refl

pub present :
    (g : ℕ → ℕ → String) (es : List RuntimeEvent) (acc : Accumulated)
    → IsIndexed acc
    → add_events g es nothing_yet ≡ value acc
    → (i : ℕ) → mem i (map (λ c. c.index) (completion_of acc).choices) ≡ mem i (streamed_indices es)
unfolding completion_of
present g es acc h added i =
    ap (mem i) (
      indices-keys acc.choice_idx2tools (sorted (λ e. e.0) acc.idx2choice)
        (sorted-All (λ e. e.0) (λ e. e.1.index ≡ e.0) acc.idx2choice h.indexed))
    ∙ mem-sorted (λ e. e.0) i acc.idx2choice
    ∙ has-add_events g i es nothing_yet acc added
    ∙ ground arith
