-- ===== src/Events/Contents.antt =====
-- os/event_bus/models.py `MessageEvent`: the text of a choice, against the increments that were streamed.
use Prim.Native.String.{String, ◌++◌ as ◌<>◌}
use turtlemap.Prelude.{
  ℕ, ◌≡◌, refl, sym, ap, ◌∙◌, Option, none, some, List, [], ◌∷◌, ◌++◌, Bool-cases, inl, inr,
  if◌then◌else◌,
}
use turtlemap.Prelude.Eq.{◌==◌, nat_eq}
use turtlemap.Prelude.Dict.{lookup, lookup-insert}
use turtlemap.Prelude.Try.{value, and_then-eq-value}
use text.Mathlib.TextLemmas.{
  append_assoc as text_assoc, append-nil as text_nil, nil-append as nil_text,
}
use turtlemap.Events.{
  EventBody, input_event, tool_call_event, tool_result_event, compression_event, interrupted_event,
  agent_frame_change_event, custom_event, ChunkChoice, CompletionChoice, message_event,
  RuntimeEvent, RuntimeEventPhase,
}
use turtlemap.Events.Final.{is_process}
use turtlemap.Events.Message.{
  Accumulated, merge_head, merge_message_content, merge_choice, or_new, new_choice, is_partial,
  add_choice, add_choices, add_chunk, add_events, nothing_yet,
}

abbrev pub content_in : Option CompletionChoice → Option String
content_in none = none
content_in (some c) = c.message.content

-- the text that choice `i` has so far
abbrev pub content_at : ℕ → Accumulated → Option String
content_at i acc = content_in (lookup i acc.idx2choice)

-- the increments of choice `i` in some choices of a chunk
unfoldable pub increments_of : ℕ → RuntimeEventPhase → List ChunkChoice → List String
increments_of i p [] = []
increments_of i p (c ∷ cs) =
    let rest = increments_of i p cs in
    if c.index == i
    then (if is_partial p then rest else elim c.delta.content [ none ↦ rest | some s ↦ s ∷ rest ])
    else rest

abbrev body_increments : ℕ → RuntimeEventPhase → EventBody → List String
body_increments i p (message_event (some c) m) = increments_of i p c.choices
body_increments i p _ = []

abbrev increments_in : ℕ → RuntimeEvent → List String
increments_in i e = if is_process e.event_phase then body_increments i e.event_phase e.body else []

-- the increments of choice `i` in a chain of events, in the chain's order
unfoldable pub increments : ℕ → List RuntimeEvent → List String
increments i [] = []
increments i (e ∷ es) = increments_in i e ++ increments i es

unfoldable pub concat : List String → String
concat [] = ""
concat (s ∷ ss) = s <> concat ss

-- no text at all where nothing was streamed
abbrev pub joined : List String → Option String
joined [] = none
joined (s ∷ ss) = some (concat (s ∷ ss))

-- a text with further increments behind it
extended : Option String → List String → Option String
extended none ss = joined ss
extended (some t) ss = some (t <> concat ss)

concat-append : (xs ys : List String) → concat (xs ++ ys) ≡ concat xs <> concat ys
unfolding concat
concat-append [] ys = sym (nil_text (concat ys))
concat-append (x ∷ xs) ys = rw (concat-append xs ys) (sym (text_assoc x (concat xs) (concat ys)))

extended-append :
    (t : Option String) (xs ys : List String) → extended t (xs ++ ys) ≡ extended (extended t xs) ys
unfolding extended concat
extended-append none [] ys = refl
extended-append none (x ∷ xs) ys =
    rw (concat-append xs ys) (ap some (sym (text_assoc x (concat xs) (concat ys))))
extended-append (some t) xs ys =
    rw (concat-append xs ys) (ap some (sym (text_assoc t (concat xs) (concat ys))))

extended-nil : (t : Option String) → extended t [] ≡ t
unfolding extended concat
extended-nil none = refl
extended-nil (some t) = ap some (text_nil t)

extended-one :
    (t : Option String) (s : String) → merge_message_content t (some s) ≡ extended t (s ∷ [])
unfolding extended concat merge_message_content
extended-one none s = ap some (nil_text s ∙ sym (text_nil s))
extended-one (some t) s = ap (λ u. some (t <> u)) (sym (text_nil s))

content-merge_choice :
    (p : RuntimeEventPhase) (c : ChunkChoice) (k : ℕ) (o : Option CompletionChoice)
    → (merge_choice p c (or_new (new_choice k) o)).message.content ≡ (
        if is_partial p then content_in o else merge_message_content (content_in o) c.delta.content)
unfolding merge_choice merge_message_content
content-merge_choice p c k none = elim (Bool-cases (is_partial p)) [
  | inl partial ↦ rw partial refl
  | inr increment ↦ rw increment refl
]
content-merge_choice p c k (some old) = elim (Bool-cases (is_partial p)) [
  | inl partial ↦ rw partial refl
  | inr increment ↦ rw increment refl
]

-- one choice of a chunk
grown :
    (p : RuntimeEventPhase) (t s : Option String)
    → (if is_partial p then t else merge_message_content t s)
      ≡ extended t (if is_partial p then [] else elim s [ none ↦ [] | some u ↦ u ∷ [] ])
unfolding merge_message_content
grown p t s = elim (Bool-cases (is_partial p)) [
  | inl partial ↦ rw partial (sym (extended-nil t))
  | inr increment ↦ rw increment (go s)
]
  where
    go :
        (s : Option String)
        → merge_message_content t s ≡ extended t (elim s [ none ↦ [] | some u ↦ u ∷ [] ])
    go none = sym (extended-nil t)
    go (some u) = extended-one t u

content-add_choice :
    (g : ℕ → ℕ → String) (i : ℕ) (p : RuntimeEventPhase) (c : ChunkChoice) (acc : Accumulated)
    → content_at i (add_choice g p c acc) ≡ extended (content_at i acc) (increments_of i p (c ∷ []))
unfolding add_choice increments_of
content-add_choice g i p c acc =
    let v = merge_choice p c (or_new (new_choice c.index) (lookup c.index acc.idx2choice)) in
    elim (Bool-cases (c.index == i)) [
      | inl same ↦
          let eq : c.index ≡ i = (nat_eq.decides c.index i).0 same in
          let here : content_at c.index acc ≡ content_at i acc = ap (λ j. content_at j acc) eq in
          rw
            (
              lookup-insert c.index i v acc.idx2choice,
              same,
              content-merge_choice p c c.index (lookup c.index acc.idx2choice),
              here,
            )
            (grown p (content_at i acc) c.delta.content)
      | inr other ↦
          rw (lookup-insert c.index i v acc.idx2choice, other)
            (sym (extended-nil (content_at i acc)))
    ]

increments_of-cons :
    (i : ℕ) (p : RuntimeEventPhase) (c : ChunkChoice) (cs : List ChunkChoice)
    → increments_of i p (c ∷ cs) ≡ increments_of i p (c ∷ []) ++ increments_of i p cs
unfolding increments_of
increments_of-cons i p c cs = elim (Bool-cases (c.index == i)) [
  | inl same ↦ elim (Bool-cases (is_partial p)) [
    | inl partial ↦ rw (same, partial) refl
    | inr increment ↦ rw (same, increment) (go c.delta.content)
  ]
  | inr other ↦ rw other refl
]
  where
    go :
        (s : Option String)
        → (elim s [ none ↦ increments_of i p cs | some u ↦ u ∷ increments_of i p cs ])
          ≡ (elim s [ none ↦ [] | some u ↦ u ∷ [] ]) ++ increments_of i p cs
    go none = refl
    go (some u) = refl

content-add_choices :
    (g : ℕ → ℕ → String) (i : ℕ) (p : RuntimeEventPhase) (cs : List ChunkChoice) (acc : Accumulated)
    → content_at i (add_choices g p cs acc) ≡ extended (content_at i acc) (increments_of i p cs)
unfolding increments_of
content-add_choices g i p [] acc = sym (extended-nil (content_at i acc))
content-add_choices g i p (c ∷ cs) acc =
    content-add_choices g i p cs (add_choice g p c acc)
    ∙ ap (λ t. extended t (increments_of i p cs)) (content-add_choice g i p c acc)
    ∙ sym (extended-append (content_at i acc) (increments_of i p (c ∷ [])) (increments_of i p cs))
    ∙ ap (extended (content_at i acc)) (sym (increments_of-cons i p c cs))

content-add_chunk :
    (g : ℕ → ℕ → String) (i : ℕ) (p : RuntimeEventPhase) (b : EventBody) (acc acc' : Accumulated)
    → add_chunk g p b acc ≡ value acc'
    → content_at i acc' ≡ extended (content_at i acc) (body_increments i p b)
content-add_chunk g i p (message_event (some c) m) acc acc' h =
    let same : acc' ≡ add_choices g p c.choices (record acc { head = merge_head c acc.head }) =
      cc in
    ap (content_at i) same
    ∙ content-add_choices g i p c.choices (record acc { head = merge_head c acc.head })
content-add_chunk g i p (message_event none m) acc acc' h = absurd (cc)
content-add_chunk g i p (input_event x) acc acc' h = absurd (cc)
content-add_chunk g i p (tool_call_event x) acc acc' h = absurd (cc)
content-add_chunk g i p (tool_result_event x r) acc acc' h = absurd (cc)
content-add_chunk g i p (compression_event x r) acc acc' h = absurd (cc)
content-add_chunk g i p (interrupted_event x) acc acc' h = absurd (cc)
content-add_chunk g i p (agent_frame_change_event x) acc acc' h = absurd (cc)
content-add_chunk g i p (custom_event x) acc acc' h = absurd (cc)

content-add_events :
    (g : ℕ → ℕ → String) (i : ℕ) (es : List RuntimeEvent) (acc acc' : Accumulated)
    → add_events g es acc ≡ value acc'
    → content_at i acc' ≡ extended (content_at i acc) (increments i es)
unfolding add_events increments
content-add_events g i [] acc acc' h =
    let same : acc' ≡ acc = cc in ap (content_at i) same ∙ sym (extended-nil (content_at i acc))
content-add_events g i (e ∷ es) acc acc' h = elim (Bool-cases (is_process e.event_phase)) [
  | inl process ↦
      let (mid, first, rest) =
        and_then-eq-value (add_chunk g e.event_phase e.body acc) (add_events g es)
          (rw process at h) in
      let here = content-add_chunk g i e.event_phase e.body acc mid first in
      content-add_events g i es mid acc' rest
      ∙ ap (λ t. extended t (increments i es)) here
      ∙ sym (
          extended-append (content_at i acc) (body_increments i e.event_phase e.body)
            (increments i es))
      ∙ rw process refl
  | inr other ↦ content-add_events g i es acc acc' (rw other at h) ∙ rw other refl
]

-- what has been streamed, from nothing on
pub content-streamed :
    (g : ℕ → ℕ → String) (i : ℕ) (es : List RuntimeEvent) (acc : Accumulated)
    → add_events g es nothing_yet ≡ value acc
    → content_at i acc ≡ joined (increments i es)
unfolding extended lookup
content-streamed g i es acc h = content-add_events g i es nothing_yet acc h
