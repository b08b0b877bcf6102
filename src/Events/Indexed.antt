-- ===== src/Events/Indexed.antt =====
-- os/event_bus/models.py `MessageEvent`: the dict of choices that the chunks of a message build.
use turtlemap.Prelude.{
  ℕ, String, ◌≡◌, refl, false, Option, none, some, List, [], ◌∷◌, All, Option-cases, inl, inr, ◌⊎◌,
}
use turtlemap.Prelude.Eq.{nat_eq}
use turtlemap.Prelude.Dict.{Dict, lookup, lookup-All, insert-All, IsDistinct, insert-IsDistinct}
use turtlemap.Events.{
  ChunkChoice, CompletionChunk, CompletionChoice, Completion, EventBody, message_event, input_event,
  tool_call_event, tool_result_event, compression_event, interrupted_event,
  agent_frame_change_event, custom_event, RuntimeEvent, RuntimeEventPhase,
}
use turtlemap.Events.Final.{is_process}
use turtlemap.Events.Message.{
  Accumulated, merge_choice, or_new, new_choice, add_choice, add_choices,
}

-- A message event that is in progress has its chunk.
pub data IsChunked : RuntimeEventPhase → EventBody → Type 0 where
  chunk :
      {p : RuntimeEventPhase} (c : CompletionChunk) {m : Option Completion}
      → IsChunked p (message_event (some c) m)
  edge :
      {p : RuntimeEventPhase} {m : Option Completion}
      → is_process p ≡ false
      → IsChunked p (message_event none m)

abbrev pub Chunked : RuntimeEvent → Type 0
Chunked e = IsChunked e.event_phase e.body

pub record IsMessage (p : RuntimeEventPhase) (b : EventBody) : Type 0 where
  pub chunks : Option CompletionChunk
  pub completes : Option Completion
  pub body : b ≡ message_event chunks completes
  pub streams : (is_process p ≡ false) ⊎ ((c : CompletionChunk) × (chunks ≡ some c))

pub body-IsMessage : (p : RuntimeEventPhase) (b : EventBody) → IsChunked p b → IsMessage p b
body-IsMessage p (message_event (some c) m) (chunk _) = record {
  chunks = some c;
  completes = m;
  body = refl;
  streams = inr (c, refl);
}
body-IsMessage p (message_event none m) (edge f) = record {
  chunks = none;
  completes = m;
  body = refl;
  streams = inl f;
}
body-IsMessage p (input_event _) x = elim x [ ]
body-IsMessage p (tool_call_event _) x = elim x [ ]
body-IsMessage p (tool_result_event _ _) x = elim x [ ]
body-IsMessage p (compression_event _ _) x = elim x [ ]
body-IsMessage p (interrupted_event _) x = elim x [ ]
body-IsMessage p (agent_frame_change_event _) x = elim x [ ]
body-IsMessage p (custom_event _) x = elim x [ ]

-- what a dict of choices keeps: each key once, over the choice of that index
pub record IsIndexed (acc : Accumulated) : Type 0 where
  pub distinct : IsDistinct acc.idx2choice
  pub indexed : All (λ e. e.1.index ≡ e.0) acc.idx2choice

index-merged :
    (p : RuntimeEventPhase) (c : ChunkChoice) (k : ℕ) (d : Dict ℕ CompletionChoice)
    → All (λ e. e.1.index ≡ e.0) d
    → (merge_choice p c (or_new (new_choice k) (lookup k d))).index ≡ k
unfolding merge_choice
index-merged p c k d h = elim (Option-cases (lookup k d)) [
  | inl fresh ↦ rw fresh refl
  | inr (old, there) ↦ rw there (lookup-All (λ e. e.1.index ≡ e.0) k old d h there)
]

add_choice-IsIndexed :
    (g : ℕ → ℕ → String) (p : RuntimeEventPhase) (c : ChunkChoice) (acc : Accumulated)
    → IsIndexed acc
    → IsIndexed (add_choice g p c acc)
unfolding add_choice
add_choice-IsIndexed g p c acc h =
    let v = merge_choice p c (or_new (new_choice c.index) (lookup c.index acc.idx2choice)) in
    record {
      distinct = insert-IsDistinct c.index v acc.idx2choice h.distinct;
      indexed =
          insert-All (λ e. e.1.index ≡ e.0) c.index v acc.idx2choice h.indexed
            (index-merged p c c.index acc.idx2choice h.indexed);
    }

pub add_choices-IsIndexed :
    (g : ℕ → ℕ → String) (p : RuntimeEventPhase) (cs : List ChunkChoice) (acc : Accumulated)
    → IsIndexed acc
    → IsIndexed (add_choices g p cs acc)
add_choices-IsIndexed g p [] acc h = h
add_choices-IsIndexed g p (c ∷ cs) acc h =
    add_choices-IsIndexed g p cs (add_choice g p c acc) (add_choice-IsIndexed g p c acc h)
