-- ===== src/Events/Streamed.antt =====
-- os/event_bus/models.py `MessageEvent.create_final_event_from_events`, on a chain whose phases pass the test.
use turtlemap.Prelude.{
  ℕ, String, ◌≡◌, refl, sym, ap, ◌∙◌, Bool, true, false, Option, none, some, List, [], ◌∷◌, ◌&&◌,
  All, map-All, Bool-cases, inl, inr, get_last?, map,
}
use turtlemap.Prelude.Eq.{nat_eq}
use turtlemap.Prelude.Dict.{lookup-All, IsDistinct, All-lookup}
use turtlemap.Prelude.Sorted.{sorted, sorted-All}
use turtlemap.Prelude.Try.{value, and_then}
use turtlemap.Events.{CompletionChunk, Completion, message_event, RuntimeEvent, RuntimeEventPhase}
use turtlemap.Events.Final.{
  is_final, is_end, is_process, is_started, in_order, closed, ends, guard_that,
  validate_parent_event_id, validate_stream_phases, process_then_end,
}
use turtlemap.Events.Message.{
  Accumulated, nothing_yet, add_choices, merge_head, add_events, by_key, finish_choice,
  completion_of, final_message_of, final_message, drop_same,
}
use turtlemap.Prelude.Groups.{mem}
use turtlemap.Events.Present.{streamed_indices, present}
use turtlemap.Events.Contents.{content_in, content_at, joined, increments, content-streamed}
use turtlemap.Events.Indexed.{Chunked, body-IsMessage, IsIndexed, add_choices-IsIndexed}

chunk_of :
    (e : RuntimeEvent)
    → is_process e.event_phase ≡ true
    → Chunked e
    → (c : CompletionChunk) × (m : Option Completion) × (e.body ≡ message_event (some c) m)
chunk_of e s h =
    let msg = body-IsMessage e.event_phase e.body h in
    elim msg.streams [
      | inl f ↦ absurd (cc)
      | inr (c, there) ↦
          (c, msg.completes, msg.body ∙ ap (λ o. message_event o msg.completes) there)
    ]

record IsAdded (g : ℕ → ℕ → String) (es : List RuntimeEvent) (acc : Accumulated) : Type 0 where
  result : Accumulated
  returns : add_events g es acc ≡ value result
  fits : IsIndexed result

added :
    (g : ℕ → ℕ → String) (es : List RuntimeEvent) (acc : Accumulated)
    → All Chunked es
    → IsIndexed acc
    → IsAdded g es acc
unfolding add_events
added g [] acc h k = record { result = acc; returns = refl; fits = k }
added g (e ∷ es) acc h k = elim (Bool-cases (is_process e.event_phase)) [
  | inl process ↦
      let (c, m, b) = chunk_of e process h.0 in
      let next =
        add_choices g e.event_phase c.choices (record acc { head = merge_head c acc.head }) in
      let ih = added g es next h.1 (
        add_choices-IsIndexed g e.event_phase c.choices
          (record acc { head = merge_head c acc.head })
          (record { distinct = k.distinct; indexed = k.indexed })) in
      record { result = ih.result; returns = rw (process, b) ih.returns; fits = ih.fits }
  | inr other ↦
      let ih = added g es acc h.1 k in
      record { result = ih.result; returns = rw other ih.returns; fits = ih.fits }
]

and_right : (p : Bool) {q : Bool} → (p && q) ≡ true → q ≡ true
and_right true h = h
and_right false h = absurd (cc)

-- the last event of a chain whose phases pass
last_ends :
    (e : RuntimeEvent) (es : List RuntimeEvent)
    → process_then_end es ≡ true
    → (z : RuntimeEvent) × (get_last? (e ∷ es) ≡ some z) × (is_final z.event_phase ≡ false)
last_ends e [] h = absurd (cc)
last_ends e (f ∷ []) h = (f, refl, ends_not_final f.event_phase h)
  where
    ends_not_final : (p : RuntimeEventPhase) → is_end p ≡ true → is_final p ≡ false
    ends_not_final RuntimeEventPhase.final h = absurd (cc)
    ends_not_final RuntimeEventPhase.end h = refl
    ends_not_final RuntimeEventPhase.started h = refl
    ends_not_final RuntimeEventPhase.in_progress h = refl
    ends_not_final RuntimeEventPhase.in_progress_partial h = refl
last_ends e (f ∷ g ∷ es) h = last_ends f (g ∷ es) (and_right (is_process f.event_phase) h)

-- the choices of a completion, whose texts are what was streamed
texts :
    (es : List RuntimeEvent) (acc : Accumulated)
    → IsIndexed acc
    → ((i : ℕ) → content_at i acc ≡ joined (increments i es))
    → All (λ c. c.message.content ≡ joined (increments c.index es)) (completion_of acc).choices
unfolding completion_of drop_same
texts es acc h k =
    map-All (λ c. c.message.content ≡ joined (increments c.index es))
      (finish_choice acc.choice_idx2tools) (by_key acc.idx2choice)
      (map-All (λ c. c.message.content ≡ joined (increments c.index es)) (λ e. e.1)
        (sorted (λ e. e.0) acc.idx2choice)
        (sorted-All (λ e. e.0) (λ e. e.1.message.content ≡ joined (increments e.1.index es))
          acc.idx2choice
          (All-lookup (λ e. e.1.message.content ≡ joined (increments e.1.index es)) acc.idx2choice
            h.distinct
            λ i c there.
              let at : c.index ≡ i =
                lookup-All (λ e. e.1.index ≡ e.0) i c acc.idx2choice h.indexed there in
              ap content_in (sym there) ∙ k i ∙ ap (λ j. joined (increments j es)) (sym at))))

-- The event `f` closes a chain `es`: its completion has a choice for each index that was streamed, and no other,
-- and each choice has the text that was streamed.
pub record IsStreamed (es : List RuntimeEvent) (f : RuntimeEvent) : Type 0 where
  pub completion : Completion
  pub body : f.body ≡ message_event none (some completion)
  pub phase : f.event_phase ≡ RuntimeEventPhase.final
  pub choices :
      (i : ℕ) → mem i (map (λ c. c.index) completion.choices) ≡ mem i (streamed_indices es)
  pub contents : All (λ c. c.message.content ≡ joined (increments c.index es)) completion.choices

-- the parts of a chain whose phases pass
phases_tail :
    (e : RuntimeEvent) (es : List RuntimeEvent)
    → validate_stream_phases (e ∷ es) ≡ true
    → process_then_end es ≡ true
unfolding validate_stream_phases
phases_tail e es h = and_right (is_started e.event_phase) h

ends_cons :
    (e : RuntimeEvent) (es : List RuntimeEvent) (z : RuntimeEvent)
    → get_last? (e ∷ es) ≡ some z
    → ends (e ∷ es) ≡ value (e, z)
ends_cons e es z h = rw (ends, h) refl

-- the same for the chain in its order
final_of :
    (g : ℕ → ℕ → String) (xs : List RuntimeEvent)
    → validate_parent_event_id xs ≡ true
    → validate_stream_phases xs ≡ true
    → All Chunked xs
    → (f : RuntimeEvent) × (and_then (ends xs) (λ p.
          and_then (guard_that (validate_parent_event_id xs)) λ _. final_message_of g xs p.0 p.1)
        ≡ value f)
      × IsStreamed xs f
unfolding validate_stream_phases IsDistinct
final_of g [] h k c = absurd (cc)
final_of g (e ∷ xs) h k c =
    let (z, last, unclosed) = last_ends e xs (phases_tail e xs k) in
    let start = added g (e ∷ xs) nothing_yet c (record { distinct = tt; indexed = tt }) in
    let msg = body-IsMessage e.event_phase e.body c.0 in
    let made = completion_of start.result in
    (
      closed e (message_event none (some made)) (e ∷ xs),
      rw (ends_cons e xs z last, h, unclosed, k, start.returns, msg.body) refl,
      record {
        completion = made;
        body = refl;
        phase = refl;
        choices = present g (e ∷ xs) start.result start.fits start.returns;
        contents =
            texts (e ∷ xs) start.result start.fits
              λ i. content-streamed g i (e ∷ xs) start.result start.returns;
      },
    )

-- If the events of a message have one parent and their phases, in the order of their numbers, pass
-- the test, and each event in progress has its chunk, the final event is made: it is final, it has
-- a choice for each index that the chunks streamed and for no other, and the text of each choice
-- is what the chunks streamed for it, one after the other, without the snapshots, or no text if
-- nothing was streamed.
pub final_message-IsStreamed :
    (g : ℕ → ℕ → String) (es : List RuntimeEvent)
    → validate_parent_event_id (in_order es) ≡ true
    → validate_stream_phases (in_order es) ≡ true
    → All Chunked (in_order es)
    → (f : RuntimeEvent) × (final_message g es ≡ value f) × IsStreamed (in_order es) f
unfolding final_message
final_message-IsStreamed g es h k c = final_of g (in_order es) h k c
