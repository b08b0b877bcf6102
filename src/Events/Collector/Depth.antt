-- ===== src/Events/Collector/Depth.antt =====
-- os/event_bus/collector.py `_build_final_event_by_id`: how deep the search goes.
use turtlemap.Prelude.{
  ℕ, zero, suc, ◌≤◌, ◌<◌, String, ◌≡◌, refl, sym, ap, ◌∙◌, true, false, not, Option, none, some,
  List, [], ◌∷◌, ◌++◌, arith, length, keep, get_last?, Bool-cases, inl, inr, if◌then◌else◌,
}
use turtlemap.Prelude.Eq.{◌==◌, nat_eq}
use turtlemap.Prelude.Dict.{Dict, lookup}
use turtlemap.Prelude.Kept.{or_empty, is_some, keep-cons_true, keep-cons_false}
use turtlemap.Prelude.Groups.{get_all, mem}
use turtlemap.Prelude.Sorted.{sorted}
use turtlemap.Prelude.Try.{Try, value, error, and_then}
use turtlemap.Events.{
  RuntimeEvent, RuntimeEventType, event_type, EventBody, input_event, message_event,
  tool_call_event, tool_result_event, compression_event, interrupted_event,
  agent_frame_change_event, custom_event,
}
use turtlemap.Events.Final.{
  EventError, os_runtime, type_error, final_tool_result, final_compression,
}
use turtlemap.Events.Message.{final_message}
use turtlemap.Events.Collector.{
  ResultCollector, input_output, task_output, each_output, event_of, get_outputs,
  build_task_outputs, get_top_level_event_ids, group_final_events_by_task_id, if_interrupted,
  none_below, FinalEvent, BuildError, raises, lifted, alone, last_interrupted, build_each,
  build_matched, build_chain, build_final_event_by_id, depth, get_final_event_with_event_id,
  final_event, to_final_events, sequence_of,
}

-- an answer of the source: a value or one of its errors
pub data IsAnswer {A : Type 0} : Try BuildError A → Type 0 where
  returned : (a : A) → IsAnswer (value a)
  raised : (e : EventError) → IsAnswer (error (raises e))

and_then-IsAnswer :
    {A B : Type 0} (t : Try BuildError A) (f : A → Try BuildError B)
    → IsAnswer t
    → ((a : A) → IsAnswer (f a))
    → IsAnswer (and_then t f)
and_then-IsAnswer t f (returned a) k = k a
and_then-IsAnswer t f (raised e) k = raised e

lifted-IsAnswer : {A : Type 0} (t : Try EventError A) → IsAnswer (lifted t)
lifted-IsAnswer (value a) = returned a
lifted-IsAnswer (error e) = raised e

build_each-IsAnswer :
    (f : ℕ → Try BuildError FinalEvent) (is : List ℕ)
    → ((i : ℕ) → IsAnswer (f i))
    → IsAnswer (build_each f is)
build_each-IsAnswer f [] h = returned []
build_each-IsAnswer f (i ∷ is) h =
    and_then-IsAnswer (f i) (λ e. and_then (build_each f is) λ es. value (e ∷ es)) (h i)
      λ e.
        and_then-IsAnswer (build_each f is) (λ es. value (e ∷ es)) (build_each-IsAnswer f is h)
          λ es. returned (e ∷ es)

interrupted-IsAnswer : (o : Option RuntimeEvent) → IsAnswer (last_interrupted o)
interrupted-IsAnswer none = raised os_runtime
interrupted-IsAnswer (some e) = go e.body
  where
    go : (b : EventBody) → IsAnswer (if_interrupted e b)
    go (interrupted_event r) = returned (final_event e none_below)
    go (input_event _) = raised type_error
    go (message_event _ _) = raised type_error
    go (tool_call_event _) = raised type_error
    go (tool_result_event _ _) = raised type_error
    go (compression_event _ _) = raised type_error
    go (agent_frame_change_event _) = raised type_error
    go (custom_event _) = raised type_error

module _ (g : ℕ → ℕ → String) where
  matched-IsAnswer :
      (below : ℕ → Try BuildError (List FinalEvent)) (t : RuntimeEventType) (e : RuntimeEvent)
      (es : List RuntimeEvent)
      → ((p : ℕ) → IsAnswer (below p))
      → IsAnswer (build_matched g below t e es)
  unfolding build_matched
  matched-IsAnswer below RuntimeEventType.input e es h = returned (final_event e none_below)
  matched-IsAnswer below RuntimeEventType.message e es h =
      and_then-IsAnswer (lifted (final_message g (e ∷ es))) alone
        (lifted-IsAnswer (final_message g (e ∷ es))) λ f. returned (final_event f none_below)
  matched-IsAnswer below RuntimeEventType.tool_call e es h = returned (final_event e none_below)
  matched-IsAnswer below RuntimeEventType.tool_result e es h =
      and_then-IsAnswer (lifted (final_tool_result (e ∷ es)))
        (λ f.
          and_then (below f.event_id)
            λ fs. value (final_event f (to_final_events (sorted sequence_of fs))))
        (lifted-IsAnswer (final_tool_result (e ∷ es)))
        λ f.
          and_then-IsAnswer (below f.event_id)
            (λ fs. value (final_event f (to_final_events (sorted sequence_of fs)))) (h f.event_id)
            λ fs. returned (final_event f (to_final_events (sorted sequence_of fs)))
  matched-IsAnswer below RuntimeEventType.context_compression e es h =
      and_then-IsAnswer (lifted (final_compression (e ∷ es))) alone
        (lifted-IsAnswer (final_compression (e ∷ es))) λ f. returned (final_event f none_below)
  matched-IsAnswer below RuntimeEventType.interrupted e es h =
      interrupted-IsAnswer (get_last? (e ∷ es))
  matched-IsAnswer below RuntimeEventType.custom e es h = raised os_runtime
  matched-IsAnswer below RuntimeEventType.agent_frame_change e es h = raised os_runtime

-- the chains that are not being built
abbrev free : List ℕ → Dict ℕ (List RuntimeEvent) → ℕ
free b d = length (keep (λ e. not (mem e.0 b)) d)

free-le : (i : ℕ) (b : List ℕ) (d : Dict ℕ (List RuntimeEvent)) → free (i ∷ b) d ≤ free b d
free-le i b [] = omega arith
free-le i b ((j, es) ∷ d) = ground (arith, free-le i b d)

free-lt :
    (i : ℕ) (b : List ℕ) (d : Dict ℕ (List RuntimeEvent))
    → mem i b ≡ false
    → is_some (lookup i d) ≡ true
    → free (i ∷ b) d < free b d
unfolding lookup
free-lt i b [] h k = absurd (cc)
free-lt i b ((j, es) ∷ d) h k = elim (Bool-cases (j == i)) [
  | inl same ↦
      let at : j ≡ i = (nat_eq.decides j i).0 same in
      let new : not (mem j b) ≡ true = ap (λ k. not (mem k b)) at ∙ ap not h in
      let known : not (mem j (i ∷ b)) ≡ false =
        ap (λ t. not (if t then true else mem j b)) ((nat_eq.decides i j).1 (sym at)) in
      rw
        (
          keep-cons_true (λ e. not (mem e.0 b)) (j, es) d new,
          keep-cons_false (λ e. not (mem e.0 (i ∷ b))) (j, es) d known,
        )
        (omega (arith, free-le i b d))
  | inr other ↦ ground (arith, free-lt i b d h)
]

found-is_some :
    (i : ℕ) (d : Dict ℕ (List RuntimeEvent)) (e : RuntimeEvent) (es : List RuntimeEvent)
    → get_all i d ≡ e ∷ es
    → is_some (lookup i d) ≡ true
found-is_some i d e es h = go (lookup i d) h
  where
    go : (o : Option (List RuntimeEvent)) → or_empty o ≡ e ∷ es → is_some o ≡ true
    go none h = absurd (cc)
    go (some xs) h = refl

free-length : (d : Dict ℕ (List RuntimeEvent)) → free [] d ≤ length d
free-length [] = omega arith
free-length (e ∷ d) = omega (arith, free-length d)

module _ (g : ℕ → ℕ → String) (c : ResultCollector) where
  -- the events of an id, where the search goes on below
  found-IsAnswer :
      (below : ℕ → Try BuildError (List FinalEvent)) (i : ℕ) (b : List ℕ) (n : ℕ)
      (xs : List RuntimeEvent)
      → get_all i c.event_id2events ≡ xs
      → mem i b ≡ false
      → free b c.event_id2events < suc n
      → (free (i ∷ b) c.event_id2events < n → (p : ℕ) → IsAnswer (below p))
      → IsAnswer (build_chain g below xs)
  found-IsAnswer below i b n [] at new h k = raised os_runtime
  found-IsAnswer below i b n (e ∷ es) at new h k =
      let less = free-lt i b c.event_id2events new (found-is_some i c.event_id2events e es at) in
      matched-IsAnswer g below (event_type e) e es (k (omega (arith, less, h)))

  build-IsAnswer :
      (n i : ℕ) (b : List ℕ)
      → free b c.event_id2events < n
      → IsAnswer (build_final_event_by_id g c n i b)
  unfolding build_final_event_by_id
  build-IsAnswer zero i b h = absurd (omega (arith, h))
  build-IsAnswer (suc n) i b h = elim (Bool-cases (mem i b)) [
    | inl cycle ↦ rw cycle (raised os_runtime)
    | inr new ↦
        let below : ℕ → Try BuildError (List FinalEvent) = λ p.
          build_each (λ j. build_final_event_by_id g c n j (i ∷ b))
            (get_all p c.parent_event_id2event_ids) in
        rw new (
          found-IsAnswer below i b n (get_all i c.event_id2events) refl new h λ less p.
            build_each-IsAnswer (λ j. build_final_event_by_id g c n j (i ∷ b))
              (get_all p c.parent_event_id2event_ids) λ j. build-IsAnswer n j (i ∷ b) less)
  ]

  final_event-IsAnswer : (i : ℕ) → IsAnswer (get_final_event_with_event_id g c i)
  unfolding get_final_event_with_event_id
  final_event-IsAnswer i =
      build-IsAnswer (depth g c) i [] (omega (arith, free-length c.event_id2events))

  outputs_each : (gs : List (List FinalEvent)) → IsAnswer (each_output gs)
  outputs_each [] = returned []
  outputs_each (fs ∷ gs) =
      and_then-IsAnswer (task_output fs)
        (λ os. and_then (each_output gs) λ rest. value (os ++ rest)) (one fs)
        λ os.
          and_then-IsAnswer (each_output gs) (λ rest. value (os ++ rest)) (outputs_each gs)
            λ rest. returned (os ++ rest)
    where
      only : (b : EventBody) (fs : List FinalEvent) → IsAnswer (input_output b fs)
      only (input_event i) fs = returned (record { input = i; outputs = fs } ∷ [])
      only (interrupted_event _) fs = raised type_error
      only (message_event _ _) fs = raised type_error
      only (tool_call_event _) fs = raised type_error
      only (tool_result_event _ _) fs = raised type_error
      only (compression_event _ _) fs = raised type_error
      only (agent_frame_change_event _) fs = raised type_error
      only (custom_event _) fs = raised type_error

      one : (fs : List FinalEvent) → IsAnswer (task_output fs)
      one [] = returned []
      one (f ∷ fs) = only (event_of f).body fs

  -- Whatever was collected, cycles of parents included, the outputs of a run are made or an error of the
  -- source is raised: the search for final events, which is on fuel here, is never cut off.
  pub get_outputs-IsAnswer : IsAnswer (get_outputs g c)
  unfolding get_outputs build_task_outputs
  get_outputs-IsAnswer =
      let ids = get_top_level_event_ids g c in
      and_then-IsAnswer (build_each (get_final_event_with_event_id g c) ids)
        (λ fs. build_task_outputs (sorted sequence_of fs))
        (build_each-IsAnswer (get_final_event_with_event_id g c) ids final_event-IsAnswer)
        λ fs. outputs_each (group_final_events_by_task_id (sorted sequence_of fs))
