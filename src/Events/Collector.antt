-- ===== src/Events/Collector.antt =====
-- os/event_bus/collector.py: `ResultCollector`, with one dict of the events of an id and one of the ids
-- below a parent. The tree of final events is made on fuel: an id that is being built is refused.

pub mod Log
pub mod Depth
pub mod Outputs
use turtlemap.Prelude.{
  ℕ, zero, suc, String, ◌≡◌, Bool, true, false, ◌&&◌, not, Option, none, some, List, [], ◌∷◌, ◌++◌,
  map, length, min, get_last?, keep, if◌then◌else◌,
}
use turtlemap.Prelude.Eq.{◌==◌, nat_eq, option_eq}
use turtlemap.Prelude.Dict.{Dict, lookup, insert}
use turtlemap.Prelude.Kept.{is_some}
use turtlemap.Prelude.Groups.{append_to, get_all, mem, group}
use turtlemap.Prelude.Sorted.{sorted}
use turtlemap.Prelude.Try.{Try, value, error, and_then}
use turtlemap.Kernel.Model.{Input}
use turtlemap.Events.{
  RuntimeEvent, RuntimeEventPhase, RuntimeEventType, event_type, ContextCompressionMode, EventBody,
  input_event, tool_call_event, interrupted_event, compression_event, custom_event,
}
use turtlemap.Events.Final.{
  EventError, os_runtime, type_error, is_end, final_tool_result, final_compression,
}
use turtlemap.Events.Message.{final_message}

-- `_event_id2events` and `_parent_event_id2event_ids`
pub record ResultCollector : Type 0 where
  pub event_id2events : Dict ℕ (List RuntimeEvent)
  pub parent_event_id2event_ids : Dict ℕ (List ℕ)

abbrev pub new_collector : ResultCollector
new_collector = record { event_id2events = []; parent_event_id2event_ids = [] }

-- what `collect` passes over: custom events, and compression in the background
unfoldable pub is_skipped : EventBody → Bool
is_skipped (custom_event p) = true
is_skipped (compression_event ContextCompressionMode.async r) = true
is_skipped _ = false

abbrev pub link : ℕ → Option ℕ → Bool → Dict ℕ (List ℕ) → Dict ℕ (List ℕ)
link i none known d = d
link i (some p) known d = if known then d else append_to p i d

-- `collect`
unfoldable pub collect : RuntimeEvent → ResultCollector → ResultCollector
collect e c = if is_skipped e.body then c else record {
  event_id2events = append_to e.event_id e c.event_id2events;
  parent_event_id2event_ids =
      link e.event_id e.parent_event_id (is_some (lookup e.event_id c.event_id2events))
        c.parent_event_id2event_ids;
}

-- `has_collected_event_chain`
unfoldable pub has_collected_event_chain : ℕ → ResultCollector → Bool
has_collected_event_chain i c = is_some (lookup i c.event_id2events)

-- A final event with the events below it: `state_events` of a tool result, and nothing for the others.
mutual
  pub data FinalEvent : Type 0 where
    final_event : RuntimeEvent → FinalEvents → FinalEvent

  pub data FinalEvents : Type 0 where
    none_below : FinalEvents
    and_below : FinalEvent → FinalEvents → FinalEvents

abbrev pub event_of : FinalEvent → RuntimeEvent
event_of (final_event e below) = e

abbrev to_final_events : List FinalEvent → FinalEvents
to_final_events [] = none_below
to_final_events (f ∷ fs) = and_below f (to_final_events fs)

abbrev pub sequence_of : FinalEvent → ℕ
sequence_of f = (event_of f).sequence

-- Beside the errors of the source, the end of the fuel.
pub data BuildError : Type 0 where
  raises : EventError → BuildError
  out_of_fuel : BuildError

abbrev pub lifted {ℓ} : {A : Type ℓ} → Try EventError A → Try BuildError A
lifted (value a) = value a
lifted (error e) = error (raises e)

-- the loop of `_build_child_final_events`
abbrev pub build_each : (ℕ → Try BuildError FinalEvent) → List ℕ → Try BuildError (List FinalEvent)
build_each f [] = value []
build_each f (i ∷ is) = and_then (f i) λ e. and_then (build_each f is) λ es. value (e ∷ es)

abbrev pub alone : RuntimeEvent → Try BuildError FinalEvent
alone e = value (final_event e none_below)

abbrev pub if_interrupted : RuntimeEvent → EventBody → Try BuildError FinalEvent
if_interrupted e (interrupted_event r) = alone e
if_interrupted e _ = error (raises type_error)

abbrev pub last_interrupted : Option RuntimeEvent → Try BuildError FinalEvent
last_interrupted none = error (raises os_runtime)
last_interrupted (some e) = if_interrupted e e.body

module _ (generate_id : ℕ → ℕ → String) where
  -- the `match`, on the first event's type; `below` builds what stands below an id
  unfoldable pub build_matched :
      (ℕ → Try BuildError (List FinalEvent))
      → RuntimeEventType
      → RuntimeEvent
      → List RuntimeEvent
      → Try BuildError FinalEvent
  build_matched below RuntimeEventType.input e es = alone e
  build_matched below RuntimeEventType.message e es =
      and_then (lifted (final_message generate_id (e ∷ es))) alone
  build_matched below RuntimeEventType.tool_call e es = alone e
  build_matched below RuntimeEventType.tool_result e es =
      and_then (lifted (final_tool_result (e ∷ es))) λ f.
        and_then (below f.event_id)
          λ fs. value (final_event f (to_final_events (sorted sequence_of fs)))
  build_matched below RuntimeEventType.context_compression e es =
      and_then (lifted (final_compression (e ∷ es))) alone
  build_matched below RuntimeEventType.interrupted e es = last_interrupted (get_last? (e ∷ es))
  build_matched below RuntimeEventType.custom e es = error (raises os_runtime)
  build_matched below RuntimeEventType.agent_frame_change e es = error (raises os_runtime)

  abbrev pub build_chain :
      (ℕ → Try BuildError (List FinalEvent)) → List RuntimeEvent → Try BuildError FinalEvent
  build_chain below [] = error (raises os_runtime)
  build_chain below (e ∷ es) = build_matched below (event_type e) e es

  module _ (c : ResultCollector) where
    -- `_build_final_event_by_id`; `building` are the ids on the way down to `i`
    unfoldable pub build_final_event_by_id : ℕ → ℕ → List ℕ → Try BuildError FinalEvent
    build_final_event_by_id zero i building = error out_of_fuel
    build_final_event_by_id (suc n) i building =
        let below = λ (p : ℕ).
          build_each (λ j. build_final_event_by_id n j (i ∷ building))
            (get_all p c.parent_event_id2event_ids) in
        if mem i building
        then error (raises os_runtime)
        else build_chain below (get_all i c.event_id2events)

    -- one more than the depth of a path without a cycle
    abbrev pub depth : ℕ
    depth = suc (length c.event_id2events)

    -- `get_final_event_with_event_id`, and `_build_final_event` of an event with that id
    unfoldable pub get_final_event_with_event_id : ℕ → Try BuildError FinalEvent
    get_final_event_with_event_id i = build_final_event_by_id depth i []

    abbrev first_of : List RuntimeEvent → Option RuntimeEvent
    first_of es = elim (sorted (λ e. e.sequence) es) [ [] ↦ none | e ∷ _ ↦ some e ]

    abbrev starts_at : Option RuntimeEvent → ℕ
    starts_at none = 0
    starts_at (some e) = e.sequence

    abbrev has_parent : Option RuntimeEvent → Bool
    has_parent none = true
    has_parent (some e) = elim e.parent_event_id [
      | none ↦ false
      | some p ↦ is_some (lookup p c.event_id2events)
    ]

    -- `_get_top_level_event_ids`
    unfoldable pub get_top_level_event_ids : List ℕ
    get_top_level_event_ids =
        sorted (λ i. starts_at (first_of (get_all i c.event_id2events)))
          (map (λ e. e.0) (keep (λ e. not (has_parent (first_of e.1))) c.event_id2events))

-- `TaskOutput`
pub record TaskOutput : Type 0 where
  pub input : Input
  pub outputs : List FinalEvent

-- `_group_final_events_by_task_id`
unfoldable pub group_final_events_by_task_id : List FinalEvent → List (List FinalEvent)
group_final_events_by_task_id fs =
    let (ids, d) = group (λ f. (event_of f).task_id) fs [] [] in map (λ t. get_all t d) ids

abbrev pub input_output : EventBody → List FinalEvent → Try BuildError (List TaskOutput)
input_output (input_event i) fs = value (record { input = i; outputs = fs } ∷ [])
input_output _ fs = error (raises type_error)

abbrev pub task_output : List FinalEvent → Try BuildError (List TaskOutput)
task_output [] = value []
task_output (f ∷ fs) = input_output (event_of f).body fs

abbrev pub each_output : List (List FinalEvent) → Try BuildError (List TaskOutput)
each_output [] = value []
each_output (fs ∷ gs) =
    and_then (task_output fs) λ os. and_then (each_output gs) λ rest. value (os ++ rest)

-- `_build_task_outputs`
unfoldable pub build_task_outputs : List FinalEvent → Try BuildError (List TaskOutput)
build_task_outputs fs = each_output (group_final_events_by_task_id fs)

-- `get_outputs`
unfoldable pub get_outputs : (ℕ → ℕ → String) → ResultCollector → Try BuildError (List TaskOutput)
get_outputs g c =
    and_then (build_each (get_final_event_with_event_id g c) (get_top_level_event_ids g c))
      λ fs. build_task_outputs (sorted sequence_of fs)
