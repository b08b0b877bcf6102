-- ===== src/Events/Final.antt =====
-- os/event_bus/models.py: the event that stands for a whole chain of events, and the tests of chains.
use turtlemap.Prelude.{
  ℕ, ◌+◌, ◌-◌, Bool, true, false, ◌&&◌, Option, none, some, List, [], ◌∷◌, length, leb, ltb,
  if◌then◌else◌, all, get_last?,
}
use turtlemap.Prelude.Eq.{◌==◌, nat_eq}
use turtlemap.Prelude.Sorted.{sorted}
use turtlemap.Prelude.Try.{Try, value, error, and_then}
use turtlemap.Context.Compress.{CompressionResult}
use turtlemap.Events.{
  ToolResult, RuntimeEvent, RuntimeEventPhase, ContextCompressionMode, EventBody, tool_result_event,
  compression_event,
}

-- `OSRuntimeError`, and the `TypeError` of `ensure_instance`
pub data EventError : Type 0 where
  os_runtime type_error : EventError

abbrev pub opt_eq : Option ℕ → Option ℕ → Bool
opt_eq none none = true
opt_eq (some a) (some b) = a == b
opt_eq _ _ = false

abbrev pub is_final : RuntimeEventPhase → Bool
is_final RuntimeEventPhase.final = true
is_final _ = false

abbrev pub is_started : RuntimeEventPhase → Bool
is_started RuntimeEventPhase.started = true
is_started _ = false

abbrev pub is_end : RuntimeEventPhase → Bool
is_end RuntimeEventPhase.end = true
is_end _ = false

abbrev pub is_process : RuntimeEventPhase → Bool
is_process RuntimeEventPhase.in_progress = true
is_process RuntimeEventPhase.in_progress_partial = true
is_process _ = false

-- `validate_parent_event_id`
unfoldable pub validate_parent_event_id : List RuntimeEvent → Bool
validate_parent_event_id [] = true
validate_parent_event_id (e ∷ es) = all (λ f. opt_eq f.parent_event_id e.parent_event_id) es

-- `events[1:-1]` all in progress and `events[-1]` at the end
abbrev pub process_then_end : List RuntimeEvent → Bool
process_then_end [] = false
process_then_end (e ∷ []) = is_end e.event_phase
process_then_end (e ∷ f ∷ es) = is_process e.event_phase && process_then_end (f ∷ es)

-- `validate_stream_phases`: one event alone is not both the first and the last
unfoldable pub validate_stream_phases : List RuntimeEvent → Bool
validate_stream_phases [] = false
validate_stream_phases (e ∷ es) = is_started e.event_phase && process_then_end es

-- `max(end - start, 0)` where neither is 0; the default, -1, is not
abbrev span : Option ℕ → Option ℕ → ℕ
span none none = 0
span none (some z) = if leb z 0 then 0 else z + 1
span (some a) none = 0
span (some a) (some z) = if leb a 0 then 0 else z - a

abbrev between_times : Option RuntimeEvent → Option RuntimeEvent → ℕ
between_times (some a) (some z) = span a.created_ts_ms z.created_ts_ms
between_times _ _ = 0

abbrev first? : List RuntimeEvent → Option RuntimeEvent
first? [] = none
first? (e ∷ es) = some e

-- `calculate_duration_ms`: the sorted list is sorted once more
unfoldable pub calculate_duration_ms : List RuntimeEvent → ℕ
calculate_duration_ms es =
    if ltb (length es) 2
    then 0
    else between_times (first? (sorted (λ e. e.sequence) es))
        (get_last? (sorted (λ e. e.sequence) es))

abbrev pub guard_that : Bool → Try EventError (Unit {0})
guard_that true = value tt
guard_that false = error os_runtime

-- `sorted_events[0]` and `sorted_events[-1]` of a list that is not empty
abbrev pub ends : List RuntimeEvent → Try EventError (RuntimeEvent × RuntimeEvent)
ends [] = error os_runtime
ends (e ∷ es) = elim (get_last? (e ∷ es)) [ none ↦ error os_runtime | some z ↦ value (e, z) ]

abbrev pub in_order : List RuntimeEvent → List RuntimeEvent
in_order es = sorted (λ e. e.sequence) es

-- `final_event.event_phase = FINAL` and `final_event.duration_ms = …`, on a copy of the first event
abbrev pub closed : RuntimeEvent → EventBody → List RuntimeEvent → RuntimeEvent
closed e b es = record e {
  event_phase = RuntimeEventPhase.final;
  body = b;
  duration_ms = calculate_duration_ms es;
}

-- the field `result` of the event's class
abbrev pub result_of : EventBody → Try EventError ToolResult
result_of (tool_result_event c (some r)) = value r
result_of (tool_result_event c none) = error os_runtime
result_of _ = error type_error

abbrev with_result : EventBody → ToolResult → Try EventError EventBody
with_result (tool_result_event c r) r' = value (tool_result_event c (some r'))
with_result _ r' = error type_error

abbrev final_result : List RuntimeEvent → RuntimeEvent → RuntimeEvent → Try EventError RuntimeEvent
final_result es a z =
    if is_final z.event_phase
    then and_then (result_of z.body) (λ r. value z)
    else and_then (guard_that (validate_stream_phases es)) λ _.
      and_then (result_of z.body) λ r. and_then (with_result a.body r) λ b. value (closed a b es)

-- `ToolResultEvent.create_final_event_from_events`
unfoldable pub final_tool_result : List RuntimeEvent → Try EventError RuntimeEvent
final_tool_result es = and_then (ends (in_order es)) λ (a, z).
    and_then (guard_that (validate_parent_event_id (in_order es)))
      λ _. final_result (in_order es) a z

abbrev mode_is_sync : EventBody → Try EventError (Unit {0})
mode_is_sync (compression_event ContextCompressionMode.sync r) = value tt
mode_is_sync (compression_event ContextCompressionMode.async r) = error os_runtime
mode_is_sync _ = error type_error

abbrev compression_of : EventBody → Try EventError CompressionResult
compression_of (compression_event m (some r)) = value r
compression_of (compression_event m none) = error os_runtime
compression_of _ = error type_error

abbrev with_compression : EventBody → CompressionResult → Try EventError EventBody
with_compression (compression_event m r) r' = value (compression_event m (some r'))
with_compression _ r' = error type_error

abbrev final_of_compression :
    List RuntimeEvent → RuntimeEvent → RuntimeEvent → Try EventError RuntimeEvent
final_of_compression es a z =
    if is_final z.event_phase
    then and_then (compression_of z.body) (λ r. value z)
    else and_then (guard_that (validate_stream_phases es)) λ _.
      and_then (compression_of z.body)
        λ r. and_then (with_compression a.body r) λ b. value (closed a b es)

-- `ContextCompressionEvent.create_final_event_from_events`
unfoldable pub final_compression : List RuntimeEvent → Try EventError RuntimeEvent
final_compression es = and_then (ends (in_order es)) λ (a, z).
    and_then (guard_that (validate_parent_event_id (in_order es)))
      λ _. and_then (mode_is_sync a.body) λ _. final_of_compression (in_order es) a z
