-- ===== src/Events/Examples.antt =====
-- A message in three events, and a tool result with an event below it.
use turtlemap.Prelude.{ℕ, String, ◌≡◌, refl, false, Option, none, some, List, [], ◌∷◌, ◌*◌}
use turtlemap.Prelude.Eq.{nat_eq}
use turtlemap.Prelude.Dict.{lookup, insert}
use turtlemap.Prelude.Groups.{append_to}
use turtlemap.Prelude.Sorted.{sorted, put_sorted}
use turtlemap.Prelude.Try.{value, error}
use turtlemap.Events.{
  RuntimeEvent, RuntimeEventPhase, EventBody, message_event, input_event, tool_result_event,
  custom_event, CompletionChunk, Delta, CompletionToolCall, ToolResult, ToolResultStatus,
  ToolFactSourceType,
}
use turtlemap.Events.Final.{
  os_runtime, in_order, validate_parent_event_id, validate_stream_phases, final_tool_result,
}
use turtlemap.Events.Message.{final_message}
use turtlemap.Events.Indexed.{chunk, edge}
use turtlemap.Events.Streamed.{IsStreamed, final_message-IsStreamed}
use turtlemap.Events.Collector.{
  new_collector, collect, is_skipped, raises, get_outputs, build_task_outputs,
  get_final_event_with_event_id, final_event, none_below, build_final_event_by_id, build_matched,
}
use turtlemap.Events.Collector.Log.{IsLog, collect_all, accepted, collected-IsLog}
use turtlemap.Events.Collector.Depth.{IsAnswer, get_outputs-IsAnswer}
use turtlemap.Events.Collector.Outputs.{IsGrouped, by_task, build_task_outputs-IsGrouped}

abbrev event : ℕ → ℕ → RuntimeEventPhase → Option ℕ → EventBody → RuntimeEvent
event i n p parent b = record {
  event_id = i;
  parent_event_id = parent;
  task_id = some 1;
  sequence = n;
  created_ts_ms = some (10 * n);
  duration_ms = 0;
  event_phase = p;
  is_history_event_for_interruption = false;
  is_replay_event = false;
  body = b;
}

abbrev delta : String → Delta
delta s = record {
  role = none;
  content = some s;
  reasoning_content = none;
  display_content = none;
  display_reasoning_content = none;
  context_content = none;
  context_reasoning_content = none;
  runtime_params = [];
  tool_calls = [];
}

abbrev chunk_of : String → CompletionChunk
chunk_of s = record {
  id = "c";
  choices = record { index = 0; delta = delta s; finish_reason = none } ∷ [];
  created = 1;
  model = "m";
  usage = none;
}

abbrev no_id : ℕ → ℕ → String
no_id i j = "tool_call_id"

abbrev says : String → EventBody
says s = message_event (some (chunk_of s)) none

-- published in another order than the numbers have
abbrev chain : List RuntimeEvent
chain =
    event 7 3 RuntimeEventPhase.in_progress none (says "lo")
    ∷ event 7 1 RuntimeEventPhase.started none (message_event none none)
    ∷ event 7 2 RuntimeEventPhase.in_progress none (says "Hel")
    ∷ event 7 4 RuntimeEventPhase.end none (message_event none none)
    ∷ []

final_message-IsStreamed_example :
    (f : RuntimeEvent) × (final_message no_id chain ≡ value f) × IsStreamed (in_order chain) f
unfolding sorted put_sorted validate_parent_event_id validate_stream_phases
final_message-IsStreamed_example =
    final_message-IsStreamed no_id chain refl refl
      (edge refl, (chunk (chunk_of "Hel"), (chunk (chunk_of "lo"), (edge refl, tt))))

abbrev asked : EventBody
asked = input_event (record { input_id = 5; origin_input_id = none; events = [] })

abbrev call : CompletionToolCall
call = record { id = "x"; name = some "f"; arguments = none; type = none }

abbrev tool_done : ToolResult
tool_done = record {
  status = ToolResultStatus.success;
  content = "ok";
  fact_source_type = ToolFactSourceType.external_realtime_data;
  purpose = "";
  expires_at = none;
}

-- an input, a result of a tool with the message below it, and an event that is passed over
abbrev log : List RuntimeEvent
log =
    event 1 1 RuntimeEventPhase.final none asked
    ∷ event 2 2 RuntimeEventPhase.started none (tool_result_event call none)
    ∷ event 3 3 RuntimeEventPhase.started (some 2) (message_event none none)
    ∷ event 3 4 RuntimeEventPhase.end (some 2) (message_event none none)
    ∷ event 4 5 RuntimeEventPhase.final none (custom_event "")
    ∷ event 2 6 RuntimeEventPhase.end none (tool_result_event call (some tool_done))
    ∷ []

collected-IsLog_example : IsLog (collect_all log new_collector) (accepted log)
collected-IsLog_example = collected-IsLog log

get_outputs-IsAnswer_example : IsAnswer (get_outputs no_id (collect_all log new_collector))
get_outputs-IsAnswer_example = get_outputs-IsAnswer no_id (collect_all log new_collector)

build_task_outputs-IsGrouped_example :
    IsGrouped
      (by_task (final_event (event 1 1 RuntimeEventPhase.final none asked) none_below ∷ []))
      (build_task_outputs
        (final_event (event 1 1 RuntimeEventPhase.final none asked) none_below ∷ []))
build_task_outputs-IsGrouped_example =
    build_task_outputs-IsGrouped
      (final_event (event 1 1 RuntimeEventPhase.final none asked) none_below ∷ [])

-- Two results of tools, each named as the parent of the other: the search ends with the error of the source.
abbrev cycle : List RuntimeEvent
cycle =
    event 1 1 RuntimeEventPhase.final (some 2) (tool_result_event call (some tool_done))
    ∷ event 2 2 RuntimeEventPhase.final (some 1) (tool_result_event call (some tool_done))
    ∷ []

cycle_raises :
    get_final_event_with_event_id no_id (collect_all cycle new_collector) 1
    ≡ error (raises os_runtime)
unfolding get_final_event_with_event_id collect_all collect lookup insert append_to is_skipped
    build_final_event_by_id build_matched final_tool_result sorted put_sorted
    validate_parent_event_id
cycle_raises = refl
