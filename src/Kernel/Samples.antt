-- ===== src/Kernel/Samples.antt =====
-- Small values for the examples beside the kernel's theorems: hooks that only answer, an LLM message,
-- tasks and a runtime with two agents.
use turtlemap.Prelude.{ℕ, ◌+◌, false, none, some, List, [], ◌∷◌}
use turtlemap.Kernel.Model.{
  EventType, EventSource, EventPayload, RequestType, ArtifactType, ArtifactPayload, UnitType,
  UnitStatus, TaskStatus, ObservableEvent, Input, InterruptionRequest, UnitResult, ExecutionUnit,
  RuntimeArtifact, message_state, tool_state, Task,
}
use turtlemap.Kernel.Exec.{ok}
use turtlemap.Kernel.State.{Runtime}
use turtlemap.Kernel.Hooks.{Hooks}

abbrev pub reply : RuntimeArtifact
reply = record {
  id = 900;
  type = ArtifactType.assistant_message;
  owner_agent_name = "root";
  payload =
      ArtifactPayload.message (record { content = "hi"; tool_calls = []; has_continue = false });
}

abbrev pub done : UnitResult
done = record {
  next_unit_status = UnitStatus.completed;
  handoff = none;
  task_switch_action = none;
  event = none;
  message = none;
}

abbrev pub new_task : ℕ → Input → Task
new_task i x = record {
  task_id = i;
  state = record { status = TaskStatus.running; body = message_state none (some x.input_id) };
  start_input = some x;
  interruption_request = none;
  agent_frame_change = none;
}

-- An answer comes back and nothing else happens.
abbrev pub quiet : Hooks
quiet = record {
  commit_runtime_checkpoint = λ r. (ok tt, r);
  generate_assistant_message = λ a i r. (ok reply, r);
  save_task_history = λ a i r. (ok tt, r);
  task_did_complete = λ a i r. (ok tt, r);
  input_did_process = λ i a x r. (ok tt, r);
  create_task_from_input = λ x r. (ok (new_task r.next_id x), record r { next_id = r.next_id + 1 });
  agent_frame_did_change = λ a i c r. (ok tt, r);
  build_tool_execution_units = λ a i m r. (ok [], r);
  execute_unit = λ a i u r. (ok (done, []), r);
}

abbrev pub greeting : ObservableEvent
greeting = record {
  event_id = 1;
  event_type = EventType.user_input;
  source = EventSource.user;
  payload = EventPayload.user_input "hello";
}

abbrev pub first_input : Input
first_input = record { input_id = 10; origin_input_id = none; events = greeting ∷ [] }

abbrev pub request : InterruptionRequest
request = record {
  request_id = 7;
  task_id = 42;
  type = RequestType.async_tool_request;
  origin_task_status = TaskStatus.running;
  response = none;
}

abbrev pub paused_task : Task
paused_task = record {
  task_id = 42;
  state = record { status = TaskStatus.paused; body = message_state none none };
  start_input = some first_input;
  interruption_request = some request;
  agent_frame_change = none;
}

abbrev pub pending_unit : ExecutionUnit
pending_unit = record {
  unit_id = 5;
  unit_type = UnitType.tool_call;
  status = UnitStatus.pending;
  result = none;
}

abbrev pub tool_task : Task
tool_task = record {
  task_id = 43;
  state = record { status = TaskStatus.running; body = tool_state reply (pending_unit ∷ []) none };
  start_input = some first_input;
  interruption_request = none;
  agent_frame_change = none;
}

abbrev pub runtime_with : List Task → Runtime
runtime_with ts = record {
  agent_names = "root" ∷ "helper" ∷ [];
  session = record {
    agent_frames = record { agent_name = "root"; from_agent_name = none } ∷ [];
    input_queue = [];
    history = [];
    memory = record { long_term_memory = ""; mid_term_memory = "" };
    agent_states =
        ("root", record { agent_name = "root"; system = ""; processing_tasks = ts })
        ∷ ("helper", record { agent_name = "helper"; system = ""; processing_tasks = [] })
        ∷ [];
  };
  runtime_input_queue = [];
  next_id = 1000;
}
