-- ===== src/Kernel/Interruption.antt =====
-- kernel/runtime.py: `_apply_interruption_response` and `_resume_runtime`.
pub mod Preserve
mod Answered
mod Response
mod Examples
use turtlemap.Prelude.{Option, none, some, List, [], ◌∷◌}
use turtlemap.Kernel.Model.{
  EventType, EventPayload, ResponsePayload, ObservableEvent, Input, InterruptionRequest, Task,
}
use turtlemap.Kernel.Exec.{
  kernel_runtime, index_error, type_error, pure, raise, gets, require, ◌>>=◌, ◌>>◌,
}
use turtlemap.Kernel.State.{Act, set_task}
use turtlemap.Kernel.Select.{Match, find_interruption_request}
use turtlemap.Kernel.Hooks.{Hooks}

-- `input_events[0]`
abbrev pub first_event : List ObservableEvent → Option ObservableEvent
first_event [] = none
first_event (e ∷ es) = some e

-- `ensure_instance(event.payload, InterruptionResponsePayload)`
abbrev pub response_payload : EventPayload → Option ResponsePayload
response_payload (EventPayload.interruption_response p) = some p
response_payload _ = none

-- `request.response = payload; task.state.status = request.origin_task_status`
abbrev pub resume_task : InterruptionRequest → ResponsePayload → Task → Task
resume_task q p t = record t {
  interruption_request = some (record q { response = some p });
  state = record t.state { status = q.origin_task_status };
}

abbrev answer : Hooks → Input → ResponsePayload → Match → Option ResponsePayload → Act (Unit {0})
answer h x p m (some given) = pure tt
answer h x p m none = do
  set_task m.key m.task.task_id (resume_task m.request p)
  h.input_did_process m.task.task_id m.agent_state.agent_name x

abbrev apply_match : Hooks → Input → ResponsePayload → Option Match → Act (Unit {0})
apply_match h x p none = pure tt
apply_match h x p (some m) = answer h x p m m.request.response

abbrev apply_event : Hooks → Input → ObservableEvent → EventType → Act (Unit {0})
apply_event h x e EventType.interruption_response = do
  p ← require type_error (response_payload e.payload)
  found ← gets (λ r. find_interruption_request p.request_id r.session.agent_states)
  apply_match h x p found
apply_event h x e _ = raise kernel_runtime

-- `_apply_interruption_response`
unfoldable pub apply_interruption_response : Hooks → Input → Act (Unit {0})
apply_interruption_response h x = do
  e ← require index_error (first_event x.events)
  apply_event h x e e.event_type

-- `_resume_runtime`
unfoldable pub resume_runtime : Hooks → Input → Act (Unit {0})
resume_runtime h x = do apply_interruption_response h x; h.commit_runtime_checkpoint
