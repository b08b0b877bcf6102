-- ===== src/Kernel/Interruption/Examples.antt =====
-- A response to the request of a paused task, given twice.
use turtlemap.Prelude.{◌≡◌, refl, none, [], ◌∷◌}
use turtlemap.Kernel.Model.{
  EventType, EventSource, EventPayload, RequestType, ResponsePayload, ObservableEvent, Input,
}
use turtlemap.Kernel.Exec.{ok, ◌>>=◌}
use turtlemap.Kernel.State.{Runtime, set_task, update_tasks, update_agents}
use turtlemap.Kernel.Select.{find_interruption_request}
use turtlemap.Kernel.Samples.{quiet, paused_task, runtime_with}
use turtlemap.Kernel.Interruption.{apply_interruption_response}
use turtlemap.Kernel.Interruption.Response.{IsResponse, response-once}

abbrev approval : ResponsePayload
approval = record { request_id = 7; request_type = RequestType.async_tool_request; response = "{}" }

abbrev approval_event : ObservableEvent
approval_event = record {
  event_id = 2;
  event_type = EventType.interruption_response;
  source = EventSource.user;
  payload = EventPayload.interruption_response approval;
}

abbrev approval_input : Input
approval_input = record { input_id = 11; origin_input_id = none; events = approval_event ∷ [] }

approval_input-IsResponse : IsResponse approval_input approval
approval_input-IsResponse = record {
  event = approval_event;
  first = refl;
  is_type = refl;
  carries = refl;
}

abbrev paused : Runtime
paused = runtime_with (paused_task ∷ [])

abbrev resumed : Runtime
resumed = (apply_interruption_response quiet approval_input paused).1

resumes : apply_interruption_response quiet approval_input paused ≡ (ok tt, resumed)
unfolding apply_interruption_response find_interruption_request set_task update_tasks update_agents
    ◌>>=◌
resumes = refl

response-once_example : apply_interruption_response quiet approval_input resumed ≡ (ok tt, resumed)
response-once_example =
    response-once quiet approval_input approval_input approval approval "root" 42 paused resumed
      (λ i a x r. refl) approval_input-IsResponse approval_input-IsResponse refl
      (((λ e. (refl, refl)), tt), (tt, tt)) resumes
