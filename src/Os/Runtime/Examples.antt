-- ===== src/Os/Runtime/Examples.antt =====
-- A task that was interrupted and is answered, and the events of a finished task.
use turtlemap.Prelude.{ℕ, String, ◌≡◌, refl, Bool, true, false, Option, none, some, [], ◌∷◌, ◌++◌}
use turtlemap.Prelude.Eq.{nat_eq, string_eq}
use turtlemap.Prelude.Dict.{lookup}
use turtlemap.Prelude.Blocks.{concat_map}
use turtlemap.Kernel.Model.{
  Input, ObservableEvent, EventType, EventSource, EventPayload, RequestType, ResponsePayload,
  TaskStatus, message_state,
}
use turtlemap.Kernel.Select.{is_paused}
use turtlemap.Kernel.Exec.{ok, Error, key_error}
use turtlemap.Kernel.Interruption.{resume_task}
use turtlemap.Events.{RuntimeEvent, RuntimeEventPhase, EventBody, message_event, input_event}
use turtlemap.Os.{ProcessingTask, OsSession}
use turtlemap.Os.Load.{top_agent_state}
use turtlemap.Os.Runtime.{
  OsRuntime, find_in_tasks, find_in_agents, replay_finished_task_events_if_needed,
}
use turtlemap.Os.Runtime.Sent.{at}
use turtlemap.Os.Runtime.Replay.{publish_all, past, unsent, publish_all-replays_once}
use turtlemap.Os.Runtime.Finished.{unsent_of, replay_finished-once}
use turtlemap.Os.Runtime.Rollback.{request_of, pause_task_after_exception}
use turtlemap.Os.Runtime.Rollback.Requested.{event_at, paused_as, paused_session}
use turtlemap.Os.Runtime.Rollback.Paused.{pause-PausedTask}

abbrev event : ℕ → EventBody → RuntimeEvent
event i b = record {
  event_id = i;
  parent_event_id = none;
  task_id = some 7;
  sequence = 0;
  created_ts_ms = none;
  duration_ms = 0;
  event_phase = RuntimeEventPhase.final;
  is_history_event_for_interruption = false;
  is_replay_event = false;
  body = b;
}

abbrev retry : ObservableEvent
retry = record {
  event_id = 1;
  event_type = EventType.interruption_response;
  source = EventSource.user;
  payload =
      EventPayload.interruption_response
        (record { request_id = 3; request_type = RequestType.exception_resume; response = "yes" });
}

abbrev answered : RuntimeEvent
answered =
    event 12 (input_event (record { input_id = 2; origin_input_id = none; events = retry ∷ [] }))

abbrev said : RuntimeEvent
said = event 11 (message_event none none)

abbrev task : ProcessingTask
task = record {
  task = record {
    task_id = 7;
    state = record { status = TaskStatus.running; body = message_state none none };
    start_input = none;
    interruption_request = none;
    agent_frame_change = none;
  };
  event_buffer = record { events = said ∷ []; did_replay = false };
}

abbrev run : OsRuntime
run = record {
  session = record {
    session_id = "s";
    run_id = none;
    agent_frames = [];
    input_queue = [];
    history = [];
    memory = record { long_term_memory = ""; mid_term_memory = "" };
    agent_name2agent_state =
        ("root", record { agent_name = "root"; system = ""; processing_tasks = task ∷ [] }) ∷ [];
    finished_task_events = record { events = said ∷ []; did_replay = false } ∷ [];
  };
  last_session_state = none;
  sent = [];
  next_id = 20;
}

publish_all-replays_once_example :
    publish_all 7 (answered ∷ event 13 (message_event none none) ∷ []) run ≡ (
      ok tt,
      at 7
          (past true task.event_buffer ++ answered ∷ event 13 (message_event none none) ∷ [])
          (unsent true task.event_buffer ++ answered ∷ event 13 (message_event none none) ∷ [])
          run,
    )
unfolding find_in_agents find_in_tasks
publish_all-replays_once_example =
    publish_all-replays_once 7 true answered (event 13 (message_event none none) ∷ []) run task refl
      (refl, tt) (refl, (refl, tt)) refl

replay_finished-once_example :
    ((replay_finished_task_events_if_needed run).sent
      ≡ run.sent ++ concat_map unsent_of run.session.finished_task_events)
    × (replay_finished_task_events_if_needed (replay_finished_task_events_if_needed run)
        ≡ replay_finished_task_events_if_needed run)
replay_finished-once_example = replay_finished-once run

abbrev nobody_fails : OsSession → Option Error
nobody_fails s = none

abbrev everybody : String → Bool
everybody n = true

abbrev said_hello : Input
said_hello = record { input_id = 1; origin_input_id = none; events = [] }

abbrev working : ProcessingTask
working = record task { task = record task.task { start_input = some said_hello } }

-- the last checkpoint: one task runs
abbrev checkpoint : OsSession
checkpoint = record run.session {
  agent_frames = record { agent_name = "root"; from_agent_name = none } ∷ [];
  agent_name2agent_state =
      ("root", record { agent_name = "root"; system = ""; processing_tasks = working ∷ [] }) ∷ [];
}

-- what a run makes of it before it raises
abbrev broken : OsRuntime
broken = record run {
  session = record checkpoint { agent_name2agent_state = [] };
  last_session_state = some checkpoint;
}

abbrev again : ResponsePayload
again = record { request_id = 20; request_type = RequestType.exception_resume; response = "yes" }

pause-PausedTask_example :
    (pause_task_after_exception nobody_fails everybody key_error broken ≡ (
      ok (event_at 20 working),
      record {
        session = paused_session "root" 20 working said_hello checkpoint;
        last_session_state = some (paused_session "root" 20 working said_hello checkpoint);
        sent = event_at 20 working ∷ [];
        next_id = 24;
      },
    ))
    × (is_paused working.task.state.status ≡ false)
    × ((resume_task (request_of 20 working) again (paused_as 20 working working).task).state
        ≡ working.task.state)
unfolding find_in_agents find_in_tasks top_agent_state lookup
pause-PausedTask_example =
    pause-PausedTask nobody_fails everybody key_error broken checkpoint
      (record { agent_name = "root"; system = ""; processing_tasks = working ∷ [] }) working
      said_hello again refl refl refl refl refl refl refl
