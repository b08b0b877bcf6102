-- ===== src/Os/Examples.antt =====
-- A stored session with six paused tasks, and a buffer of events that is saved.
use turtlemap.Prelude.{ℕ, ◌≡◌, refl, false, none, List, [], ◌∷◌, length, take, keep}
use mathlib.Core.List.{reverse}
use turtlemap.Prelude.Eq.{nat_eq, string_eq}
use turtlemap.Prelude.Dict.{lookup}
use turtlemap.Prelude.Try.{value}
use turtlemap.Prelude.Groups.{with_key, first_keys}
use turtlemap.Kernel.Model.{TaskStatus, message_state, Input}
use turtlemap.Events.{RuntimeEvent, RuntimeEventPhase, EventBody, message_event, input_event}
use turtlemap.Os.{ProcessingTask, OsSession}
use turtlemap.Os.Filter.{id_of, final_or_all, filter_runtime_events_before_save, filter-IsFolded}
use turtlemap.Os.Load.{task_is_paused, retain, limit_paused, load_session_state}
use turtlemap.Os.Load.Pending.{task_is_other, limit_paused-keeps}
use turtlemap.Os.Load.Ready.{IsReady, load-IsReady}

abbrev event : ℕ → RuntimeEventPhase → EventBody → RuntimeEvent
event i p b = record {
  event_id = i;
  parent_event_id = none;
  task_id = none;
  sequence = 0;
  created_ts_ms = none;
  duration_ms = 0;
  event_phase = p;
  is_history_event_for_interruption = false;
  is_replay_event = false;
  body = b;
}

-- a chain that is closed and one that is not
abbrev buffer : List RuntimeEvent
buffer =
    event 1 RuntimeEventPhase.started (message_event none none)
    ∷ event 2 RuntimeEventPhase.started (message_event none none)
    ∷ event 1 RuntimeEventPhase.final (message_event none none)
    ∷ []

filter-IsFolded_example :
    ((i : ℕ)
      → with_key id_of i (filter_runtime_events_before_save buffer)
        ≡ final_or_all (with_key id_of i buffer))
    × (first_keys id_of (filter_runtime_events_before_save buffer) ≡ first_keys id_of buffer)
    × (filter_runtime_events_before_save (filter_runtime_events_before_save buffer)
        ≡ filter_runtime_events_before_save buffer)
filter-IsFolded_example = filter-IsFolded buffer

abbrev asked : Input
asked = record { input_id = 5; origin_input_id = none; events = [] }

abbrev task : ℕ → TaskStatus → ProcessingTask
task i s = record {
  task = record {
    task_id = i;
    state = record { status = s; body = message_state none none };
    start_input = none;
    interruption_request = none;
    agent_frame_change = none;
  };
  event_buffer = record {
    events = event i RuntimeEventPhase.final (input_event asked) ∷ [];
    did_replay = false;
  };
}

abbrev tasks : List ProcessingTask
tasks =
    task 1 TaskStatus.paused
    ∷ task 2 TaskStatus.running
    ∷ task 3 TaskStatus.paused
    ∷ task 4 TaskStatus.paused
    ∷ task 5 TaskStatus.paused
    ∷ task 6 TaskStatus.paused
    ∷ task 7 TaskStatus.paused
    ∷ []

limit_paused-keeps_example :
    (keep task_is_paused (limit_paused tasks)
      ≡ reverse (take 5 (reverse (keep task_is_paused tasks))))
    × (keep task_is_other (limit_paused tasks) ≡ keep task_is_other tasks)
limit_paused-keeps_example = limit_paused-keeps tasks

-- the oldest paused task goes
oldest_goes : length (limit_paused tasks) ≡ 6
unfolding limit_paused retain
oldest_goes = refl

abbrev stored : OsSession
stored = record {
  session_id = "s";
  run_id = none;
  agent_frames = record { agent_name = "root"; from_agent_name = none } ∷ [];
  input_queue = asked ∷ [];
  history = [];
  memory = record { long_term_memory = ""; mid_term_memory = "" };
  agent_name2agent_state =
      ("root", record { agent_name = "root"; system = ""; processing_tasks = tasks }) ∷ [];
  finished_task_events = [];
}

load-IsReady_example :
    (s : OsSession) × (load_session_state "root"
        (("root", "be kind") ∷ [])
        "likes tea"
        9
        false
        stored
      ≡ value s)
    × IsReady 9 false s
unfolding lookup
load-IsReady_example =
    load-IsReady "root" (("root", "be kind") ∷ []) "likes tea" 9 false stored refl
