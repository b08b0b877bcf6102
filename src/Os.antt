-- ===== src/Os.antt =====
-- os/models.py and os/service.py: the session of the OS layer, whose tasks keep the events that observers
-- have been sent. A session's store is a parameter, as are the agents that can be reached and their systems.
pub mod Filter
pub mod Load
pub mod Runtime
pub mod Handoff
mod Examples
use turtlemap.Prelude.{ℕ, String, Option, List}
use turtlemap.Prelude.Dict.{Dict}
use turtlemap.Kernel.Model.{Task, Input, AgentFrame, RuntimeArtifact, MemoryView}
use turtlemap.Events.{RuntimeEvent, EventBuffer}

-- `ProcessingTask`: the kernel's fields, and the buffer
pub record ProcessingTask : Type 0 where
  pub task : Task
  pub event_buffer : EventBuffer

-- os `AgentState`
pub record OsAgentState : Type 0 where
  pub agent_name : String
  pub system : String
  pub processing_tasks : List ProcessingTask

-- os `SessionState`; no run is `none`
pub record OsSession : Type 0 where
  pub session_id : String
  pub run_id : Option ℕ
  pub agent_frames : List AgentFrame
  pub input_queue : List Input
  pub history : List RuntimeArtifact
  pub memory : MemoryView
  pub agent_name2agent_state : Dict String OsAgentState
  pub finished_task_events : List EventBuffer

abbrev pub with_events : List RuntimeEvent → EventBuffer → EventBuffer
with_events es b = record b { events = es }
