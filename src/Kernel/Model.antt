-- ===== src/Kernel/Model.antt =====
-- The kernel's data: src/turtlemap/kernel/models/enums.py, models/models.py and tool/models.py.
-- An identifier made by `generate_prefixed_id` is a number; the field default "" of an optional
-- identifier is `none`. `type_name` and the class of a value are its constructor.
use turtlemap.Prelude.{ℕ, String, Bool, Option, List}
use turtlemap.Prelude.Dict.{Dict}

pub data EventType : Type 0 where
  user_input environment_message interruption_response : EventType

pub data EventSource : Type 0 where
  user tool handoff system environment : EventSource

pub data TaskStateKind : Type 0 where
  message tool auto_response : TaskStateKind

pub data TaskStatus : Type 0 where
  running paused completed : TaskStatus

pub data UnitStatus : Type 0 where
  pending running completed failed : UnitStatus

pub data ArtifactType : Type 0 where
  input assistant_message tool_call tool_call_exe tool_llm_response : ArtifactType
  agent_frame_change interruption_request : ArtifactType

pub data TaskSwitchAction : Type 0 where
  pause push_event : TaskSwitchAction

pub data RequestType : Type 0 where
  exception_resume async_tool_request : RequestType

pub data FrameChangeType : Type 0 where
  push pop : FrameChangeType

pub data FrameChangeReason : Type 0 where
  handoff handoff_return handoff_return_tool : FrameChangeReason

-- The answer to an interruption: its class is fixed by the request's type, its content is not read.
pub record ResponsePayload : Type 0 where
  pub request_id : ℕ
  pub request_type : RequestType
  pub response : String

-- `ObservableEventPayload`: a registered class, or a plain dict that is kept as its text.
pub data EventPayload : Type 0 where
  user_input : String → EventPayload
  interruption_response : ResponsePayload → EventPayload
  dict : String → EventPayload

pub record ObservableEvent : Type 0 where
  pub event_id : ℕ
  pub event_type : EventType
  pub source : EventSource
  pub payload : EventPayload

pub record Input : Type 0 where
  pub input_id : ℕ
  pub origin_input_id : Option ℕ
  pub events : List ObservableEvent

pub record AgentFrameChange : Type 0 where
  pub target : String
  pub source : String
  pub type : FrameChangeType
  pub reason : FrameChangeReason

pub record InterruptionRequest : Type 0 where
  pub request_id : ℕ
  pub task_id : ℕ
  pub type : RequestType
  pub origin_task_status : TaskStatus
  pub response : Option ResponsePayload

pub record ToolCall : Type 0 where
  pub id : Option String
  pub name : Option String
  pub arguments : Option String

-- An LLM message; `has_continue` is `runtime_params.get(K_HAS_CONTINUE_TAG, False)`.
pub record LlmMessage : Type 0 where
  pub content : String
  pub tool_calls : List ToolCall
  pub has_continue : Bool

pub data UnitType : Type 0 where
  tool_call llm_call : UnitType

-- `ExecutionUnitResult` as it is stored in its unit; what is appended to the loop is returned
-- beside it, and `event` is `raw_data[K_RAW_DATA_EVENT]`.
pub record UnitResult : Type 0 where
  pub next_unit_status : UnitStatus
  pub handoff : Option AgentFrameChange
  pub task_switch_action : Option TaskSwitchAction
  pub event : Option ObservableEvent
  pub message : Option LlmMessage

pub record ExecutionUnit : Type 0 where
  pub unit_id : ℕ
  pub unit_type : UnitType
  pub status : UnitStatus
  pub result : Option UnitResult

pub data ArtifactPayload : Type 0 where
  input : Input → ArtifactPayload
  message : LlmMessage → ArtifactPayload
  unit : ExecutionUnit → ArtifactPayload
  frame_change : AgentFrameChange → ArtifactPayload
  request : InterruptionRequest → ArtifactPayload

pub record RuntimeArtifact : Type 0 where
  pub id : ℕ
  pub type : ArtifactType
  pub owner_agent_name : String
  pub payload : ArtifactPayload

pub record AgentFrame : Type 0 where
  pub agent_name : String
  pub from_agent_name : Option String

pub record MemoryView : Type 0 where
  pub long_term_memory : String
  pub mid_term_memory : String

-- The fields of `MessageState`, `ToolState` and `AutoResponseState` beside `status`.
pub data StateBody : Type 0 where
  message_state : Option RuntimeArtifact → Option ℕ → StateBody
  tool_state : RuntimeArtifact → List ExecutionUnit → Option ℕ → StateBody
  auto_response_state : StateBody

pub record TaskState : Type 0 where
  pub status : TaskStatus
  pub body : StateBody

pub record Task : Type 0 where
  pub task_id : ℕ
  pub state : TaskState
  pub start_input : Option Input
  pub interruption_request : Option InterruptionRequest
  pub agent_frame_change : Option AgentFrameChange

pub record AgentState : Type 0 where
  pub agent_name : String
  pub system : String
  pub processing_tasks : List Task

-- `agent_frames` has the top of the stack at its end, as in the source.
pub record SessionState : Type 0 where
  pub agent_frames : List AgentFrame
  pub input_queue : List Input
  pub history : List RuntimeArtifact
  pub memory : MemoryView
  pub agent_states : Dict String AgentState
