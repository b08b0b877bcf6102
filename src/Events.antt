-- ===== src/Events.antt =====
-- os/event_bus/models.py and os/llm/model.py: the events of a run and the messages that a model streams.
-- Left out of an event: the session's id and the names of the agent, which are only copied. An `Any` is its text.
pub mod Final
pub mod Message
pub mod Contents
pub mod Present
pub mod Indexed
pub mod Streamed
pub mod Collector
mod Examples
use turtlemap.Prelude.{ℕ, String, Bool, Option, List}
use turtlemap.Prelude.Dict.{Dict}
use turtlemap.Kernel.Model.{Input, InterruptionRequest, AgentFrameChange}
use turtlemap.Context.Compress.{CompressionResult}

pub data RuntimeEventType : Type 0 where
  input message tool_call tool_result context_compression interrupted custom agent_frame_change :
      RuntimeEventType

pub data RuntimeEventPhase : Type 0 where
  started in_progress in_progress_partial end final : RuntimeEventPhase

pub data ContextCompressionMode : Type 0 where
  sync async : ContextCompressionMode

pub data MessageRole : Type 0 where
  system developer user assistant tool : MessageRole

-- `ToolResult`, with its time of expiry in seconds
pub data ToolResultStatus : Type 0 where
  success failed pending : ToolResultStatus

pub data ToolFactSourceType : Type 0 where
  external_realtime_data recollection : ToolFactSourceType

pub record ToolResult : Type 0 where
  pub status : ToolResultStatus
  pub content : String
  pub fact_source_type : ToolFactSourceType
  pub purpose : String
  pub expires_at : Option ℕ

-- `LLMDeltaToolCall`; without its function where `function` is `None`
pub record DeltaToolCall : Type 0 where
  pub index : ℕ
  pub id : Option String
  pub name : Option String
  pub arguments : Option String
  pub type : Option String

pub record Delta : Type 0 where
  pub role : Option MessageRole
  pub content : Option String
  pub reasoning_content : Option String
  pub display_content : Option String
  pub display_reasoning_content : Option String
  pub context_content : Option String
  pub context_reasoning_content : Option String
  pub runtime_params : Dict String String
  pub tool_calls : List DeltaToolCall

pub record ChunkChoice : Type 0 where
  pub index : ℕ
  pub delta : Delta
  pub finish_reason : Option String

pub record CompletionChunk : Type 0 where
  pub id : String
  pub choices : List ChunkChoice
  pub created : ℕ
  pub model : String
  pub usage : Option ℕ

pub record CompletionToolCall : Type 0 where
  pub id : String
  pub name : Option String
  pub arguments : Option String
  pub type : Option String

pub record CompletionMessage : Type 0 where
  pub role : MessageRole
  pub content : Option String
  pub reasoning_content : Option String
  pub display_content : Option String
  pub display_reasoning_content : Option String
  pub context_content : Option String
  pub context_reasoning_content : Option String
  pub runtime_params : Dict String String
  pub tool_call_id : Option String
  pub tool_calls : List CompletionToolCall

pub record CompletionChoice : Type 0 where
  pub index : ℕ
  pub message : CompletionMessage
  pub finish_reason : Option String

pub record Completion : Type 0 where
  pub id : String
  pub choices : List CompletionChoice
  pub created : ℕ
  pub model : String
  pub usage : Option ℕ

-- The event's class and the fields that it adds to the base class; `state_events` of a tool result stand in `FinalEvent`.
pub data EventBody : Type 0 where
  input_event : Input → EventBody
  message_event : Option CompletionChunk → Option Completion → EventBody
  tool_call_event : CompletionToolCall → EventBody
  tool_result_event : CompletionToolCall → Option ToolResult → EventBody
  compression_event : ContextCompressionMode → Option CompressionResult → EventBody
  interrupted_event : InterruptionRequest → EventBody
  agent_frame_change_event : AgentFrameChange → EventBody
  custom_event : String → EventBody

-- A time is `none` where it is -1, the default.
pub record RuntimeEvent : Type 0 where
  pub event_id : ℕ
  pub parent_event_id : Option ℕ
  pub task_id : Option ℕ
  pub sequence : ℕ
  pub created_ts_ms : Option ℕ
  pub duration_ms : ℕ
  pub event_phase : RuntimeEventPhase
  pub is_history_event_for_interruption : Bool
  pub is_replay_event : Bool
  pub body : EventBody

abbrev type_of : EventBody → RuntimeEventType
type_of (input_event i) = RuntimeEventType.input
type_of (message_event c m) = RuntimeEventType.message
type_of (tool_call_event c) = RuntimeEventType.tool_call
type_of (tool_result_event c r) = RuntimeEventType.tool_result
type_of (compression_event m r) = RuntimeEventType.context_compression
type_of (interrupted_event r) = RuntimeEventType.interrupted
type_of (agent_frame_change_event c) = RuntimeEventType.agent_frame_change
type_of (custom_event p) = RuntimeEventType.custom

-- `event_type`
abbrev pub event_type : RuntimeEvent → RuntimeEventType
event_type e = type_of e.body

-- `RunntimeEventBuffer`
pub record EventBuffer : Type 0 where
  pub events : List RuntimeEvent
  pub did_replay : Bool
