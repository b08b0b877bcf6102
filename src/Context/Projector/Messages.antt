-- ===== src/Context/Projector/Messages.antt =====
-- os/context/projector.py: the messages of artifacts, rounds and histories. `now` is the time in seconds.
use Prim.Native.String.{String}
use turtlemap.Prelude.{
  ℕ, Bool, true, false, Option, none, some, List, [], ◌∷◌, ◌++◌, leb, if◌then◌else◌,
}
use mathlib.Core.List.{reverse}
use turtlemap.Prelude.Eq.{string_eq}
use turtlemap.Prelude.Groups.{mem}
use turtlemap.Prelude.Text.{strip, is_blank}
use turtlemap.Prelude.Try.{Try, value, error, and_then}
use turtlemap.Kernel.Model.{
  ObservableEvent, EventType, EventPayload, AgentFrameChange, FrameChangeType, FrameChangeReason,
  InterruptionRequest,
}
use turtlemap.Events.{MessageRole, CompletionToolCall, CompletionMessage, ToolResult}
use turtlemap.Events.Message.{or_blank}
use turtlemap.Context.Projector.{
  ArtifactBody, input_artifact, assistant_artifact, tool_call_artifact, tool_exe_artifact,
  llm_response_artifact, frame_change_artifact, request_artifact, HistoryArtifact, Round,
  ProjectorError, not_implemented, no_result, type_error, is_input,
}

-- The texts that the prompts put around what the session holds.
pub record Wording : Type 0 where
  -- `build_interruption_request_description`
  pub request_text : InterruptionRequest → String
  pub handed_over : AgentFrameChange → String
  -- `_agent_frame_change_to_group_input_element` and `_llm_message_to_group_input_elements`, with the agent's name
  pub frame_element : AgentFrameChange → String → String
  pub message_elements : CompletionMessage → String → List String
  -- the content of a task's input with its group input
  pub with_group_input : String → List String → String
  pub current_input : String → List String → String
  pub expired_text : String
  pub result_text : ToolResult → String

abbrev pub Messages : Type 0
Messages = Try ProjectorError (List CompletionMessage)

abbrev pub text_message : MessageRole → String → CompletionMessage
text_message role s = record {
  role = role;
  content = some s;
  reasoning_content = none;
  display_content = none;
  display_reasoning_content = none;
  context_content = none;
  context_reasoning_content = none;
  runtime_params = [];
  tool_call_id = none;
  tool_calls = [];
}

abbrev user_message : EventPayload → Try ProjectorError (Option CompletionMessage)
user_message (EventPayload.user_input s) = value (some (text_message MessageRole.user (strip s)))
user_message _ = error type_error

abbrev pub by_event_type : EventType → EventPayload → Try ProjectorError (Option CompletionMessage)
by_event_type EventType.user_input p = user_message p
by_event_type EventType.environment_message p = error not_implemented
by_event_type EventType.interruption_response p = value none

-- `_event_to_llm_message`
unfoldable pub event_to_llm_message :
    ObservableEvent → Try ProjectorError (Option CompletionMessage)
event_to_llm_message e = by_event_type e.event_type e.payload

abbrev pub optional : Option CompletionMessage → List CompletionMessage
optional none = []
optional (some m) = m ∷ []

unfoldable pub input_messages : List ObservableEvent → Messages
input_messages [] = value []
input_messages (e ∷ es) =
    and_then (event_to_llm_message e)
      λ m. and_then (input_messages es) λ ms. value (optional m ++ ms)

abbrev pub is_expired : ℕ → ToolResult → Bool
is_expired now r = elim r.expires_at [ none ↦ false | some t ↦ leb t now ]

abbrev pub hands_over : FrameChangeType → FrameChangeReason → Bool
hands_over FrameChangeType.push FrameChangeReason.handoff = true
hands_over FrameChangeType.pop FrameChangeReason.handoff_return_tool = true
hands_over _ _ = false

abbrev pub unless_blank : String → CompletionMessage → List CompletionMessage
unless_blank s m = if is_blank s then [] else m ∷ []

abbrev response_of :
    Option (Option CompletionMessage) → Try ProjectorError (Option CompletionMessage)
response_of none = error no_result
response_of (some none) = value none
response_of (some (some m)) = value (some (record m { tool_calls = [] }))

abbrev pub response_or :
    ArtifactBody
    → Try ProjectorError (Option CompletionMessage)
    → Try ProjectorError (Option CompletionMessage)
response_or (llm_response_artifact u) rest = response_of u.result
response_or _ rest = rest

-- `reversed(history_round)` for the first response of the LLM behind a tool
abbrev pub last_response : Round → Try ProjectorError (Option CompletionMessage)
last_response [] = value none
last_response (a ∷ r) = response_or a.body (last_response r)

-- `_get_last_tool_llm_response_message`
unfoldable pub get_last_tool_llm_response_message :
    Round → Try ProjectorError (Option CompletionMessage)
get_last_tool_llm_response_message r = last_response (reverse r)

abbrev pub name_in : Option String → List String → Bool
name_in none names = false
name_in (some n) names = mem n names

abbrev pub all_available : List String → List CompletionToolCall → Bool
all_available names [] = true
all_available names (c ∷ cs) = if name_in c.name names then all_available names cs else false

abbrev pub calls_available : List String → ArtifactBody → Bool
calls_available names (tool_call_artifact m) = all_available names m.tool_calls
calls_available names _ = true

-- `_history_round_has_unavailable_tool_call`
unfoldable pub has_unavailable_tool_call : List String → Round → Bool
has_unavailable_tool_call names [] = false
has_unavailable_tool_call names (a ∷ r) =
    if calls_available names a.body then has_unavailable_tool_call names r else true

abbrev pub expired_unit : ℕ → ArtifactBody → Bool
expired_unit now (tool_exe_artifact u) = elim u.result [ none ↦ false | some r ↦ is_expired now r ]
expired_unit now _ = false

-- `_history_round_has_expired_tool_result`
unfoldable pub has_expired_tool_result : ℕ → Round → Bool
has_expired_tool_result now [] = false
has_expired_tool_result now (a ∷ r) =
    let rest = has_expired_tool_result now r in if expired_unit now a.body then true else rest

abbrev pub is_user : MessageRole → Bool
is_user MessageRole.user = true
is_user _ = false

module _ (w : Wording) (now : ℕ) where
  -- `_get_tool_result_content`
  unfoldable pub get_tool_result_content : ToolResult → String
  get_tool_result_content r = if is_expired now r then w.expired_text else w.result_text r

  abbrev pub tool_message : String → ToolResult → CompletionMessage
  tool_message id r = record (text_message MessageRole.tool (get_tool_result_content r)) {
    tool_call_id = some id;
  }

  -- `_artifact_to_llm_messages` with `_execution_unit_to_llm_messages`
  unfoldable pub artifact_to_llm_messages : ArtifactBody → Messages
  artifact_to_llm_messages (input_artifact i) = input_messages i.events
  artifact_to_llm_messages (assistant_artifact m) = value (m ∷ [])
  artifact_to_llm_messages (tool_call_artifact m) = value (m ∷ [])
  artifact_to_llm_messages (tool_exe_artifact u) = elim u.result [
    | none ↦ value []
    | some r ↦ value (unless_blank (get_tool_result_content r) (tool_message u.tool_call_id r))
  ]
  artifact_to_llm_messages (llm_response_artifact u) = elim u.result [
    | none ↦ value []
    | some m ↦ value (optional m)
  ]
  artifact_to_llm_messages (frame_change_artifact c) = value (
      if hands_over c.type c.reason
      then text_message MessageRole.assistant (w.handed_over c) ∷ []
      else [])
  artifact_to_llm_messages (request_artifact r) =
      value (text_message MessageRole.assistant (w.request_text r) ∷ [])

  -- the first user's message, with the group input in front of it
  abbrev pub put_group_input : List String → List CompletionMessage → List CompletionMessage
  put_group_input gs [] = []
  put_group_input gs (m ∷ ms) =
      let rest = put_group_input gs ms in
      if is_user m.role
      then record m { content = some (w.with_group_input (or_blank m.content) gs) } ∷ ms
      else m ∷ rest

  abbrev pub if_any : List String → List CompletionMessage → List CompletionMessage
  if_any [] ms = ms
  if_any (g ∷ gs) ms = put_group_input (g ∷ gs) ms

  -- `_build_history_input_llm_messages`
  unfoldable pub history_input_messages : List String → ArtifactBody → Messages
  history_input_messages gs b = and_then (artifact_to_llm_messages b) λ ms. value (if_any gs ms)

  abbrev pub shown : List String → HistoryArtifact → Messages
  shown gs a =
      if is_input a then history_input_messages gs a.body else artifact_to_llm_messages a.body

  unfoldable pub all_messages : List String → Round → Messages
  all_messages gs [] = value []
  all_messages gs (a ∷ r) =
      and_then (shown gs a) λ ms. and_then (all_messages gs r) λ rest. value (ms ++ rest)

  abbrev pub first_input_messages : List String → Round → Messages
  first_input_messages gs [] = value []
  first_input_messages gs (a ∷ r) =
      let rest = first_input_messages gs r in
      if is_input a then history_input_messages gs a.body else rest

  -- `_build_history_round_llm_messages`
  unfoldable pub history_round_messages : List String → List String → Round → Messages
  history_round_messages names gs r =
      if has_unavailable_tool_call names r
      then (if has_expired_tool_result now r
          then value []
          else and_then (first_input_messages gs r)
              λ ms. and_then (get_last_tool_llm_response_message r) λ m. value (ms ++ optional m))
      else all_messages gs r
