-- ===== src/Os/Handoff.antt =====
-- os/runtime.py `_build_task_agent_frame_change`: who has control after a completed task. The agents that can be
-- reached are a test on names.
pub mod Return
pub mod Finish
mod Examples
use turtlemap.Prelude.{
  ℕ, String, ◌++◌, Bool, true, false, Option, none, some, List, [], ◌∷◌, get_last?, drop_last,
  if◌then◌else◌,
}
use turtlemap.Prelude.Eq.{◌==◌, string_eq}
use turtlemap.Prelude.Try.{Try, value, error, and_then}
use turtlemap.Kernel.Model.{
  ArtifactType, FrameChangeType, FrameChangeReason, AgentFrameChange, LlmMessage, UnitType,
  UnitResult, ExecutionUnit, ArtifactPayload, RuntimeArtifact, AgentFrame, StateBody, message_state,
  tool_state, auto_response_state, Task,
}
use turtlemap.Kernel.Exec.{
  Error, index_error, type_error, raised, pure, raise, gets, modify, ◌>>=◌, ◌>>◌,
}
use turtlemap.Kernel.State.{Act, set_session, generate_id, read_task, set_task}
use turtlemap.Os.Runtime.Rollback.{os_runtime}

-- `ensure_instance(payload, LLMMessage)`
abbrev message_in : ArtifactPayload → Try Error (Option LlmMessage)
message_in (ArtifactPayload.message m) = value (some m)
message_in _ = error type_error

abbrev message_of : Option RuntimeArtifact → Try Error (Option LlmMessage)
message_of none = value none
message_of (some a) = message_in a.payload

abbrev result_message : Option UnitResult → Option LlmMessage
result_message none = none
result_message (some r) = r.message

abbrev llm_message : UnitType → Option UnitResult → Option LlmMessage
llm_message UnitType.llm_call r = result_message r
llm_message UnitType.tool_call r = none

abbrev unit_message : Option ExecutionUnit → Option LlmMessage
unit_message none = none
unit_message (some u) = llm_message u.unit_type u.result

-- `_get_completed_task_message`
unfoldable pub get_completed_task_message : StateBody → Try Error (Option LlmMessage)
get_completed_task_message (message_state m o) = message_of m
get_completed_task_message (tool_state c units o) = value (unit_message (get_last? units))
get_completed_task_message auto_response_state = value none

-- what the last unit of a tool task says: no change, this change, or nothing
pub data Handoff : Type 0 where
  stays looks_on : Handoff
  gives : AgentFrameChange → Handoff

abbrev given_or_on : Option AgentFrameChange → Handoff
given_or_on none = looks_on
given_or_on (some c) = gives c

abbrev result_handoff : Option UnitResult → Handoff
result_handoff none = stays
result_handoff (some r) = given_or_on r.handoff

abbrev unit_handoff : Option ExecutionUnit → Try Error Handoff
unit_handoff none = error index_error
unit_handoff (some u) = value (result_handoff u.result)

abbrev pub handoff_of : StateBody → Try Error Handoff
handoff_of (tool_state c units o) = unit_handoff (get_last? units)
handoff_of _ = value looks_on

-- `len(agent_frames) > 1`
abbrev pub is_subagent : List AgentFrame → Bool
is_subagent (f ∷ g ∷ fs) = true
is_subagent _ = false

abbrev pub return_of : AgentFrame → AgentFrame → AgentFrameChange
return_of current parent = record {
  target = parent.agent_name;
  source = current.agent_name;
  type = FrameChangeType.pop;
  reason = FrameChangeReason.handoff_return;
}

-- `agent_frames[-1]` and `agent_frames[-2]`
abbrev pub return_to :
    (String → Bool)
    → String
    → Option AgentFrame
    → Option AgentFrame
    → Try Error (Option AgentFrameChange)
return_to known owner none parent = error index_error
return_to known owner (some current) none = error index_error
return_to known owner (some current) (some parent) =
    if current.agent_name == owner
    then (if known parent.agent_name
        then value (some (return_of current parent))
        else error type_error)
    else error os_runtime

abbrev pub return_unless_continued :
    (String → Bool)
    → String
    → List AgentFrame
    → Option LlmMessage
    → Try Error (Option AgentFrameChange)
return_unless_continued known owner fs none = value none
return_unless_continued known owner fs (some m) =
    if m.has_continue
    then value none
    else return_to known owner (get_last? fs) (get_last? (drop_last fs))

abbrev pub change_for :
    (String → Bool)
    → String
    → List AgentFrame
    → StateBody
    → Handoff
    → Try Error (Option AgentFrameChange)
change_for known owner fs b stays = value none
change_for known owner fs b (gives c) = value (some c)
change_for known owner fs b looks_on =
    if is_subagent fs
    then and_then (get_completed_task_message b) (return_unless_continued known owner fs)
    else value none

-- `_build_task_agent_frame_change`
unfoldable pub build_task_agent_frame_change :
    (String → Bool) → String → List AgentFrame → StateBody → Try Error (Option AgentFrameChange)
build_task_agent_frame_change known owner fs b =
    and_then (handoff_of b) (change_for known owner fs b)

abbrev pub lift : {A : Type 0} → Try Error A → Act A
lift (value a) = pure a
lift (error e) = raise e

abbrev pub with_change : Option AgentFrameChange → Task → Task
with_change c t = record t { agent_frame_change = c }

-- `_build_agent_frame_change_history_artifact`
abbrev change_artifact : ℕ → String → AgentFrameChange → RuntimeArtifact
change_artifact i owner c = record {
  id = i;
  type = ArtifactType.agent_frame_change;
  owner_agent_name = owner;
  payload = ArtifactPayload.frame_change c;
}

unfoldable pub record_change : String → Option AgentFrameChange → Act (Unit {0})
record_change owner none = pure tt
record_change owner (some c) = do
  i ← generate_id
  modify (set_session (λ s. record s { history = s.history ++ change_artifact i owner c ∷ [] }))

-- `_override_service_task_did_complete`
unfoldable pub task_did_complete : (String → Bool) → String → ℕ → Act (Unit {0})
task_did_complete known a i = do
  task ← read_task a i
  fs ← gets (λ r. r.session.agent_frames)
  c ← lift (build_task_agent_frame_change known a fs task.state.body)
  set_task a i (with_change c)
  record_change a c
