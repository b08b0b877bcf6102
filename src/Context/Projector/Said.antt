-- ===== src/Context/Projector/Said.antt =====
-- Of a history: what its inputs say and which of its artifacts call tools.
use turtlemap.Prelude.{
  String, ◌≡◌, true, none, some, List, [], ◌∷◌, ◌++◌, arith, All, All-append, Bool-cases, inl, inr,
}
use turtlemap.Prelude.Try.{Try, value, and_then}
use turtlemap.Prelude.Text.{strip}
use turtlemap.Kernel.Model.{
  AgentFrameChange, InterruptionRequest, Input, ObservableEvent, EventType, EventPayload,
}
use turtlemap.Events.{MessageRole, CompletionToolCall, CompletionMessage}
use turtlemap.Context.Projector.{
  ToolUnit, ArtifactBody, input_artifact, assistant_artifact, tool_call_artifact, tool_exe_artifact,
  llm_response_artifact, frame_change_artifact, request_artifact, LlmUnit, HistoryArtifact,
  ProjectorError,
}
use turtlemap.Context.Projector.Messages.{
  text_message, by_event_type, event_to_llm_message, optional, input_messages, name_in,
  all_available,
}

-- `t` returns, and `P` holds of what it returns.
pub data Returns {A : Type 0} (P : A → Type 0) : Try ProjectorError A → Type 0 where
  returns : (a : A) → P a → Returns P (value a)

pub and_then-Returns :
    {A B : Type 0} (P : A → Type 0) (Q : B → Type 0) (t : Try ProjectorError A)
    (f : A → Try ProjectorError B)
    → Returns P t
    → ((a : A) → P a → Returns Q (f a))
    → Returns Q (and_then t f)
and_then-Returns P Q t f (returns a p) k = k a p

-- What is said by a user, or answers an interruption.
pub data IsSaid : EventType → EventPayload → Type 0 where
  user : (s : String) → IsSaid EventType.user_input (EventPayload.user_input s)
  answer : (p : EventPayload) → IsSaid EventType.interruption_response p

abbrev Said : ObservableEvent → Type 0
Said e = IsSaid e.event_type e.payload

-- Every tool that the message calls is among the names.
abbrev pub Calls : List String → CompletionMessage → Type 0
Calls names m = All (λ c. name_in c.name names ≡ true) m.tool_calls

-- An artifact whose inputs are said. Only artifacts of tool calls hold calls, and the responses of the LLM
-- behind a tool, each with its message: these call nothing but tools of the list.
pub data IsPlain (names : List String) : ArtifactBody → Type 0 where
  plain_input : (i : Input) → All Said i.events → IsPlain names (input_artifact i)
  plain_assistant :
      (m : CompletionMessage) → m.tool_calls ≡ [] → IsPlain names (assistant_artifact m)
  plain_call : (m : CompletionMessage) → IsPlain names (tool_call_artifact m)
  plain_exe : (u : ToolUnit) → IsPlain names (tool_exe_artifact u)
  plain_response :
      (u : LlmUnit) (m : CompletionMessage)
      → u.result ≡ some (some m)
      → Calls names m
      → IsPlain names (llm_response_artifact u)
  plain_change : (c : AgentFrameChange) → IsPlain names (frame_change_artifact c)
  plain_request : (r : InterruptionRequest) → IsPlain names (request_artifact r)

abbrev pub Plain : List String → HistoryArtifact → Type 0
Plain names a = IsPlain names a.body

pub all_available-All :
    (names : List String) (cs : List CompletionToolCall)
    → all_available names cs ≡ true
    → All (λ c. name_in c.name names ≡ true) cs
all_available-All names [] h = tt
all_available-All names (c ∷ cs) h = elim (Bool-cases (name_in c.name names)) [
  | inl found ↦ (found, all_available-All names cs (rw found at h))
  | inr missing ↦ absurd (ground arith)
]

pub nil-Calls : (names : List String) (m : CompletionMessage) → m.tool_calls ≡ [] → Calls names m
nil-Calls names m h = rw h tt

abbrev pub AllCall : List String → List CompletionMessage → Type 0
AllCall names ms = All (Calls names) ms

event-Returns :
    (names : List String) (e : ObservableEvent)
    → Said e
    → Returns (λ m. AllCall names (optional m)) (event_to_llm_message e)
unfolding event_to_llm_message
event-Returns names e h = go e.event_type e.payload h
  where
    go :
        (t : EventType) (p : EventPayload)
        → IsSaid t p
        → Returns (λ m. AllCall names (optional m)) (by_event_type t p)
    go t p (user s) = returns (some (text_message MessageRole.user (strip s))) (tt, tt)
    go t p (answer q) = returns none tt

pub input-Returns :
    (names : List String) (es : List ObservableEvent)
    → All Said es
    → Returns (AllCall names) (input_messages es)
unfolding input_messages
input-Returns names [] h = returns [] tt
input-Returns names (e ∷ es) h =
    and_then-Returns (λ m. AllCall names (optional m)) (AllCall names) (event_to_llm_message e)
      (λ m. and_then (input_messages es) λ ms. value (optional m ++ ms)) (event-Returns names e h.0)
      λ m p.
        and_then-Returns (AllCall names) (AllCall names) (input_messages es)
          (λ ms. value (optional m ++ ms)) (input-Returns names es h.1)
          λ ms q. returns (optional m ++ ms) (All-append (Calls names) (optional m) ms p q)
