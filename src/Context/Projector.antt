-- ===== src/Context/Projector.antt =====
-- os/context/projector.py: `ContextProjector`, from the artifacts of a history to the messages of a context.
-- An artifact's payload is of the class that its type asks for. The wording of prompts is a parameter.
pub mod Rounds
pub mod Messages
pub mod History
pub mod HandedOn
pub mod Groups
pub mod Said
pub mod Available
pub mod Plain
pub mod Safe
mod Continued
mod Examples
use turtlemap.Prelude.{
  ℕ, String, Bool, true, false, ◌&&◌, ◌||◌, not, Option, none, some, List, [], ◌∷◌, ◌++◌, map, leb,
  if◌then◌else◌,
}
use mathlib.Core.List.{reverse}
use turtlemap.Prelude.Eq.{◌==◌, nat_eq, string_eq, option_eq}
use turtlemap.Prelude.Dict.{Dict, lookup}
use turtlemap.Prelude.Groups.{mem}
use turtlemap.Prelude.Text.{strip, is_blank}
use turtlemap.Prelude.Try.{Try, value, error, and_then}
use turtlemap.Kernel.Model.{
  Input, ObservableEvent, EventType, EventSource, EventPayload, AgentFrameChange, FrameChangeType,
  FrameChangeReason, InterruptionRequest,
}
use turtlemap.Events.{MessageRole, CompletionToolCall, CompletionMessage, ToolResult}
use turtlemap.Events.Message.{or_blank}

-- A unit's result: that of a tool, with the id of its call, or that of a call of the LLM.
pub record ToolUnit : Type 0 where
  pub tool_call_id : String
  pub result : Option ToolResult

pub record LlmUnit : Type 0 where
  pub result : Option (Option CompletionMessage)

pub data ArtifactBody : Type 0 where
  input_artifact : Input → ArtifactBody
  assistant_artifact : CompletionMessage → ArtifactBody
  tool_call_artifact : CompletionMessage → ArtifactBody
  tool_exe_artifact : ToolUnit → ArtifactBody
  llm_response_artifact : LlmUnit → ArtifactBody
  frame_change_artifact : AgentFrameChange → ArtifactBody
  request_artifact : InterruptionRequest → ArtifactBody

pub record HistoryArtifact : Type 0 where
  pub owner_agent_name : String
  pub body : ArtifactBody

abbrev pub Round : Type 0
Round = List HistoryArtifact

-- `NotImplementedError`, and a `real_result` that is not there
pub data ProjectorError : Type 0 where
  not_implemented no_result type_error os_runtime : ProjectorError

abbrev pub input_of : ArtifactBody → Option Input
input_of (input_artifact i) = some i
input_of _ = none

abbrev pub is_input_body : ArtifactBody → Bool
is_input_body (input_artifact i) = true
is_input_body _ = false

abbrev pub is_input : HistoryArtifact → Bool
is_input a = is_input_body a.body

-- what is there of a round, in front of the rounds that follow
abbrev pub flush : Round → List Round → List Round
flush [] rs = rs
flush (a ∷ r) rs = (a ∷ r) ∷ rs

abbrev pub extend : Round → HistoryArtifact → Round
extend [] a = []
extend (b ∷ r) a = (b ∷ r) ++ a ∷ []

-- the loop of `_split_history_rounds`, with the current round
unfoldable pub split_from : Round → List HistoryArtifact → List Round
split_from current [] = flush current []
split_from current (a ∷ h) =
    let begun = split_from (a ∷ []) h in
    let going_on = split_from (extend current a) h in
    if is_input a then flush current begun else going_on

-- `_split_history_rounds`
unfoldable pub split_history_rounds : List HistoryArtifact → List Round
split_history_rounds h = split_from [] h

-- the id of a round's first input
unfoldable pub round_input_id : Round → Option ℕ
round_input_id [] = none
round_input_id (a ∷ r) = elim (input_of a.body) [
  | none ↦ round_input_id r
  | some i ↦ some i.input_id
]

abbrev pub is_dropped : Option ℕ → List ℕ → Option ℕ → Bool
is_dropped excluded seen none = true
is_dropped excluded seen (some i) = (some i == excluded) || mem i seen

abbrev pub saw : Option ℕ → List ℕ → List ℕ
saw none seen = seen
saw (some i) seen = i ∷ seen

-- the loop over `reversed(history_rounds)`
unfoldable pub latest_from : Option ℕ → List ℕ → List Round → List Round
latest_from excluded seen [] = []
latest_from excluded seen (r ∷ rs) =
    let without = latest_from excluded seen rs in
    let kept = latest_from excluded (saw (round_input_id r) seen) rs in
    if is_dropped excluded seen (round_input_id r) then without else r ∷ kept

-- `_filter_latest_history_rounds`
unfoldable pub filter_latest_history_rounds : Option ℕ → List Round → List Round
filter_latest_history_rounds excluded rounds = reverse (latest_from excluded [] (reverse rounds))

pub data GroupType : Type 0 where
  normal group_input : GroupType

-- `HistoryRoundGroup`
pub record HistoryRoundGroup : Type 0 where
  pub type : GroupType
  pub owner_agent_name : String
  pub owner_agent_display_name : String
  pub rounds : List Round
  pub group_input : List String

abbrev pub type_for : Option String → String → GroupType
type_for none owner = GroupType.normal
type_for (some current) owner = if owner == current then GroupType.normal else GroupType.group_input

abbrev pub same_type : GroupType → GroupType → Bool
same_type GroupType.normal GroupType.normal = true
same_type GroupType.group_input GroupType.group_input = true
same_type _ _ = false

abbrev pub display_name : Dict String String → String → String
display_name names owner = elim (lookup owner names) [ none ↦ owner | some n ↦ n ]

abbrev pub new_group : GroupType → String → String → Round → HistoryRoundGroup
new_group t owner display r = record {
  type = t;
  owner_agent_name = owner;
  owner_agent_display_name = display;
  rounds = r ∷ [];
  group_input = [];
}

abbrev pub joins : GroupType → String → HistoryRoundGroup → Bool
joins t owner g = same_type g.type t && g.owner_agent_name == owner

abbrev pub with_round : Round → HistoryRoundGroup → HistoryRoundGroup
with_round r g = record g { rounds = g.rounds ++ r ∷ [] }

-- the last group
abbrev pub last_group : Option HistoryRoundGroup → List HistoryRoundGroup → List HistoryRoundGroup
last_group none gs = gs
last_group (some g) gs = g ∷ gs

-- the loop of `_build_history_round_groups`, with the last group so far
unfoldable pub groups_from :
    Option String
    → Dict String String
    → Option HistoryRoundGroup
    → List Round
    → List HistoryRoundGroup
groups_from current names last [] = last_group last []
groups_from current names last ([] ∷ rs) = groups_from current names last rs
groups_from current names none ((a ∷ r) ∷ rs) =
    groups_from current names
      (some (
        new_group (type_for current a.owner_agent_name) a.owner_agent_name
          (display_name names a.owner_agent_name) (a ∷ r)))
      rs
groups_from current names (some g) ((a ∷ r) ∷ rs) =
    let t = type_for current a.owner_agent_name in
    let joined = groups_from current names (some (with_round (a ∷ r) g)) rs in
    let begun =
      groups_from current names
        (some (new_group t a.owner_agent_name (display_name names a.owner_agent_name) (a ∷ r)))
        rs in
    if joins t a.owner_agent_name g then joined else g ∷ begun

-- `_build_history_round_groups`
unfoldable pub build_history_round_groups :
    Option String → Dict String String → List Round → List HistoryRoundGroup
build_history_round_groups current names rounds = groups_from current names none rounds
