-- ===== src/Context/Projector/History.antt =====
-- os/context/projector.py: a history as the messages of one agent, with what others did as group input.
use Prim.Native.String.{String, ◌++◌ as ◌<>◌}
use turtlemap.Prelude.{ℕ, Bool, true, false, Option, none, some, List, [], ◌∷◌, ◌++◌, if◌then◌else◌}
use turtlemap.Prelude.Dict.{Dict}
use turtlemap.Prelude.Text.{is_blank}
use turtlemap.Prelude.Try.{Try, value, error, and_then}
use turtlemap.Kernel.Model.{Input, ObservableEvent, EventSource}
use turtlemap.Events.{CompletionMessage}
use turtlemap.Events.Message.{or_blank}
use turtlemap.Context.Projector.{
  ArtifactBody, input_artifact, frame_change_artifact, HistoryArtifact, Round, ProjectorError,
  os_runtime, split_history_rounds, filter_latest_history_rounds, GroupType, HistoryRoundGroup,
  build_history_round_groups,
}
use turtlemap.Context.Projector.Messages.{
  Wording, Messages, text_message, event_to_llm_message, artifact_to_llm_messages,
  history_round_messages,
}

-- `"\n\n".join(elements)`
abbrev pub join_lines : List String → String
join_lines [] = ""
join_lines (s ∷ []) = s
join_lines (s ∷ t ∷ ss) = s <> ("\n\n" <> join_lines (t ∷ ss))

abbrev pub from_handoff : List ObservableEvent → Bool
from_handoff [] = false
from_handoff (e ∷ es) = elim e.source [ EventSource.handoff ↦ true | _ ↦ false ]

abbrev pub concat_elements :
    (CompletionMessage → List String) → List CompletionMessage → List String
concat_elements f [] = []
concat_elements f (m ∷ ms) = f m ++ concat_elements f ms

-- the messages of a context, as the client is given them
pub record ContextSource : Type 0 where
  pub system_message : Option CompletionMessage
  pub memory_message : Option CompletionMessage
  pub history : List HistoryArtifact
  pub tool_names : List String
  pub owner_agent_name : String
  pub agent_name2display_name : Dict String String
  pub current_input : Option Input
  pub task_artifacts : List ArtifactBody

module _ (w : Wording) (now : ℕ) where
  abbrev pub message_elements : String → ArtifactBody → Try ProjectorError (List String)
  message_elements name b =
      and_then (artifact_to_llm_messages w now b)
        λ ms. value (concat_elements (λ m. w.message_elements m name) ms)

  -- one artifact of `_build_group_input_content`
  unfoldable pub group_elements : String → ArtifactBody → Try ProjectorError (List String)
  group_elements name (input_artifact i) =
      let all = message_elements name (input_artifact i) in
      if from_handoff i.events then value [] else all
  group_elements name (frame_change_artifact c) = value (w.frame_element c name ∷ [])
  group_elements name b = message_elements name b

  unfoldable pub round_elements : String → Round → Try ProjectorError (List String)
  round_elements name [] = value []
  round_elements name (a ∷ r) =
      and_then (group_elements name a.body)
        λ xs. and_then (round_elements name r) λ rest. value (xs ++ rest)

  unfoldable pub rounds_elements : String → List Round → Try ProjectorError (List String)
  rounds_elements name [] = value []
  rounds_elements name (r ∷ rs) =
      and_then (round_elements name r)
        λ xs. and_then (rounds_elements name rs) λ rest. value (xs ++ rest)

  -- `_build_group_input_content`
  unfoldable pub build_group_input_content : HistoryRoundGroup → Try ProjectorError String
  build_group_input_content g =
      and_then (rounds_elements g.owner_agent_display_name g.rounds) λ xs. value (join_lines xs)

  abbrev pub Merged : Type 0
  Merged = Try ProjectorError (List HistoryRoundGroup × List String)

  abbrev pub pending_with : String → List String → List String
  pending_with s pending = if is_blank s then pending else pending ++ s ∷ []

  -- one group, given what is made of the groups behind it with what is pending then
  abbrev pub merge_one :
      HistoryRoundGroup → List String → (List String → Merged) → GroupType → Merged
  merge_one g pending rest GroupType.group_input =
      and_then (build_group_input_content g) λ s. rest (pending_with s pending)
  merge_one g pending rest GroupType.normal =
      and_then (rest []) λ m. value (record g { group_input = g.group_input ++ pending } ∷ m.0, m.1)

  -- the loop of `_merge_group_input_to_normal_history_round_groups`, with what is pending
  unfoldable pub merge_from : List String → List HistoryRoundGroup → Merged
  merge_from pending [] = value ([], pending)
  merge_from pending (g ∷ gs) = merge_one g pending (λ p. merge_from p gs) g.type

  -- `_merge_group_input_to_normal_history_round_groups`
  unfoldable pub merge_group_input : List HistoryRoundGroup → Merged
  merge_group_input gs = merge_from [] gs

  abbrev pub Shown : Type 0
  Shown = Try ProjectorError (List CompletionMessage × List String)

  -- what is left of the group input once a round has been shown
  abbrev pub left_over : List String → List CompletionMessage → List String
  left_over gs [] = gs
  left_over gs (m ∷ ms) = []

  -- the inner loop of `_build_history_llm_messages`
  unfoldable pub show_rounds : List String → List String → List Round → Shown
  show_rounds names gs [] = value ([], gs)
  show_rounds names gs (r ∷ rs) =
      and_then (history_round_messages w now names gs r)
        λ ms. and_then (show_rounds names (left_over gs ms) rs) λ rest. value (ms ++ rest.0, rest.1)

  -- the outer loop
  unfoldable pub show_groups : List String → List HistoryRoundGroup → List String → Shown
  show_groups names [] current = value ([], current)
  show_groups names (g ∷ gs) current = and_then (show_rounds names g.group_input g.rounds) λ shown.
      and_then (show_groups names gs (current ++ shown.1)) λ rest. value (shown.0 ++ rest.0, rest.1)

  -- `_build_history_llm_messages`
  unfoldable pub build_history_messages :
      List String → Dict String String → Option String → Option ℕ → List HistoryArtifact → Shown
  build_history_messages names displays current excluded h =
      let rounds = filter_latest_history_rounds excluded (split_history_rounds h) in
      and_then (merge_group_input (build_history_round_groups current displays rounds))
        λ merged. show_groups names merged.0 merged.1

  abbrev pub current_message : Option ObservableEvent → List String → Messages
  current_message none gs = error os_runtime
  current_message (some e) gs = and_then (event_to_llm_message e) λ m. elim m [
    | none ↦ error os_runtime
    | some m ↦ value (text_message m.role (w.current_input (or_blank m.content) gs) ∷ [])
  ]

  abbrev first_event : List ObservableEvent → Option ObservableEvent
  first_event [] = none
  first_event (e ∷ es) = some e

  -- `_build_current_input_llm_message`, where there is a current input
  abbrev pub current_input_messages : Option Input → List String → Messages
  current_input_messages none gs = value []
  current_input_messages (some i) gs = current_message (first_event i.events) gs

  unfoldable pub task_messages : List ArtifactBody → Messages
  task_messages [] = value []
  task_messages (b ∷ bs) =
      and_then (artifact_to_llm_messages w now b)
        λ ms. and_then (task_messages bs) λ rest. value (ms ++ rest)

  abbrev optional : Option CompletionMessage → List CompletionMessage
  optional none = []
  optional (some m) = m ∷ []

  abbrev excluded_id : Option Input → Option ℕ
  excluded_id none = none
  excluded_id (some i) = some i.input_id

  -- `build_messages_from_source`
  unfoldable pub build_messages_from_source : ContextSource → Messages
  build_messages_from_source s =
      and_then
        (build_history_messages s.tool_names s.agent_name2display_name (some s.owner_agent_name)
          (excluded_id s.current_input) s.history)
        λ shown. and_then (current_input_messages s.current_input shown.1) λ current.
          and_then (task_messages s.task_artifacts) λ rest. value (
            optional s.system_message
            ++ (optional s.memory_message ++ (shown.0 ++ (current ++ rest))))
