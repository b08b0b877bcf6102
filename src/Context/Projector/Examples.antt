-- ===== src/Context/Projector/Examples.antt =====
-- A history with a round of another agent and rounds of the agent itself.
use Prim.Native.String.{String, ◌++◌ as ◌<>◌}
use turtlemap.Prelude.{ℕ, ◌≡◌, refl, none, some, List, [], ◌∷◌, take, keep, All, if◌then◌else◌}
use mathlib.Core.List.{reverse, Sublist}
use turtlemap.Prelude.Eq.{◌==◌, nat_eq, string_eq, option_eq}
use turtlemap.Prelude.Try.{value}
use turtlemap.Kernel.Model.{EventType, EventSource, EventPayload}
use turtlemap.Events.{MessageRole}
use turtlemap.Context.Projector.{
  latest_from, split_from, round_input_id, HistoryArtifact, Round, input_artifact,
  assistant_artifact, tool_call_artifact, split_history_rounds, filter_latest_history_rounds,
  build_history_round_groups, HistoryRoundGroup, GroupType, new_group,
}
use turtlemap.Context.Projector.Messages.{
  history_round_messages, has_unavailable_tool_call, all_messages, history_input_messages,
  artifact_to_llm_messages, input_messages, event_to_llm_message, Wording, text_message,
}
use turtlemap.Context.Projector.History.{
  build_group_input_content, rounds_elements, round_elements, group_elements, show_rounds,
  build_history_messages, merge_group_input, show_groups,
}
use turtlemap.Context.Projector.Rounds.{
  flatten, from_first_input, IsRound, rounds_of, split-IsSplit, filter_latest-IsLatest,
}
use turtlemap.Context.Projector.HandedOn.{contents, IsHandedOn, merge_group_input-IsHandedOn}
use turtlemap.Context.Projector.Groups.{
  rounds_in, is_filled, IsAlternating, build_groups-IsAlternating,
}
use turtlemap.Context.Projector.Said.{Returns, AllCall, user, plain_input, plain_call}
use turtlemap.Context.Projector.Safe.{build_history-Returns}

abbrev plain : Wording
plain = record {
  request_text = λ r. "please answer";
  handed_over = λ c. "handed over";
  frame_element = λ c name. name;
  message_elements = λ m name. elim m.content [ none ↦ [] | some s ↦ (name <> s) ∷ [] ];
  with_group_input = λ s gs. elim gs [ [] ↦ s | g ∷ _ ↦ g <> s ];
  current_input = λ s gs. s;
  expired_text = "expired";
  result_text = λ r. r.content;
}

abbrev said : ℕ → String → HistoryArtifact
said i s = record {
  owner_agent_name = "root";
  body = input_artifact (record {
    input_id = i;
    origin_input_id = none;
    events =
        record {
          event_id = i;
          event_type = EventType.user_input;
          source = EventSource.user;
          payload = EventPayload.user_input s;
        }
        ∷ [];
  });
}

abbrev replied : String → HistoryArtifact
replied s = record {
  owner_agent_name = "root";
  body = assistant_artifact (text_message MessageRole.assistant s);
}

-- a call of a tool that is no longer there
abbrev called : HistoryArtifact
called = record {
  owner_agent_name = "root";
  body = tool_call_artifact (record (text_message MessageRole.assistant "") {
    tool_calls = record { id = "1"; name = some "gone"; arguments = none; type = none } ∷ [];
  });
}

abbrev history : List HistoryArtifact
history =
    replied "cut off"
    ∷ said 1 "one"
    ∷ called
    ∷ said 2 "two"
    ∷ replied "yes"
    ∷ said 1 "one"
    ∷ replied "again"
    ∷ []

split-IsSplit_example :
    (flatten (split_history_rounds history) ≡ from_first_input history)
    × All IsRound (split_history_rounds history)
split-IsSplit_example = split-IsSplit history

filter_latest-IsLatest_example :
    Sublist
      (filter_latest_history_rounds (some 9) (split_history_rounds history))
      (split_history_rounds history)
    × ((i : ℕ)
        → rounds_of i (filter_latest_history_rounds (some 9) (split_history_rounds history)) ≡ (
            if some i == some 9
            then []
            else reverse (take 1 (reverse (rounds_of i (split_history_rounds history))))))
filter_latest-IsLatest_example = filter_latest-IsLatest (some 9) (split_history_rounds history)

-- the second round of input 1 takes the place of the first
retried :
    filter_latest_history_rounds none (split_history_rounds history)
    ≡ (said 2 "two" ∷ replied "yes" ∷ []) ∷ (said 1 "one" ∷ replied "again" ∷ []) ∷ []
unfolding filter_latest_history_rounds latest_from split_history_rounds split_from round_input_id
retried = refl

build_history-Returns_example :
    Returns
      (λ s. AllCall ("search" ∷ []) s.0)
      (build_history_messages plain 0
        ("search" ∷ [])
        []
        (some "root")
        none
        (said 1 "one" ∷ called ∷ []))
build_history-Returns_example =
    build_history-Returns plain 0 ("search" ∷ []) [] (some "root") none (said 1 "one" ∷ called ∷ [])
      (
        plain_input
            (record {
              input_id = 1;
              origin_input_id = none;
              events =
                  record {
                    event_id = 1;
                    event_type = EventType.user_input;
                    source = EventSource.user;
                    payload = EventPayload.user_input "one";
                  }
                  ∷ [];
            })
            (user "one", tt),
        (
          plain_call (record (text_message MessageRole.assistant "") {
            tool_calls =
                record { id = "1"; name = some "gone"; arguments = none; type = none } ∷ [];
          }),
          tt,
        ),
      )

build_groups-IsAlternating_example :
    (rounds_in (build_history_round_groups (some "root") [] (split_history_rounds history))
      ≡ keep is_filled (split_history_rounds history))
    × IsAlternating
        (some "root")
        (build_history_round_groups (some "root") [] (split_history_rounds history))
build_groups-IsAlternating_example =
    build_groups-IsAlternating (some "root") [] (split_history_rounds history)

abbrev own : Round → HistoryRoundGroup
own r = new_group GroupType.normal "root" "Root" r

abbrev other : String → HistoryRoundGroup
other s = new_group GroupType.group_input "helper" "Helper: " (replied s ∷ [])

merge_group_input-IsHandedOn_example :
    (m : List HistoryRoundGroup × List String) × (merge_group_input plain 0
        (other "a" ∷ own (said 1 "one" ∷ []) ∷ other "b" ∷ [])
      ≡ value m)
    × IsHandedOn plain 0
        (other "a" ∷ own (said 1 "one" ∷ []) ∷ other "b" ∷ [])
        ("Helper: a" ∷ "Helper: b" ∷ [])
        m
unfolding contents build_group_input_content rounds_elements round_elements group_elements
    artifact_to_llm_messages
merge_group_input-IsHandedOn_example =
    merge_group_input-IsHandedOn plain 0 (other "a" ∷ own (said 1 "one" ∷ []) ∷ other "b" ∷ [])
      ("Helper: a" ∷ "Helper: b" ∷ []) (refl, (refl, (refl, tt))) refl

-- A round whose input answers an interruption has no message of the user, but it uses the group input up: what the other agent said reaches neither the history's messages nor the current input.
abbrev resumed : HistoryArtifact
resumed = record {
  owner_agent_name = "root";
  body = input_artifact (record {
    input_id = 1;
    origin_input_id = none;
    events =
        record {
          event_id = 1;
          event_type = EventType.interruption_response;
          source = EventSource.user;
          payload = EventPayload.dict "";
        }
        ∷ [];
  });
}

group_input_is_lost :
    show_groups plain 0 []
      (record (own (resumed ∷ replied "done" ∷ [])) { group_input = "Helper: a" ∷ [] } ∷ [])
      []
    ≡ value (text_message MessageRole.assistant "done" ∷ [], [])
unfolding show_groups show_rounds history_round_messages has_unavailable_tool_call all_messages
    history_input_messages artifact_to_llm_messages input_messages event_to_llm_message
group_input_is_lost = refl

-- Group input that a group could not show comes behind what was said later.
abbrev dropped : HistoryRoundGroup
dropped = record (own (resumed ∷ [])) { group_input = "first" ∷ [] }

group_input_changes_order :
    show_groups plain 0 [] (dropped ∷ []) ("second" ∷ []) ≡ value ([], "second" ∷ "first" ∷ [])
unfolding show_groups show_rounds history_round_messages has_unavailable_tool_call all_messages
    history_input_messages artifact_to_llm_messages input_messages event_to_llm_message
group_input_changes_order = refl
