-- ===== src/Context/Projector/Continued.antt =====
-- os/context/projector.py `_history_round_has_unavailable_tool_call`: a round in which the LLM behind a tool
-- calls another tool, which is no longer there.
use turtlemap.Prelude.{ℕ, ◌≡◌, refl, none, some, [], ◌∷◌}
use turtlemap.Prelude.Try.{value}
use turtlemap.Events.{MessageRole, CompletionMessage}
use turtlemap.Context.Projector.{HistoryArtifact, llm_response_artifact}
use turtlemap.Context.Projector.Messages.{
  history_round_messages, has_unavailable_tool_call, all_messages, history_input_messages,
  artifact_to_llm_messages, Wording, text_message,
}

abbrev calls_gone : CompletionMessage
calls_gone = record (text_message MessageRole.assistant "") {
  tool_calls = record { id = "1"; name = some "gone"; arguments = none; type = none } ∷ [];
}

abbrev continued : HistoryArtifact
continued = record {
  owner_agent_name = "root";
  body = llm_response_artifact (record { result = some (some calls_gone) });
}

-- The call is not seen, and is replayed.
call_replayed :
    (w : Wording) (now : ℕ)
    → history_round_messages w now ("search" ∷ []) [] (continued ∷ []) ≡ value (calls_gone ∷ [])
unfolding history_round_messages has_unavailable_tool_call all_messages history_input_messages
    artifact_to_llm_messages
call_replayed w now = refl
