-- ===== src/Context/Projector/Available.antt =====
-- os/context/projector.py: which tool calls the messages of a history hold.
use turtlemap.Prelude.{
  ℕ, String, ◌≡◌, refl, true, false, Option, none, some, List, [], ◌∷◌, ◌++◌, arith, All,
  All-append, Bool-cases, inl, inr,
}
use mathlib.Core.List.{reverse, reverse-cons}
use turtlemap.Prelude.Try.{Try, value, and_then}
use turtlemap.Prelude.Text.{is_blank}
use turtlemap.Events.{MessageRole, CompletionMessage, ToolResult}
use turtlemap.Context.Projector.{
  is_input_body, ArtifactBody, input_artifact, assistant_artifact, tool_call_artifact,
  tool_exe_artifact, llm_response_artifact, frame_change_artifact, request_artifact,
  HistoryArtifact, Round, ProjectorError, is_input,
}
use turtlemap.Context.Projector.Messages.{
  response_or, is_user, text_message, unless_blank, tool_message, hands_over,
  get_tool_result_content, Wording, optional, last_response, get_last_tool_llm_response_message,
  calls_available, has_unavailable_tool_call, has_expired_tool_result, artifact_to_llm_messages,
  put_group_input, if_any, history_input_messages, shown, all_messages, first_input_messages,
  history_round_messages,
}
use turtlemap.Context.Projector.Said.{
  Returns, returns, and_then-Returns, IsPlain, plain_input, plain_assistant, plain_call, plain_exe,
  plain_response, plain_change, plain_request, Plain, Calls, all_available-All, nil-Calls, AllCall,
  input-Returns,
}

module _ (w : Wording) (now : ℕ) (names : List String) where
  pub artifact-Returns :
      (b : ArtifactBody)
      → IsPlain names b
      → calls_available names b ≡ true
      → Returns (AllCall names) (artifact_to_llm_messages w now b)
  unfolding artifact_to_llm_messages
  artifact-Returns b (plain_input i h) k = input-Returns names i.events h
  artifact-Returns b (plain_assistant m h) k = returns (m ∷ []) (nil-Calls names m h, tt)
  artifact-Returns b (plain_call m) k =
      returns (m ∷ []) (all_available-All names m.tool_calls k, tt)
  artifact-Returns b (plain_exe u) k = go u.result
    where
      go :
          (o : Option ToolResult)
          → Returns (AllCall names) (elim o [
            | none ↦ value []
            | some r ↦ value (
                unless_blank
                  (get_tool_result_content w now r)
                  (tool_message w now u.tool_call_id r))
          ])
      go none = returns [] tt
      go (some r) = elim (Bool-cases (is_blank (get_tool_result_content w now r))) [
        | inl empty ↦ rw empty (returns [] tt)
        | inr text ↦ rw text (returns (tool_message w now u.tool_call_id r ∷ []) (tt, tt))
      ]
  artifact-Returns b (plain_response u m e h) k = rw e (returns (m ∷ []) (h, tt))
  artifact-Returns b (plain_change c) k = elim (Bool-cases (hands_over c.type c.reason)) [
    | inl over ↦
        rw over (returns (text_message MessageRole.assistant (w.handed_over c) ∷ []) (tt, tt))
    | inr other ↦ rw other (returns [] tt)
  ]
  artifact-Returns b (plain_request r) k =
      returns (text_message MessageRole.assistant (w.request_text r) ∷ []) (tt, tt)

  put-AllCall :
      (gs : List String) (ms : List CompletionMessage)
      → AllCall names ms
      → AllCall names (if_any w now gs ms)
  put-AllCall [] ms h = h
  put-AllCall (g ∷ gs) ms h = go ms h
    where
      go :
          (ms : List CompletionMessage)
          → AllCall names ms
          → AllCall names (put_group_input w now (g ∷ gs) ms)
      go [] h = tt
      go (m ∷ ms) h = elim (Bool-cases (is_user m.role)) [
        | inl first ↦ rw first h
        | inr other ↦ rw other (h.0, go ms h.1)
      ]

  input_artifact-Returns :
      (gs : List String) (b : ArtifactBody)
      → IsPlain names b
      → calls_available names b ≡ true
      → Returns (AllCall names) (history_input_messages w now gs b)
  unfolding history_input_messages
  input_artifact-Returns gs b h k =
      and_then-Returns (AllCall names) (AllCall names) (artifact_to_llm_messages w now b)
        (λ ms. value (if_any w now gs ms)) (artifact-Returns b h k)
        λ ms p. returns (if_any w now gs ms) (put-AllCall gs ms p)

  shown-Returns :
      (gs : List String) (a : HistoryArtifact)
      → Plain names a
      → calls_available names a.body ≡ true
      → Returns (AllCall names) (shown w now gs a)
  shown-Returns gs a h k = elim (Bool-cases (is_input a)) [
    | inl input ↦ rw input (input_artifact-Returns gs a.body h k)
    | inr other ↦ rw other (artifact-Returns a.body h k)
  ]

  -- the calls of a round without an unavailable one
  available_tail :
      (a : HistoryArtifact) (r : Round)
      → has_unavailable_tool_call names (a ∷ r) ≡ false
      → (calls_available names a.body ≡ true) × (has_unavailable_tool_call names r ≡ false)
  unfolding has_unavailable_tool_call
  available_tail a r h = elim (Bool-cases (calls_available names a.body)) [
    | inl found ↦ (found, rw found at h)
    | inr missing ↦ absurd (ground arith)
  ]

  all-Returns :
      (gs : List String) (r : Round)
      → All (Plain names) r
      → has_unavailable_tool_call names r ≡ false
      → Returns (AllCall names) (all_messages w now gs r)
  unfolding all_messages
  all-Returns gs [] h k = returns [] tt
  all-Returns gs (a ∷ r) h k =
      let (here, rest) = available_tail a r k in
      and_then-Returns (AllCall names) (AllCall names) (shown w now gs a)
        (λ ms. and_then (all_messages w now gs r) λ rest. value (ms ++ rest))
        (shown-Returns gs a h.0 here)
        λ ms p.
          and_then-Returns (AllCall names) (AllCall names) (all_messages w now gs r)
            (λ rest. value (ms ++ rest)) (all-Returns gs r h.1 rest)
            λ rest q. returns (ms ++ rest) (All-append (Calls names) ms rest p q)

  -- an input holds no calls
  first_input-Returns :
      (gs : List String) (r : Round)
      → All (Plain names) r
      → Returns (AllCall names) (first_input_messages w now gs r)
  first_input-Returns gs [] h = returns [] tt
  first_input-Returns gs (a ∷ r) h = elim (Bool-cases (is_input a)) [
    | inl input ↦ rw input (input_artifact-Returns gs a.body h.0 (go a.body input))
    | inr other ↦ rw other (first_input-Returns gs r h.1)
  ]
    where
      go : (b : ArtifactBody) → is_input_body b ≡ true → calls_available names b ≡ true
      go (input_artifact i) e = refl
      go (assistant_artifact m) e = refl
      go (tool_exe_artifact u) e = refl
      go (llm_response_artifact u) e = refl
      go (frame_change_artifact c) e = refl
      go (request_artifact c) e = refl
      go (tool_call_artifact m) e = absurd (cc)

  response_or-Returns :
      (b : ArtifactBody) (t : Try ProjectorError (Option CompletionMessage))
      → IsPlain names b
      → Returns (λ m. AllCall names (optional m)) t
      → Returns (λ m. AllCall names (optional m)) (response_or b t)
  response_or-Returns b t (plain_response u m e k) rest =
      rw e (returns (some (record m { tool_calls = [] })) (tt, tt))
  response_or-Returns b t (plain_input i k) rest = rest
  response_or-Returns b t (plain_assistant m k) rest = rest
  response_or-Returns b t (plain_call m) rest = rest
  response_or-Returns b t (plain_exe u) rest = rest
  response_or-Returns b t (plain_change c) rest = rest
  response_or-Returns b t (plain_request c) rest = rest

  response-Returns :
      (r : Round)
      → All (Plain names) r
      → Returns (λ m. AllCall names (optional m)) (last_response r)
  response-Returns [] h = returns none tt
  response-Returns (a ∷ r) h =
      response_or-Returns a.body (last_response r) h.0 (response-Returns r h.1)

pub reverse-All : {A : Type 0} (P : A → Type 0) (xs : List A) → All P xs → All P (reverse xs)
reverse-All P [] h = tt
reverse-All P (x ∷ xs) h =
    rw (reverse-cons x xs) (All-append P (reverse xs) (x ∷ []) (reverse-All P xs h.1) (h.0, tt))

module _ (w : Wording) (now : ℕ) (names : List String) where
  pub round-Returns :
      (gs : List String) (r : Round)
      → All (Plain names) r
      → Returns (AllCall names) (history_round_messages w now names gs r)
  unfolding history_round_messages get_last_tool_llm_response_message
  round-Returns gs r h = elim (Bool-cases (has_unavailable_tool_call names r)) [
    | inl unavailable ↦ elim (Bool-cases (has_expired_tool_result now r)) [
      | inl expired ↦ rw (unavailable, expired) (returns [] tt)
      | inr valid ↦
          rw (unavailable, valid)
            (and_then-Returns (AllCall names) (AllCall names) (first_input_messages w now gs r)
              (λ ms. and_then (last_response (reverse r)) λ m. value (ms ++ optional m))
              (first_input-Returns w now names gs r h)
              λ ms p.
                and_then-Returns (λ m. AllCall names (optional m)) (AllCall names)
                  (last_response (reverse r)) (λ m. value (ms ++ optional m))
                  (response-Returns w now names (reverse r) (reverse-All (Plain names) r h))
                  λ m q. returns (ms ++ optional m) (All-append (Calls names) ms (optional m) p q))
    ]
    | inr available ↦ rw available (all-Returns w now names gs r h available)
  ]
