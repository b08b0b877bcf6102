-- ===== src/Context/Projector/Safe.antt =====
-- os/context/projector.py `_build_history_llm_messages`: the messages of a whole history.
use turtlemap.Prelude.{
  ℕ, String, refl, Option, none, List, [], ◌∷◌, ◌++◌, All, All-append, Bool-cases, inl, inr,
}
use mathlib.Core.List.{reverse}
use turtlemap.Prelude.Dict.{Dict}
use turtlemap.Prelude.Try.{Try, value, and_then}
use turtlemap.Context.Projector.{
  ArtifactBody, input_artifact, HistoryArtifact, Round, ProjectorError, split_from,
  split_history_rounds, latest_from, filter_latest_history_rounds, GroupType, HistoryRoundGroup,
  groups_from, build_history_round_groups,
}
use turtlemap.Context.Projector.Messages.{Wording, artifact_to_llm_messages, history_round_messages}
use turtlemap.Context.Projector.History.{
  message_elements, from_handoff, concat_elements, group_elements, round_elements, rounds_elements,
  build_group_input_content, join_lines, Merged, pending_with, merge_one, merge_from,
  merge_group_input, left_over, show_rounds, show_groups, build_history_messages,
}
use turtlemap.Context.Projector.Said.{
  Returns, returns, and_then-Returns, IsPlain, plain_input, plain_assistant, plain_call, plain_exe,
  plain_response, plain_change, plain_request, Plain, Calls, AllCall,
}
use turtlemap.Context.Projector.Available.{artifact-Returns, round-Returns, reverse-All}
use turtlemap.Context.Projector.Plain.{
  PlainRound, split-PlainRound, latest-PlainRound, PlainGroup, groups-PlainRound,
}

abbrev Any {ℓ} : {A : Type ℓ} → A → Type 0
Any a = Unit

weaken : {A : Type 0} (P : A → Type 0) (t : Try ProjectorError A) → Returns P t → Returns Any t
weaken P t (returns a p) = returns a tt

module _ (w : Wording) (now : ℕ) (names : List String) where
  artifact-total :
      (b : ArtifactBody) → IsPlain names b → Returns Any (artifact_to_llm_messages w now b)
  unfolding artifact_to_llm_messages
  artifact-total b (plain_call m) = returns (m ∷ []) tt
  artifact-total b (plain_input i h) =
      weaken (AllCall []) (artifact_to_llm_messages w now b)
        (artifact-Returns w now [] b (plain_input i h) refl)
  artifact-total b (plain_assistant m h) =
      weaken (AllCall []) (artifact_to_llm_messages w now b)
        (artifact-Returns w now [] b (plain_assistant m h) refl)
  artifact-total b (plain_exe u) =
      weaken (AllCall []) (artifact_to_llm_messages w now b)
        (artifact-Returns w now [] b (plain_exe u) refl)
  artifact-total b (plain_response u m e h) = rw e (returns (m ∷ []) tt)
  artifact-total b (plain_change c) =
      weaken (AllCall []) (artifact_to_llm_messages w now b)
        (artifact-Returns w now [] b (plain_change c) refl)
  artifact-total b (plain_request r) =
      weaken (AllCall []) (artifact_to_llm_messages w now b)
        (artifact-Returns w now [] b (plain_request r) refl)

  elements-total :
      (name : String) (b : ArtifactBody)
      → IsPlain names b
      → Returns Any (message_elements w now name b)
  elements-total name b h =
      and_then-Returns Any Any (artifact_to_llm_messages w now b)
        (λ ms. value (concat_elements (λ m. w.message_elements m name) ms)) (artifact-total b h)
        λ ms u. returns (concat_elements (λ m. w.message_elements m name) ms) tt

  group_elements-total :
      (name : String) (b : ArtifactBody)
      → IsPlain names b
      → Returns Any (group_elements w now name b)
  unfolding group_elements
  group_elements-total name b (plain_input i h) = elim (Bool-cases (from_handoff i.events)) [
    | inl handoff ↦ rw handoff (returns [] tt)
    | inr other ↦ rw other (elements-total name (input_artifact i) (plain_input i h))
  ]
  group_elements-total name b (plain_change c) = returns (w.frame_element c name ∷ []) tt
  group_elements-total name b (plain_assistant m h) = elements-total name b (plain_assistant m h)
  group_elements-total name b (plain_call m) = elements-total name b (plain_call m)
  group_elements-total name b (plain_exe u) = elements-total name b (plain_exe u)
  group_elements-total name b (plain_response u m e h) =
      elements-total name b (plain_response u m e h)
  group_elements-total name b (plain_request r) = elements-total name b (plain_request r)

  round-total :
      (name : String) (r : Round) → PlainRound names r → Returns Any (round_elements w now name r)
  unfolding round_elements
  round-total name [] h = returns [] tt
  round-total name (a ∷ r) h =
      and_then-Returns Any Any (group_elements w now name a.body)
        (λ xs. and_then (round_elements w now name r) λ rest. value (xs ++ rest))
        (group_elements-total name a.body h.0)
        λ xs u.
          and_then-Returns Any Any (round_elements w now name r) (λ rest. value (xs ++ rest))
            (round-total name r h.1) λ rest v. returns (xs ++ rest) tt

  rounds-total :
      (name : String) (rs : List Round)
      → All (PlainRound names) rs
      → Returns Any (rounds_elements w now name rs)
  unfolding rounds_elements
  rounds-total name [] h = returns [] tt
  rounds-total name (r ∷ rs) h =
      and_then-Returns Any Any (round_elements w now name r)
        (λ xs. and_then (rounds_elements w now name rs) λ rest. value (xs ++ rest))
        (round-total name r h.0)
        λ xs u.
          and_then-Returns Any Any (rounds_elements w now name rs) (λ rest. value (xs ++ rest))
            (rounds-total name rs h.1) λ rest v. returns (xs ++ rest) tt

  content-total :
      (g : HistoryRoundGroup) → PlainGroup names g → Returns Any (build_group_input_content w now g)
  unfolding build_group_input_content
  content-total g h =
      and_then-Returns Any Any (rounds_elements w now g.owner_agent_display_name g.rounds)
        (λ xs. value (join_lines xs)) (rounds-total g.owner_agent_display_name g.rounds h)
        λ xs u. returns (join_lines xs) tt

  merge_one-Returns :
      (g : HistoryRoundGroup) (pending : List String) (rest : List String → Merged w now)
      (t : GroupType)
      → PlainGroup names g
      → ((p : List String) → Returns (λ m. All (PlainGroup names) m.0) (rest p))
      → Returns (λ m. All (PlainGroup names) m.0) (merge_one w now g pending rest t)
  merge_one-Returns g pending rest GroupType.group_input h k =
      and_then-Returns Any (λ m. All (PlainGroup names) m.0) (build_group_input_content w now g)
        (λ s. rest (pending_with w now s pending)) (content-total g h)
        λ s u. k (pending_with w now s pending)
  merge_one-Returns g pending rest GroupType.normal h k =
      and_then-Returns (λ m. All (PlainGroup names) m.0) (λ m. All (PlainGroup names) m.0) (rest [])
        (λ m. value (record g { group_input = g.group_input ++ pending } ∷ m.0, m.1)) (k [])
        λ m q. returns (record g { group_input = g.group_input ++ pending } ∷ m.0, m.1) (h, q)

  merge-Returns :
      (pending : List String) (gs : List HistoryRoundGroup)
      → All (PlainGroup names) gs
      → Returns (λ m. All (PlainGroup names) m.0) (merge_from w now pending gs)
  unfolding merge_from
  merge-Returns pending [] h = returns ([], pending) tt
  merge-Returns pending (g ∷ gs) h =
      merge_one-Returns g pending (λ p. merge_from w now p gs) g.type h.0
        λ p. merge-Returns p gs h.1

  show_rounds-Returns :
      (gs : List String) (rs : List Round)
      → All (PlainRound names) rs
      → Returns (λ s. AllCall names s.0) (show_rounds w now names gs rs)
  unfolding show_rounds
  show_rounds-Returns gs [] h = returns ([], gs) tt
  show_rounds-Returns gs (r ∷ rs) h =
      and_then-Returns (AllCall names) (λ s. AllCall names s.0)
        (history_round_messages w now names gs r)
        (λ ms.
          and_then (show_rounds w now names (left_over w now gs ms) rs)
            λ rest. value (ms ++ rest.0, rest.1))
        (round-Returns w now names gs r h.0)
        λ ms p.
          and_then-Returns (λ s. AllCall names s.0) (λ s. AllCall names s.0)
            (show_rounds w now names (left_over w now gs ms) rs)
            (λ rest. value (ms ++ rest.0, rest.1))
            (show_rounds-Returns (left_over w now gs ms) rs h.1)
            λ rest q. returns (ms ++ rest.0, rest.1) (All-append (Calls names) ms rest.0 p q)

  show_groups-Returns :
      (gs : List HistoryRoundGroup) (current : List String)
      → All (PlainGroup names) gs
      → Returns (λ s. AllCall names s.0) (show_groups w now names gs current)
  unfolding show_groups
  show_groups-Returns [] current h = returns ([], current) tt
  show_groups-Returns (g ∷ gs) current h =
      and_then-Returns (λ s. AllCall names s.0) (λ s. AllCall names s.0)
        (show_rounds w now names g.group_input g.rounds)
        (λ shown.
          and_then (show_groups w now names gs (current ++ shown.1))
            λ rest. value (shown.0 ++ rest.0, rest.1))
        (show_rounds-Returns g.group_input g.rounds h.0)
        λ shown p.
          and_then-Returns (λ s. AllCall names s.0) (λ s. AllCall names s.0)
            (show_groups w now names gs (current ++ shown.1))
            (λ rest. value (shown.0 ++ rest.0, rest.1))
            (show_groups-Returns gs (current ++ shown.1) h.1)
            λ rest q.
              returns (shown.0 ++ rest.0, rest.1) (All-append (Calls names) shown.0 rest.0 p q)

  -- If the inputs of a history are said by users or answer interruptions, and calls stand only in
  -- the artifacts of tool calls and in the responses of the LLM behind a tool, each of which has
  -- its message and calls only tools of the list, then its messages are made, for whatever agent,
  -- and none of them calls a tool that is not available.
  pub build_history-Returns :
      (displays : Dict String String) (current : Option String) (excluded : Option ℕ)
      (h : List HistoryArtifact)
      → All (Plain names) h
      → Returns
          (λ s. AllCall names s.0)
          (build_history_messages w now names displays current excluded h)
  unfolding build_history_messages split_history_rounds filter_latest_history_rounds
      build_history_round_groups merge_group_input
  build_history-Returns displays current excluded h p =
      let rounds = reverse (latest_from excluded [] (reverse (split_from [] h))) in
      let plain : All (PlainRound names) rounds =
        reverse-All (PlainRound names) (latest_from excluded [] (reverse (split_from [] h))) (
          latest-PlainRound names excluded [] (reverse (split_from [] h)) (
            reverse-All (PlainRound names) (split_from [] h) (split-PlainRound names [] h tt p))) in
      let groups = groups_from current displays none rounds in
      and_then-Returns (λ m. All (PlainGroup names) m.0) (λ s. AllCall names s.0)
        (merge_from w now [] groups) (λ merged. show_groups w now names merged.0 merged.1)
        (merge-Returns [] groups (groups-PlainRound names current displays none rounds tt plain))
        λ merged q. show_groups-Returns merged.0 merged.1 q
