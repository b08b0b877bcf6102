-- ===== src/Kernel/Select.antt =====
-- The choices of kernel/runtime.py: which task, which execution unit, which interruption request.
use turtlemap.Prelude.{ℕ, String, Bool, true, false, Option, none, some, List, [], ◌∷◌, find?, ◌&&◌}
use turtlemap.Prelude.Eq.{◌==◌, nat_eq}
use turtlemap.Prelude.Dict.{Dict}
use turtlemap.Kernel.Model.{
  TaskStatus, UnitStatus, StateBody, message_state, tool_state, auto_response_state, ExecutionUnit,
  InterruptionRequest, Task, AgentState,
}

abbrev pub is_completed : TaskStatus → Bool
is_completed TaskStatus.completed = true
is_completed _ = false

abbrev pub is_running : TaskStatus → Bool
is_running TaskStatus.running = true
is_running _ = false

abbrev pub is_paused : TaskStatus → Bool
is_paused TaskStatus.paused = true
is_paused _ = false

-- `BaseTaskState.is_running`: completed states count too
abbrev pub state_is_running : TaskStatus → Bool
state_is_running TaskStatus.paused = false
state_is_running _ = true

abbrev pub is_pending : UnitStatus → Bool
is_pending UnitStatus.pending = true
is_pending _ = false

-- `ExecutionUnit.is_finished`
abbrev pub is_finished : UnitStatus → Bool
is_finished UnitStatus.completed = true
is_finished UnitStatus.failed = true
is_finished _ = false

-- `_pick_completed_task`
unfoldable pub pick_completed_task : List Task → Option Task
pick_completed_task = find? (λ (t : Task). is_completed t.state.status)

-- `_pick_next_execution_unit`
unfoldable pub pick_next_execution_unit : List ExecutionUnit → Option ExecutionUnit
pick_next_execution_unit = find? (λ (u : ExecutionUnit). is_pending u.status)

abbrev is_some {ℓ} : {A : Type ℓ} → Option A → Bool
is_some none = false
is_some (some a) = true

-- the `match` of `_pick_available_running_task`; a `ToolState` is known by its constructor
unfoldable pub is_available : StateBody → Bool
unfolding pick_next_execution_unit
is_available (message_state m o) = true
is_available (tool_state c units o) = is_some (pick_next_execution_unit units)
is_available auto_response_state = false

-- `_pick_available_running_task`
unfoldable pub pick_available_running_task : List Task → Option Task
unfolding is_available
pick_available_running_task =
    find? (λ (t : Task). is_running t.state.status && is_available t.state.body)

-- What `_find_interruption_request` finds: the key of the agent state, and the three objects.
pub record Match : Type 0 where
  pub key : String
  pub task : Task
  pub request : InterruptionRequest
  pub agent_state : AgentState

abbrev has_id : ℕ → Option InterruptionRequest → Bool
has_id i none = false
has_id i (some q) = q.request_id == i

abbrev pub awaits : ℕ → Task → Bool
awaits i t = is_paused t.state.status && has_id i t.interruption_request

abbrev pub match_of : String → AgentState → Task → Option InterruptionRequest → Option Match
match_of k s t none = none
match_of k s t (some q) = some (record { key = k; task = t; request = q; agent_state = s })

abbrev pub found_in : String → AgentState → Option Task → Option Match
found_in k s none = none
found_in k s (some t) = match_of k s t t.interruption_request

abbrev pub first_match : Option Match → Option Match → Option Match
first_match none n = n
first_match (some m) n = some m

-- `_find_interruption_request`
unfoldable pub find_interruption_request : ℕ → Dict String AgentState → Option Match
find_interruption_request i [] = none
find_interruption_request i ((k, s) ∷ d) =
    first_match (found_in k s (find? (awaits i) s.processing_tasks)) (find_interruption_request i d)
