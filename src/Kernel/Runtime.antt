-- ===== src/Kernel/Runtime.antt =====
-- kernel/runtime.py: `run`, its loop, and how a new input is taken.
pub mod Preserve
mod Queue
mod Idle
mod Examples
use turtlemap.Prelude.{ℕ, zero, suc, String, Bool, true, false, Option, none, some, List, [], ◌∷◌}
use turtlemap.Prelude.Eq.{◌==◌, string_eq}
use turtlemap.Prelude.Dict.{lookup}
use turtlemap.Kernel.Model.{EventType, ObservableEvent, Input, AgentState, Task}
use turtlemap.Kernel.Exec.{
  key_error, index_error, unsupported_operation, pure, raise, gets, require, reads, ◌>>=◌, ◌>>◌,
}
use turtlemap.Kernel.State.{Act, generate_id, restore_runtime_input_queue, push_input, pop_input}
use turtlemap.Kernel.Select.{pick_completed_task, pick_available_running_task}
use turtlemap.Kernel.Hooks.{Hooks}
use turtlemap.Kernel.Frames.{top_frame}
use turtlemap.Kernel.Interruption.{first_event, resume_runtime}
use turtlemap.Kernel.Tasks.{start_new_task}
use turtlemap.Kernel.Completion.{advance_completed_task, advance_running_task}

abbrev known_agent : String → List String → Option String
known_agent a [] = none
known_agent a (k ∷ ks) = elim (k == a) [ true ↦ some k | false ↦ known_agent a ks ]

-- `resolve_owner_agent`
unfoldable pub resolve_owner_agent : Act String
resolve_owner_agent = do
  frame ← top_frame
  names ← gets (λ r. r.agent_names)
  require key_error (known_agent frame.agent_name names)

-- `self.session_state.agent_name2agent_state[owner_agent.agent_name]`
abbrev owner_state : String → Act AgentState
owner_state a = reads key_error (λ r. lookup a r.session.agent_states)

abbrev dispatch_input : Hooks → String → String → Input → EventType → Act (Unit {0})
dispatch_input h a n x EventType.user_input = start_new_task h a n x
dispatch_input h a n x EventType.interruption_response = resume_runtime h x
dispatch_input h a n x EventType.environment_message = raise unsupported_operation

-- `_process_new_input`
unfoldable pub process_new_input : Hooks → String → String → Act (Unit {0})
process_new_input h a n = do
  x ← pop_input
  e ← require index_error (first_event x.events)
  dispatch_input h a n x e.event_type

abbrev no_input : List Input → Bool
no_input [] = true
no_input (x ∷ xs) = false

abbrev take_new_input : Hooks → String → AgentState → Bool → Act Bool
take_new_input h a s true = pure false
take_new_input h a s false = do process_new_input h a s.agent_name; pure true

abbrev run_or_take : Hooks → String → AgentState → Option Task → Act Bool
run_or_take h a s (some t) = do advance_running_task h a t.task_id; pure true
run_or_take h a s none = do
  queue ← gets (λ r. r.runtime_input_queue)
  take_new_input h a s (no_input queue)

abbrev complete_or_run : Hooks → String → AgentState → Option Task → Act Bool
complete_or_run h a s (some t) = do advance_completed_task h a t.task_id; pure true
complete_or_run h a s none = run_or_take h a s (pick_available_running_task s.processing_tasks)

-- One turn of the loop of `run`: `false` is the `break`.
unfoldable pub turn : Hooks → Act Bool
turn h = do
  a ← resolve_owner_agent
  s ← owner_state a
  complete_or_run h a s (pick_completed_task s.processing_tasks)

-- `continue` or `break`
abbrev go_on : Bool → Act Bool → Act Bool
go_on true rest = rest
go_on false rest = pure true

-- `while True`, for as many turns as there is fuel; the answer says whether the loop has ended.
unfoldable pub loop : Hooks → ℕ → Act Bool
loop h zero = pure false
loop h (suc fuel) = do more ← turn h; go_on more (loop h fuel)

abbrev push_events : List ObservableEvent → Act (Unit {0})
push_events [] = pure tt
push_events (e ∷ es) = do
  i ← generate_id
  push_input (record { input_id = i; origin_input_id = none; events = e ∷ es })

-- `run`
unfoldable pub run : Hooks → ℕ → List ObservableEvent → Act Bool
run h fuel events = do
  restore_runtime_input_queue
  push_events events
  h.commit_runtime_checkpoint
  loop h fuel
