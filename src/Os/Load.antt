-- ===== src/Os/Load.antt =====
-- os/service.py `load_session_state`: what of a stored session a new run is given.
pub mod Pending
pub mod Known
pub mod Ready
use turtlemap.Prelude.{
  ℕ, suc, ◌+◌, String, Bool, true, false, Option, none, some, List, [], ◌∷◌, map, get_last?, keep,
  leb, if◌then◌else◌, not,
}
use mathlib.Core.List.{reverse}
use turtlemap.Prelude.Eq.{string_eq}
use turtlemap.Prelude.Dict.{Dict, lookup, insert}
use turtlemap.Prelude.Kept.{is_some}
use turtlemap.Prelude.Try.{Try, value, error, and_then}
use turtlemap.Kernel.Model.{AgentFrame, MemoryView, TaskStatus}
use turtlemap.Kernel.Select.{is_paused, state_is_running}
use turtlemap.Events.{RuntimeEvent, EventBody, input_event}
use turtlemap.Os.{ProcessingTask, OsAgentState, OsSession}

-- Python's errors of `agent_frames[-1]` and of a name without its state
pub data LoadError : Type 0 where
  index_error kernel_runtime : LoadError

abbrev pub loaded : String → String → Option OsAgentState → OsAgentState
loaded n sys none = record { agent_name = n; system = sys; processing_tasks = [] }
loaded n sys (some a) = record a { system = sys }

-- `_load_agent_name2agent_state`, where `agents` are the names that can be reached, each once, with their systems
unfoldable pub load_agent_states :
    Dict String String → Dict String OsAgentState → Dict String OsAgentState
load_agent_states [] d = []
load_agent_states ((n, sys) ∷ agents) d =
    (n, loaded n sys (lookup n d)) ∷ load_agent_states agents d

-- a change of every agent's tasks
unfoldable pub each_tasks :
    (List ProcessingTask → List ProcessingTask)
    → Dict String OsAgentState
    → Dict String OsAgentState
each_tasks f [] = []
each_tasks f ((n, a) ∷ d) =
    (n, record a { processing_tasks = f a.processing_tasks }) ∷ each_tasks f d

abbrev pub set_tasks : (List ProcessingTask → List ProcessingTask) → OsSession → OsSession
set_tasks f s = record s { agent_name2agent_state = each_tasks f s.agent_name2agent_state }

-- `_reset_to_clean_root_session`
unfoldable pub reset_to_clean_root_session : String → OsSession → OsSession
reset_to_clean_root_session root s = record s {
  agent_frames = record { agent_name = root; from_agent_name = none } ∷ [];
  agent_name2agent_state = each_tasks (λ ts. []) s.agent_name2agent_state;
  input_queue = [];
}

abbrev pub all_known : List AgentFrame → Dict String OsAgentState → Bool
all_known [] d = true
all_known (f ∷ fs) d = if is_some (lookup f.agent_name d) then all_known fs d else false

abbrev pub sanitized : String → OsSession → List AgentFrame → OsSession
sanitized root s [] = reset_to_clean_root_session root s
sanitized root s (f ∷ fs) =
    if all_known (f ∷ fs) s.agent_name2agent_state then s else reset_to_clean_root_session root s

-- `_sanitize_agent_frames`; what the loop computes of the last frame is not used
unfoldable pub sanitize_agent_frames : String → OsSession → OsSession
sanitize_agent_frames root s = sanitized root s s.agent_frames

abbrev pub task_is_paused : ProcessingTask → Bool
task_is_paused t = is_paused t.task.state.status

-- the loop over `reversed(processing_tasks)`, with `n` paused tasks kept so far
unfoldable pub retain : ℕ → List ProcessingTask → List ProcessingTask
retain n [] = []
retain n (t ∷ ts) =
    let same = retain n ts in
    let more = retain (suc n) ts in
    if task_is_paused t then (if leb 5 n then same else t ∷ more) else t ∷ same

-- the tasks of an agent with its latest five paused ones
unfoldable pub limit_paused : List ProcessingTask → List ProcessingTask
limit_paused ts = reverse (retain 0 (reverse ts))

abbrev is_input_event : EventBody → Bool
is_input_event (input_event i) = true
is_input_event _ = false

abbrev starts_with_input : List RuntimeEvent → Bool
starts_with_input [] = false
starts_with_input (e ∷ es) = is_input_event e.body

-- the check of each task's buffer
abbrev pub has_input : ProcessingTask → Bool
has_input t = starts_with_input t.event_buffer.events

abbrev pub drop_unpaused : List ProcessingTask → List ProcessingTask
drop_unpaused ts = keep (λ t. not (state_is_running t.task.state.status)) ts

abbrev pub state_or_raise : Option OsAgentState → Try LoadError OsAgentState
state_or_raise none = error kernel_runtime
state_or_raise (some a) = value a

abbrev pub top_state_in : Dict String OsAgentState → Option AgentFrame → Try LoadError OsAgentState
top_state_in d none = error index_error
top_state_in d (some f) = state_or_raise (lookup f.agent_name d)

-- `top_agent_state`
unfoldable pub top_agent_state : OsSession → Try LoadError OsAgentState
top_agent_state s = top_state_in s.agent_name2agent_state (get_last? s.agent_frames)

abbrev pub name_of : Option AgentFrame → String
name_of none = ""
name_of (some f) = f.agent_name

abbrev pub stopped : OsSession → OsAgentState → OsSession
stopped s a = record s {
  input_queue = [];
  agent_name2agent_state =
      insert (name_of (get_last? s.agent_frames))
        (record a { processing_tasks = drop_unpaused a.processing_tasks }) s.agent_name2agent_state;
  run_id = none;
  finished_task_events = [];
}

-- `clean_state`: the queue, the tasks of the agent on top that are not paused, and the fields of the OS layer
unfoldable pub clean_state : OsSession → Try LoadError OsSession
clean_state s = and_then (top_agent_state s) λ a. value (stopped s a)

abbrev pub with_memory : String → OsSession → OsSession
with_memory text s = record s { memory = record s.memory { long_term_memory = text } }

-- `load_session_state`: `long_term_memory` is what the store has of the session, `run` the new run's id
unfoldable pub load_session_state :
    String → Dict String String → String → ℕ → Bool → OsSession → Try LoadError OsSession
load_session_state root agents long_term_memory run resume s =
    let loaded = record s {
      agent_name2agent_state = load_agent_states agents s.agent_name2agent_state;
    } in
    let limited = set_tasks limit_paused (sanitize_agent_frames root loaded) in
    let checked = set_tasks (keep has_input) (with_memory long_term_memory limited) in
    and_then (if resume then value checked else clean_state checked)
      λ s. value (record s { run_id = some run })
