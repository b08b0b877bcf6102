-- ===== src/Kernel/State.antt =====
-- The state of kernel/runtime.py's `BaseRuntime`: the session, the in-memory input queue, and the
-- tasks that agent states hold. A Python reference to a task is its agent's name and its id.
pub mod Preserve
pub mod Reference
use turtlemap.Prelude.{
  ℕ, ◌+◌, String, Option, none, some, List, [], ◌∷◌, ◌++◌, find?, keep, not, if◌then◌else◌,
}
use turtlemap.Prelude.Eq.{◌==◌, nat_eq, string_eq}
use turtlemap.Prelude.Dict.{Dict, lookup}
use turtlemap.Kernel.Model.{Input, Task, AgentFrame, AgentState, SessionState}
use turtlemap.Kernel.Exec.{Exec, ok, err, kernel_runtime, detached, reads, modify}

-- `root_agent` is its name; `agent_names` are the keys of `agent_name2agent`. Identifiers come from
-- a supply that never repeats one, `next_id`, as `uuid4` is documented to do.
pub record Runtime : Type 0 where
  pub agent_names : List String
  pub session : SessionState
  pub runtime_input_queue : List Input
  pub next_id : ℕ

abbrev pub Act : Type 0 → Type 0
Act A = Exec Runtime A

-- `generate_prefixed_id`
unfoldable pub generate_id : Act ℕ
generate_id r = (ok r.next_id, record r { next_id = r.next_id + 1 })

abbrev pub set_session : (SessionState → SessionState) → Runtime → Runtime
set_session f r = record r { session = f r.session }

-- `session_state.agent_frames.append(...)` and `.pop()`
unfoldable pub set_frames : (List AgentFrame → List AgentFrame) → Act (Unit {0})
set_frames f = modify (set_session (λ s. record s { agent_frames = f s.agent_frames }))

-- `_restore_runtime_input_queue`
unfoldable pub restore_runtime_input_queue : Act (Unit {0})
restore_runtime_input_queue r = (ok tt, record r { runtime_input_queue = r.session.input_queue })

-- `_push_input`
unfoldable pub push_input : Input → Act (Unit {0})
push_input i r = (
  ok tt,
  record r {
    runtime_input_queue = r.runtime_input_queue ++ i ∷ [];
    session = record r.session { input_queue = r.session.input_queue ++ i ∷ [] };
  },
)

-- the `for` loop of `_pop_input`: the first input with the id is taken out
unfoldable pub remove_input : ℕ → List Input → List Input
remove_input i [] = []
remove_input i (x ∷ xs) = let rest = remove_input i xs in if x.input_id == i then xs else x ∷ rest

unfoldable pub take_input : List Input → Act Input
take_input [] r = (err kernel_runtime, r)
take_input (i ∷ rest) r = (
  ok i,
  record r {
    runtime_input_queue = rest;
    session = record r.session { input_queue = remove_input i.input_id r.session.input_queue };
  },
)

-- `_pop_input`
unfoldable pub pop_input : Act Input
unfolding take_input
pop_input r = take_input r.runtime_input_queue r

-- Writing through a reference changes the task where it stands.
unfoldable pub update_tasks : ℕ → (Task → Task) → List Task → List Task
update_tasks i f [] = []
update_tasks i f (t ∷ ts) =
    let rest = update_tasks i f ts in if t.task_id == i then f t ∷ rest else t ∷ rest

unfoldable pub update_agents :
    String → (AgentState → AgentState) → Dict String AgentState → Dict String AgentState
update_agents a f [] = []
update_agents a f ((k, s) ∷ d) =
    let rest = update_agents a f d in if k == a then (k, f s) ∷ rest else (k, s) ∷ rest

abbrev pub set_agents : (Dict String AgentState → Dict String AgentState) → Runtime → Runtime
set_agents f r = record r { session = record r.session { agent_states = f r.session.agent_states } }

abbrev pub update_agent_tasks : (List Task → List Task) → AgentState → AgentState
update_agent_tasks f s = record s { processing_tasks = f s.processing_tasks }

unfoldable pub set_tasks : String → (List Task → List Task) → Act (Unit {0})
set_tasks a f = modify (set_agents (update_agents a (update_agent_tasks f)))

unfoldable pub set_task : String → ℕ → (Task → Task) → Act (Unit {0})
unfolding set_tasks
set_task a i f = set_tasks a (update_tasks i f)

-- `session_state.agent_name2agent_state[a]` is read without a test by the callers
abbrev pub find_task : ℕ → List Task → Option Task
find_task i = find? (λ (t : Task). t.task_id == i)

abbrev tasks_of : Option AgentState → List Task
tasks_of none = []
tasks_of (some s) = s.processing_tasks

unfoldable pub held_task : String → ℕ → Runtime → Option Task
held_task a i r = find_task i (tasks_of (lookup a r.session.agent_states))

unfoldable pub read_task : String → ℕ → Act Task
unfolding held_task
read_task a i = reads detached (held_task a i)

-- `_overrideable_pop_task`
unfoldable pub pop_task : String → ℕ → Act (Unit {0})
unfolding set_tasks
pop_task a i = set_tasks a (keep (λ (t : Task). not (t.task_id == i)))
