-- ===== src/Os/Runtime.antt =====
-- os/runtime.py and os/models.py `ProcessingTask.publish`: what observers are sent. A task is found by its id. `sent` is what the listeners of the bus have been given, oldest first.
pub mod Buffer
pub mod Sent
pub mod Replay
pub mod Finished
pub mod Rollback
mod Examples
use turtlemap.Prelude.{
  ℕ, String, ◌+◌, Bool, true, false, Option, none, some, List, [], ◌∷◌, ◌++◌, map, find?,
  if◌then◌else◌,
}
use turtlemap.Prelude.Eq.{◌==◌, nat_eq, option_eq, string_eq}
use turtlemap.Prelude.Dict.{Dict, lookup}
use turtlemap.Prelude.Try.{Try, value, error}
use turtlemap.Kernel.Model.{
  Input, ObservableEvent, EventType, RuntimeArtifact, RequestType, InterruptionRequest, TaskStatus,
  Task, TaskState,
}
use turtlemap.Kernel.Select.{is_running}
use turtlemap.Kernel.Exec.{
  Error, index_error, detached, raised, Exec, Result, ok, err, pure, raise, gets, require, reads,
  modify, ◌>>=◌, ◌>>◌,
}
use turtlemap.Events.{
  RuntimeEvent, RuntimeEventPhase, EventBody, input_event, interrupted_event, EventBuffer,
}
use turtlemap.Os.{ProcessingTask, OsAgentState, OsSession}
use turtlemap.Os.Load.{LoadError, top_agent_state}

pub record OsRuntime : Type 0 where
  pub session : OsSession
  pub last_session_state : Option OsSession
  pub sent : List RuntimeEvent
  pub next_id : ℕ

abbrev pub Act : Type 0 → Type 0
Act A = Exec OsRuntime A

-- The first task that has the id, of the first agent that has one.
unfoldable pub find_in_tasks : ℕ → List ProcessingTask → Option ProcessingTask
find_in_tasks i [] = none
find_in_tasks i (t ∷ ts) = if t.task.task_id == i then some t else find_in_tasks i ts

abbrev pub or_in {ℓ} : {A : Type ℓ} → Option A → Option A → Option A
or_in none y = y
or_in (some x) y = some x

unfoldable pub find_in_agents : ℕ → Dict String OsAgentState → Option ProcessingTask
find_in_agents i [] = none
find_in_agents i ((n, a) ∷ d) = or_in (find_in_tasks i a.processing_tasks) (find_in_agents i d)

-- a write through the reference to that task
unfoldable pub update_in_tasks :
    ℕ → (ProcessingTask → ProcessingTask) → List ProcessingTask → List ProcessingTask
update_in_tasks i f [] = []
update_in_tasks i f (t ∷ ts) = if t.task.task_id == i then f t ∷ ts else t ∷ update_in_tasks i f ts

abbrev pub has_task : Option ProcessingTask → Bool
has_task none = false
has_task (some t) = true

unfoldable pub update_in_agents :
    ℕ → (ProcessingTask → ProcessingTask) → Dict String OsAgentState → Dict String OsAgentState
update_in_agents i f [] = []
update_in_agents i f ((n, a) ∷ d) =
    let rest = update_in_agents i f d in
    if has_task (find_in_tasks i a.processing_tasks)
    then (n, record a { processing_tasks = update_in_tasks i f a.processing_tasks }) ∷ d
    else (n, a) ∷ rest

abbrev pub find_task : ℕ → OsSession → Option ProcessingTask
find_task i s = find_in_agents i s.agent_name2agent_state

abbrev pub update_task : ℕ → (ProcessingTask → ProcessingTask) → OsSession → OsSession
update_task i f s = record s {
  agent_name2agent_state = update_in_agents i f s.agent_name2agent_state;
}

abbrev pub with_event : RuntimeEvent → ProcessingTask → ProcessingTask
with_event e t =
    if t.event_buffer.did_replay
    then record t {
      event_buffer = record t.event_buffer { events = t.event_buffer.events ++ e ∷ [] };
    }
    else t

abbrev pub write_for : Option ℕ → RuntimeEvent → OsSession → OsSession
write_for none e s = s
write_for (some i) e s = update_task i (with_event e) s

-- `_write_buffer`; an event without its task is logged
unfoldable pub write_buffer : RuntimeEvent → OsSession → OsSession
write_buffer e s = write_for e.task_id e s

-- `EventBus.publish` on an open channel, to the buffer's listener and the others. The number and the time that
-- the bus stamps are left out: EventBus models them.
unfoldable pub send : RuntimeEvent → OsRuntime → OsRuntime
send e r = record r { session = write_buffer e r.session; sent = r.sent ++ e ∷ [] }

unfoldable pub send_all : List RuntimeEvent → OsRuntime → OsRuntime
send_all [] r = r
send_all (e ∷ es) r = send_all es (send e r)

-- the flags of a history event that is sent again
abbrev pub replayed : Bool → RuntimeEvent → RuntimeEvent
replayed answers e = record e {
  is_replay_event = true;
  is_history_event_for_interruption = if answers then true else e.is_history_event_for_interruption;
}

abbrev is_response : EventType → Bool
is_response EventType.interruption_response = true
is_response _ = false

-- whether the event is the input that answers an interruption; `input.events[0]` raises where there is none
abbrev pub answers : EventBody → Option Bool
answers (input_event i) = elim i.events [ [] ↦ none | e ∷ es ↦ some (is_response e.event_type) ]
answers _ = some false

abbrev pub replay_buffer : ℕ → Bool → EventBuffer → OsRuntime → OsRuntime
replay_buffer i a b r =
    let r' = send_all (map (replayed a) b.events) r in
    record r' {
      session =
          update_task i
            (λ t. record t {
              event_buffer = record { events = map (replayed a) b.events; did_replay = true };
            })
            r'.session;
    }

-- the history, if there is any: without events the flag is set and nothing is read of `event`
abbrev pub replay_for : ℕ → RuntimeEvent → EventBuffer → Act (Unit {0})
replay_for i e b = if b.did_replay then pure tt else (elim b.events [
  | [] ↦ modify (replay_buffer i false b)
  | h ∷ hs ↦ require index_error (answers e.body) >>= λ a. modify (replay_buffer i a b)
])

-- `ProcessingTask.publish`, for the task `i`
unfoldable pub publish_for : ℕ → RuntimeEvent → Act (Unit {0})
publish_for i e = do
  t ← reads detached (λ r. find_task i r.session)
  replay_for i e t.event_buffer
  modify (send e)

abbrev pub sent_again : RuntimeEvent → RuntimeEvent
sent_again e = record e { is_replay_event = true }

-- a buffer of a finished task, when it has been sent
abbrev pub replayed_buffer : EventBuffer → EventBuffer
replayed_buffer b =
    if b.did_replay then b else record { events = map sent_again b.events; did_replay = true }

abbrev pub replay_one : EventBuffer → OsRuntime → OsRuntime
replay_one b r = if b.did_replay then r else send_all (map sent_again b.events) r

-- `_replay_finished_task_events_if_needed`, over the buffers: what they become, and what is sent
unfoldable pub replay_finished : List EventBuffer → OsRuntime → List EventBuffer × OsRuntime
replay_finished [] r = ([], r)
replay_finished (b ∷ bs) r =
    let (rest, s) = replay_finished bs (replay_one b r) in (replayed_buffer b ∷ rest, s)

abbrev pub with_finished : List EventBuffer × OsRuntime → OsRuntime
with_finished (bs, r) = record r { session = record r.session { finished_task_events = bs } }

-- `_replay_finished_task_events_if_needed`
unfoldable pub replay_finished_task_events_if_needed : OsRuntime → OsRuntime
replay_finished_task_events_if_needed r =
    with_finished (replay_finished r.session.finished_task_events r)
