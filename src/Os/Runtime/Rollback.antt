-- ===== src/Os/Runtime/Rollback.antt =====
-- os/runtime.py `_pause_task_after_exception`: a run that raised goes back to its last checkpoint and asks the
-- user whether to go on. The names of the agents are a parameter, as is what the store answers to a save.
pub mod Requested
pub mod Paused
use turtlemap.Prelude.{
  ℕ, String, suc, Bool, true, false, Option, none, some, List, [], ◌∷◌, ◌++◌, map, find?,
}
use turtlemap.Prelude.Dict.{Dict}
use turtlemap.Prelude.Try.{Try, value, error}
use turtlemap.Kernel.Model.{
  Input, RuntimeArtifact, ArtifactType, ArtifactPayload, RequestType, InterruptionRequest,
  TaskStatus,
}
use turtlemap.Kernel.Select.{state_is_running}
use turtlemap.Kernel.Exec.{
  Error, detached, raised, key_error, Exec, ok, err, pure, raise, gets, require, reads, modify,
  ◌>>=◌, ◌>>◌,
}
use turtlemap.Events.{RuntimeEvent, RuntimeEventPhase, interrupted_event}
use turtlemap.Os.{ProcessingTask, OsAgentState, OsSession}
use turtlemap.Os.Filter.{filter_runtime_events_before_save}
use turtlemap.Os.Load.{LoadError, top_agent_state, each_tasks, set_tasks}
use turtlemap.Os.Runtime.{OsRuntime, Act, find_task, update_task, publish_for}

-- `OSRuntimeError`
abbrev pub os_runtime : Error
os_runtime = raised 0

abbrev pub load_error : LoadError → Error
load_error LoadError.index_error = Error.index_error
load_error LoadError.kernel_runtime = Error.kernel_runtime

abbrev pub load : {A : Type 0} → Try LoadError A → Act A
load (value a) = pure a
load (error e) = raise (load_error e)

-- `generate_prefixed_id`
abbrev pub fresh : Act ℕ
fresh r = (ok r.next_id, record r { next_id = suc r.next_id })

abbrev pub filtered : ProcessingTask → ProcessingTask
filtered t = record t {
  event_buffer = record t.event_buffer {
    events = filter_runtime_events_before_save t.event_buffer.events;
  };
}

-- `_filter_runtime_event_buffer_before_save`
unfoldable pub filter_runtime_event_buffer_before_save : OsSession → OsSession
filter_runtime_event_buffer_before_save s = set_tasks (map filtered) s

abbrev pub stored_or_raised : Option Error → Act (Unit {0})
stored_or_raised none = modify (λ r. record r { last_session_state = some r.session })
stored_or_raised (some e) = raise e

-- `_override_service_commit_runtime_checkpoint`, where the store raises what `save` says
unfoldable pub commit_runtime_checkpoint : (OsSession → Option Error) → Act (Unit {0})
commit_runtime_checkpoint save = do
  modify (λ r. record r { session = filter_runtime_event_buffer_before_save r.session })
  stored ← gets (λ r. save r.session)
  stored_or_raised stored

abbrev pub request_of : ℕ → ProcessingTask → InterruptionRequest
request_of i t = record {
  request_id = i;
  task_id = t.task.task_id;
  type = RequestType.exception_resume;
  origin_task_status = t.task.state.status;
  response = none;
}

abbrev pub interruption_of : ℕ → InterruptionRequest → RuntimeEvent
interruption_of i q = record {
  event_id = i;
  parent_event_id = none;
  task_id = some q.task_id;
  sequence = 0;
  created_ts_ms = none;
  duration_ms = 0;
  event_phase = RuntimeEventPhase.final;
  is_history_event_for_interruption = false;
  is_replay_event = false;
  body = interrupted_event q;
}

abbrev pub with_request : InterruptionRequest → ProcessingTask → ProcessingTask
with_request q t = record t { task = record t.task { interruption_request = some q } }

-- `perform_interruption_request`
unfoldable pub perform_interruption_request :
    ProcessingTask → Act (InterruptionRequest × RuntimeEvent)
perform_interruption_request t = do
  i ← fresh
  modify (λ r. record r {
    session = update_task t.task.task_id (with_request (request_of i t)) r.session;
  })
  j ← fresh
  publish_for t.task.task_id (interruption_of j (request_of i t))
  pure (request_of i t, interruption_of j (request_of i t))

abbrev pub started : String → ℕ → Input → RuntimeArtifact
started n i x = record {
  id = i;
  type = ArtifactType.input;
  owner_agent_name = n;
  payload = ArtifactPayload.input x;
}

abbrev pub asked : String → ℕ → InterruptionRequest → RuntimeArtifact
asked n i q = record {
  id = i;
  type = ArtifactType.interruption_request;
  owner_agent_name = n;
  payload = ArtifactPayload.request q;
}

-- `build_task_artifacts` for a paused task that holds a request
unfoldable pub paused_task_artifacts :
    String → Option Input → InterruptionRequest → Act (List RuntimeArtifact)
paused_task_artifacts n x q = do
  given ← require os_runtime x
  i ← fresh
  j ← fresh
  pure (started n i given ∷ asked n j q ∷ [])

abbrev pub set_replayed : ProcessingTask → ProcessingTask
set_replayed t = record t { event_buffer = record t.event_buffer { did_replay = true } }

abbrev pub set_paused : ProcessingTask → ProcessingTask
set_paused t = record t {
  task = record t.task { state = record t.task.state { status = TaskStatus.paused } };
}

abbrev pub runs : ProcessingTask → Bool
runs t = state_is_running t.task.state.status

-- its end: history is given the artifacts, and the store the session
abbrev pub keep_artifacts :
    (OsSession → Option Error) → RuntimeEvent → List RuntimeArtifact → Act RuntimeEvent
keep_artifacts save e artifacts = do
  modify (λ r. record r { session = record r.session { history = r.session.history ++ artifacts } })
  commit_runtime_checkpoint save
  pure e

abbrev pub keep_request :
    (OsSession → Option Error)
    → String
    → ProcessingTask
    → InterruptionRequest
    → RuntimeEvent
    → Act RuntimeEvent
keep_request save n t q e = do
  modify (λ r. record r { session = update_task t.task.task_id set_paused r.session })
  artifacts ← paused_task_artifacts n t.task.start_input q
  keep_artifacts save e artifacts

-- what follows when the task is found: it is paused with its request, which history and the store keep
unfoldable pub pause_task : (OsSession → Option Error) → String → ProcessingTask → Act RuntimeEvent
pause_task save n t = do
  modify (λ r. record r { session = update_task t.task.task_id set_replayed r.session })
  asking ← perform_interruption_request t
  keep_request save n t asking.0 asking.1

abbrev pub known_or_raise : Bool → Act (Unit {0})
known_or_raise true = pure tt
known_or_raise false = raise key_error

-- `_pause_task_after_exception`: the event that is returned, or `exc` again
unfoldable pub pause_task_after_exception :
    (OsSession → Option Error) → (String → Bool) → Error → Act RuntimeEvent
pause_task_after_exception save has_agent exc = do
  saved ← reads exc (λ r. r.last_session_state)
  modify (λ r. record r { session = saved })
  owner ← load (top_agent_state saved)
  known_or_raise (has_agent owner.agent_name)
  t ← require exc (find? runs owner.processing_tasks)
  pause_task save owner.agent_name t
