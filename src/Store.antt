-- ===== src/Store.antt =====
-- os/store/memory.py: `InMemoryStateStore`. A copy by `deepcopy` is the value itself; the stored
-- sessions are those of the application, whose class may add a `version`.
pub mod Tasks
pub mod Release
pub mod Versions
mod Examples
use turtlemap.Prelude.{
  ℕ, ◌+◌, Bool, true, false, ◌&&◌, Option, none, some, List, [], ◌∷◌, ◌++◌, String, length,
  if◌then◌else◌,
}
use turtlemap.Prelude.Eq.{◌==◌, nat_eq, string_eq}
use turtlemap.Prelude.Dict.{Dict, lookup, insert}
use turtlemap.Prelude.Try.{Try, value, error}
use turtlemap.Kernel.Model.{SessionState}
use turtlemap.Context.Compress.{CompressionResult, merge_compacted_result}

pub data CompressionTaskStatus : Type 0 where
  running completed failed : CompressionTaskStatus

-- Without the lease's end, the error and the times, which the store in memory never sets.
pub record TaskRecord : Type 0 where
  pub id : ℕ
  pub session_id : String
  pub agent_name : String
  pub status : CompressionTaskStatus
  pub lease_owner : Option String

-- Of the session, what the store and the merge read; `version` is `none` where the session's class has no such field.
pub record StoredSession : Type 0 where
  pub session_id : String
  pub version : Option ℕ
  pub state : SessionState

pub record Store : Type 0 where
  pub session_id2state : Dict String StoredSession
  pub context_compression_tasks : List TaskRecord

pub data StoreError : Type 0 where
  session_state_changed : StoreError

abbrev pub new_session : String → StoredSession
new_session i = record {
  session_id = i;
  version = none;
  state = record {
    agent_frames = [];
    input_queue = [];
    history = [];
    memory = record { long_term_memory = ""; mid_term_memory = "" };
    agent_states = [];
  };
}

abbrev or_new : String → Option StoredSession → StoredSession
or_new i none = new_session i
or_new i (some s) = s

-- `load_session_state`
unfoldable pub load_session_state : String → Store → StoredSession
load_session_state i st = or_new i (lookup i st.session_id2state)

abbrev pub version_of : Option StoredSession → Option ℕ
version_of none = none
version_of (some s) = s.version

abbrev pub same_version : Option ℕ → Option ℕ → Bool
same_version none none = true
same_version (some v) (some w) = v == w
same_version _ _ = false

-- `current_state is not None and current_version != expected_version`
abbrev pub has_changed : Option StoredSession → Option ℕ → Bool
has_changed none v = false
has_changed (some s) v = if same_version s.version v then false else true

abbrev pub next_version : Option ℕ → Option ℕ → Option ℕ
next_version none current = none
next_version (some v) none = some 1
next_version (some v) (some current) = some (current + 1)

abbrev pub put : StoredSession → Store → Store
put s st = record st { session_id2state = insert s.session_id s st.session_id2state }

-- the session with the version that `save_session_state` gives it
abbrev pub bump : Option StoredSession → StoredSession → StoredSession
bump current s = record s { version = next_version s.version (version_of current) }

-- `save_session_state`: the caller's session with its new version, and the store
unfoldable pub save_session_state : StoredSession → Store → Try StoreError StoredSession × Store
save_session_state s st =
    let current = lookup s.session_id st.session_id2state in
    if has_changed current s.version
    then (error session_state_changed, st)
    else (value (bump current s), put (bump current s) st)

abbrev is_running : CompressionTaskStatus → Bool
is_running CompressionTaskStatus.running = true
is_running _ = false

-- `is_same_session and is_same_agent and is_running`
abbrev pub is_running_for : String → String → TaskRecord → Bool
is_running_for i a t = t.session_id == i && (t.agent_name == a && is_running t.status)

abbrev pub any_running : String → String → List TaskRecord → Bool
any_running i a [] = false
any_running i a (t ∷ ts) =
    let rest = any_running i a ts in if is_running_for i a t then true else rest

abbrev pub new_task : String → String → String → Store → TaskRecord
new_task owner i a st = record {
  id = length st.context_compression_tasks + 1;
  session_id = i;
  agent_name = a;
  status = CompressionTaskStatus.running;
  lease_owner = some owner;
}

abbrev create_in :
    Option StoredSession → String → String → String → Store → Option TaskRecord × Store
create_in none owner i a st = (none, st)
create_in (some s) owner i a st =
    if any_running i a st.context_compression_tasks then (none, st) else (
      some (new_task owner i a st),
      record st {
        context_compression_tasks = st.context_compression_tasks ++ new_task owner i a st ∷ [];
      },
    )

-- `try_create_context_compression_task`, where `owner` is `build_executor_instance_id()`
unfoldable pub try_create_context_compression_task :
    String → String → String → Store → Option TaskRecord × Store
try_create_context_compression_task owner i a st =
    create_in (lookup i st.session_id2state) owner i a st

abbrev pub same_owner : Option String → Option String → Bool
same_owner none none = true
same_owner (some o) (some p) = o == p
same_owner _ _ = false

-- the `for` loop of `finish_context_compression_task`
unfoldable pub finish_in : TaskRecord → List TaskRecord → List TaskRecord
finish_in task [] = []
finish_in task (t ∷ ts) =
    let rest = finish_in task ts in
    if t.id == task.id
    then (if same_owner t.lease_owner task.lease_owner
        then record t { status = CompressionTaskStatus.completed; lease_owner = none } ∷ ts
        else t ∷ ts)
    else t ∷ rest

-- `finish_context_compression_task`
unfoldable pub finish_context_compression_task : TaskRecord → Store → Store
finish_context_compression_task task st = record st {
  context_compression_tasks = finish_in task st.context_compression_tasks;
}

abbrev merged : StoredSession → Bool × SessionState → Store → Try StoreError Bool × Store
merged s (false, z) st = (value false, st)
merged s (true, z) st =
    let (r, st') = save_session_state (record s { state = z }) st in
    (elim r [ value s' ↦ value true | error e ↦ error e ], st')

abbrev merge_stored : Option StoredSession → CompressionResult → Store → Try StoreError Bool × Store
merge_stored none c st = (value c.merged, st)
merge_stored (some s) c st = merged s (merge_compacted_result s.state c) st

-- `save_context_compression_result`, of the session `i`: what `merged` of the result is afterwards
unfoldable pub save_context_compression_result :
    String → CompressionResult → Store → Try StoreError Bool × Store
save_context_compression_result i c st = merge_stored (lookup i st.session_id2state) c st
