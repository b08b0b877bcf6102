-- ===== src/Kernel/Tasks.antt =====
-- kernel/runtime.py: how a task is created, run, completed and taken away.
pub mod Preserve
mod Units
mod Progress
mod Examples
use turtlemap.Prelude.{
  ℕ, String, Bool, false, Option, none, some, List, [], ◌∷◌, ◌++◌, all, if◌then◌else◌,
}
use turtlemap.Prelude.Eq.{◌==◌, nat_eq}
use turtlemap.Kernel.Model.{
  EventType, TaskSwitchAction, TaskStatus, UnitStatus, Input, ExecutionUnit, UnitResult,
  RuntimeArtifact, StateBody, message_state, tool_state, Task,
}
use turtlemap.Kernel.Exec.{
  kernel_runtime, unsupported_operation, type_error, pure, raise, require, ◌>>=◌, ◌>>◌,
}
use turtlemap.Kernel.State.{Act, generate_id, push_input, read_task, set_task, set_tasks}
use turtlemap.Kernel.Select.{is_paused, is_pending, is_finished, pick_next_execution_unit}
use turtlemap.Kernel.Hooks.{Hooks}
use turtlemap.Kernel.Interruption.{first_event}

abbrev pub with_status : TaskStatus → Task → Task
with_status s t = record t { state = record t.state { status = s } }

abbrev pub with_body : StateBody → Task → Task
with_body b t = record t { state = record t.state { body = b } }

-- `_clear_interruption_request`, which is a write to a task that may have been popped
abbrev pub cleared : Task → Task
cleared t = if is_paused t.state.status then t else record t { interruption_request = none }

unfoldable pub clear_interruption_request : String → ℕ → Act (Unit {0})
clear_interruption_request a i = set_task a i cleared

abbrev check_user_input : Hooks → Input → EventType → Act Task
check_user_input h x EventType.user_input = h.create_task_from_input x
check_user_input h x _ = raise unsupported_operation

-- `_create_task_from_input`
unfoldable pub create_task_from_input : Hooks → Input → Act Task
create_task_from_input h x = do
  e ← require kernel_runtime (first_event x.events)
  check_user_input h x e.event_type

-- `_start_new_task`, called with its `start_input`; `n` is the agent state's own `agent_name`
unfoldable pub start_new_task : Hooks → String → String → Input → Act (Unit {0})
start_new_task h a n x = do
  task ← create_task_from_input h x
  set_tasks a (λ ts. ts ++ task ∷ [])
  h.input_did_process task.task_id n x
  h.commit_runtime_checkpoint

-- `_handle_task_switch_action`
unfoldable pub handle_task_switch_action :
    Hooks → String → ℕ → UnitResult → TaskSwitchAction → Act (Unit {0})
handle_task_switch_action h a i result TaskSwitchAction.pause = do
  set_task a i (with_status TaskStatus.paused)
  h.save_task_history a i
handle_task_switch_action h a i result TaskSwitchAction.push_event = do
  event ← require type_error result.event
  x ← generate_id
  push_input (record { input_id = x; origin_input_id = none; events = event ∷ [] })

-- `ensure_instance(task.state, ToolState).execution_units`
abbrev units_of : StateBody → Option (List ExecutionUnit)
units_of (tool_state c units o) = some units
units_of _ = none

-- writes through the reference `next_unit`
unfoldable pub update_unit :
    ℕ → (ExecutionUnit → ExecutionUnit) → List ExecutionUnit → List ExecutionUnit
update_unit i f [] = []
update_unit i f (u ∷ us) =
    let rest = update_unit i f us in if u.unit_id == i then f u ∷ rest else u ∷ rest

abbrev on_units : (List ExecutionUnit → List ExecutionUnit) → StateBody → StateBody
on_units f (tool_state c units o) = tool_state c (f units) o
on_units f b = b

abbrev set_units : (List ExecutionUnit → List ExecutionUnit) → Task → Task
set_units f t = with_body (on_units f t.state.body) t

abbrev start_unit : ExecutionUnit → ExecutionUnit
start_unit u = if is_pending u.status then record u { status = UnitStatus.running } else u

-- `next_unit.result = execution_result; next_unit.status = execution_result.next_unit_status`
abbrev finish_unit : UnitResult → ExecutionUnit → ExecutionUnit
finish_unit result u = record u { result = some result; status = result.next_unit_status }

abbrev pub all_complete : List ExecutionUnit → Bool
all_complete = all (λ (u : ExecutionUnit). is_finished u.status)

abbrev complete_if : Bool → Task → Task
complete_if done t = if done then with_status TaskStatus.completed t else t

abbrev body_complete : StateBody → Bool
body_complete (tool_state c units o) = all_complete units
body_complete _ = false

-- The writes after `execute_unit`: the unit's result and status, the new units, and the task's
-- status where all units are finished.
abbrev pub record_result : ℕ → UnitResult → List ExecutionUnit → Task → Task
record_result u result appended t =
    let t' = set_units (λ us. update_unit u (finish_unit result) us ++ appended) t in
    complete_if (body_complete t'.state.body) t'

abbrev switch_if : Hooks → String → ℕ → UnitResult → Option TaskSwitchAction → Act (Unit {0})
switch_if h a i result none = pure tt
switch_if h a i result (some action) = handle_task_switch_action h a i result action

-- `_advance_running_tool_task`
unfoldable pub advance_running_tool_task : Hooks → String → ℕ → Act (Unit {0})
advance_running_tool_task h a i = do
  task ← read_task a i
  units ← require type_error (units_of task.state.body)
  next_unit ← require kernel_runtime (pick_next_execution_unit units)
  set_task a i (set_units (update_unit next_unit.unit_id start_unit))
  (result, appended) ← h.execute_unit a i (start_unit next_unit)
  set_task a i (record_result next_unit.unit_id result appended)
  switch_if h a i result result.task_switch_action

abbrev store_message : RuntimeArtifact → StateBody → StateBody
store_message m (message_state old o) = message_state (some m) o
store_message m b = b

abbrev is_message : StateBody → Option (Unit {0})
is_message (message_state m o) = some tt
is_message _ = none

abbrev complete_message : RuntimeArtifact → Task → Task
complete_message m t = with_status TaskStatus.completed (with_body (store_message m t.state.body) t)

-- `_advance_running_message_task`
unfoldable pub advance_running_message_task : Hooks → String → ℕ → Act (Unit {0})
advance_running_message_task h a i = do
  task ← read_task a i
  require type_error (is_message task.state.body)
  require kernel_runtime task.start_input
  message ← h.generate_assistant_message a i
  set_task a i (complete_message message)
