-- ===== src/Kernel/Completion.antt =====
-- kernel/runtime.py: `_advance_completed_task` and `_advance_running_task`, by kind of task.
pub mod Preserve
use turtlemap.Prelude.{ℕ, String, Bool, true, false, Option, none, some, List, if◌then◌else◌}
use turtlemap.Kernel.Model.{
  ArtifactType, TaskStatus, Input, ExecutionUnit, RuntimeArtifact, StateBody, message_state,
  tool_state, auto_response_state, Task, AgentFrameChange,
}
use turtlemap.Kernel.Exec.{kernel_runtime, unsupported_operation, pure, raise, require, ◌>>=◌, ◌>>◌}
use turtlemap.Kernel.State.{Act, read_task, set_task, pop_task}
use turtlemap.Kernel.Select.{is_completed}
use turtlemap.Kernel.Hooks.{Hooks}
use turtlemap.Kernel.Frames.{change_agent_frame}
use turtlemap.Kernel.Tasks.{
  clear_interruption_request, advance_running_message_task, advance_running_tool_task,
}

abbrev is_tool_call : ArtifactType → Bool
is_tool_call ArtifactType.tool_call = true
is_tool_call _ = false

abbrev input_id_of : Option Input → Option ℕ
input_id_of none = none
input_id_of (some x) = some x.input_id

-- `task.state = ToolState(...)`, whose status is the default, running
abbrev become_tool : RuntimeArtifact → List ExecutionUnit → Task → Task
become_tool m units t = record t {
  state = record {
    status = TaskStatus.running;
    body = tool_state m units (input_id_of t.start_input);
  };
}

abbrev settle_message : Hooks → String → ℕ → RuntimeArtifact → Bool → Act (Unit {0})
settle_message h a i message true = do
  units ← h.build_tool_execution_units a i message
  set_task a i (become_tool message units)
settle_message h a i message false = h.save_task_history a i

-- `_advance_completed_message_task`
unfoldable pub advance_completed_message_task :
    Hooks → String → ℕ → Option RuntimeArtifact → Act (Unit {0})
advance_completed_message_task h a i stored = do
  message ← require kernel_runtime stored
  settle_message h a i message (is_tool_call message.type)

-- `_advance_completed_tool_task`
unfoldable pub advance_completed_tool_task : Hooks → String → ℕ → Act (Unit {0})
advance_completed_tool_task h a i = h.save_task_history a i

abbrev advance_completed_body : Hooks → String → ℕ → StateBody → Act (Unit {0})
advance_completed_body h a i (message_state m o) = advance_completed_message_task h a i m
advance_completed_body h a i (tool_state c units o) = advance_completed_tool_task h a i
advance_completed_body h a i auto_response_state = raise unsupported_operation

abbrev pub change_if : Hooks → String → ℕ → Option AgentFrameChange → Act (Unit {0})
change_if h a i none = pure tt
change_if h a i (some c) = change_agent_frame h a i c

-- the closing steps for a task that is still completed
unfoldable pub finish_task : Hooks → String → ℕ → Act (Unit {0})
finish_task h a i = do
  h.task_did_complete a i
  task ← read_task a i
  change_if h a i task.agent_frame_change
  pop_task a i

-- `_advance_completed_task`
unfoldable pub advance_completed_task : Hooks → String → ℕ → Act (Unit {0})
advance_completed_task h a i = do
  task ← read_task a i
  advance_completed_body h a i task.state.body
  task' ← read_task a i
  if is_completed task'.state.status then finish_task h a i else pure tt
  clear_interruption_request a i
  h.commit_runtime_checkpoint

abbrev advance_running_body : Hooks → String → ℕ → StateBody → Act (Unit {0})
advance_running_body h a i (message_state m o) = advance_running_message_task h a i
advance_running_body h a i (tool_state c units o) = advance_running_tool_task h a i
advance_running_body h a i auto_response_state = raise unsupported_operation

-- `_advance_running_task`
unfoldable pub advance_running_task : Hooks → String → ℕ → Act (Unit {0})
advance_running_task h a i = do
  task ← read_task a i
  advance_running_body h a i task.state.body
  clear_interruption_request a i
  h.commit_runtime_checkpoint
