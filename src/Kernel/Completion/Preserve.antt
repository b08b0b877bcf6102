-- ===== src/Kernel/Completion/Preserve.antt =====
-- Advancing a completed or a running task keeps what the kernel's writes and the hooks keep.
use turtlemap.Prelude.{ℕ, String, Bool, true, false, Option, none, some}
use turtlemap.Kernel.Model.{
  RuntimeArtifact, StateBody, message_state, tool_state, auto_response_state, AgentFrameChange,
}
use turtlemap.Kernel.Exec.Keeps.{Keeps, ◌andthen◌, Keeps-if, Keeps-pure, Keeps-require, keeps_rules}
use turtlemap.Kernel.State.{Runtime}
use turtlemap.Kernel.State.Preserve.{WritesKeep, Keeps-read_task, write_rules}
use turtlemap.Kernel.Hooks.{Hooks, HooksKeep}
use turtlemap.Kernel.Frames.Preserve.{Keeps-change_agent_frame}
use turtlemap.Kernel.Tasks.Preserve.{
  Keeps-clear_interruption_request, Keeps-advance_running_message_task,
  Keeps-advance_running_tool_task,
}
use turtlemap.Kernel.Completion.{
  settle_message, advance_completed_message_task, advance_completed_tool_task,
  advance_completed_body, change_if, finish_task, advance_completed_task, advance_running_body,
  advance_running_task,
}

module _ {P : Runtime → Type 0} (w : WritesKeep P) {h : Hooks} (k : HooksKeep P h) where
  settle_message-Keeps :
      (a : String) (i : ℕ) (m : RuntimeArtifact) (b : Bool) → Keeps P (settle_message h a i m b)
  settle_message-Keeps a i m true = search (keeps_rules, write_rules, k.keeps_build)
  settle_message-Keeps a i m false = k.keeps_history a i

  advance_completed_body-Keeps :
      (a : String) (i : ℕ) (b : StateBody) → Keeps P (advance_completed_body h a i b)
  unfolding advance_completed_message_task advance_completed_tool_task
  advance_completed_body-Keeps a i (message_state m o) =
      Keeps-require _ m andthen λ message. settle_message-Keeps a i message _
  advance_completed_body-Keeps a i (tool_state c units o) = k.keeps_history a i
  advance_completed_body-Keeps a i auto_response_state = search keeps_rules

  change_if-Keeps : (a : String) (i : ℕ) (c : Option AgentFrameChange) → Keeps P (change_if h a i c)
  change_if-Keeps a i none = search keeps_rules
  change_if-Keeps a i (some c) = Keeps-change_agent_frame w k a i c

  finish_task-Keeps : (a : String) (i : ℕ) → Keeps P (finish_task h a i)
  unfolding finish_task
  finish_task-Keeps a i =
      k.keeps_complete a i andthen λ _. search (keeps_rules, write_rules, change_if-Keeps)

  pub Keeps-advance_completed_task : (a : String) (i : ℕ) → Keeps P (advance_completed_task h a i)
  unfolding advance_completed_task
  Keeps-advance_completed_task a i = Keeps-read_task a i andthen λ task.
      advance_completed_body-Keeps a i task.state.body andthen λ _.
      Keeps-read_task a i andthen λ task'.
      Keeps-if _ _ _ (finish_task-Keeps a i) (Keeps-pure tt) andthen λ _.
      Keeps-clear_interruption_request w k a i andthen λ _. k.keeps_commit

  advance_running_body-Keeps :
      (a : String) (i : ℕ) (b : StateBody) → Keeps P (advance_running_body h a i b)
  advance_running_body-Keeps a i (message_state m o) = Keeps-advance_running_message_task w k a i
  advance_running_body-Keeps a i (tool_state c units o) = Keeps-advance_running_tool_task w k a i
  advance_running_body-Keeps a i auto_response_state = search keeps_rules

  pub Keeps-advance_running_task : (a : String) (i : ℕ) → Keeps P (advance_running_task h a i)
  unfolding advance_running_task
  Keeps-advance_running_task a i = Keeps-read_task a i andthen λ task.
      advance_running_body-Keeps a i task.state.body andthen λ _.
      Keeps-clear_interruption_request w k a i andthen λ _. k.keeps_commit
