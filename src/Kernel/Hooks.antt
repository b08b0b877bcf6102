-- ===== src/Kernel/Hooks.antt =====
-- The methods of `BaseRuntime` that subclasses provide, and the tool provider of an agent. Each may
-- change the runtime's state and may raise. A task is passed by its agent's name and its id.
use turtlemap.Prelude.{ℕ, String, List}
use turtlemap.Kernel.Model.{
  Input, AgentFrameChange, ExecutionUnit, UnitResult, RuntimeArtifact, Task,
}
use turtlemap.Kernel.State.{Runtime, Act}
use turtlemap.Kernel.Exec.Keeps.{Keeps}

pub record Hooks : Type 0 where
  pub commit_runtime_checkpoint : Act (Unit {0})
  pub generate_assistant_message : String → ℕ → Act RuntimeArtifact
  pub save_task_history : String → ℕ → Act (Unit {0})
  pub task_did_complete : String → ℕ → Act (Unit {0})
  pub input_did_process : ℕ → String → Input → Act (Unit {0})
  pub create_task_from_input : Input → Act Task
  pub agent_frame_did_change : String → ℕ → AgentFrameChange → Act (Unit {0})
  pub build_tool_execution_units : String → ℕ → RuntimeArtifact → Act (List ExecutionUnit)
  pub execute_unit : String → ℕ → ExecutionUnit → Act (UnitResult × List ExecutionUnit)

-- What a client assumes of the hooks to carry an invariant over the kernel's own steps.
pub record HooksKeep (P : Runtime → Type 0) (h : Hooks) : Type 0 where
  pub keeps_commit : Keeps P h.commit_runtime_checkpoint
  pub keeps_generate : (a : String) (i : ℕ) → Keeps P (h.generate_assistant_message a i)
  pub keeps_history : (a : String) (i : ℕ) → Keeps P (h.save_task_history a i)
  pub keeps_complete : (a : String) (i : ℕ) → Keeps P (h.task_did_complete a i)
  pub keeps_input : (i : ℕ) (a : String) (x : Input) → Keeps P (h.input_did_process i a x)
  pub keeps_create : (x : Input) → Keeps P (h.create_task_from_input x)
  pub keeps_frame :
      (a : String) (i : ℕ) (c : AgentFrameChange) → Keeps P (h.agent_frame_did_change a i c)
  pub keeps_build :
      (a : String) (i : ℕ) (m : RuntimeArtifact) → Keeps P (h.build_tool_execution_units a i m)
  pub keeps_execute : (a : String) (i : ℕ) (u : ExecutionUnit) → Keeps P (h.execute_unit a i u)
