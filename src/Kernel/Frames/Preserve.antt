-- ===== src/Kernel/Frames/Preserve.antt =====
-- `_change_agent_frame` keeps what the kernel's writes and the hooks keep.
use turtlemap.Prelude.{ℕ, String, Option, none, some}
use turtlemap.Kernel.Model.{FrameChangeType, Input, AgentFrameChange, AgentFrame}
use turtlemap.Kernel.Exec.{kernel_runtime}
use turtlemap.Kernel.Exec.Keeps.{Keeps, ◌andthen◌, Keeps-if, Keeps-raise, Keeps-pure, keeps_rules}
use turtlemap.Kernel.State.{Runtime}
use turtlemap.Kernel.State.Preserve.{WritesKeep, write_rules}
use turtlemap.Kernel.Hooks.{Hooks, HooksKeep}
use turtlemap.Kernel.Frames.{
  top_frame, move_frame, push_handoff_input, start_target, change_agent_frame,
}

module _ {P : Runtime → Type 0} (w : WritesKeep P) where
  pub Keeps-top_frame : Keeps P top_frame
  Keeps-top_frame = search keeps_rules

  move_frame-Keeps :
      (c : AgentFrameChange) (top : AgentFrame) (t : FrameChangeType) → Keeps P (move_frame c top t)
  unfolding move_frame
  move_frame-Keeps c top FrameChangeType.push = search (keeps_rules, write_rules)
  move_frame-Keeps c top FrameChangeType.pop = search (keeps_rules, write_rules)

  push_handoff_input-Keeps : (source : Option Input) → Keeps P (push_handoff_input source)
  unfolding push_handoff_input
  push_handoff_input-Keeps none = search keeps_rules
  push_handoff_input-Keeps (some x) = search (keeps_rules, write_rules)

  start_target-Keeps : (a : String) (i : ℕ) → Keeps P (start_target a i)
  start_target-Keeps a i = search (keeps_rules, write_rules, push_handoff_input-Keeps)

  pub Keeps-change_agent_frame :
      {h : Hooks}
      → HooksKeep P h
      → (a : String) (i : ℕ) (c : AgentFrameChange) → Keeps P (change_agent_frame h a i c)
  unfolding change_agent_frame
  Keeps-change_agent_frame k a i c = Keeps-top_frame andthen λ top.
      Keeps-if _ _ _ (Keeps-raise kernel_runtime) (
        move_frame-Keeps c top c.type andthen λ should_run.
        Keeps-if _ _ _ (start_target-Keeps a i) (Keeps-pure tt) andthen λ _. k.keeps_frame a i c)
