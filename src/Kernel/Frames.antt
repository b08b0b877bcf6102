-- ===== src/Kernel/Frames.antt =====
-- kernel/runtime.py: `_change_agent_frame`, the stack of agents that hold control.
pub mod Preserve
pub mod Stack
mod Examples
use turtlemap.Prelude.{
  ℕ, String, Bool, true, false, Option, none, some, List, [], ◌∷◌, ◌++◌, get_last?, drop_last, not,
  if◌then◌else◌,
}
use turtlemap.Prelude.Eq.{◌==◌, string_eq}
use turtlemap.Kernel.Model.{
  EventType, EventSource, EventPayload, FrameChangeType, FrameChangeReason, Input, AgentFrameChange,
  AgentFrame,
}
use turtlemap.Kernel.Exec.{kernel_runtime, index_error, pure, raise, reads, modify, ◌>>=◌, ◌>>◌}
use turtlemap.Kernel.State.{Runtime, Act, generate_id, push_input, read_task, set_frames}
use turtlemap.Kernel.Hooks.{Hooks}

abbrev pub top_frame : Act AgentFrame
top_frame = reads index_error (λ r. get_last? r.session.agent_frames)

abbrev pub frame_of : AgentFrameChange → AgentFrame → AgentFrame
frame_of c top = record { agent_name = c.target; from_agent_name = some top.agent_name }

abbrev is_return_tool : FrameChangeReason → Bool
is_return_tool FrameChangeReason.handoff_return_tool = true
is_return_tool _ = false

-- The two branches on `frame_change.type`, with what `should_run` is after them.
unfoldable pub move_frame : AgentFrameChange → AgentFrame → FrameChangeType → Act Bool
move_frame c top FrameChangeType.push = do set_frames (λ fs. fs ++ frame_of c top ∷ []); pure true
move_frame c top FrameChangeType.pop = do set_frames drop_last; pure (is_return_tool c.reason)

-- the empty user input that starts the target agent
abbrev pub handoff_input : ℕ → ℕ → Input → Input
handoff_input i e source = record {
  input_id = i;
  origin_input_id = some source.input_id;
  events =
      record {
        event_id = e;
        event_type = EventType.user_input;
        source = EventSource.handoff;
        payload = EventPayload.user_input "";
      }
      ∷ [];
}

unfoldable pub push_handoff_input : Option Input → Act (Unit {0})
push_handoff_input none = pure tt
push_handoff_input (some source) = do
  i ← generate_id
  e ← generate_id
  push_input (handoff_input i e source)

abbrev pub start_target : String → ℕ → Act (Unit {0})
start_target a i = do task ← read_task a i; push_handoff_input task.start_input

-- `_change_agent_frame`; `a` and `i` name the task whose completion changes the frame
unfoldable pub change_agent_frame : Hooks → String → ℕ → AgentFrameChange → Act (Unit {0})
change_agent_frame h a i c = do
  top ← top_frame
  if not (top.agent_name == c.source) then raise kernel_runtime else do
    should_run ← move_frame c top c.type
    if should_run then start_target a i else pure tt
    h.agent_frame_did_change a i c
