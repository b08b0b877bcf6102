-- ===== src/Kernel/Frames/Examples.antt =====
-- Control goes from the root agent to a helper and comes back.
use turtlemap.Prelude.{◌≡◌, refl, [], ◌∷◌}
use turtlemap.Prelude.Dict.{lookup}
use turtlemap.Kernel.Model.{FrameChangeType, FrameChangeReason, AgentFrameChange}
use turtlemap.Kernel.Exec.{ok, ◌>>=◌}
use turtlemap.Kernel.State.{Runtime, generate_id, push_input, set_frames, read_task, held_task}
use turtlemap.Kernel.Samples.{quiet, tool_task, runtime_with}
use turtlemap.Kernel.Frames.{move_frame, push_handoff_input, change_agent_frame}
use turtlemap.Kernel.Frames.Stack.{push-pop-frames}

abbrev to_helper : AgentFrameChange
to_helper = record {
  target = "helper";
  source = "root";
  type = FrameChangeType.push;
  reason = FrameChangeReason.handoff;
}

abbrev back : AgentFrameChange
back = record {
  target = "root";
  source = "helper";
  type = FrameChangeType.pop;
  reason = FrameChangeReason.handoff_return;
}

abbrev start : Runtime
start = runtime_with (tool_task ∷ [])

abbrev helping : Runtime
helping = (change_agent_frame quiet "root" 43 to_helper start).1

abbrev returned : Runtime
returned = (change_agent_frame quiet "helper" 44 back helping).1

handed_over : change_agent_frame quiet "root" 43 to_helper start ≡ (ok tt, helping)
unfolding change_agent_frame move_frame push_handoff_input generate_id push_input set_frames
    read_task held_task lookup ◌>>=◌
handed_over = refl

handed_back : change_agent_frame quiet "helper" 44 back helping ≡ (ok tt, returned)
unfolding change_agent_frame move_frame push_handoff_input generate_id push_input set_frames
    read_task held_task lookup ◌>>=◌
handed_back = refl

push-pop-frames_example :
    (returned.session.agent_frames ≡ start.session.agent_frames) × (back.source ≡ to_helper.target)
push-pop-frames_example =
    push-pop-frames quiet "root" "helper" 43 44 to_helper back start helping returned
      (λ fs a i c. record { at = λ r p. p }) refl refl handed_over handed_back
