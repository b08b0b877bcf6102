-- ===== src/Os/Handoff/Examples.antt =====
-- A helper that has answered hands control back to the root agent.
use turtlemap.Prelude.{String, ◌≡◌, refl, Bool, true, none, some, [], ◌∷◌}
use turtlemap.Prelude.Eq.{nat_eq, string_eq}
use turtlemap.Prelude.Dict.{lookup}
use turtlemap.Kernel.Model.{AgentFrame, TaskStatus, message_state, Task}
use turtlemap.Kernel.Exec.{ok, ◌>>=◌}
use turtlemap.Kernel.State.{
  Runtime, set_session, generate_id, set_frames, set_task, set_tasks, update_tasks, update_agents,
  held_task, read_task, pop_task,
}
use turtlemap.Kernel.Hooks.{Hooks}
use turtlemap.Kernel.Samples.{quiet, reply, runtime_with}
use turtlemap.Kernel.Frames.{move_frame, change_agent_frame}
use turtlemap.Kernel.Completion.{finish_task}
use turtlemap.Os.Handoff.{
  get_completed_task_message, build_task_agent_frame_change, record_change, task_did_complete,
}
use turtlemap.Os.Handoff.Finish.{IsMoved, finish_task-IsMoved}

abbrev root : AgentFrame
root = record { agent_name = "root"; from_agent_name = none }

abbrev helper : AgentFrame
helper = record { agent_name = "helper"; from_agent_name = some "root" }

abbrev everybody : String → Bool
everybody n = true

abbrev hooks : Hooks
hooks = record quiet { task_did_complete = task_did_complete everybody }

abbrev answered : Task
answered = record {
  task_id = 43;
  state = record { status = TaskStatus.completed; body = message_state (some reply) none };
  start_input = none;
  interruption_request = none;
  agent_frame_change = none;
}

abbrev helping : Runtime
helping =
    set_session
      (λ s. record s {
        agent_frames = root ∷ helper ∷ [];
        agent_states =
            (
              "helper",
              record { agent_name = "helper"; system = ""; processing_tasks = answered ∷ [] },
            )
            ∷ [];
      })
      (runtime_with [])

abbrev helped : Runtime
helped = (finish_task hooks "helper" 43 helping).1

finished : finish_task hooks "helper" 43 helping ≡ (ok tt, helped)
unfolding finish_task task_did_complete record_change build_task_agent_frame_change
    get_completed_task_message change_agent_frame move_frame generate_id set_frames set_task
    set_tasks update_tasks update_agents held_task read_task pop_task lookup ◌>>=◌
finished = refl

finish_task-IsMoved_example :
    IsMoved everybody "helper" answered.state.body helping.session.agent_frames
      helped.session.agent_frames
unfolding held_task lookup
finish_task-IsMoved_example =
    finish_task-IsMoved everybody hooks "helper" 43 answered helping helped refl
      (λ fs a i c. record { at = λ r p. p }) refl finished

control_returns : helped.session.agent_frames ≡ root ∷ []
unfolding finish_task task_did_complete record_change build_task_agent_frame_change
    get_completed_task_message change_agent_frame move_frame generate_id set_frames set_task
    set_tasks update_tasks update_agents held_task read_task pop_task lookup ◌>>=◌
control_returns = refl
