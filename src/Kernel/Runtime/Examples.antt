-- ===== src/Kernel/Runtime/Examples.antt =====
-- Runs of the kernel loop over small values.
use turtlemap.Prelude.{◌≡◌, refl, true, [], ◌∷◌}
use turtlemap.Kernel.Exec.{ok, ◌>>=◌}
use turtlemap.Prelude.Dict.{lookup}
use turtlemap.Kernel.State.{
  Runtime, generate_id, restore_runtime_input_queue, push_input, pop_input, take_input,
  remove_input, set_tasks, set_task, held_task, read_task, pop_task, update_tasks, update_agents,
}
use turtlemap.Kernel.Select.{pick_completed_task, pick_available_running_task, is_available}
use turtlemap.Kernel.Tasks.{
  start_new_task, create_task_from_input, clear_interruption_request, advance_running_message_task,
}
use turtlemap.Kernel.Completion.{
  advance_running_task, advance_completed_task, advance_completed_message_task, finish_task,
}
use turtlemap.Kernel.Hooks.{HooksKeep}
use turtlemap.Kernel.Samples.{quiet, greeting, runtime_with}
use turtlemap.Kernel.Runtime.{run, turn, loop, resolve_owner_agent, process_new_input}
use turtlemap.Kernel.Runtime.Queue.{IsAligned, run-IsAligned}
use turtlemap.Kernel.Runtime.Idle.{IsIdle, run-IsIdle}

quiet-IsAligned : HooksKeep IsAligned quiet
quiet-IsAligned = record {
  keeps_commit = record { at = λ r p. p };
  keeps_generate = λ a i. record { at = λ r p. p };
  keeps_history = λ a i. record { at = λ r p. p };
  keeps_complete = λ a i. record { at = λ r p. p };
  keeps_input = λ i a x. record { at = λ r p. p };
  keeps_create = λ x. record { at = λ r p. record { mirrors = p.mirrors } };
  keeps_frame = λ a i c. record { at = λ r p. p };
  keeps_build = λ a i m. record { at = λ r p. p };
  keeps_execute = λ a i u. record { at = λ r p. p };
}

abbrev final : Runtime
final = (run quiet 4 (greeting ∷ []) (runtime_with [])).1

-- One user input is taken, answered and closed in four turns: creation, answer, completion, break.
turn_ends : run quiet 4 (greeting ∷ []) (runtime_with []) ≡ (ok true, final)
unfolding run turn loop resolve_owner_agent process_new_input restore_runtime_input_queue
    generate_id push_input pop_input take_input remove_input read_task held_task set_task set_tasks
    update_tasks update_agents pop_task pick_completed_task pick_available_running_task is_available
    start_new_task create_task_from_input advance_running_task advance_running_message_task
    advance_completed_task advance_completed_message_task finish_task clear_interruption_request
    lookup ◌>>=◌
turn_ends = refl

run-IsAligned_example : IsAligned final
run-IsAligned_example = run-IsAligned quiet 4 (greeting ∷ []) (runtime_with []) quiet-IsAligned

run-IsIdle_example : IsIdle final × (final.session.input_queue ≡ [])
run-IsIdle_example =
    run-IsIdle quiet 4 (greeting ∷ []) (runtime_with []) final quiet-IsAligned turn_ends
