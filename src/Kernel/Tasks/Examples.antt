-- ===== src/Kernel/Tasks/Examples.antt =====
-- A tool task with one pending unit is run to its end.
use turtlemap.Prelude.{◌+◌, ◌≡◌, refl, none, some, List, [], ◌∷◌, if◌then◌else◌}
use turtlemap.Prelude.Dict.{lookup}
use turtlemap.Kernel.Model.{TaskStatus, ExecutionUnit, tool_state, Task}
use turtlemap.Kernel.Exec.{ok}
use turtlemap.Kernel.State.{Runtime, held_task}
use turtlemap.Kernel.Select.{pick_next_execution_unit}
use turtlemap.Kernel.Samples.{quiet, done, reply, pending_unit, tool_task, runtime_with}
use turtlemap.Kernel.Tasks.{all_complete, advance_running_tool_task}
use turtlemap.Kernel.Tasks.Units.{count_pending, IsRun}
use turtlemap.Kernel.Tasks.Progress.{EndsUnit, tool-step}

quiet-EndsUnit : EndsUnit quiet done []
quiet-EndsUnit = record { returns = λ a i u r. refl; no_switch = refl; ends = refl }

tool-step_example :
    (r' : Runtime) × (t' : Task) × (us' : List ExecutionUnit) × (advance_running_tool_task quiet
        "root" 43
        (runtime_with (tool_task ∷ []))
      ≡ (ok tt, r'))
    × (held_task "root" 43 r' ≡ some t')
    × (t'.state.body ≡ tool_state reply us' none)
    × IsRun pending_unit done [] (pending_unit ∷ []) us'
    × (count_pending us' + 1 ≡ 1 + 0)
    × (t'.state.status ≡ (if all_complete us' then TaskStatus.completed else TaskStatus.running))
unfolding held_task lookup pick_next_execution_unit
tool-step_example =
    tool-step quiet "root" 43 (runtime_with (tool_task ∷ [])) tool_task (pending_unit ∷ [])
      pending_unit done [] reply none quiet-EndsUnit refl refl refl (tt, tt)
