-- ===== src/Kernel/Tasks/Progress.antt =====
-- kernel/runtime.py `_advance_running_tool_task`: what one step does to its task.
use turtlemap.Prelude.{
  ℕ, ◌+◌, String, ◌≡◌, refl, ◌∙◌, Bool, true, false, Option, none, some, List, ◌++◌, arith,
  if◌then◌else◌,
}
use turtlemap.Prelude.Eq.{nat_eq, string_eq}
use turtlemap.Kernel.Model.{
  TaskStatus, ExecutionUnit, UnitResult, RuntimeArtifact, tool_state, Task,
}
use turtlemap.Kernel.Exec.{ok, pure, require, reads, ◌>>=◌}
use turtlemap.Kernel.State.{Runtime, read_task, set_task, held_task}
use turtlemap.Kernel.State.Reference.{held-set_task}
use turtlemap.Kernel.Select.{is_finished, pick_next_execution_unit}
use turtlemap.Kernel.Hooks.{Hooks}
use turtlemap.Kernel.Tasks.{
  units_of, update_unit, start_unit, set_units, all_complete, complete_if, record_result,
  advance_running_tool_task,
}
use turtlemap.Kernel.Tasks.Units.{
  count_pending, count_pending-append, Distinct, ran, count-ran, IsRun, ran-IsRun,
}

-- A tool that ends its unit, asks for no task switch and changes nothing else in the runtime.
pub record EndsUnit (h : Hooks) (res : UnitResult) (appended : List ExecutionUnit) : Type 0 where
  pub returns :
      (a : String) (i : ℕ) (u : ExecutionUnit) (r : Runtime)
      → h.execute_unit a i u r ≡ (ok (res, appended), r)
  pub no_switch : res.task_switch_action ≡ none
  pub ends : is_finished res.next_unit_status ≡ true

-- the runtime after the two writes of a step
abbrev after_start : String → ℕ → ExecutionUnit → Runtime → Runtime
after_start a i u r = (set_task a i (set_units (update_unit u.unit_id start_unit)) r).1

abbrev after_step : String → ℕ → ExecutionUnit → UnitResult → List ExecutionUnit → Runtime → Runtime
after_step a i u res app r =
    (set_task a i (record_result u.unit_id res app) (after_start a i u r)).1

read-held :
    (a : String) (i : ℕ) (r : Runtime) (t : Task)
    → held_task a i r ≡ some t
    → read_task a i r ≡ (ok t, r)
unfolding read_task reads require
read-held a i r t e = rw e

advance-eq :
    (h : Hooks) (a : String) (i : ℕ) (r : Runtime) (t : Task) (us : List ExecutionUnit)
    (u : ExecutionUnit) (res : UnitResult) (app : List ExecutionUnit)
    → EndsUnit h res app
    → held_task a i r ≡ some t
    → units_of t.state.body ≡ some us
    → pick_next_execution_unit us ≡ some u
    → advance_running_tool_task h a i r ≡ (ok tt, after_step a i u res app r)
unfolding advance_running_tool_task ◌>>=◌ require pure set_task
advance-eq h a i r t us u res app w e₁ e₂ e₃ = rw (read-held a i r t e₁) (
    rw e₂ (rw e₃ (rw (w.returns a i (start_unit u) (after_start a i u r), ◌>>=◌) (rw w.no_switch))))

held_self :
    (a : String) (i : ℕ) (f : Task → Task) (r : Runtime) (t : Task)
    → ((x : Task) → (f x).task_id ≡ x.task_id)
    → held_task a i r ≡ some t
    → held_task a i (set_task a i f r).1 ≡ some (f t)
held_self a i f r t same e =
    held-set_task a a i i f r same
    ∙ rw ((string_eq.decides a a).1 refl, (nat_eq.decides i i).1 refl, e)

set_units-id :
    (f : List ExecutionUnit → List ExecutionUnit) (x : Task) → (set_units f x).task_id ≡ x.task_id
set_units-id f x = refl

record_result-id :
    (n : ℕ) (res : UnitResult) (app : List ExecutionUnit) (x : Task)
    → (record_result n res app x).task_id ≡ x.task_id
record_result-id n res app x = ground arith

complete_if-body : (b : Bool) (t : Task) → (complete_if b t).state.body ≡ t.state.body
complete_if-body true t = refl
complete_if-body false t = refl

complete_if-status :
    (b : Bool) (t : Task)
    → (complete_if b t).state.status ≡ (if b then TaskStatus.completed else t.state.status)
complete_if-status true t = refl
complete_if-status false t = refl

-- the task after a step
abbrev stepped : ℕ → UnitResult → List ExecutionUnit → Task → Task
stepped n res app t = record_result n res app (set_units (update_unit n start_unit) t)

stepped-body :
    (n : ℕ) (res : UnitResult) (app us : List ExecutionUnit) (c : RuntimeArtifact) (o : Option ℕ)
    (t : Task)
    → t.state.body ≡ tool_state c us o
    → (stepped n res app t).state.body ≡ tool_state c (ran n res us ++ app) o
stepped-body n res app us c o t e = rw complete_if-body (rw e)

stepped-status :
    (n : ℕ) (res : UnitResult) (app us : List ExecutionUnit) (c : RuntimeArtifact) (o : Option ℕ)
    (t : Task)
    → t.state.body ≡ tool_state c us o
    → (stepped n res app t).state.status
      ≡ (if all_complete (ran n res us ++ app) then TaskStatus.completed else t.state.status)
stepped-status n res app us c o t e = rw complete_if-status (rw e)

-- One step on a tool task returns: the first pending unit is replaced in its place by itself with
-- the tool's result and status, every other unit stays, and the units that the tool asked for
-- stand behind them, in order; so one pending unit less is left, beside the appended ones; the
-- task is completed exactly when every unit has then ended, and otherwise keeps its status. The
-- tool ends its unit and changes nothing else, and unit ids are distinct.
pub tool-step :
    (h : Hooks) (a : String) (i : ℕ) (r : Runtime) (t : Task) (us : List ExecutionUnit)
    (u : ExecutionUnit) (res : UnitResult) (app : List ExecutionUnit) (c : RuntimeArtifact)
    (o : Option ℕ)
    → EndsUnit h res app
    → held_task a i r ≡ some t
    → t.state.body ≡ tool_state c us o
    → pick_next_execution_unit us ≡ some u
    → Distinct us
    → (r' : Runtime) × (t' : Task) × (us' : List ExecutionUnit) × (advance_running_tool_task h a i r
        ≡ (ok tt, r'))
      × (held_task a i r' ≡ some t')
      × (t'.state.body ≡ tool_state c us' o)
      × IsRun u res app us us'
      × (count_pending us' + 1 ≡ count_pending us + count_pending app)
      × (t'.state.status ≡ (if all_complete us' then TaskStatus.completed else t.state.status))
tool-step h a i r t us u res app c o w held body next d =
    let started = set_units (update_unit u.unit_id start_unit) t in
    (
      after_step a i u res app r,
      stepped u.unit_id res app t,
      ran u.unit_id res us ++ app,
      advance-eq h a i r t us u res app w held (rw body) next,
      held_self a i (record_result u.unit_id res app) (after_start a i u r) started
          (record_result-id u.unit_id res app)
          (held_self a i (set_units (update_unit u.unit_id start_unit)) r t (λ x. refl) held),
      stepped-body u.unit_id res app us c o t body,
      ran-IsRun res app us u d next,
      omega (
        arith,
        count_pending-append (ran u.unit_id res us) app,
        count-ran res us u d next w.ends,
      ),
      stepped-status u.unit_id res app us c o t body,
    )
