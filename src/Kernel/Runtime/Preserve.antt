-- ===== src/Kernel/Runtime/Preserve.antt =====
-- One rule for every invariant of kernel/runtime.py: what the kernel's own writes and the hooks
-- keep, every turn of the loop and the whole of `run` keep, also where a step raises.
use turtlemap.Prelude.{ℕ, zero, suc, String, Bool, true, false, Option, none, some, List, [], ◌∷◌}
use turtlemap.Kernel.Model.{EventType, ObservableEvent, Input, Task, AgentState}
use turtlemap.Kernel.Exec.{◌>>=◌}
use turtlemap.Kernel.Exec.Keeps.{
  Keeps, ◌andthen◌, Keeps-pure, Keeps-gets, Keeps-require, Keeps-reads, keeps_rules,
}
use turtlemap.Kernel.State.{Runtime, restore_runtime_input_queue}
use turtlemap.Kernel.State.Preserve.{WritesKeep, write_rules}
use turtlemap.Kernel.Hooks.{Hooks, HooksKeep}
use turtlemap.Kernel.Frames.Preserve.{Keeps-top_frame}
use turtlemap.Kernel.Interruption.Preserve.{Keeps-resume_runtime}
use turtlemap.Kernel.Tasks.Preserve.{Keeps-start_new_task}
use turtlemap.Kernel.Completion.Preserve.{Keeps-advance_completed_task, Keeps-advance_running_task}
use turtlemap.Kernel.Runtime.{
  resolve_owner_agent, dispatch_input, process_new_input, take_new_input, run_or_take,
  complete_or_run, go_on, turn, loop, push_events, run,
}

module _ {P : Runtime → Type 0} (w : WritesKeep P) {h : Hooks} (k : HooksKeep P h) where
  resolve_owner_agent-Keeps : Keeps P resolve_owner_agent
  unfolding resolve_owner_agent
  resolve_owner_agent-Keeps =
      Keeps-top_frame w andthen λ frame. Keeps-gets _ andthen λ names. Keeps-require _ _

  dispatch_input-Keeps :
      (a n : String) (x : Input) (t : EventType) → Keeps P (dispatch_input h a n x t)
  dispatch_input-Keeps a n x EventType.user_input = Keeps-start_new_task w k a n x
  dispatch_input-Keeps a n x EventType.interruption_response = Keeps-resume_runtime w k x
  dispatch_input-Keeps a n x EventType.environment_message = search keeps_rules

  process_new_input-Keeps : (a n : String) → Keeps P (process_new_input h a n)
  unfolding process_new_input
  process_new_input-Keeps a n = search (keeps_rules, write_rules, dispatch_input-Keeps)

  take_new_input-Keeps : (a : String) (s : AgentState) (b : Bool) → Keeps P (take_new_input h a s b)
  take_new_input-Keeps a s true = search keeps_rules
  take_new_input-Keeps a s false = search (keeps_rules, process_new_input-Keeps)

  run_or_take-Keeps :
      (a : String) (s : AgentState) (t : Option Task) → Keeps P (run_or_take h a s t)
  run_or_take-Keeps a s none = search (keeps_rules, take_new_input-Keeps)
  run_or_take-Keeps a s (some t) =
      Keeps-advance_running_task w k a t.task_id andthen λ _. Keeps-pure true

  complete_or_run-Keeps :
      (a : String) (s : AgentState) (t : Option Task) → Keeps P (complete_or_run h a s t)
  complete_or_run-Keeps a s none = run_or_take-Keeps a s _
  complete_or_run-Keeps a s (some t) =
      Keeps-advance_completed_task w k a t.task_id andthen λ _. Keeps-pure true

  pub Keeps-turn : Keeps P (turn h)
  unfolding turn
  Keeps-turn = resolve_owner_agent-Keeps andthen λ a.
      Keeps-reads _ _ andthen λ s. complete_or_run-Keeps a s _

  loop_if-Keeps :
      (fuel : ℕ) (more : Bool) → Keeps P (loop h fuel) → Keeps P (go_on more (loop h fuel))
  loop_if-Keeps fuel true l = l
  loop_if-Keeps fuel false l = Keeps-pure true

  pub Keeps-loop : (fuel : ℕ) → Keeps P (loop h fuel)
  unfolding loop
  Keeps-loop zero = Keeps-pure false
  Keeps-loop (suc fuel) = Keeps-turn andthen λ more. loop_if-Keeps fuel more (Keeps-loop fuel)

  push_events-Keeps : (events : List ObservableEvent) → Keeps P (push_events events)
  push_events-Keeps [] = search keeps_rules
  push_events-Keeps (e ∷ es) = search (keeps_rules, write_rules)

  -- An invariant that the restored queue establishes need not hold before.
  pub Keeps-run_restored :
      (fuel : ℕ) (events : List ObservableEvent) (r : Runtime)
      → P (restore_runtime_input_queue r).1
      → P (run h fuel events r).1
  unfolding run restore_runtime_input_queue ◌>>=◌
  Keeps-run_restored fuel events r p =
      (push_events-Keeps events andthen λ _. k.keeps_commit andthen λ _. Keeps-loop fuel).at
        (record r { runtime_input_queue = r.session.input_queue }) p
