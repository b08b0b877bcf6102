-- ===== src/Kernel/Tasks/Preserve.antt =====
-- Creating a task and running it keep what the kernel's writes and the hooks keep.
use turtlemap.Prelude.{ℕ, String, Option, none, some}
use turtlemap.Kernel.Model.{EventType, TaskSwitchAction, Input, UnitResult}
use turtlemap.Kernel.Exec.Keeps.{Keeps, ◌andthen◌, keeps_rules}
use turtlemap.Kernel.State.{Runtime}
use turtlemap.Kernel.State.Preserve.{WritesKeep, Keeps-set_tasks, write_rules}
use turtlemap.Kernel.Hooks.{Hooks, HooksKeep}
use turtlemap.Kernel.Tasks.{
  clear_interruption_request, create_task_from_input, check_user_input, start_new_task,
  handle_task_switch_action, switch_if, advance_running_tool_task, advance_running_message_task,
}

module _ {P : Runtime → Type 0} (w : WritesKeep P) {h : Hooks} (k : HooksKeep P h) where
  pub Keeps-clear_interruption_request :
      (a : String) (i : ℕ) → Keeps P (clear_interruption_request a i)
  unfolding clear_interruption_request
  Keeps-clear_interruption_request a i = search write_rules

  check_user_input-Keeps : (x : Input) (t : EventType) → Keeps P (check_user_input h x t)
  check_user_input-Keeps x EventType.user_input = search k.keeps_create
  check_user_input-Keeps x _ = search keeps_rules

  create_task_from_input-Keeps : (x : Input) → Keeps P (create_task_from_input h x)
  unfolding create_task_from_input
  create_task_from_input-Keeps x = search (keeps_rules, check_user_input-Keeps)

  pub Keeps-start_new_task : (a n : String) (x : Input) → Keeps P (start_new_task h a n x)
  unfolding start_new_task
  Keeps-start_new_task a n x = create_task_from_input-Keeps x andthen λ task.
      Keeps-set_tasks w a _ andthen λ _. k.keeps_input _ n x andthen λ _. k.keeps_commit

  handle_task_switch_action-Keeps :
      (a : String) (i : ℕ) (result : UnitResult) (action : TaskSwitchAction)
      → Keeps P (handle_task_switch_action h a i result action)
  unfolding handle_task_switch_action
  handle_task_switch_action-Keeps a i result TaskSwitchAction.pause =
      search (keeps_rules, write_rules, k.keeps_history)
  handle_task_switch_action-Keeps a i result TaskSwitchAction.push_event =
      search (keeps_rules, write_rules)

  switch_if-Keeps :
      (a : String) (i : ℕ) (result : UnitResult) (action : Option TaskSwitchAction)
      → Keeps P (switch_if h a i result action)
  switch_if-Keeps a i result none = search keeps_rules
  switch_if-Keeps a i result (some action) = handle_task_switch_action-Keeps a i result action

  pub Keeps-advance_running_tool_task :
      (a : String) (i : ℕ) → Keeps P (advance_running_tool_task h a i)
  unfolding advance_running_tool_task
  Keeps-advance_running_tool_task a i =
      search (keeps_rules, write_rules, switch_if-Keeps, k.keeps_execute) depth 14

  pub Keeps-advance_running_message_task :
      (a : String) (i : ℕ) → Keeps P (advance_running_message_task h a i)
  unfolding advance_running_message_task
  Keeps-advance_running_message_task a i =
      search (keeps_rules, write_rules, k.keeps_generate) depth 10
