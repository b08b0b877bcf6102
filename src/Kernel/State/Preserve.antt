-- ===== src/Kernel/State/Preserve.antt =====
-- What an invariant has to survive in kernel/runtime.py: the kernel's own writes.
use turtlemap.Prelude.{ℕ, String, List, not, keep}
use turtlemap.Prelude.Eq.{◌==◌, nat_eq}
use turtlemap.Kernel.Model.{Input, AgentFrame, Task}
use turtlemap.Kernel.Exec.Keeps.{Keeps, Keeps-reads}
use turtlemap.Kernel.State.{
  Runtime, generate_id, restore_runtime_input_queue, push_input, pop_input, set_frames, set_tasks,
  set_task, update_tasks, read_task, pop_task,
}

pub record WritesKeep (P : Runtime → Type 0) : Type 0 where
  pub keeps_id : Keeps P generate_id
  pub keeps_restore : Keeps P restore_runtime_input_queue
  pub keeps_push : (x : Input) → Keeps P (push_input x)
  pub keeps_pop : Keeps P pop_input
  pub keeps_tasks : (a : String) (f : List Task → List Task) → Keeps P (set_tasks a f)
  pub keeps_frames : (f : List AgentFrame → List AgentFrame) → Keeps P (set_frames f)

module _ {P : Runtime → Type 0} (w : WritesKeep P) where
  pub Keeps-generate_id : Keeps P generate_id
  Keeps-generate_id = w.keeps_id

  pub Keeps-push_input : (x : Input) → Keeps P (push_input x)
  Keeps-push_input = w.keeps_push

  pub Keeps-pop_input : Keeps P pop_input
  Keeps-pop_input = w.keeps_pop

  pub Keeps-set_tasks : (a : String) (f : List Task → List Task) → Keeps P (set_tasks a f)
  Keeps-set_tasks = w.keeps_tasks

  pub Keeps-set_frames : (f : List AgentFrame → List AgentFrame) → Keeps P (set_frames f)
  Keeps-set_frames = w.keeps_frames

  pub Keeps-set_task : (a : String) (i : ℕ) (f : Task → Task) → Keeps P (set_task a i f)
  unfolding set_task
  Keeps-set_task a i f = w.keeps_tasks a (update_tasks i f)

  pub Keeps-pop_task : (a : String) (i : ℕ) → Keeps P (pop_task a i)
  unfolding pop_task
  Keeps-pop_task a i = w.keeps_tasks a (keep (λ (t : Task). not (t.task_id == i)))

pub Keeps-read_task : {P : Runtime → Type 0} (a : String) (i : ℕ) → Keeps P (read_task a i)
unfolding read_task
Keeps-read_task a i = Keeps-reads _ _

pub ruleset write_rules = (
  Keeps-generate_id, Keeps-push_input, Keeps-pop_input, Keeps-set_tasks, Keeps-set_frames,
  Keeps-set_task, Keeps-pop_task, Keeps-read_task,
)
