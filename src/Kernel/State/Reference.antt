-- ===== src/Kernel/State/Reference.antt =====
-- Reading a task through a reference after a write through another one.
use mathlib.Core.Option
use turtlemap.Prelude.{
  ℕ, String, ◌≡◌, refl, none, List, [], ◌∷◌, arith, ◌&&◌, not, keep, if◌then◌else◌,
}
use turtlemap.Prelude.Eq.{◌==◌, nat_eq, string_eq}
use turtlemap.Prelude.Dict.{Dict, lookup}
use turtlemap.Kernel.Model.{Task, AgentState}
use turtlemap.Kernel.Exec.{modify}
use turtlemap.Kernel.State.{
  Runtime, update_tasks, update_agents, update_agent_tasks, set_task, find_task, tasks_of,
  held_task, pop_task,
}

tasks-update_agents :
    (a b : String) (f : List Task → List Task) (d : Dict String AgentState)
    → f [] ≡ []
    → tasks_of (lookup b (update_agents a (update_agent_tasks f) d))
      ≡ (if a == b then f (tasks_of (lookup b d)) else tasks_of (lookup b d))
unfolding lookup update_agents
tasks-update_agents a b f [] e = ground arith
tasks-update_agents a b f ((k, s) ∷ d) e = ground (
  arith,
  string_eq.decides a b,
  string_eq.decides k a,
  string_eq.decides k b,
  tasks-update_agents a b f d,
)

find-update_tasks :
    (i j : ℕ) (f : Task → Task) (ts : List Task)
    → ((t : Task) → (f t).task_id ≡ t.task_id)
    → find_task j (update_tasks i f ts)
      ≡ (if i == j then Option.map f (find_task j ts) else find_task j ts)
unfolding update_tasks
find-update_tasks i j f [] same = ground arith
find-update_tasks i j f (t ∷ ts) same = ground (arith, same t, find-update_tasks i j f ts)

-- A write through a reference is seen through the same reference, and through no other one.
pub held-set_task :
    (a b : String) (i j : ℕ) (f : Task → Task) (r : Runtime)
    → ((t : Task) → (f t).task_id ≡ t.task_id)
    → held_task b j (set_task a i f r).1
      ≡ (if a == b && i == j then Option.map f (held_task b j r) else held_task b j r)
unfolding held_task set_task modify
held-set_task a b i j f r same =
    rw
      (tasks-update_agents a b (update_tasks i f) r.session.agent_states
        (unfold update_tasks in refl))
      (ground (arith, find-update_tasks i j f (tasks_of (lookup b r.session.agent_states)) same))

find-keep :
    (i j : ℕ) (ts : List Task)
    → find_task j (keep (λ (t : Task). not (t.task_id == i)) ts)
      ≡ (if i == j then none else find_task j ts)
find-keep i j [] = ground arith
find-keep i j (t ∷ ts) = ground (arith, find-keep i j ts)

-- Taking a task away takes away what its own reference reads, and nothing else.
pub held-pop_task :
    (a b : String) (i j : ℕ) (r : Runtime)
    → held_task b j (pop_task a i r).1 ≡ (if a == b && i == j then none else held_task b j r)
unfolding held_task pop_task modify
held-pop_task a b i j r =
    rw
      (tasks-update_agents a b (keep (λ (t : Task). not (t.task_id == i))) r.session.agent_states
        refl)
      (ground (arith, find-keep i j (tasks_of (lookup b r.session.agent_states))))
