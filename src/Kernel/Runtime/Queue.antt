-- ===== src/Kernel/Runtime/Queue.antt =====
-- An invariant of `run` in kernel/runtime.py: the two input queues.
use turtlemap.Prelude.{ℕ, ◌≡◌, refl, List, [], ◌∷◌, ◌++◌, arith, ap, sym}
use turtlemap.Prelude.Eq.{nat_eq}
use turtlemap.Kernel.Model.{ObservableEvent, Input}
use turtlemap.Kernel.Exec.{modify}
use turtlemap.Kernel.State.{
  Runtime, generate_id, restore_runtime_input_queue, push_input, pop_input, remove_input, set_tasks,
  take_input, set_frames,
}
use turtlemap.Kernel.State.Preserve.{WritesKeep}
use turtlemap.Kernel.Hooks.{Hooks, HooksKeep}
use turtlemap.Kernel.Runtime.{run}
use turtlemap.Kernel.Runtime.Preserve.{Keeps-run_restored}

-- The queue in memory and the persisted queue hold the same inputs in the same order.
pub record IsAligned (r : Runtime) : Type 0 where
  pub mirrors : r.runtime_input_queue ≡ r.session.input_queue

remove_input-head : (x : Input) (xs : List Input) → remove_input x.input_id (x ∷ xs) ≡ xs
unfolding remove_input
remove_input-head x xs = ground arith

take_input-IsAligned :
    (q : List Input) (r : Runtime)
    → IsAligned r
    → q ≡ r.session.input_queue
    → IsAligned (take_input q r).1
unfolding take_input
take_input-IsAligned [] r a h = a
take_input-IsAligned (x ∷ rest) r a h = record {
  mirrors = rw (← h) (sym (remove_input-head x rest));
}

WritesKeep-IsAligned : WritesKeep IsAligned
unfolding generate_id restore_runtime_input_queue push_input pop_input set_tasks set_frames modify
WritesKeep-IsAligned = record {
  keeps_id = record { at = λ r a. record { mirrors = a.mirrors } };
  keeps_restore = record { at = λ r a. record { mirrors = refl } };
  keeps_push = λ x. record { at = λ r a. record { mirrors = ap (λ q. q ++ x ∷ []) a.mirrors } };
  keeps_pop = record { at = λ r a. take_input-IsAligned r.runtime_input_queue r a a.mirrors };
  keeps_tasks = λ a f. record { at = λ r al. record { mirrors = al.mirrors } };
  keeps_frames = λ f. record { at = λ r a. record { mirrors = a.mirrors } };
}

-- Whatever state run starts from, whatever it is given and however it ends, also by a raise, the
-- queue in memory and the persisted queue agree afterwards, if each hook keeps them so.
pub run-IsAligned :
    (h : Hooks) (fuel : ℕ) (events : List ObservableEvent) (r : Runtime)
    → HooksKeep IsAligned h
    → IsAligned (run h fuel events r).1
run-IsAligned h fuel events r k =
    Keeps-run_restored WritesKeep-IsAligned k fuel events r
      (unfold restore_runtime_input_queue in record { mirrors = refl })
