-- ===== src/Kernel/Interruption/Preserve.antt =====
-- `_resume_runtime` keeps what the kernel's writes and the hooks keep.
use turtlemap.Prelude.{Option, none, some}
use turtlemap.Kernel.Model.{EventType, ObservableEvent, Input, ResponsePayload}
use turtlemap.Kernel.Exec.Keeps.{Keeps, ◌andthen◌, keeps_rules}
use turtlemap.Kernel.State.{Runtime}
use turtlemap.Kernel.State.Preserve.{WritesKeep, write_rules}
use turtlemap.Kernel.Select.{Match}
use turtlemap.Kernel.Hooks.{Hooks, HooksKeep}
use turtlemap.Kernel.Interruption.{
  answer, apply_match, apply_event, apply_interruption_response, resume_runtime,
}

module _ {P : Runtime → Type 0} (w : WritesKeep P) {h : Hooks} (k : HooksKeep P h) where
  answer-Keeps :
      (x : Input) (p : ResponsePayload) (m : Match) (given : Option ResponsePayload)
      → Keeps P (answer h x p m given)
  answer-Keeps x p m none = search (keeps_rules, write_rules, k.keeps_input)
  answer-Keeps x p m (some q) = search keeps_rules

  apply_match-Keeps :
      (x : Input) (p : ResponsePayload) (found : Option Match) → Keeps P (apply_match h x p found)
  apply_match-Keeps x p none = search keeps_rules
  apply_match-Keeps x p (some m) = answer-Keeps x p m m.request.response

  apply_event-Keeps :
      (x : Input) (e : ObservableEvent) (t : EventType) → Keeps P (apply_event h x e t)
  apply_event-Keeps x e EventType.interruption_response = search (keeps_rules, apply_match-Keeps)
  apply_event-Keeps x e _ = search keeps_rules

  pub Keeps-apply_interruption_response : (x : Input) → Keeps P (apply_interruption_response h x)
  unfolding apply_interruption_response
  Keeps-apply_interruption_response x = search (keeps_rules, apply_event-Keeps)

  pub Keeps-resume_runtime : (x : Input) → Keeps P (resume_runtime h x)
  unfolding resume_runtime
  Keeps-resume_runtime x = Keeps-apply_interruption_response x andthen λ _. k.keeps_commit
