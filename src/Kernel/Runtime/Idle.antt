-- ===== src/Kernel/Runtime/Idle.antt =====
-- What the loop of kernel/runtime.py has reached when it breaks.
use turtlemap.Prelude.{
  ℕ, zero, suc, String, ◌≡◌, ◌≢◌, refl, Bool, true, false, Option, none, some, List, [], ◌∷◌, arith,
  get_last?, sym, subst, ◌∙◌, ◌&&◌, All, All-map, find?-eq-none,
}
use turtlemap.Prelude.Eq.{string_eq}
use turtlemap.Prelude.Dict.{lookup}
use turtlemap.Kernel.Model.{
  TaskStatus, UnitStatus, ExecutionUnit, StateBody, message_state, tool_state, auto_response_state,
  AgentFrame, AgentState, Task, ObservableEvent, Input,
}
use turtlemap.Kernel.Exec.{Exec, ok, pure, gets, ◌>>=◌, >>=-eq-ok, reads-eq-ok, require-eq-ok}
use turtlemap.Kernel.State.{Runtime, restore_runtime_input_queue}
use turtlemap.Kernel.Select.{
  is_pending, is_completed, is_running, pick_completed_task, pick_next_execution_unit, is_available,
  pick_available_running_task,
}
use turtlemap.Kernel.Hooks.{Hooks, HooksKeep}
use turtlemap.Kernel.Frames.{top_frame}
use turtlemap.Kernel.Completion.{advance_completed_task, advance_running_task}
use turtlemap.Kernel.Runtime.{
  known_agent, resolve_owner_agent, owner_state, process_new_input, no_input, take_new_input,
  run_or_take, complete_or_run, go_on, turn, loop, push_events, run,
}
use turtlemap.Kernel.Runtime.Queue.{IsAligned, run-IsAligned}

-- No message is left to generate and no unit is left to start.
abbrev pub NoWork : StateBody → Type 0
NoWork (message_state m o) = ⊥
NoWork (tool_state c units o) = All (λ (u : ExecutionUnit). u.status ≢ UnitStatus.pending) units
NoWork auto_response_state = Unit

-- The runtime can do nothing more for the task by itself.
pub record IsSettled (t : Task) : Type 0 where
  pub not_completed : t.state.status ≢ TaskStatus.completed
  pub no_work : t.state.status ≡ TaskStatus.running → NoWork t.state.body

-- The agent on top of the frames has no task to advance, and no input waits.
pub record IsIdle (r : Runtime) : Type 0 where
  pub frame : AgentFrame
  pub owner : AgentState
  pub on_top : get_last? r.session.agent_frames ≡ some frame
  pub owns : lookup frame.agent_name r.session.agent_states ≡ some owner
  pub settled : All IsSettled owner.processing_tasks
  pub no_inputs : r.runtime_input_queue ≡ []

not_pending : (u : ExecutionUnit) → is_pending u.status ≡ false → u.status ≢ UnitStatus.pending
not_pending u h e = ground arith

is_available-false : (b : StateBody) → is_available b ≡ false → NoWork b
unfolding is_available pick_next_execution_unit
is_available-false (message_state m o) h = cc
is_available-false (tool_state c units o) h =
    All-map not_pending units (find?-eq-none _ units (ground arith))
is_available-false auto_response_state h = tt

settled :
    (t : Task)
    → is_completed t.state.status ≡ false
    → (is_running t.state.status && is_available t.state.body) ≡ false
    → IsSettled t
settled t c a = record {
  not_completed = λ e. ground arith;
  no_work = λ e. is_available-false t.state.body (ground arith);
}

settle_each :
    (ts : List Task)
    → All (λ (t : Task). is_completed t.state.status ≡ false) ts
    → All (λ (t : Task). (is_running t.state.status && is_available t.state.body) ≡ false) ts
    → All IsSettled ts
settle_each [] c a = tt
settle_each (t ∷ ts) c a = (settled t c.0 a.0, settle_each ts c.1 a.1)

settle :
    (ts : List Task)
    → pick_completed_task ts ≡ none
    → pick_available_running_task ts ≡ none
    → All IsSettled ts
unfolding pick_completed_task pick_available_running_task
settle ts c a = settle_each ts (find?-eq-none _ ts c) (find?-eq-none _ ts a)

-- `pure b` at the end of a branch fixes what the turn answers.
answer_of :
    {A : Type 0} (m : Exec Runtime A) (b c : Bool) (r r' : Runtime)
    → (m >>= λ _. pure b) r ≡ (ok c, r')
    → b ≡ c
unfolding pure
answer_of m b c r r' h = let (a, s, e, k) = >>=-eq-ok m (λ _. pure b) r h in cc

known_agent-eq :
    (a : String) (names : List String) (k : String) → known_agent a names ≡ some k → k ≡ a
known_agent-eq a [] k h = cc
known_agent-eq a (n ∷ names) k h = ground (arith, string_eq.decides n a, known_agent-eq a names k)

resolve_owner_agent-ok :
    (r : Runtime) {a : String} {r' : Runtime}
    → resolve_owner_agent r ≡ (ok a, r')
    → (f : AgentFrame) × (get_last? r.session.agent_frames ≡ some f) × (f.agent_name ≡ a) × (r' ≡ r)
unfolding resolve_owner_agent gets
resolve_owner_agent-ok r {a} h =
    let (f, r₁, e₁, k₁) = >>=-eq-ok top_frame _ r h in
    let (names, r₂, e₂, k₂) = >>=-eq-ok (gets (λ (x : Runtime). x.agent_names)) _ r₁ k₁ in
    let (top, same) = reads-eq-ok _ _ r e₁ in
    let (found, same') = require-eq-ok _ (known_agent f.agent_name names) r₂ k₂ in
    (f, top, sym (known_agent-eq f.agent_name names a found), cc)

take_new_input-false :
    (h : Hooks) (a : String) (s : AgentState) (b : Bool) (r r' : Runtime)
    → take_new_input h a s b r ≡ (ok false, r')
    → (b ≡ true) × (r' ≡ r)
unfolding pure
take_new_input-false h a s true r r' e = (refl, cc)
take_new_input-false h a s false r r' e =
    let wrong = answer_of (process_new_input h a s.agent_name) true false r r' e in (cc, cc)

no_input-true : (q : List Input) → no_input q ≡ true → q ≡ []
no_input-true [] h = refl
no_input-true (x ∷ q) h = cc

run_or_take-false :
    (h : Hooks) (a : String) (s : AgentState) (t : Option Task) (r r' : Runtime)
    → run_or_take h a s t r ≡ (ok false, r')
    → (t ≡ none) × (r.runtime_input_queue ≡ []) × (r' ≡ r)
unfolding ◌>>=◌
run_or_take-false h a s none r r' e =
    let (empty, same) = take_new_input-false h a s (no_input r.runtime_input_queue) r r' e in
    (refl, no_input-true r.runtime_input_queue empty, same)
run_or_take-false h a s (some t) r r' e =
    let wrong = answer_of (advance_running_task h a t.task_id) true false r r' e in (cc, cc, cc)

complete_or_run-false :
    (h : Hooks) (a : String) (s : AgentState) (t : Option Task) (r r' : Runtime)
    → complete_or_run h a s t r ≡ (ok false, r')
    → (t ≡ none)
      × (pick_available_running_task s.processing_tasks ≡ none)
      × (r.runtime_input_queue ≡ [])
      × (r' ≡ r)
complete_or_run-false h a s none r r' e =
    let (nothing, empty, same) = run_or_take-false h a s _ r r' e in (refl, nothing, empty, same)
complete_or_run-false h a s (some t) r r' e =
    let wrong = answer_of (advance_completed_task h a t.task_id) true false r r' e in
    (cc, cc, cc, cc)

turn-IsIdle : (h : Hooks) (r r' : Runtime) → turn h r ≡ (ok false, r') → IsIdle r'
unfolding turn
turn-IsIdle h r r' e =
    let (a, r₁, e₁, k₁) = >>=-eq-ok resolve_owner_agent _ r e in
    let (f, top, named, same₁) = resolve_owner_agent-ok r e₁ in
    let (s, r₂, e₂, k₂) = >>=-eq-ok (owner_state a) _ r₁ k₁ in
    let (owns, same₂) = reads-eq-ok _ _ r₁ e₂ in
    let (no_done, no_run, empty, same₃) =
      complete_or_run-false h a s (pick_completed_task s.processing_tasks) r₂ r' k₂ in
    let same : r' ≡ r = same₃ ∙ same₂ ∙ same₁ in
    subst IsIdle (sym same) (record {
      frame = f;
      owner = s;
      on_top = top;
      owns = cc;
      settled = settle s.processing_tasks no_done no_run;
      no_inputs = subst (λ (x : Runtime). x.runtime_input_queue ≡ []) (same₂ ∙ same₁) empty;
    })

loop-IsIdle : (h : Hooks) (fuel : ℕ) (r r' : Runtime) → loop h fuel r ≡ (ok true, r') → IsIdle r'
unfolding loop pure
loop-IsIdle h zero r r' e = cc
loop-IsIdle h (suc fuel) r r' e =
    let (more, r₁, e₁, k₁) = >>=-eq-ok (turn h) (λ more. go_on more (loop h fuel)) r e in
    go more r₁ e₁ k₁ (loop-IsIdle h fuel r₁ r')
  where
    go :
        (more : Bool) (r₁ : Runtime)
        → turn h r ≡ (ok more, r₁)
        → go_on more (loop h fuel) r₁ ≡ (ok true, r')
        → (loop h fuel r₁ ≡ (ok true, r') → IsIdle r')
        → IsIdle r'
    go true r₁ e₁ k₁ ih = ih k₁
    go false r₁ e₁ k₁ ih = subst IsIdle (cc) (turn-IsIdle h r r₁ e₁)

-- When run comes to its end, the agent on top of the frames has no completed task and no task that
-- it could run, and neither the queue in memory nor the persisted one holds an input, if each hook
-- keeps the two queues in step.
pub run-IsIdle :
    (h : Hooks) (fuel : ℕ) (events : List ObservableEvent) (r r' : Runtime)
    → HooksKeep IsAligned h
    → run h fuel events r ≡ (ok true, r')
    → IsIdle r' × (r'.session.input_queue ≡ [])
unfolding run
run-IsIdle h fuel events r r' k e =
    let (_, r₁, _, k₁) = >>=-eq-ok restore_runtime_input_queue _ r e in
    let (_, r₂, _, k₂) = >>=-eq-ok (push_events events) _ r₁ k₁ in
    let (_, r₃, _, k₃) = >>=-eq-ok h.commit_runtime_checkpoint _ r₂ k₂ in
    let idle = loop-IsIdle h fuel r₃ r' k₃ in
    let aligned : IsAligned (run h fuel events r).1 = run-IsAligned h fuel events r k in
    (idle, cc (aligned.mirrors, e, idle.no_inputs))
