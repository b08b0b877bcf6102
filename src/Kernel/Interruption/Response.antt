-- ===== src/Kernel/Interruption/Response.antt =====
-- kernel/runtime.py `_apply_interruption_response`: a response, and a second one to its request.
use turtlemap.Prelude.{ℕ, String, ◌≡◌, refl, Option, none, some, sym, subst, ◌∙◌}
use turtlemap.Prelude.Eq.{nat_eq, string_eq}
use turtlemap.Kernel.Model.{EventType, EventPayload, ObservableEvent, Input, ResponsePayload}
use turtlemap.Kernel.Exec.{ok, pure, modify, ◌>>=◌}
use turtlemap.Kernel.State.{Runtime, set_task}
use turtlemap.Kernel.Select.{Match, find_interruption_request}
use turtlemap.Kernel.Hooks.{Hooks}
use turtlemap.Kernel.Interruption.{
  first_event, resume_task, answer, apply_match, apply_interruption_response,
}
use turtlemap.Kernel.Interruption.Answered.{
  IsAnswered, OnlyAt, update_agents-Answered, find-HasResponse, find-located,
}

-- An input package whose first event is a response with payload `p`.
pub record IsResponse (x : Input) (p : ResponsePayload) : Type 0 where
  pub event : ObservableEvent
  pub first : first_event x.events ≡ some event
  pub is_type : event.event_type ≡ EventType.interruption_response
  pub carries : event.payload ≡ EventPayload.interruption_response p

-- On a well-formed package the checks pass, and the match decides.
apply-response :
    (h : Hooks) (x : Input) (p : ResponsePayload) (r : Runtime)
    → IsResponse x p
    → apply_interruption_response h x r
      ≡ apply_match h x p (find_interruption_request p.request_id r.session.agent_states) r
unfolding apply_interruption_response ◌>>=◌
apply-response h x p r w = rw (w.first, w.is_type, w.carries)

apply-answered :
    (h : Hooks) (x : Input) (p : ResponsePayload) (r : Runtime) (o : Option Match)
    → find_interruption_request p.request_id r.session.agent_states ≡ o
    → IsAnswered p.request_id r.session.agent_states
    → apply_match h x p o r ≡ (ok tt, r)
unfolding pure
apply-answered h x p r none e g = refl
apply-answered h x p r (some m) e g =
    let (q, given) = find-HasResponse p.request_id r.session.agent_states m g e in rw given

-- A response to a request that has its response changes nothing.
pub answered-unchanged :
    (h : Hooks) (x : Input) (p : ResponsePayload) (r : Runtime)
    → IsResponse x p
    → IsAnswered p.request_id r.session.agent_states
    → apply_interruption_response h x r ≡ (ok tt, r)
answered-unchanged h x p r w g = apply-response h x p r w ∙ apply-answered h x p r _ refl g

-- The hook for a consumed input leaves the runtime alone.
abbrev pub IsQuiet : Hooks → Type 0
IsQuiet h =
    (i : ℕ) (a : String) (x : Input) (r : Runtime) → h.input_did_process i a x r ≡ (ok tt, r)

module _ (h : Hooks) (x y : Input) (p q : ResponsePayload) (a : String) (n : ℕ) (r r' : Runtime)
    (quiet : IsQuiet h) (wx : IsResponse x p) (wy : IsResponse y q)
    (again : q.request_id ≡ p.request_id)
    (only : OnlyAt a n p.request_id r.session.agent_states) where
  answer-then-again :
      (m : Match) (given : Option ResponsePayload)
      → m.request.response ≡ given
      → find_interruption_request p.request_id r.session.agent_states ≡ some m
      → answer h x p m given r ≡ (ok tt, r')
      → apply_interruption_response h y r' ≡ (ok tt, r')
  unfolding pure set_task modify ◌>>=◌
  answer-then-again m (some v) g f e =
      let same : r ≡ r' = cc in apply-response h y q r' wy ∙ rw (again, ← same, f, g) refl
  answer-then-again m none g f e =
      let answered : Runtime = (set_task m.key m.task.task_id (resume_task m.request p) r).1 in
      let same : answered ≡ r' = cc (quiet m.task.task_id m.agent_state.agent_name x answered) in
      let (at, id) = find-located a n p.request_id r.session.agent_states m only f in
      let all = update_agents-Answered a n p.request_id m.request p r.session.agent_states only in
      answered-unchanged h y q r' wy (
        subst (λ (z : Runtime). IsAnswered q.request_id z.session.agent_states) same
          (rw (again, at, id) all))

  match-then-again :
      (o : Option Match)
      → find_interruption_request p.request_id r.session.agent_states ≡ o
      → apply_match h x p o r ≡ (ok tt, r')
      → apply_interruption_response h y r' ≡ (ok tt, r')
  unfolding pure
  match-then-again none f e =
      let same : r ≡ r' = cc in apply-response h y q r' wy ∙ rw (again, ← same, f) refl
  match-then-again (some m) f e = answer-then-again m m.request.response refl f e

  -- Once a response to a request has been applied, applying a response to the same request again
  -- changes nothing, if at most one task awaits the request and the input hook changes nothing.
  pub response-once :
      apply_interruption_response h x r ≡ (ok tt, r')
      → apply_interruption_response h y r' ≡ (ok tt, r')
  response-once e = match-then-again _ refl (sym (apply-response h x p r wx) ∙ e)
