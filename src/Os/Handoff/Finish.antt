-- ===== src/Os/Handoff/Finish.antt =====
-- kernel/runtime.py `_advance_completed_task` with the hook of os/runtime.py: who has control when a task is finished.
use mathlib.Core.Option
use turtlemap.Prelude.{
  ℕ, String, ◌≡◌, refl, sym, ap, ◌∙◌, subst, Bool, Option, none, some, List, get_last?, drop_last,
  inl, inr,
}
use turtlemap.Prelude.Eq.{nat_eq, string_eq}
use turtlemap.Prelude.Try.{Try, value, error}
use turtlemap.Kernel.Model.{AgentFrameChange, AgentFrame, StateBody, Task}
use turtlemap.Kernel.Exec.{
  Error, detached, Result, ok, require, reads, gets, pure, raise, modify, ◌>>=◌, ◌>>◌, >>=-eq-ok,
  reads-eq-ok,
}
use turtlemap.Kernel.State.{
  Runtime, generate_id, held_task, read_task, set_task, set_tasks, pop_task,
}
use turtlemap.Kernel.State.Reference.{held-set_task}
use turtlemap.Kernel.Hooks.{Hooks}
use turtlemap.Kernel.Frames.Stack.{KeepsFrames, moved, change-ok}
use turtlemap.Kernel.Completion.{change_if, finish_task}
use turtlemap.Os.Handoff.{
  gives, handoff_of, build_task_agent_frame_change, lift, with_change, record_change,
  task_did_complete,
}
use turtlemap.Os.Handoff.Return.{Return, build_change-Return}

-- the frames `gs` after a task of `owner`, whose state is `b`, is finished at the frames `fs`
pub data IsMoved (known : String → Bool) (owner : String) (b : StateBody) (fs gs : List AgentFrame)
    : Type 0 where
  stayed :
      build_task_agent_frame_change known owner fs b ≡ value none
      → gs ≡ fs
      → IsMoved known owner b fs gs
  given :
      (c : AgentFrameChange) (top : AgentFrame)
      → handoff_of b ≡ value (gives c)
      → get_last? fs ≡ some top
      → top.agent_name ≡ c.source
      → gs ≡ moved c top c.type fs
      → IsMoved known owner b fs gs
  returned :
      (c : AgentFrameChange)
      → Return known owner fs c
      → gs ≡ drop_last fs
      → IsMoved known owner b fs gs

abbrev pub frames : Runtime → List AgentFrame
frames r = r.session.agent_frames

-- what the hook leaves of the task and of the frames
record IsTold (known : String → Bool) (a : String) (i : ℕ) (t : Task) (r r' : Runtime)
    : Type 0 where
  change : Option AgentFrameChange
  is_built : build_task_agent_frame_change known a (frames r) t.state.body ≡ value change
  is_stored : held_task a i r' ≡ some (with_change change t)
  same_frames : frames r' ≡ frames r

module _ (known : String → Bool) (a : String) (i : ℕ) (t : Task) (r r' : Runtime)
    (held : held_task a i r ≡ some t) where
  after_set :
      (c : Option AgentFrameChange)
      → held_task a i (set_task a i (with_change c) r).1 ≡ some (with_change c t)
  after_set c =
      held-set_task a a i i (with_change c) r (λ u. refl)
      ∙ rw ((string_eq.decides a a).1 refl, (nat_eq.decides i i).1 refl)
          (ap (Option.map (with_change c)) held)

  recorded :
      (c : Option AgentFrameChange)
      → build_task_agent_frame_change known a (frames r) t.state.body ≡ value c
      → (set_task a i (with_change c) >> record_change a c) r ≡ (ok tt, r')
      → IsTold known a i t r r'
  unfolding record_change set_task set_tasks modify ◌>>=◌ pure generate_id
  recorded none built e = record {
    change = none;
    is_built = built;
    is_stored =
        subst (λ (p : Result (Unit {0}) × Runtime). held_task a i p.1 ≡ some (with_change none t)) e
          (after_set none);
    same_frames = ap (λ (p : Result (Unit {0}) × Runtime). frames p.1) (sym e);
  }
  recorded (some c) built e = record {
    change = some c;
    is_built = built;
    is_stored =
        subst
          (λ (p : Result (Unit {0}) × Runtime). held_task a i p.1 ≡ some (with_change (some c) t)) e
          (unfold held_task in after_set (some c));
    same_frames = ap (λ (p : Result (Unit {0}) × Runtime). frames p.1) (sym e);
  }

  lifted :
      (x : Try Error (Option AgentFrameChange))
      → build_task_agent_frame_change known a (frames r) t.state.body ≡ x
      → (lift x >>= λ c. set_task a i (with_change c) >> record_change a c) r ≡ (ok tt, r')
      → IsTold known a i t r r'
  unfolding ◌>>=◌ pure raise
  lifted (value c) built e = recorded c built e
  lifted (error x) built e = absurd (cc)

  did_complete-IsTold : task_did_complete known a i r ≡ (ok tt, r') → IsTold known a i t r r'
  unfolding task_did_complete read_task reads require gets ◌>>=◌
  did_complete-IsTold e =
      lifted (build_task_agent_frame_change known a (frames r) t.state.body) refl (
        ap
          (λ o.
            (require detached o >>= λ u. gets (λ (x : Runtime). x.session.agent_frames) >>= λ fs.
            lift (build_task_agent_frame_change known a fs u.state.body) >>= λ c.
            set_task a i (with_change c) >> record_change a c)
              r)
          (sym held)
        ∙ e)

some_task_inj : {t u : Task} → some t ≡ some u → t ≡ u
some_task_inj h = cc

change-IsMoved :
    (known : String → Bool) (h : Hooks) (a : String) (i : ℕ) (b : StateBody)
    (c : Option AgentFrameChange) (r r' : Runtime)
    → KeepsFrames h
    → build_task_agent_frame_change known a (frames r) b ≡ value c
    → change_if h a i c r ≡ (ok tt, r')
    → IsMoved known a b (frames r) (frames r')
unfolding pure
change-IsMoved known h a i b none r r' k built e =
    stayed built (ap (λ (p : Result (Unit {0}) × Runtime). frames p.1) (sym e))
change-IsMoved known h a i b (some c) r r' k built e =
    let (top, on_top, named, changed) = change-ok h a i c r r' k e in
    elim (build_change-Return known a (frames r) c b built) [
      | inl gave ↦ given c top gave on_top named changed
      | inr back ↦
          returned c back (changed ∙ ap (λ x. moved x top x.type (frames r)) back.is_return)
    ]

-- If the hook for a completed task is that of the OS layer and the frame hook leaves the frames
-- alone, then finishing a task, when it comes to its end, leaves the frames as they were where no
-- change was built, or moves them as the handoff of the last tool unit says, whose source was on
-- top, or takes off the top frame, which is its owner, so that control is with the agent below it,
-- which can be reached.
pub finish_task-IsMoved :
    (known : String → Bool) (h : Hooks) (a : String) (i : ℕ) (t : Task) (r r' : Runtime)
    → h.task_did_complete a i ≡ task_did_complete known a i
    → KeepsFrames h
    → held_task a i r ≡ some t
    → finish_task h a i r ≡ (ok tt, r')
    → IsMoved known a t.state.body (frames r) (frames r')
unfolding finish_task read_task pop_task set_tasks modify
finish_task-IsMoved known h a i t r r' is_hook k held e =
    let (u, r₁, e₁, k₁) = >>=-eq-ok (h.task_did_complete a i) _ r e in
    let told : IsTold known a i t r r₁ =
      did_complete-IsTold known a i t r r₁ held (ap (λ m. m r) (sym is_hook) ∙ e₁) in
    let (t₁, r₂, e₂, k₂) = >>=-eq-ok (read_task a i) _ r₁ k₁ in
    let (held₁, same₂) = reads-eq-ok detached (held_task a i) r₁ e₂ in
    let (v, r₃, e₃, k₃) = >>=-eq-ok (change_if h a i t₁.agent_frame_change) _ r₂ k₂ in
    let stored : t₁.agent_frame_change ≡ told.change =
      ap (λ x. x.agent_frame_change) (some_task_inj (sym held₁ ∙ told.is_stored)) in
    let popped : frames r' ≡ frames r₃ =
      ap (λ (p : Result (Unit {0}) × Runtime). frames p.1) (sym k₃) in
    let built : build_task_agent_frame_change known a (frames r₁) t.state.body ≡ value told.change =
      ap (λ fs. build_task_agent_frame_change known a fs t.state.body) told.same_frames
      ∙ told.is_built in
    let changed : change_if h a i told.change r₁ ≡ (ok tt, r₃) =
      ap (λ c. change_if h a i c r₁) (sym stored)
      ∙ ap (λ s. change_if h a i t₁.agent_frame_change s) (sym same₂)
      ∙ e₃ in
    subst (λ gs. IsMoved known a t.state.body (frames r) gs) (sym popped)
      (subst (λ fs. IsMoved known a t.state.body fs (frames r₃)) told.same_frames
        (change-IsMoved known h a i t.state.body told.change r₁ r₃ k built changed))
