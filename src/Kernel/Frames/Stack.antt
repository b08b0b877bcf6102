-- ===== src/Kernel/Frames/Stack.antt =====
-- What `_change_agent_frame` leaves of the stack of frames.
use turtlemap.Prelude.{
  ℕ, String, ◌≡◌, refl, sym, Bool, true, false, Option, none, some, List, [], ◌∷◌, ◌++◌, ◌∙◌, ap,
  get_last?, get_last?-append, subst, if◌then◌else◌, drop_last, drop_last-append, not,
}
use turtlemap.Prelude.Eq.{◌==◌, string_eq}
use turtlemap.Kernel.Model.{FrameChangeType, Input, AgentFrameChange, AgentFrame}
use turtlemap.Kernel.Exec.{
  Result, ok, kernel_runtime, pure, raise, modify, ◌>>=◌, ◌>>◌, >>=-eq-ok, reads-eq-ok,
}
use turtlemap.Kernel.Exec.Keeps.{Keeps, ◌andthen◌, Keeps-pure, Keeps-if, keeps_rules}
use turtlemap.Kernel.State.{Runtime, Act, generate_id, push_input, read_task, set_frames}
use turtlemap.Kernel.Hooks.{Hooks}
use turtlemap.Kernel.Frames.{
  top_frame, frame_of, move_frame, push_handoff_input, start_target, change_agent_frame,
}

-- The session's frames are `fs`.
abbrev Frames : List AgentFrame → Runtime → Type 0
Frames fs r = r.session.agent_frames ≡ fs

-- The hook for a changed frame does not change the frames itself.
abbrev pub KeepsFrames : Hooks → Type 0
KeepsFrames h =
    (fs : List AgentFrame) (a : String) (i : ℕ) (c : AgentFrameChange)
    → Keeps (Frames fs) (h.agent_frame_did_change a i c)

module _ (fs : List AgentFrame) where
  generate_id-Frames : Keeps (Frames fs) generate_id
  unfolding generate_id
  generate_id-Frames = record { at = λ r p. p }

  push_input-Frames : (x : Input) → Keeps (Frames fs) (push_input x)
  unfolding push_input
  push_input-Frames x = record { at = λ r p. p }

  push_handoff_input-Frames :
      (source : Option Input) → Keeps (Frames fs) (push_handoff_input source)
  unfolding push_handoff_input
  push_handoff_input-Frames none = Keeps-pure tt
  push_handoff_input-Frames (some x) = search (keeps_rules, generate_id-Frames, push_input-Frames)

  start_target-Frames : (a : String) (i : ℕ) → Keeps (Frames fs) (start_target a i)
  unfolding read_task
  start_target-Frames a i = search (keeps_rules, push_handoff_input-Frames)

-- the frames after each kind of change
abbrev pub moved :
    AgentFrameChange → AgentFrame → FrameChangeType → List AgentFrame → List AgentFrame
moved c top FrameChangeType.push fs = fs ++ frame_of c top ∷ []
moved c top FrameChangeType.pop fs = drop_last fs

move_frame-ok :
    (c : AgentFrameChange) (top : AgentFrame) (t : FrameChangeType) (r r' : Runtime) {b : Bool}
    → move_frame c top t r ≡ (ok b, r')
    → r'.session.agent_frames ≡ moved c top t r.session.agent_frames
unfolding move_frame set_frames modify pure ◌>>=◌
move_frame-ok c top FrameChangeType.push r r' e =
    ap (λ (p : Result Bool × Runtime). p.1.session.agent_frames) (sym e)
move_frame-ok c top FrameChangeType.pop r r' e =
    ap (λ (p : Result Bool × Runtime). p.1.session.agent_frames) (sym e)

checked-ok :
    (b : Bool) (m : Act (Unit {0})) (r r' : Runtime)
    → (if not b then raise kernel_runtime else m) r ≡ (ok tt, r')
    → (b ≡ true) × (m r ≡ (ok tt, r'))
unfolding raise
checked-ok true m r r' e = (refl, e)
checked-ok false m r r' e = (cc, cc)

notify-Frames :
    (h : Hooks) (a : String) (i : ℕ) (c : AgentFrameChange) (fs : List AgentFrame) (run : Bool)
    → KeepsFrames h
    → Keeps
        (Frames fs)
        ((if run then start_target a i else pure tt) >> h.agent_frame_did_change a i c)
notify-Frames h a i c fs run k =
    Keeps-if run _ _ (start_target-Frames fs a i) (Keeps-pure tt) andthen λ _. k fs a i c

-- A change that returns found its source on top, and moved the frames as its type says.
pub change-ok :
    (h : Hooks) (a : String) (i : ℕ) (c : AgentFrameChange) (r r' : Runtime)
    → KeepsFrames h
    → change_agent_frame h a i c r ≡ (ok tt, r')
    → (top : AgentFrame) × (get_last? r.session.agent_frames ≡ some top)
      × (top.agent_name ≡ c.source)
      × (r'.session.agent_frames ≡ moved c top c.type r.session.agent_frames)
unfolding change_agent_frame
change-ok h a i c r r' k e =
    let (top, r₁, e₁, k₁) = >>=-eq-ok top_frame _ r e in
    let (on_top, same) = reads-eq-ok _ _ r e₁ in
    let (named, k₂) = checked-ok (top.agent_name == c.source) _ r₁ r' k₁ in
    let (run, r₂, e₂, k₃) = >>=-eq-ok (move_frame c top c.type) _ r₁ k₂ in
    let kept = (notify-Frames h a i c r₂.session.agent_frames run k).at r₂ refl in
    let frames : r'.session.agent_frames ≡ r₂.session.agent_frames =
      subst (λ (p : Result Unit × Runtime). p.1.session.agent_frames ≡ r₂.session.agent_frames) k₃
        kept in
    (
      top,
      on_top,
      (string_eq.decides top.agent_name c.source).0 named,
      frames ∙ move_frame-ok c top c.type r₁ r₂ e₂ ∙ rw same,
    )

module _ (h : Hooks) (a b : String) (i j : ℕ) (c d : AgentFrameChange) (r r₁ r₂ : Runtime)
    (k : KeepsFrames h) where
  -- Handing control to an agent and then taking it back leaves the frames as they were, whatever
  -- tasks and reasons the two changes have, if the frame hook leaves the frames alone.
  pub push-pop-frames :
      c.type ≡ FrameChangeType.push
      → d.type ≡ FrameChangeType.pop
      → change_agent_frame h a i c r ≡ (ok tt, r₁)
      → change_agent_frame h b j d r₁ ≡ (ok tt, r₂)
      → (r₂.session.agent_frames ≡ r.session.agent_frames) × (d.source ≡ c.target)
  push-pop-frames is_push is_pop e₁ e₂ =
      let (top, on_top, named, pushed) = change-ok h a i c r r₁ k e₁ in
      let (top', on_top', named', popped) = change-ok h b j d r₁ r₂ k e₂ in
      let pushed' : r₁.session.agent_frames ≡ r.session.agent_frames ++ frame_of c top ∷ [] =
        pushed ∙ rw is_push in
      let popped' : r₂.session.agent_frames ≡ drop_last r₁.session.agent_frames =
        popped ∙ rw is_pop in
      (
        popped' ∙ ap drop_last pushed' ∙ drop_last-append r.session.agent_frames (frame_of c top),
        cc (
          get_last?-append r.session.agent_frames (frame_of c top),
          ap get_last? pushed',
          on_top',
          named',
        ),
      )
