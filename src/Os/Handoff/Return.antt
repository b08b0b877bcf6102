-- ===== src/Os/Handoff/Return.antt =====
-- os/runtime.py `_build_task_agent_frame_change`: a change that is built is the handoff of a tool, or a return.
use turtlemap.Prelude.{
  String, ◌≡◌, refl, sym, ap, ◌∙◌, Bool, true, false, Option, none, some, List, get_last?,
  drop_last, if◌then◌else◌, inl, inr, ◌⊎◌,
}
use turtlemap.Prelude.Eq.{◌==◌, string_eq}
use turtlemap.Prelude.Try.{Try, value, error, and_then, and_then-eq-value}
use turtlemap.Kernel.Model.{AgentFrameChange, AgentFrame, LlmMessage, StateBody}
use turtlemap.Kernel.Exec.{Error, type_error}
use turtlemap.Os.Runtime.Rollback.{os_runtime}
use turtlemap.Os.Handoff.{
  Handoff, stays, looks_on, gives, handoff_of, is_subagent, return_of, return_to,
  return_unless_continued, change_for, get_completed_task_message, build_task_agent_frame_change,
}

-- The agent `owner` on top goes back to the one below it, which is known.
pub record Return (known : String → Bool) (owner : String) (fs : List AgentFrame)
    (c : AgentFrameChange) : Type 0 where
  pub top : AgentFrame
  pub below : AgentFrame
  pub on_top : get_last? fs ≡ some top
  pub is_below : get_last? (drop_last fs) ≡ some below
  pub is_owner : top.agent_name ≡ owner
  pub is_known : known below.agent_name ≡ true
  pub is_return : c ≡ return_of top below

abbrev built : AgentFrameChange → Try Error (Option AgentFrameChange)
built c = value (some c)

built_inj : {x y : AgentFrameChange} → built x ≡ built y → x ≡ y
built_inj h = cc

module _ (known : String → Bool) (owner : String) (fs : List AgentFrame)
    (c : AgentFrameChange) where
  return_to-Return :
      (current parent : Option AgentFrame)
      → get_last? fs ≡ current
      → get_last? (drop_last fs) ≡ parent
      → return_to known owner current parent ≡ value (some c)
      → Return known owner fs c
  return_to-Return none parent p q h = absurd (cc)
  return_to-Return (some t) none p q h = absurd (cc)
  return_to-Return (some t) (some b) p q h =
      go (t.agent_name == owner) (known b.agent_name) refl refl h
    where
      go :
          (own reach : Bool)
          → (t.agent_name == owner) ≡ own
          → known b.agent_name ≡ reach
          → (if own
              then (if reach then value (some (return_of t b)) else error type_error)
              else error os_runtime)
            ≡ value (some c)
          → Return known owner fs c
      go true true e k v = record {
        top = t;
        below = b;
        on_top = p;
        is_below = q;
        is_owner = (string_eq.decides t.agent_name owner).0 e;
        is_known = k;
        is_return = sym (built_inj v);
      }
      go true false e k v = absurd (cc)
      go false reach e k v = absurd (cc)

  unless_continued-Return :
      (m : Option LlmMessage)
      → return_unless_continued known owner fs m ≡ value (some c)
      → Return known owner fs c
  unless_continued-Return none h = absurd (cc)
  unless_continued-Return (some m) h = go m.has_continue h
    where
      go :
          (more : Bool)
          → (if more
              then value none
              else return_to known owner (get_last? fs) (get_last? (drop_last fs)))
            ≡ value (some c)
          → Return known owner fs c
      go true v = absurd (cc)
      go false v = return_to-Return (get_last? fs) (get_last? (drop_last fs)) refl refl v

  change_for-Return :
      (b : StateBody) (d : Handoff)
      → handoff_of b ≡ value d
      → change_for known owner fs b d ≡ value (some c)
      → (handoff_of b ≡ value (gives c)) ⊎ Return known owner fs c
  change_for-Return b stays e h = absurd (cc)
  change_for-Return b (gives x) e h = inl (e ∙ ap (λ y. value (gives y)) (built_inj h))
  change_for-Return b looks_on e h = inr (go (is_subagent fs) h)
    where
      go :
          (sub : Bool)
          → (if sub
              then and_then (get_completed_task_message b) (return_unless_continued known owner fs)
              else value none)
            ≡ value (some c)
          → Return known owner fs c
      go true v =
          let (m, e', k) =
            and_then-eq-value (get_completed_task_message b)
              (return_unless_continued known owner fs) v in
          unless_continued-Return m k
      go false v = absurd (cc)

  pub build_change-Return :
      (b : StateBody)
      → build_task_agent_frame_change known owner fs b ≡ value (some c)
      → (handoff_of b ≡ value (gives c)) ⊎ Return known owner fs c
  unfolding build_task_agent_frame_change
  build_change-Return b h =
      let (d, e, k) = and_then-eq-value (handoff_of b) (change_for known owner fs b) h in
      change_for-Return b d e k
