-- ===== src/Os/Load/Known.antt =====
-- os/service.py `load_session_state`: the agents of the frames have states.
use turtlemap.Prelude.{
  String, ◌≡◌, refl, ap, subst, ◌∙◌, true, none, some, List, [], ◌∷◌, arith, get_last?, Bool-cases,
  inl, inr,
}
use turtlemap.Prelude.Eq.{string_eq, ◌==◌}
use turtlemap.Prelude.Dict.{Dict, lookup}
use turtlemap.Prelude.Kept.{is_some}
use turtlemap.Kernel.Model.{AgentFrame}
use turtlemap.Os.{ProcessingTask, OsAgentState, OsSession}
use turtlemap.Os.Load.{
  load_agent_states, each_tasks, set_tasks, reset_to_clean_root_session, all_known, sanitized,
  sanitize_agent_frames,
}

-- There is a frame, and the agent of every frame has its state.
abbrev pub IsKnown : OsSession → Type 0
IsKnown s =
    (f : AgentFrame) × (get_last? s.agent_frames ≡ some f)
    × (all_known s.agent_frames s.agent_name2agent_state ≡ true)

known-each_tasks :
    (f : List ProcessingTask → List ProcessingTask) (k : String) (d : Dict String OsAgentState)
    → is_some (lookup k (each_tasks f d)) ≡ is_some (lookup k d)
unfolding lookup each_tasks
known-each_tasks f k [] = refl
known-each_tasks f k ((n, a) ∷ d) = elim (Bool-cases (n == k)) [
  | inl same ↦ rw same refl
  | inr other ↦ rw other (known-each_tasks f k d)
]

pub known-load :
    (k : String) (agents : Dict String String) (d : Dict String OsAgentState)
    → is_some (lookup k (load_agent_states agents d)) ≡ is_some (lookup k agents)
unfolding lookup load_agent_states
known-load k [] d = refl
known-load k ((n, sys) ∷ agents) d = elim (Bool-cases (n == k)) [
  | inl same ↦ rw same refl
  | inr other ↦ rw other (known-load k agents d)
]

pub all_known-ext :
    (fs : List AgentFrame) (d d' : Dict String OsAgentState)
    → ((k : String) → is_some (lookup k d) ≡ true → is_some (lookup k d') ≡ true)
    → all_known fs d ≡ true
    → all_known fs d' ≡ true
all_known-ext [] d d' h k = refl
all_known-ext (f ∷ fs) d d' h k = elim (Bool-cases (is_some (lookup f.agent_name d))) [
  | inl found ↦ rw (h f.agent_name found) (all_known-ext fs d d' h (rw found at k))
  | inr missing ↦ absurd (ground arith)
]

pub last_known :
    (fs : List AgentFrame) (f : AgentFrame) (d : Dict String OsAgentState)
    → get_last? fs ≡ some f
    → all_known fs d ≡ true
    → is_some (lookup f.agent_name d) ≡ true
last_known [] f d h k = absurd (cc)
last_known (x ∷ []) f d h k = elim (Bool-cases (is_some (lookup x.agent_name d))) [
  | inl found ↦
      let same : x ≡ f = cc in
      subst (λ (g : AgentFrame). is_some (lookup g.agent_name d) ≡ true) same found
  | inr missing ↦ absurd (ground arith)
]
last_known (x ∷ y ∷ fs) f d h k = elim (Bool-cases (is_some (lookup x.agent_name d))) [
  | inl found ↦ last_known (y ∷ fs) f d h (rw found at k)
  | inr missing ↦ absurd (ground arith)
]

last_some :
    (f : AgentFrame) (fs : List AgentFrame) → (g : AgentFrame) × (get_last? (f ∷ fs) ≡ some g)
last_some f [] = (f, refl)
last_some f (g ∷ fs) = last_some g fs

pub set_tasks-IsKnown :
    (f : List ProcessingTask → List ProcessingTask) (s : OsSession)
    → IsKnown s
    → IsKnown (set_tasks f s)
set_tasks-IsKnown f s (top, last, h) = (
  top,
  last,
  all_known-ext s.agent_frames s.agent_name2agent_state (each_tasks f s.agent_name2agent_state)
      (λ k e. known-each_tasks f k s.agent_name2agent_state ∙ e) h,
)

reset-IsKnown :
    (root : String) (s : OsSession)
    → is_some (lookup root s.agent_name2agent_state) ≡ true
    → IsKnown (reset_to_clean_root_session root s)
unfolding reset_to_clean_root_session
reset-IsKnown root s h = (
  record { agent_name = root; from_agent_name = none },
  refl,
  rw (known-each_tasks (λ ts. []) root s.agent_name2agent_state, h) refl,
)

pub sanitize-IsKnown :
    (root : String) (s : OsSession)
    → is_some (lookup root s.agent_name2agent_state) ≡ true
    → IsKnown (sanitize_agent_frames root s)
unfolding sanitize_agent_frames
sanitize-IsKnown root s h = go s.agent_frames refl
  where
    go : (fs : List AgentFrame) → s.agent_frames ≡ fs → IsKnown (sanitized root s fs)
    go [] e = reset-IsKnown root s h
    go (f ∷ fs) e = elim (Bool-cases (all_known (f ∷ fs) s.agent_name2agent_state)) [
      | inl known ↦
          let (top, last) = last_some f fs in
          let here : all_known s.agent_frames s.agent_name2agent_state ≡ true =
            ap (λ gs. all_known gs s.agent_name2agent_state) e ∙ known in
          rw (sanitized, known) (top, ap get_last? e ∙ last, here)
      | inr unknown ↦ rw (sanitized, unknown) (reset-IsKnown root s h)
    ]
