-- ===== src/Os/Load/Ready.antt =====
-- os/service.py: what a session that was loaded is like.
use turtlemap.Prelude.{
  ℕ, ◌≤◌, String, ◌≡◌, refl, ap, ◌∙◌, Bool, true, false, not, Option, none, some, List, [], ◌∷◌,
  arith, length, get_last?, keep, All, Bool-cases, inl, inr, if◌then◌else◌,
}
use turtlemap.Prelude.Eq.{string_eq, ◌==◌}
use turtlemap.Prelude.Dict.{Dict, lookup, insert, lookup-insert, insert-All, lookup-All}
use turtlemap.Prelude.Kept.{is_some, keep-cons_true, keep-cons_false, keep-All}
use turtlemap.Prelude.Try.{value, and_then}
use turtlemap.Kernel.Model.{AgentFrame}
use turtlemap.Kernel.Select.{state_is_running}
use turtlemap.Os.{ProcessingTask, OsAgentState, OsSession}
use turtlemap.Os.Load.{
  load_agent_states, each_tasks, set_tasks, sanitize_agent_frames, task_is_paused, limit_paused,
  has_input, drop_unpaused, top_agent_state, top_state_in, state_or_raise, name_of, stopped,
  clean_state, with_memory, load_session_state,
}
use turtlemap.Os.Load.Pending.{limit_paused-le}
use turtlemap.Os.Load.Known.{
  IsKnown, known-load, all_known-ext, last_known, set_tasks-IsKnown, sanitize-IsKnown,
}

-- each agent: five paused tasks at most, each task with the input that it began with
pub record IsReadyAgent (ts : List ProcessingTask) : Type 0 where
  pub paused : length (keep task_is_paused ts) ≤ 5
  pub inputs : All (λ t. has_input t ≡ true) ts

each_tasks-All :
    (P Q : List ProcessingTask → Type 0) (f : List ProcessingTask → List ProcessingTask)
    (d : Dict String OsAgentState)
    → ((ts : List ProcessingTask) → P ts → Q (f ts))
    → All (λ e. P e.1.processing_tasks) d
    → All (λ e. Q e.1.processing_tasks) (each_tasks f d)
unfolding each_tasks
each_tasks-All P Q f [] h a = tt
each_tasks-All P Q f ((n, s) ∷ d) h a = (h s.processing_tasks a.0, each_tasks-All P Q f d h a.1)

-- a selection of the tasks has no more paused ones
keep-paused_le :
    (p : ProcessingTask → Bool) (ts : List ProcessingTask)
    → length (keep task_is_paused (keep p ts)) ≤ length (keep task_is_paused ts)
keep-paused_le p [] = omega arith
keep-paused_le p (t ∷ ts) = elim (Bool-cases (p t)) [
  | inl kept ↦ elim (Bool-cases (task_is_paused t)) [
    | inl paused ↦
        rw
          (
            keep-cons_true p t ts kept,
            keep-cons_true task_is_paused t ts paused,
            keep-cons_true task_is_paused t (keep p ts) paused,
          )
          (omega (arith, keep-paused_le p ts))
    | inr other ↦
        rw
          (
            keep-cons_true p t ts kept,
            keep-cons_false task_is_paused t ts other,
            keep-cons_false task_is_paused t (keep p ts) other,
          )
          (keep-paused_le p ts)
  ]
  | inr dropped ↦ elim (Bool-cases (task_is_paused t)) [
    | inl paused ↦
        rw (keep-cons_false p t ts dropped, keep-cons_true task_is_paused t ts paused)
          (omega (arith, keep-paused_le p ts))
    | inr other ↦
        rw (keep-cons_false p t ts dropped, keep-cons_false task_is_paused t ts other)
          (keep-paused_le p ts)
  ]
]

keep-has_input : (ts : List ProcessingTask) → All (λ t. has_input t ≡ true) (keep has_input ts)
keep-has_input [] = tt
keep-has_input (t ∷ ts) = elim (Bool-cases (has_input t)) [
  | inl good ↦ rw (keep-cons_true has_input t ts good) (good, keep-has_input ts)
  | inr bad ↦ rw (keep-cons_false has_input t ts bad) (keep-has_input ts)
]

checked-IsReadyAgent :
    (ts : List ProcessingTask)
    → length (keep task_is_paused ts) ≤ 5
    → IsReadyAgent (keep has_input ts)
checked-IsReadyAgent ts h = record {
  paused = omega (arith, h, keep-paused_le has_input ts);
  inputs = keep-has_input ts;
}

drop_unpaused-IsReadyAgent :
    (ts : List ProcessingTask) → IsReadyAgent ts → IsReadyAgent (drop_unpaused ts)
drop_unpaused-IsReadyAgent ts h = record {
  paused =
      omega (arith, h.paused, keep-paused_le (λ t. not (state_is_running t.task.state.status)) ts);
  inputs =
      keep-All (λ t. has_input t ≡ true) (λ t. not (state_is_running t.task.state.status)) ts
        h.inputs;
}

abbrev pub AllReady : OsSession → Type 0
AllReady s = All (λ e. IsReadyAgent e.1.processing_tasks) s.agent_name2agent_state

-- the agent on top has nothing left that runs, where the run is not to be resumed
abbrev pub IsFresh : Bool → OsSession → Type 0
IsFresh true s = Unit
IsFresh false s =
    (s.input_queue ≡ [])
    × (s.finished_task_events ≡ [])
    × (a : OsAgentState) × (top_agent_state s ≡ value a)
    × All (λ t. state_is_running t.task.state.status ≡ false) a.processing_tasks

-- A session that a run can start from.
pub record IsReady (run : ℕ) (resume : Bool) (s : OsSession) : Type 0 where
  pub known : IsKnown s
  pub agents : AllReady s
  pub fresh : IsFresh resume s
  pub run_id : s.run_id ≡ some run

found_some : {A : Type 0} (o : Option A) → is_some o ≡ true → (a : A) × (o ≡ some a)
found_some none h = absurd (cc)
found_some (some a) h = (a, refl)

-- the tasks that the selection keeps do not run
drop_unpaused-stopped :
    (ts : List ProcessingTask)
    → All (λ t. state_is_running t.task.state.status ≡ false) (drop_unpaused ts)
drop_unpaused-stopped [] = tt
drop_unpaused-stopped (t ∷ ts) = elim (Bool-cases (state_is_running t.task.state.status)) [
  | inl runs ↦
      rw (keep-cons_false (λ t. not (state_is_running t.task.state.status)) t ts (ap not runs))
        (drop_unpaused-stopped ts)
  | inr still ↦
      rw (keep-cons_true (λ t. not (state_is_running t.task.state.status)) t ts (ap not still))
        (still, drop_unpaused-stopped ts)
]

still_known :
    (k : String) (a : OsAgentState) (d : Dict String OsAgentState) (j : String)
    → is_some (lookup j d) ≡ true
    → is_some (lookup j (insert k a d)) ≡ true
still_known k a d j h = elim (Bool-cases (k == j)) [
  | inl same ↦ rw (lookup-insert k j a d, same) refl
  | inr other ↦ rw (lookup-insert k j a d, other) h
]

top_agent_state-eq :
    (s : OsSession) (f : AgentFrame) (a : OsAgentState)
    → get_last? s.agent_frames ≡ some f
    → lookup f.agent_name s.agent_name2agent_state ≡ some a
    → top_agent_state s ≡ value a
unfolding top_agent_state
top_agent_state-eq s f a h k = ap (top_state_in s.agent_name2agent_state) h ∙ ap state_or_raise k

clean-IsReady :
    (run : ℕ) (s : OsSession)
    → IsKnown s
    → AllReady s
    → (s' : OsSession) × (clean_state s ≡ value s')
      × IsReady run false (record s' { run_id = some run })
unfolding clean_state
clean-IsReady run s (f, last, known) h =
    let d = s.agent_name2agent_state in
    let (a, there) =
      found_some (lookup f.agent_name d) (last_known s.agent_frames f d last known) in
    let a' = record a { processing_tasks = drop_unpaused a.processing_tasks } in
    let d' = insert f.agent_name a' d in
    let here : lookup f.agent_name d' ≡ some a' =
      lookup-insert f.agent_name f.agent_name a' d
      ∙ rw ((string_eq.decides f.agent_name f.agent_name).1 refl) refl in
    let s' = record s {
      input_queue = [];
      agent_name2agent_state = d';
      run_id = none;
      finished_task_events = [];
    } in
    (
      s',
      ap (λ t. and_then t λ a. value (stopped s a)) (top_agent_state-eq s f a last there)
          ∙ ap
              (λ o. value (record s {
                input_queue = [];
                agent_name2agent_state = insert (name_of o) a' d;
                run_id = none;
                finished_task_events = [];
              }))
              last,
      record {
        known = (f, last, all_known-ext s.agent_frames d d' (still_known f.agent_name a' d) known);
        agents =
            insert-All (λ e. IsReadyAgent e.1.processing_tasks) f.agent_name a' d h
              (drop_unpaused-IsReadyAgent a.processing_tasks
                (lookup-All (λ e. IsReadyAgent e.1.processing_tasks) f.agent_name a d h there));
        fresh = (
          refl,
          refl,
          a',
          top_agent_state-eq (record s' { run_id = some run }) f a' last here,
          drop_unpaused-stopped a.processing_tasks,
        );
        run_id = refl;
      },
    )

anything : (d : Dict String OsAgentState) → All (λ e. Unit {0}) d
anything [] = tt
anything (e ∷ d) = (tt, anything d)

-- the last lines
finish :
    (run : ℕ) (resume : Bool) (s : OsSession)
    → IsKnown s
    → AllReady s
    → (s' : OsSession) × (and_then
          (if resume then value s else clean_state s)
          (λ s. value (record s { run_id = some run }))
        ≡ value s')
      × IsReady run resume s'
finish run true s known h = (
  record s { run_id = some run },
  refl,
  record { known = known; agents = h; fresh = tt; run_id = refl },
)
finish run false s known h =
    let (s', cleaned, ready) = clean-IsReady run s known h in
    (record s' { run_id = some run }, rw cleaned refl, ready)

-- Whatever session was stored, loading it returns if the root agent can be reached, resumed or
-- not; the session that it returns has a frame on top and a state for the agent of every frame,
-- and in it each agent has at most five paused tasks and each task has the input that it began
-- with; if it is not resumed, no input is queued and every task of the agent on top is paused.
pub load-IsReady :
    (root : String) (agents : Dict String String) (text : String) (run : ℕ) (resume : Bool)
    (s : OsSession)
    → is_some (lookup root agents) ≡ true
    → (s' : OsSession) × (load_session_state root agents text run resume s ≡ value s')
      × IsReady run resume s'
unfolding load_session_state
load-IsReady root agents text run resume s reach =
    let found = record s {
      agent_name2agent_state = load_agent_states agents s.agent_name2agent_state;
    } in
    let known =
      sanitize-IsKnown root found (known-load root agents s.agent_name2agent_state ∙ reach) in
    let sane = sanitize_agent_frames root found in
    let limited = set_tasks limit_paused sane in
    let d = sane.agent_name2agent_state in
    finish run resume (set_tasks (keep has_input) (with_memory text limited))
      (set_tasks-IsKnown (keep has_input) (with_memory text limited)
        (set_tasks-IsKnown limit_paused sane known))
      (each_tasks-All (λ ts. length (keep task_is_paused ts) ≤ 5) IsReadyAgent (keep has_input)
        (each_tasks limit_paused d) checked-IsReadyAgent
        (each_tasks-All (λ ts. Unit {0}) (λ ts. length (keep task_is_paused ts) ≤ 5) limit_paused d
          (λ ts u. limit_paused-le ts) (anything d)))
