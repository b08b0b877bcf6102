-- ===== src/Os/Runtime/Buffer.antt =====
-- os/runtime.py `_write_buffer`: a write to a task of the session, found by its id.
use turtlemap.Prelude.{
  ℕ, String, ◌≡◌, refl, sym, ap, ◌∙◌, Option, none, some, List, [], ◌∷◌, Option-cases, inl, inr,
  Bool-cases,
}
use mathlib.Core.Option
use turtlemap.Prelude.Eq.{◌==◌, nat_eq}
use turtlemap.Prelude.Dict.{Dict}
use turtlemap.Os.{ProcessingTask, OsAgentState, OsSession}
use turtlemap.Os.Runtime.{
  find_in_tasks, find_in_agents, update_in_tasks, update_in_agents, has_task, find_task,
  update_task,
}

pub some_inj : {A : Type 0} {x y : A} → some x ≡ some y → x ≡ y
some_inj h = cc

-- a write that leaves the id alone
abbrev pub KeepsId : (ProcessingTask → ProcessingTask) → Type 0
KeepsId f = (t : ProcessingTask) → (f t).task.task_id ≡ t.task.task_id

module _ (i : ℕ) (f : ProcessingTask → ProcessingTask) (same : KeepsId f) where
  find-update_in_tasks :
      (ts : List ProcessingTask)
      → find_in_tasks i (update_in_tasks i f ts) ≡ Option.map f (find_in_tasks i ts)
  unfolding find_in_tasks update_in_tasks
  find-update_in_tasks [] = refl
  find-update_in_tasks (t ∷ ts) = elim (Bool-cases (t.task.task_id == i)) [
    | inl h ↦ rw (h, same t, h) refl
    | inr h ↦ rw (h, h) (find-update_in_tasks ts)
  ]

  has-update_in_tasks :
      (ts : List ProcessingTask)
      → has_task (find_in_tasks i (update_in_tasks i f ts)) ≡ has_task (find_in_tasks i ts)
  has-update_in_tasks ts = ap has_task (find-update_in_tasks ts) ∙ go (find_in_tasks i ts)
    where
      go : (o : Option ProcessingTask) → has_task (Option.map f o) ≡ has_task o
      go none = refl
      go (some t) = refl

  update-update_in_tasks :
      (g : ProcessingTask → ProcessingTask) (ts : List ProcessingTask)
      → update_in_tasks i g (update_in_tasks i f ts) ≡ update_in_tasks i (λ t. g (f t)) ts
  unfolding update_in_tasks
  update-update_in_tasks g [] = refl
  update-update_in_tasks g (t ∷ ts) = elim (Bool-cases (t.task.task_id == i)) [
    | inl h ↦ rw (h, same t, h) refl
    | inr h ↦ rw (h, h) (ap (λ us. t ∷ us) (update-update_in_tasks g ts))
  ]

  find-update_in_agents :
      (d : Dict String OsAgentState)
      → find_in_agents i (update_in_agents i f d) ≡ Option.map f (find_in_agents i d)
  unfolding find_in_agents update_in_agents
  find-update_in_agents [] = refl
  find-update_in_agents ((n, a) ∷ d) = elim (Option-cases (find_in_tasks i a.processing_tasks)) [
    | inl h ↦ rw (h, h) (find-update_in_agents d)
    | inr (t, h) ↦ rw (h, find-update_in_tasks a.processing_tasks, h) refl
  ]

  update-update_in_agents :
      (g : ProcessingTask → ProcessingTask) (d : Dict String OsAgentState)
      → update_in_agents i g (update_in_agents i f d) ≡ update_in_agents i (λ t. g (f t)) d
  unfolding update_in_agents
  update-update_in_agents g [] = refl
  update-update_in_agents g ((n, a) ∷ d) =
      elim (Bool-cases (has_task (find_in_tasks i a.processing_tasks))) [
        | inl h ↦
            rw
              (
                h,
                has-update_in_tasks a.processing_tasks,
                h,
                update-update_in_tasks g a.processing_tasks,
              )
              refl
        | inr h ↦ rw (h, h) (ap (λ r. (n, a) ∷ r) (update-update_in_agents g d))
      ]

  pub find-update : (s : OsSession) → find_task i (update_task i f s) ≡ Option.map f (find_task i s)
  find-update s = find-update_in_agents s.agent_name2agent_state

  pub update-update :
      (g : ProcessingTask → ProcessingTask) (s : OsSession)
      → update_task i g (update_task i f s) ≡ update_task i (λ t. g (f t)) s
  update-update g s =
      ap (λ d. record s { agent_name2agent_state = d })
        (update-update_in_agents g s.agent_name2agent_state)

-- A write only looks at the task that is found.
module _ (i : ℕ) (f g : ProcessingTask → ProcessingTask) (t : ProcessingTask) (h : f t ≡ g t) where
  update_in_tasks-ext :
      (ts : List ProcessingTask)
      → find_in_tasks i ts ≡ some t
      → update_in_tasks i f ts ≡ update_in_tasks i g ts
  unfolding find_in_tasks update_in_tasks
  update_in_tasks-ext [] found = refl
  update_in_tasks-ext (u ∷ ts) found = elim (Bool-cases (u.task.task_id == i)) [
    | inl same ↦
        let first : find_in_tasks i (u ∷ ts) ≡ some u = rw same refl in
        let this : u ≡ t = some_inj (sym first ∙ found) in
        rw same (ap (λ v. v ∷ ts) (ap f this ∙ h ∙ ap g (sym this)))
    | inr other ↦
        let later : find_in_tasks i (u ∷ ts) ≡ find_in_tasks i ts = rw other refl in
        rw other (ap (λ us. u ∷ us) (update_in_tasks-ext ts (sym later ∙ found)))
  ]

  update_in_agents-ext :
      (d : Dict String OsAgentState)
      → find_in_agents i d ≡ some t
      → update_in_agents i f d ≡ update_in_agents i g d
  unfolding find_in_agents update_in_agents
  update_in_agents-ext [] found = refl
  update_in_agents-ext ((n, a) ∷ d) found =
      elim (Option-cases (find_in_tasks i a.processing_tasks)) [
        | inl absent ↦
            let later : find_in_agents i ((n, a) ∷ d) ≡ find_in_agents i d = rw absent refl in
            rw absent (ap (λ r. (n, a) ∷ r) (update_in_agents-ext d (sym later ∙ found)))
        | inr (u, here) ↦
            let first : find_in_agents i ((n, a) ∷ d) ≡ some u = rw here refl in
            let this : u ≡ t = some_inj (sym first ∙ found) in
            rw here (
              ap (λ ts. (n, record a { processing_tasks = ts }) ∷ d)
                (update_in_tasks-ext a.processing_tasks (here ∙ ap some this)))
      ]

  pub update-ext : (s : OsSession) → find_task i s ≡ some t → update_task i f s ≡ update_task i g s
  update-ext s found =
      ap (λ d. record s { agent_name2agent_state = d })
        (update_in_agents-ext s.agent_name2agent_state found)

module _ (i : ℕ) where
  update_in_tasks-id : (ts : List ProcessingTask) → update_in_tasks i (λ t. t) ts ≡ ts
  unfolding update_in_tasks
  update_in_tasks-id [] = refl
  update_in_tasks-id (t ∷ ts) = elim (Bool-cases (t.task.task_id == i)) [
    | inl h ↦ rw h refl
    | inr h ↦ rw h (ap (λ us. t ∷ us) (update_in_tasks-id ts))
  ]

  update_in_agents-id : (d : Dict String OsAgentState) → update_in_agents i (λ t. t) d ≡ d
  unfolding update_in_agents
  update_in_agents-id [] = refl
  update_in_agents-id ((n, a) ∷ d) =
      elim (Bool-cases (has_task (find_in_tasks i a.processing_tasks))) [
        | inl h ↦ rw h (
            ap (λ ts. (n, record a { processing_tasks = ts }) ∷ d)
              (update_in_tasks-id a.processing_tasks))
        | inr h ↦ rw h (ap (λ r. (n, a) ∷ r) (update_in_agents-id d))
      ]

  pub update-id : (s : OsSession) → update_task i (λ t. t) s ≡ s
  update-id s =
      ap (λ d. record s { agent_name2agent_state = d })
        (update_in_agents-id s.agent_name2agent_state)
