-- ===== src/Store/Tasks.antt =====
-- os/store/memory.py: the compression tasks that run at one time.
use turtlemap.Prelude.{
  ℕ, suc, ◌+◌, ◌≤◌, ◌≡◌, refl, subst, Bool, true, false, ◌&&◌, Option, none, some, List, [], ◌∷◌,
  ◌++◌, String, arith, if◌then◌else◌, Bool-cases, inl, inr,
}
use turtlemap.Prelude.Eq.{◌==◌, nat_eq, string_eq}
use turtlemap.Prelude.Dict.{lookup}
use turtlemap.Kernel.Model.{SessionState}
use turtlemap.Context.Compress.{CompressionResult, merge_compacted_result}
use turtlemap.Store.{
  CompressionTaskStatus, TaskRecord, StoredSession, Store, is_running_for, any_running, new_task,
  create_in, try_create_context_compression_task, same_owner, finish_in, has_changed,
  finish_context_compression_task, save_session_state, merged, merge_stored,
  save_context_compression_result,
}

-- how many tasks run for session `i` and agent `a`
abbrev pub count_running : String → String → List TaskRecord → ℕ
count_running i a [] = 0
count_running i a (t ∷ ts) =
    let rest = count_running i a ts in if is_running_for i a t then suc rest else rest

-- A store as the operations make it, from one without tasks.
pub data Reachable : Store → Type 0 where
  fresh : (st : Store) → st.context_compression_tasks ≡ [] → Reachable st
  created :
      (owner i a : String) (st : Store)
      → Reachable st
      → Reachable (try_create_context_compression_task owner i a st).1
  finished :
      (t : TaskRecord) (st : Store)
      → Reachable st
      → Reachable (finish_context_compression_task t st)
  saved : (s : StoredSession) (st : Store) → Reachable st → Reachable (save_session_state s st).1
  compressed :
      (i : String) (c : CompressionResult) (st : Store)
      → Reachable st
      → Reachable (save_context_compression_result i c st).1

count-append :
    (i a : String) (xs ys : List TaskRecord)
    → count_running i a (xs ++ ys) ≡ count_running i a xs + count_running i a ys
count-append i a [] ys = omega arith
count-append i a (x ∷ xs) ys = ground (arith, count-append i a xs ys)

none_running :
    (i a : String) (ts : List TaskRecord) → any_running i a ts ≡ false → count_running i a ts ≡ 0
none_running i a [] h = refl
none_running i a (t ∷ ts) h = elim (Bool-cases (is_running_for i a t)) [
  | inl here ↦ absurd (ground arith)
  | inr not_here ↦ rw not_here (none_running i a ts (ground arith))
]

count-cons :
    (i a : String) (t t' : TaskRecord) (ts : List TaskRecord)
    → is_running_for i a t' ≡ false
    → count_running i a (t' ∷ ts) ≤ count_running i a (t ∷ ts)
count-cons i a t t' ts stopped = rw stopped (elim (Bool-cases (is_running_for i a t)) [
  | inl here ↦ rw here (omega arith)
  | inr not_here ↦ rw not_here (omega arith)
])

abbrev pub stop : TaskRecord → TaskRecord
stop t = record t { status = CompressionTaskStatus.completed; lease_owner = none }

pub stopped : (i a : String) (t : TaskRecord) → is_running_for i a (stop t) ≡ false
stopped i a t = go (t.session_id == i) (t.agent_name == a)
  where
    go : (b c : Bool) → (b && (c && false)) ≡ false
    go true true = refl
    go true false = refl
    go false c = refl

count-finish_in :
    (i a : String) (task : TaskRecord) (ts : List TaskRecord)
    → count_running i a (finish_in task ts) ≤ count_running i a ts
unfolding finish_in
count-finish_in i a task [] = omega arith
count-finish_in i a task (t ∷ ts) = elim (Bool-cases (t.id == task.id)) [
  | inr other ↦ rw other (elim (Bool-cases (is_running_for i a t)) [
    | inl here ↦ rw here (omega (arith, count-finish_in i a task ts))
    | inr not_here ↦ rw not_here (count-finish_in i a task ts)
  ])
  | inl same ↦ elim (Bool-cases (same_owner t.lease_owner task.lease_owner)) [
    | inl owns ↦ simp (same, owns) (count-cons i a t (stop t) ts (stopped i a t))
    | inr stranger ↦ simp (same, stranger) (omega arith)
  ]
]

new_task-at :
    (i a owner j b : String) (st : Store)
    → is_running_for i a (new_task owner j b st) ≡ true
    → (j ≡ i) × (b ≡ a)
new_task-at i a owner j b st h =
    let (first, second) = go (j == i) (b == a) h in
    ((string_eq.decides j i).0 first, (string_eq.decides b a).0 second)
  where
    go : (p q : Bool) → (p && (q && true)) ≡ true → (p ≡ true) × (q ≡ true)
    go true true h = (refl, refl)
    go true false h = absurd (cc)
    go false q h = absurd (cc)

count-new :
    (i a owner j b : String) (st : Store)
    → any_running j b st.context_compression_tasks ≡ false
    → count_running i a st.context_compression_tasks ≤ 1
    → count_running i a (st.context_compression_tasks ++ new_task owner j b st ∷ []) ≤ 1
count-new i a owner j b st free l =
    let ts = st.context_compression_tasks in
    rw (count-append i a ts (new_task owner j b st ∷ []))
      (elim (Bool-cases (is_running_for i a (new_task owner j b st))) [
        | inr not_here ↦ rw not_here (omega arith)
        | inl here ↦
            let (session, agent) = new_task-at i a owner j b st here in
            let none_here : count_running i a ts ≡ 0 =
              subst (λ z. count_running z a ts ≡ 0) session
                (subst (λ z. count_running j z ts ≡ 0) agent (none_running j b ts free)) in
            rw here (omega arith)
      ])

-- creating a task does not add a second one
count-create :
    (i a : String) (o : Option StoredSession) (owner j b : String) (st : Store)
    → count_running i a st.context_compression_tasks ≤ 1
    → count_running i a (create_in o owner j b st).1.context_compression_tasks ≤ 1
count-create i a none owner j b st l = l
count-create i a (some s) owner j b st l =
    elim (Bool-cases (any_running j b st.context_compression_tasks)) [
      | inl running ↦ rw running l
      | inr free ↦ rw free (count-new i a owner j b st free l)
    ]

pub save-tasks :
    (s : StoredSession) (st : Store)
    → (save_session_state s st).1.context_compression_tasks ≡ st.context_compression_tasks
unfolding save_session_state
save-tasks s st =
    elim (Bool-cases (has_changed (lookup s.session_id st.session_id2state) s.version)) [
      | inl changed ↦ rw changed refl
      | inr current ↦ rw current refl
    ]

pub compress-tasks :
    (i : String) (c : CompressionResult) (st : Store)
    → (save_context_compression_result i c st).1.context_compression_tasks
      ≡ st.context_compression_tasks
unfolding save_context_compression_result
compress-tasks i c st = at_lookup (lookup i st.session_id2state)
  where
    at_merge :
        (s : StoredSession) (m : Bool × SessionState)
        → (merged s m st).1.context_compression_tasks ≡ st.context_compression_tasks
    at_merge s (false, z) = refl
    at_merge s (true, z) = save-tasks (record s { state = z }) st

    at_lookup :
        (o : Option StoredSession)
        → (merge_stored o c st).1.context_compression_tasks ≡ st.context_compression_tasks
    at_lookup none = refl
    at_lookup (some s) = at_merge s (merge_compacted_result s.state c)

-- In every store that the operations make, at most one compression task runs for a session and an
-- agent.
pub reachable-Exclusive :
    (st : Store)
    → Reachable st
    → (i a : String) → count_running i a st.context_compression_tasks ≤ 1
unfolding try_create_context_compression_task finish_context_compression_task
reachable-Exclusive _ (fresh st e) i a = rw e (omega arith)
reachable-Exclusive _ (created owner j b st h) i a =
    count-create i a (lookup j st.session_id2state) owner j b st (reachable-Exclusive st h i a)
reachable-Exclusive _ (finished t st h) i a =
    omega (arith, count-finish_in i a t st.context_compression_tasks, reachable-Exclusive st h i a)
reachable-Exclusive _ (saved s st h) i a = rw (save-tasks s st) (reachable-Exclusive st h i a)
reachable-Exclusive _ (compressed j c st h) i a =
    rw (compress-tasks j c st) (reachable-Exclusive st h i a)
