-- ===== src/Store/Release.antt =====
-- os/store/memory.py: what is left of a compression task that its owner finishes.
use turtlemap.Prelude.{
  ℕ, suc, ◌+◌, ◌≤◌, ◌<◌, ◌≡◌, refl, ap, subst, true, false, Option, none, some, List, [], ◌∷◌, ◌++◌,
  String, arith, length, Bool-cases, inl, inr, All, All-map, All-append, length-append,
}
use turtlemap.Prelude.Eq.{◌==◌, nat_eq, string_eq}
use turtlemap.Prelude.Dict.{lookup}
use turtlemap.Store.{
  TaskRecord, StoredSession, Store, is_running_for, any_running, new_task, create_in,
  try_create_context_compression_task, same_owner, finish_in, finish_context_compression_task,
}
use turtlemap.Store.Tasks.{Reachable, stop, stopped, save-tasks, compress-tasks}

-- an id is at most the number of tasks at the time
abbrev IdsUpTo : ℕ → List TaskRecord → Type 0
IdsUpTo n = All (λ (t : TaskRecord). t.id ≤ n)

finish_in-ids :
    (n : ℕ) (task : TaskRecord) (ts : List TaskRecord)
    → IdsUpTo n ts
    → IdsUpTo n (finish_in task ts)
unfolding finish_in
finish_in-ids n task [] h = tt
finish_in-ids n task (t ∷ ts) h = elim (Bool-cases (t.id == task.id)) [
  | inr other ↦ rw other (h.0, finish_in-ids n task ts h.1)
  | inl same ↦ elim (Bool-cases (same_owner t.lease_owner task.lease_owner)) [
    | inl owns ↦ simp (same, owns) h
    | inr stranger ↦ simp (same, stranger) h
  ]
]

length-finish_in :
    (task : TaskRecord) (ts : List TaskRecord) → length (finish_in task ts) ≡ length ts
unfolding finish_in
length-finish_in task [] = refl
length-finish_in task (t ∷ ts) = elim (Bool-cases (t.id == task.id)) [
  | inr other ↦ rw other (ap suc (length-finish_in task ts))
  | inl same ↦ elim (Bool-cases (same_owner t.lease_owner task.lease_owner)) [
    | inl owns ↦ simp (same, owns) refl
    | inr stranger ↦ simp (same, stranger) refl
  ]
]

create-ids :
    (o : Option StoredSession) (owner i a : String) (st : Store)
    → IdsUpTo (length st.context_compression_tasks) st.context_compression_tasks
    → IdsUpTo
        (length (create_in o owner i a st).1.context_compression_tasks)
        (create_in o owner i a st).1.context_compression_tasks
create-ids none owner i a st h = h
create-ids (some s) owner i a st h =
    let ts = st.context_compression_tasks in
    let task = new_task owner i a st in
    elim (Bool-cases (any_running i a ts)) [
      | inl running ↦ rw running h
      | inr free ↦
          rw (free, length-append ts (task ∷ []))
            (All-append (λ (t : TaskRecord). t.id ≤ length ts + 1) ts (task ∷ [])
              (All-map (λ t l. omega arith) ts h) (omega arith, tt))
    ]

reachable-ids :
    (st : Store)
    → Reachable st
    → IdsUpTo (length st.context_compression_tasks) st.context_compression_tasks
unfolding try_create_context_compression_task finish_context_compression_task
reachable-ids _ (Reachable.fresh st e) = rw e tt
reachable-ids _ (Reachable.created owner i a st h) =
    create-ids (lookup i st.session_id2state) owner i a st (reachable-ids st h)
reachable-ids _ (Reachable.finished t st h) =
    rw (length-finish_in t st.context_compression_tasks)
      (finish_in-ids _ t st.context_compression_tasks (reachable-ids st h))
reachable-ids _ (Reachable.saved s st h) = rw (save-tasks s st) (reachable-ids st h)
reachable-ids _ (Reachable.compressed i c st h) = rw (compress-tasks i c st) (reachable-ids st h)

finish_in-last :
    (task : TaskRecord) (ts : List TaskRecord)
    → All (λ (t : TaskRecord). t.id < task.id) ts
    → same_owner task.lease_owner task.lease_owner ≡ true
    → finish_in task (ts ++ task ∷ []) ≡ ts ++ stop task ∷ []
unfolding finish_in
finish_in-last task [] h owns =
    let same : (task.id == task.id) ≡ true = (nat_eq.decides _ _).1 refl in simp (same, owns) refl
finish_in-last task (t ∷ ts) h owns =
    let l = h.0 in
    let other : (t.id == task.id) ≡ false = ground arith in
    rw other (ap (λ rest. t ∷ rest) (finish_in-last task ts h.1 owns))

any_running-stop :
    (i a : String) (task : TaskRecord) (ts : List TaskRecord)
    → any_running i a ts ≡ false
    → any_running i a (ts ++ stop task ∷ []) ≡ false
any_running-stop i a task [] h = rw (stopped i a task) refl
any_running-stop i a task (t ∷ ts) h = elim (Bool-cases (is_running_for i a t)) [
  | inl here ↦ absurd (ground arith)
  | inr not_here ↦ rw not_here (any_running-stop i a task ts (ground arith))
]

abbrev Creates : Option TaskRecord × Store → Type 0
Creates r = (t : TaskRecord) × (r.0 ≡ some t)

-- the session is known and no task runs, so that one is created
creates :
    (owner i a : String) (s : StoredSession) (st : Store)
    → lookup i st.session_id2state ≡ some s
    → any_running i a st.context_compression_tasks ≡ false
    → Creates (try_create_context_compression_task owner i a st)
unfolding try_create_context_compression_task
creates owner i a s st at free = (new_task owner i a st, rw (at, free) refl)

create_in-cases :
    (o : Option StoredSession) (owner i a : String) (st : Store) (t : TaskRecord)
    → (create_in o owner i a st).0 ≡ some t
    → (s : StoredSession) × (o ≡ some s)
      × (any_running i a st.context_compression_tasks ≡ false)
      × (new_task owner i a st ≡ t)
create_in-cases none owner i a st t h = absurd (cc)
create_in-cases (some s) owner i a st t h =
    elim (Bool-cases (any_running i a st.context_compression_tasks)) [
      | inl running ↦ absurd (ground arith)
      | inr free ↦ let k = rw free at h in (s, refl, free, cc)
    ]

frees_new :
    (st : Store) (owner next i a : String) (s : StoredSession)
    → lookup i st.session_id2state ≡ some s
    → any_running i a st.context_compression_tasks ≡ false
    → IdsUpTo (length st.context_compression_tasks) st.context_compression_tasks
    → Creates (
        try_create_context_compression_task next i a (
          finish_context_compression_task
            (new_task owner i a st)
            (try_create_context_compression_task owner i a st).1))
unfolding try_create_context_compression_task finish_context_compression_task
frees_new st owner next i a s at free ids =
    let ts = st.context_compression_tasks in
    let task = new_task owner i a st in
    let ended : finish_in task (ts ++ task ∷ []) ≡ ts ++ stop task ∷ [] =
      finish_in-last task ts (All-map (λ t l. omega arith) ts ids)
        ((string_eq.decides owner owner).1 refl) in
    let still_free : any_running i a (finish_in task (ts ++ task ∷ [])) ≡ false =
      rw ended (any_running-stop i a task ts free) in
    rw (at, free)
      (creates next i a s
        (record st { context_compression_tasks = finish_in task (ts ++ task ∷ []) }) at still_free)

-- A task that was created and that its owner finishes leaves the session and the agent free: in
-- every store that the operations make, the next request for a task is granted.
pub finish-frees :
    (st : Store) (owner next i a : String) (t : TaskRecord)
    → Reachable st
    → (try_create_context_compression_task owner i a st).0 ≡ some t
    → (t' : TaskRecord) × ((try_create_context_compression_task next i a (
          finish_context_compression_task t (try_create_context_compression_task owner i a st).1)).0
        ≡ some t')
unfolding try_create_context_compression_task
finish-frees st owner next i a t h granted =
    let (s, at, free, same) =
      create_in-cases (lookup i st.session_id2state) owner i a st t granted in
    subst
      (λ z. Creates (
        try_create_context_compression_task next i a
          (finish_context_compression_task z (try_create_context_compression_task owner i a st).1)))
      same (frees_new st owner next i a s at free (reachable-ids st h))
