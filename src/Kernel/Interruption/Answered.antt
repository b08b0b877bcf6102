-- ===== src/Kernel/Interruption/Answered.antt =====
-- kernel/runtime.py: tasks whose request has its response, and what `_find_interruption_request` finds in an answered
-- session or in one with a single task for the request.
use turtlemap.Prelude.{
  ℕ, String, ◌≡◌, refl, true, false, Option, none, some, List, [], ◌∷◌, arith, All, find?,
  find?-eq-some, ◌∙◌, Bool-cases, inl, inr,
}
use turtlemap.Prelude.Eq.{◌==◌, nat_eq, string_eq}
use turtlemap.Prelude.Dict.{Dict}
use turtlemap.Kernel.Model.{InterruptionRequest, ResponsePayload, Task, AgentState}
use turtlemap.Kernel.State.{update_tasks, update_agents, update_agent_tasks}
use turtlemap.Kernel.Select.{
  Match, awaits, found_in, first_match, match_of, find_interruption_request,
}
use turtlemap.Kernel.Interruption.{resume_task}

abbrev HasResponse : InterruptionRequest → Type 0
HasResponse q = (p : ResponsePayload) × (q.response ≡ some p)

-- Every task of the session that awaits request `i` carries a response to it.
abbrev AnsweredTask : ℕ → Task → Type 0
AnsweredTask i t =
    awaits i t ≡ true
    → (q : InterruptionRequest) (e : t.interruption_request ≡ some q) → HasResponse q

abbrev pub IsAnswered : ℕ → Dict String AgentState → Type 0
IsAnswered i [] = Unit
IsAnswered i ((k, s) ∷ d) = All (AnsweredTask i) s.processing_tasks × IsAnswered i d

-- Every task that awaits request `i` is task `t` of the agent state at key `a`.
abbrev pub OnlyTask : String → ℕ → ℕ → String → Task → Type 0
OnlyTask a t i k task = awaits i task ≡ true → (k ≡ a) × (task.task_id ≡ t)

abbrev pub OnlyAt : String → ℕ → ℕ → Dict String AgentState → Type 0
OnlyAt a t i [] = Unit
OnlyAt a t i ((k, s) ∷ d) = All (OnlyTask a t i k) s.processing_tasks × OnlyAt a t i d

resume_task-Answered :
    (i : ℕ) (q : InterruptionRequest) (p : ResponsePayload) (t : Task)
    → AnsweredTask i (resume_task q p t)
resume_task-Answered i q p t w q' e = (p, ground arith)

update_tasks-Answered :
    (a k : String) (t i : ℕ) (q : InterruptionRequest) (p : ResponsePayload) (ts : List Task)
    → k ≡ a
    → All (OnlyTask a t i k) ts
    → All (AnsweredTask i) (update_tasks t (resume_task q p) ts)
unfolding update_tasks
update_tasks-Answered a k t i q p [] e h = tt
update_tasks-Answered a k t i q p (x ∷ ts) e h = elim (Bool-cases (x.task_id == t)) [
  | inl same ↦ rw same (resume_task-Answered i q p x, update_tasks-Answered a k t i q p ts e h.1)
  | inr other ↦ rw other (
    (λ w q' e'. let found = h.0 w in absurd (ground arith)),
    update_tasks-Answered a k t i q p ts e h.1,
  )
]

others-Answered :
    (a k : String) (t i : ℕ) (ts : List Task)
    → (k == a) ≡ false
    → All (OnlyTask a t i k) ts
    → All (AnsweredTask i) ts
others-Answered a k t i [] e h = tt
others-Answered a k t i (x ∷ ts) e h = (
  (λ w q' e'. let found = h.0 w in absurd (ground (arith, string_eq.decides k a))),
  others-Answered a k t i ts e h.1,
)

pub update_agents-Answered :
    (a : String) (t i : ℕ) (q : InterruptionRequest) (p : ResponsePayload)
    (d : Dict String AgentState)
    → OnlyAt a t i d
    → IsAnswered i (update_agents a (update_agent_tasks (update_tasks t (resume_task q p))) d)
unfolding update_agents
update_agents-Answered a t i q p [] h = tt
update_agents-Answered a t i q p ((k, s) ∷ d) h = elim (Bool-cases (k == a)) [
  | inl same ↦ rw same (
    update_tasks-Answered a k t i q p s.processing_tasks ((string_eq.decides k a).0 same) h.0,
    update_agents-Answered a t i q p d h.1,
  )
  | inr other ↦
      rw other (
        others-Answered a k t i s.processing_tasks other h.0,
        update_agents-Answered a t i q p d h.1,
      )
]

match_of-HasResponse :
    (i : ℕ) (k : String) (s : AgentState) (t : Task) (o : Option InterruptionRequest) (m : Match)
    → t.interruption_request ≡ o
    → awaits i t ≡ true
    → AnsweredTask i t
    → match_of k s t o ≡ some m
    → HasResponse m.request
match_of-HasResponse i k s t none m e w g h = absurd (cc)
match_of-HasResponse i k s t (some q) m e w g h =
    let (p, given) = g w q e in let same : q ≡ m.request = cc in (p, cc)

found_in-HasResponse :
    (i : ℕ) (k : String) (s : AgentState) (o : Option Task) (m : Match)
    → find? (awaits i) s.processing_tasks ≡ o
    → All (AnsweredTask i) s.processing_tasks
    → found_in k s o ≡ some m
    → HasResponse m.request
found_in-HasResponse i k s none m e g h = absurd (cc)
found_in-HasResponse i k s (some t) m e g h =
    let (w, answered) = find?-eq-some (AnsweredTask i) (awaits i) s.processing_tasks t g e in
    match_of-HasResponse i k s t t.interruption_request m refl w answered h

pub find-HasResponse :
    (i : ℕ) (d : Dict String AgentState) (m : Match)
    → IsAnswered i d
    → find_interruption_request i d ≡ some m
    → HasResponse m.request
unfolding find_interruption_request
find-HasResponse i [] m g h = absurd (cc)
find-HasResponse i ((k, s) ∷ d) m g h =
    go (found_in k s (find? (awaits i) s.processing_tasks)) refl h (find-HasResponse i d m g.1)
  where
    go :
        (o : Option Match)
        → found_in k s (find? (awaits i) s.processing_tasks) ≡ o
        → first_match o (find_interruption_request i d) ≡ some m
        → (find_interruption_request i d ≡ some m → HasResponse m.request)
        → HasResponse m.request
    go none e l ih = ih l
    go (some n) e l ih =
        found_in-HasResponse i k s (find? (awaits i) s.processing_tasks) m refl g.0 (e ∙ l)

match_of-located :
    (a : String) (n i : ℕ) (k : String) (s : AgentState) (t : Task) (o : Option InterruptionRequest)
    (m : Match)
    → awaits i t ≡ true
    → OnlyTask a n i k t
    → match_of k s t o ≡ some m
    → (m.key ≡ a) × (m.task.task_id ≡ n)
match_of-located a n i k s t none m w g h = absurd (cc)
match_of-located a n i k s t (some q) m w g h = let (key, id) = g w in (cc, cc)

found_in-located :
    (a : String) (n i : ℕ) (k : String) (s : AgentState) (o : Option Task) (m : Match)
    → find? (awaits i) s.processing_tasks ≡ o
    → All (OnlyTask a n i k) s.processing_tasks
    → found_in k s o ≡ some m
    → (m.key ≡ a) × (m.task.task_id ≡ n)
found_in-located a n i k s none m e g h = absurd (cc)
found_in-located a n i k s (some t) m e g h =
    let (w, only) = find?-eq-some (OnlyTask a n i k) (awaits i) s.processing_tasks t g e in
    match_of-located a n i k s t t.interruption_request m w only h

pub find-located :
    (a : String) (n i : ℕ) (d : Dict String AgentState) (m : Match)
    → OnlyAt a n i d
    → find_interruption_request i d ≡ some m
    → (m.key ≡ a) × (m.task.task_id ≡ n)
unfolding find_interruption_request
find-located a n i [] m g h = absurd (cc)
find-located a n i ((k, s) ∷ d) m g h =
    go (found_in k s (find? (awaits i) s.processing_tasks)) refl h (find-located a n i d m g.1)
  where
    go :
        (o : Option Match)
        → found_in k s (find? (awaits i) s.processing_tasks) ≡ o
        → first_match o (find_interruption_request i d) ≡ some m
        → (find_interruption_request i d ≡ some m → (m.key ≡ a) × (m.task.task_id ≡ n))
        → (m.key ≡ a) × (m.task.task_id ≡ n)
    go none e l ih = ih l
    go (some v) e l ih =
        found_in-located a n i k s (find? (awaits i) s.processing_tasks) m refl g.0 (e ∙ l)
