-- ===== src/Os/Runtime/Rollback/Paused.antt =====
-- os/runtime.py `_pause_task_after_exception`: what a run that raised is left with.
use turtlemap.Prelude.{
  String, suc, false, ◌≡◌, refl, sym, ap, ◌∙◌, Bool, true, Option, none, some, List, [], ◌∷◌, ◌++◌,
  find?, find?-cons_true, find?-cons_false, Bool-cases, inl, inr,
}
use turtlemap.Prelude.Try.{value}
use turtlemap.Kernel.Model.{
  Input, RuntimeArtifact, InterruptionRequest, TaskStatus, ResponsePayload,
}
use turtlemap.Kernel.Interruption.{resume_task}
use turtlemap.Kernel.Exec.{
  Error, Result, continue, ok, pure, gets, require, reads, modify, ◌>>=◌, ◌>>◌,
}
use turtlemap.Kernel.Select.{is_paused, state_is_running}
use turtlemap.Events.{RuntimeEvent}
use turtlemap.Os.{ProcessingTask, OsAgentState, OsSession}
use turtlemap.Os.Load.{top_agent_state}
use turtlemap.Os.Runtime.{OsRuntime, find_task, update_task}
use turtlemap.Os.Runtime.Buffer.{some_inj}
use turtlemap.Os.Runtime.Sent.{at}
use turtlemap.Os.Runtime.Rollback.{
  load, request_of, started, asked, paused_task_artifacts, set_paused, runs, pause_task,
  pause_task_after_exception, known_or_raise, commit_runtime_checkpoint, stored_or_raised,
  keep_artifacts, keep_request, filter_runtime_event_buffer_before_save,
}
use turtlemap.Os.Runtime.Rollback.Requested.{
  event_at, paused_as, paused_session, updates, requested, perform-request,
}

keep_artifacts-stored :
    (save : OsSession → Option Error) (e : RuntimeEvent) (artifacts : List RuntimeArtifact)
    (r : OsRuntime)
    → save (
        filter_runtime_event_buffer_before_save
          (record r.session { history = r.session.history ++ artifacts }))
      ≡ none
    → keep_artifacts save e artifacts r ≡ (
      ok e,
      record r {
        session =
            filter_runtime_event_buffer_before_save
              (record r.session { history = r.session.history ++ artifacts });
        last_session_state = some (
            filter_runtime_event_buffer_before_save
              (record r.session { history = r.session.history ++ artifacts }));
      },
    )
unfolding commit_runtime_checkpoint ◌>>=◌ modify gets pure
keep_artifacts-stored save e artifacts r stored =
    ap
      (λ o. (stored_or_raised o >> pure e) (record r {
        session =
            filter_runtime_event_buffer_before_save
              (record r.session { history = r.session.history ++ artifacts });
      }))
      stored

keep_request-stored :
    (save : OsSession → Option Error) (n : String) (t : ProcessingTask) (q : InterruptionRequest)
    (e : RuntimeEvent) (x : Input) (r : OsRuntime)
    → t.task.start_input ≡ some x
    → keep_request save n t q e r
      ≡ keep_artifacts save e (started n r.next_id x ∷ asked n (suc r.next_id) q ∷ []) (record r {
        session = update_task t.task.task_id set_paused r.session;
        next_id = suc (suc r.next_id);
      })
unfolding paused_task_artifacts ◌>>=◌ modify require pure
keep_request-stored save n t q e x r known =
    ap
      (λ o.
        (paused_task_artifacts n o q >>= keep_artifacts save e)
          (record r { session = update_task t.task.task_id set_paused r.session }))
      known

pause_task-stored :
    (save : OsSession → Option Error) (n : String) (t : ProcessingTask) (x : Input) (r : OsRuntime)
    → find_task t.task.task_id r.session ≡ some t
    → t.task.start_input ≡ some x
    → save (paused_session n r.next_id t x r.session) ≡ none
    → pause_task save n t r ≡ (
      ok (event_at r.next_id t),
      record {
        session = paused_session n r.next_id t x r.session;
        last_session_state = some (paused_session n r.next_id t x r.session);
        sent = r.sent ++ event_at r.next_id t ∷ [];
        next_id = suc (suc (suc (suc r.next_id)));
      },
    )
unfolding pause_task ◌>>=◌ modify
pause_task-stored save n t x r found known stored =
    let q : InterruptionRequest = request_of r.next_id t in
    let e : RuntimeEvent = event_at r.next_id t in
    let artifacts : List RuntimeArtifact =
      started n (suc (suc r.next_id)) x ∷ asked n (suc (suc (suc r.next_id))) q ∷ [] in
    let at_session : OsSession → OsRuntime = λ s. record {
      session = s;
      last_session_state = r.last_session_state;
      sent = r.sent ++ e ∷ [];
      next_id = suc (suc (suc (suc r.next_id)));
    } in
    ap
      (λ (p : Result (InterruptionRequest × RuntimeEvent) × OsRuntime).
        continue p.0 (λ a. keep_request save n t a.0 a.1) p.1)
      (perform-request t r found)
    ∙ keep_request-stored save n t q e x
        (at t.task.task_id (t.event_buffer.events ++ e ∷ []) (e ∷ []) (requested t r)) known
    ∙ ap (λ s. keep_artifacts save e artifacts (at_session s)) (updates r.next_id t r.session)
    ∙ keep_artifacts-stored save e artifacts
        (at_session (update_task t.task.task_id (paused_as r.next_id t) r.session)) stored

not_paused : (s : TaskStatus) → state_is_running s ≡ true → is_paused s ≡ false
not_paused TaskStatus.running h = refl
not_paused TaskStatus.paused h = cc
not_paused TaskStatus.completed h = refl

find-runs : (ts : List ProcessingTask) (t : ProcessingTask) → find? runs ts ≡ some t → runs t ≡ true
find-runs [] t h = cc
find-runs (u ∷ ts) t h = elim (Bool-cases (runs u)) [
  | inl running ↦
      let this : u ≡ t = some_inj (sym (find?-cons_true runs u ts running) ∙ h) in
      sym (ap runs this) ∙ running
  | inr still ↦ find-runs ts t (sym (find?-cons_false runs u ts still) ∙ h)
]

-- If a run has a checkpoint, the agent on top of it can be reached and has a first task that is
-- not paused, which is the task found by its id and has a start input, and the store saves, then
-- handling an exception leaves the checkpoint with that task paused, its request and its event
-- kept, and with its input and the request in the history, whatever the run had made of the
-- session; one event is sent. The task was not paused before, and an answer to the request gives
-- it back the state that it had.
pub pause-PausedTask :
    (save : OsSession → Option Error) (has_agent : String → Bool) (exc : Error) (r : OsRuntime)
    (s : OsSession) (a : OsAgentState) (t : ProcessingTask) (x : Input) (p : ResponsePayload)
    → r.last_session_state ≡ some s
    → top_agent_state s ≡ value a
    → has_agent a.agent_name ≡ true
    → find? runs a.processing_tasks ≡ some t
    → find_task t.task.task_id s ≡ some t
    → t.task.start_input ≡ some x
    → save (paused_session a.agent_name r.next_id t x s) ≡ none
    → (pause_task_after_exception save has_agent exc r ≡ (
      ok (event_at r.next_id t),
      record {
        session = paused_session a.agent_name r.next_id t x s;
        last_session_state = some (paused_session a.agent_name r.next_id t x s);
        sent = r.sent ++ event_at r.next_id t ∷ [];
        next_id = suc (suc (suc (suc r.next_id)));
      },
    ))
      × (is_paused t.task.state.status ≡ false)
      × ((resume_task (request_of r.next_id t) p (paused_as r.next_id t t).task).state
          ≡ t.task.state)
unfolding pause_task_after_exception ◌>>=◌ modify reads require pure
pause-PausedTask save has_agent exc r s a t x p kept top reached runs_t found known stored =
    let back : OsRuntime = record r { session = s } in
    (
      ap
            (λ o.
              (require exc o >>= λ saved.
              modify (λ r. record r { session = saved })
              >> (load (top_agent_state saved) >>= λ owner.
                  known_or_raise (has_agent owner.agent_name)
                  >> (require exc (find? runs owner.processing_tasks)
                      >>= pause_task save owner.agent_name)))
                r)
            kept
          ∙ ap
              (λ o.
                (load o >>= λ owner.
                known_or_raise (has_agent owner.agent_name)
                >> (require exc (find? runs owner.processing_tasks)
                    >>= pause_task save owner.agent_name))
                  back)
              top
          ∙ ap
              (λ b.
                (known_or_raise b
                    >> (require exc (find? runs a.processing_tasks)
                        >>= pause_task save a.agent_name))
                  back)
              reached
          ∙ ap (λ o. (require exc o >>= pause_task save a.agent_name) back) runs_t
          ∙ pause_task-stored save a.agent_name t x back found known stored,
      not_paused t.task.state.status (find-runs a.processing_tasks t runs_t),
      refl,
    )
