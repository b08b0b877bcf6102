-- ===== src/Os/Runtime/Rollback/Requested.antt =====
-- os/service.py `perform_interruption_request`, for a task whose buffer is marked as replayed.
use mathlib.Core.Option
use turtlemap.Prelude.{ℕ, String, suc, ◌≡◌, refl, ap, ◌∙◌, true, some, [], ◌∷◌, ◌++◌}
use turtlemap.Kernel.Model.{Input, TaskStatus}
use turtlemap.Kernel.Exec.{Result, continue, ok, pure, modify, ◌>>=◌}
use turtlemap.Events.{RuntimeEvent, EventBuffer}
use turtlemap.Os.{ProcessingTask, OsSession}
use turtlemap.Os.Runtime.{OsRuntime, find_task, update_task}
use turtlemap.Os.Runtime.Buffer.{find-update, update-update}
use turtlemap.Os.Runtime.Sent.{with_buffer, at}
use turtlemap.Os.Runtime.Replay.{publish-replayed}
use turtlemap.Os.Runtime.Rollback.{
  request_of, interruption_of, with_request, perform_interruption_request, started, asked,
  set_replayed, set_paused, filter_runtime_event_buffer_before_save,
}

-- the event of the request that a run makes whose next id is `i`
abbrev pub event_at : ℕ → ProcessingTask → RuntimeEvent
event_at i t = interruption_of (suc i) (request_of i t)

-- `t` as it is left: paused, with the request, whose event its buffer keeps
abbrev pub paused_as : ℕ → ProcessingTask → ProcessingTask → ProcessingTask
paused_as i t u = record {
  task = record u.task {
    interruption_request = some (request_of i t);
    state = record u.task.state { status = TaskStatus.paused };
  };
  event_buffer = record { events = t.event_buffer.events ++ event_at i t ∷ []; did_replay = true };
}

-- the checkpoint `s` with the task of that id left so, and with the input and the request in its history
abbrev pub paused_session : String → ℕ → ProcessingTask → Input → OsSession → OsSession
paused_session n i t x s =
    filter_runtime_event_buffer_before_save (record (update_task t.task.task_id (paused_as i t) s) {
      history =
          s.history
          ++ started n (suc (suc i)) x ∷ asked n (suc (suc (suc i))) (request_of i t) ∷ [];
    })

module _ (i : ℕ) (t : ProcessingTask) where
  pub updates :
      (s : OsSession)
      → update_task t.task.task_id set_paused (
          update_task t.task.task_id
            (with_buffer
              (record { events = t.event_buffer.events ++ event_at i t ∷ []; did_replay = true }))
            (update_task t.task.task_id
              (with_request (request_of i t))
              (update_task t.task.task_id set_replayed s)))
        ≡ update_task t.task.task_id (paused_as i t) s
  updates s =
      let b : EventBuffer = record {
        events = t.event_buffer.events ++ event_at i t ∷ [];
        did_replay = true;
      } in
      let k : ℕ = t.task.task_id in
      ap (λ x. update_task k set_paused (update_task k (with_buffer b) x))
        (update-update k set_replayed (λ u. refl) (with_request (request_of i t)) s)
      ∙ ap (update_task k set_paused) (
          update-update k (λ u. with_request (request_of i t) (set_replayed u)) (λ u. refl)
            (with_buffer b) s)
      ∙ update-update k (λ u. with_buffer b (with_request (request_of i t) (set_replayed u)))
          (λ u. refl) set_paused s

-- the run when the request is made, before its event is sent
abbrev pub requested : ProcessingTask → OsRuntime → OsRuntime
requested t r = record r {
  session =
      update_task t.task.task_id (with_request (request_of r.next_id t))
        (update_task t.task.task_id set_replayed r.session);
  next_id = suc (suc r.next_id);
}

module _ (t : ProcessingTask) (r : OsRuntime)
    (found : find_task t.task.task_id r.session ≡ some t) where
  find-requested :
      find_task t.task.task_id (requested t r).session
      ≡ some (with_request (request_of r.next_id t) (set_replayed t))
  find-requested =
      let k : ℕ = t.task.task_id in
      find-update k (with_request (request_of r.next_id t)) (λ u. refl)
        (update_task k set_replayed r.session)
      ∙ ap (Option.map (with_request (request_of r.next_id t)))
          (find-update k set_replayed (λ u. refl) r.session ∙ ap (Option.map set_replayed) found)

  pub perform-request :
      perform_interruption_request t
        (record r { session = update_task t.task.task_id set_replayed r.session })
      ≡ (
        ok (request_of r.next_id t, event_at r.next_id t),
        at t.task.task_id
            (t.event_buffer.events ++ event_at r.next_id t ∷ [])
            (event_at r.next_id t ∷ [])
            (requested t r),
      )
  unfolding perform_interruption_request ◌>>=◌ modify pure
  perform-request =
      ap
        (λ (p : Result (Unit {0}) × OsRuntime).
          continue p.0 (λ _. pure (request_of r.next_id t, event_at r.next_id t)) p.1)
        (publish-replayed t.task.task_id (event_at r.next_id t) (requested t r)
          (with_request (request_of r.next_id t) (set_replayed t)) find-requested refl refl)
