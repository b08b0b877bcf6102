-- ===== src/Os/Runtime/Sent.antt =====
-- os/runtime.py `_write_buffer`: what a send makes of the buffer of a task.
use mathlib.Core.Option
use turtlemap.Prelude.{
  ℕ, ◌≡◌, refl, sym, ap, ◌∙◌, true, false, some, List, [], ◌∷◌, ◌++◌, if◌then◌else◌, All,
  append-nil, append_assoc,
}
use turtlemap.Prelude.Eq.{nat_eq}
use turtlemap.Events.{RuntimeEvent, EventBuffer}
use turtlemap.Os.{ProcessingTask}
use turtlemap.Os.Runtime.{
  OsRuntime, write_for, find_task, update_task, with_event, write_buffer, send, send_all,
}
use turtlemap.Os.Runtime.Buffer.{find-update, update-update, update-ext, update-id}

abbrev pub OfTask : ℕ → RuntimeEvent → Type 0
OfTask i e = e.task_id ≡ some i

abbrev pub with_buffer : EventBuffer → ProcessingTask → ProcessingTask
with_buffer b t = record t { event_buffer = b }

-- The run in which the task's buffer holds `es` and is replayed, and the listeners were sent `ys` since.
abbrev pub at : ℕ → List RuntimeEvent → List RuntimeEvent → OsRuntime → OsRuntime
at i es ys r = record r {
  session = update_task i (with_buffer (record { events = es; did_replay = true })) r.session;
  sent = r.sent ++ ys;
}

with_event-fresh :
    (e : RuntimeEvent) (t : ProcessingTask) → t.event_buffer.did_replay ≡ false → with_event e t ≡ t
with_event-fresh e t fresh =
    ap
      (λ b.
        if b
        then record t {
          event_buffer = record t.event_buffer { events = t.event_buffer.events ++ e ∷ [] };
        }
        else t)
      fresh

module _ (i : ℕ) (r : OsRuntime) where
  write-at :
      (es : List RuntimeEvent) (e : RuntimeEvent)
      → OfTask i e
      → write_buffer e
          (update_task i (with_buffer (record { events = es; did_replay = true })) r.session)
        ≡ update_task i
            (with_buffer (record { events = es ++ e ∷ []; did_replay = true }))
            r.session
  unfolding write_buffer
  write-at es e own =
      ap
        (λ o.
          write_for o e
            (update_task i (with_buffer (record { events = es; did_replay = true })) r.session))
        own
      ∙ update-update i (with_buffer (record { events = es; did_replay = true })) (λ t. refl)
          (with_event e) r.session

  pub send-at :
      (es ys : List RuntimeEvent) (e : RuntimeEvent)
      → OfTask i e
      → send e (at i es ys r) ≡ at i (es ++ e ∷ []) (ys ++ e ∷ []) r
  unfolding send
  send-at es ys e own =
      ap (λ s. record r { session = s; sent = (r.sent ++ ys) ++ e ∷ [] }) (write-at es e own)
      ∙ ap
          (λ xs. record r {
            session =
                update_task i (with_buffer (record { events = es ++ e ∷ []; did_replay = true }))
                  r.session;
            sent = xs;
          })
          (append_assoc r.sent ys (e ∷ []))

  -- A task of the buffer `b` is found, so a write of `b` changes nothing.
  module _ (t : ProcessingTask) (found : find_task i r.session ≡ some t) where
    pub at-replayed : t.event_buffer.did_replay ≡ true → at i t.event_buffer.events [] r ≡ r
    at-replayed done =
        ap (λ s. record r { session = s; sent = r.sent ++ [] })
          (update-ext i (with_buffer (record { events = t.event_buffer.events; did_replay = true }))
              (λ u. u) t
              (ap
                (λ b. record t {
                  event_buffer = record { events = t.event_buffer.events; did_replay = b };
                })
                (sym done))
              r.session found
            ∙ update-id i r.session)
        ∙ ap (λ xs. record r { sent = xs }) (append-nil r.sent)

    -- before the flag is set, nothing is written into its buffer
    module _ (fresh : t.event_buffer.did_replay ≡ false) where
      write-fresh : (e : RuntimeEvent) → OfTask i e → write_buffer e r.session ≡ r.session
      unfolding write_buffer
      write-fresh e own =
          ap (λ o. write_for o e r.session) own
          ∙ update-ext i (with_event e) (λ u. u) t (with_event-fresh e t fresh) r.session found
          ∙ update-id i r.session

pub find-at :
    (i : ℕ) (es ys : List RuntimeEvent) (r : OsRuntime) (t : ProcessingTask)
    → find_task i r.session ≡ some t
    → find_task i (at i es ys r).session
      ≡ some (with_buffer (record { events = es; did_replay = true }) t)
find-at i es ys r t found =
    find-update i (with_buffer (record { events = es; did_replay = true })) (λ u. refl) r.session
    ∙ ap (Option.map (with_buffer (record { events = es; did_replay = true }))) found

-- the marked history is sent, and the session is as it was
pub send_all-fresh :
    (i : ℕ) (r : OsRuntime) (t : ProcessingTask)
    → find_task i r.session ≡ some t
    → t.event_buffer.did_replay ≡ false
    → (es : List RuntimeEvent) → All (OfTask i) es
    → send_all es r ≡ record r { sent = r.sent ++ es }
unfolding send_all send
send_all-fresh i r t found fresh [] own =
    ap (λ xs. record r { sent = xs }) (sym (append-nil r.sent))
send_all-fresh i r t found fresh (e ∷ es) (mine, own) =
    ap (λ s. send_all es (record r { session = s; sent = r.sent ++ e ∷ [] }))
      (write-fresh i r t found fresh e mine)
    ∙ send_all-fresh i (record r { sent = r.sent ++ e ∷ [] }) t found fresh es own
    ∙ ap (λ xs. record r { sent = xs }) (append_assoc r.sent (e ∷ []) es)
