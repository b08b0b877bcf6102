-- ===== src/Os/Runtime/Replay.antt =====
-- os/models.py `ProcessingTask.publish` and os/runtime.py `_replay_finished_task_events_if_needed`: the history
-- of a task that comes back is sent once.
use turtlemap.Prelude.{
  ℕ, ◌≡◌, refl, sym, ap, ◌∙◌, Bool, true, false, some, List, [], ◌∷◌, ◌++◌, map, if◌then◌else◌, inl,
  inr, Bool-cases, All, map-All, append-nil, append_assoc,
}
use turtlemap.Prelude.Eq.{nat_eq}
use turtlemap.Kernel.Exec.{
  index_error, detached, continue, ok, pure, require, reads, modify, ◌>>=◌, ◌>>◌,
}
use turtlemap.Events.{RuntimeEvent, EventBuffer}
use turtlemap.Os.{ProcessingTask}
use turtlemap.Os.Runtime.{
  OsRuntime, Act, find_task, update_task, send, replayed, answers, replay_buffer, replay_for,
  publish_for,
}
use turtlemap.Os.Runtime.Sent.{
  OfTask, with_buffer, at, send-at, at-replayed, find-at, send_all-fresh,
}

-- the task's events, published one after the other
unfoldable pub publish_all : ℕ → List RuntimeEvent → Act (Unit {0})
publish_all i [] = pure tt
publish_all i (e ∷ es) = publish_for i e >> publish_all i es

-- what the buffer holds when the next event is sent
abbrev pub past : Bool → EventBuffer → List RuntimeEvent
past a b = if b.did_replay then b.events else map (replayed a) b.events

-- what the listeners are sent before it
abbrev pub unsent : Bool → EventBuffer → List RuntimeEvent
unsent a b = if b.did_replay then [] else map (replayed a) b.events

module _ (i : ℕ) (e : RuntimeEvent) (r : OsRuntime) where
  publish-found :
      (t : ProcessingTask)
      → find_task i r.session ≡ some t
      → publish_for i e r ≡ (replay_for i e t.event_buffer >> modify (send e)) r
  unfolding publish_for ◌>>=◌ reads require
  publish-found t found =
      ap (λ o. (require detached o >>= λ u. replay_for i e u.event_buffer >> modify (send e)) r)
        found

-- Once the flag is set, an event is sent and kept, and nothing else happens.
publish-at :
    (i : ℕ) (es ys : List RuntimeEvent) (e : RuntimeEvent) (r : OsRuntime) (t : ProcessingTask)
    → find_task i r.session ≡ some t
    → OfTask i e
    → publish_for i e (at i es ys r) ≡ (ok tt, at i (es ++ e ∷ []) (ys ++ e ∷ []) r)
unfolding ◌>>=◌ pure modify
publish-at i es ys e r t found own =
    publish-found i e (at i es ys r) (with_buffer (record { events = es; did_replay = true }) t)
      (find-at i es ys r t found)
    ∙ ap (λ s. (ok tt, s)) (send-at i r es ys e own)

pub publish-replayed :
    (i : ℕ) (e : RuntimeEvent) (r : OsRuntime) (t : ProcessingTask)
    → find_task i r.session ≡ some t
    → t.event_buffer.did_replay ≡ true
    → OfTask i e
    → publish_for i e r ≡ (ok tt, at i (t.event_buffer.events ++ e ∷ []) (e ∷ []) r)
publish-replayed i e r t found done own =
    ap (publish_for i e) (sym (at-replayed i r t found done))
    ∙ publish-at i t.event_buffer.events [] e r t found own

publish_all-at :
    (i : ℕ) (es xs ys : List RuntimeEvent) (r : OsRuntime) (t : ProcessingTask)
    → find_task i r.session ≡ some t
    → All (OfTask i) es
    → publish_all i es (at i xs ys r) ≡ (ok tt, at i (xs ++ es) (ys ++ es) r)
unfolding publish_all ◌>>=◌ pure
publish_all-at i [] xs ys r t found own =
    ap (λ s. (ok tt, s)) (rw (append-nil xs, append-nil ys) refl)
publish_all-at i (e ∷ es) xs ys r t found (mine, own) =
    ap (λ s. continue s.0 (λ _. publish_all i es) s.1) (publish-at i xs ys e r t found mine)
    ∙ publish_all-at i es (xs ++ e ∷ []) (ys ++ e ∷ []) r t found own
    ∙ ap (λ s. (ok tt, s)) (rw (append_assoc xs (e ∷ []) es, append_assoc ys (e ∷ []) es) refl)

-- the first event of a task that comes back
replay-buffer :
    (i : ℕ) (a : Bool) (r : OsRuntime) (t : ProcessingTask)
    → find_task i r.session ≡ some t
    → t.event_buffer.did_replay ≡ false
    → All (OfTask i) t.event_buffer.events
    → replay_buffer i a t.event_buffer r
      ≡ at i (map (replayed a) t.event_buffer.events) (map (replayed a) t.event_buffer.events) r
replay-buffer i a r t found fresh own =
    ap
      (λ (s : OsRuntime). record s {
        session =
            update_task i
              (with_buffer
                (record { events = map (replayed a) t.event_buffer.events; did_replay = true }))
              s.session;
      })
      (send_all-fresh i r t found fresh (map (replayed a) t.event_buffer.events)
        (map-All (OfTask i) (replayed a) t.event_buffer.events own))

replay_for-fresh :
    (i : ℕ) (e : RuntimeEvent) (a : Bool) (es : List RuntimeEvent) (r : OsRuntime)
    → answers e.body ≡ some a
    → replay_for i e (record { events = es; did_replay = false }) r
      ≡ (ok tt, replay_buffer i a (record { events = es; did_replay = false }) r)
unfolding ◌>>=◌ pure modify require
replay_for-fresh i e a [] r known = refl
replay_for-fresh i e a (h ∷ hs) r known =
    ap
      (λ o.
        (require index_error o >>= λ b.
        modify (replay_buffer i b (record { events = h ∷ hs; did_replay = false })))
          r)
      known

publish-fresh :
    (i : ℕ) (a : Bool) (e : RuntimeEvent) (r : OsRuntime) (t : ProcessingTask)
    → find_task i r.session ≡ some t
    → t.event_buffer.did_replay ≡ false
    → All (OfTask i) t.event_buffer.events
    → OfTask i e
    → answers e.body ≡ some a
    → publish_for i e r ≡ (
      ok tt,
      at i
          (map (replayed a) t.event_buffer.events ++ e ∷ [])
          (map (replayed a) t.event_buffer.events ++ e ∷ [])
          r,
    )
unfolding ◌>>=◌ modify
publish-fresh i a e r t found fresh own mine known =
    let unsent_buffer : EventBuffer = record {
      events = t.event_buffer.events;
      did_replay = false;
    } in
    let same : t.event_buffer ≡ unsent_buffer =
      ap (λ b. record { events = t.event_buffer.events; did_replay = b }) fresh in
    let marked : List RuntimeEvent = map (replayed a) t.event_buffer.events in
    publish-found i e r t found
    ∙ ap (λ b. (replay_for i e b >> modify (send e)) r) same
    ∙ ap (λ s. continue s.0 (λ _. modify (send e)) s.1)
        (replay_for-fresh i e a t.event_buffer.events r known)
    ∙ ap (λ b. (ok tt, send e (replay_buffer i a b r))) (sym same)
    ∙ ap (λ s. (ok tt, send e s)) (replay-buffer i a r t found fresh own)
    ∙ ap (λ s. (ok tt, s)) (send-at i r marked marked e mine)

-- If a task is found whose buffer holds events of its own, publishing its next events sends first
-- the marked history, unless that was done before, then these events, and leaves the same in its
-- buffer; nothing else of the run changes.
pub publish_all-replays_once :
    (i : ℕ) (a : Bool) (e : RuntimeEvent) (es : List RuntimeEvent) (r : OsRuntime)
    (t : ProcessingTask)
    → find_task i r.session ≡ some t
    → All (OfTask i) t.event_buffer.events
    → All (OfTask i) (e ∷ es)
    → answers e.body ≡ some a
    → publish_all i (e ∷ es) r
      ≡ (ok tt, at i (past a t.event_buffer ++ e ∷ es) (unsent a t.event_buffer ++ e ∷ es) r)
unfolding publish_all ◌>>=◌ pure
publish_all-replays_once i a e es r t found own (mine, later) known =
    elim (Bool-cases t.event_buffer.did_replay) [
      | inl done ↦
          ap (publish_all i (e ∷ es)) (sym (at-replayed i r t found done))
          ∙ publish_all-at i (e ∷ es) t.event_buffer.events [] r t found (mine, later)
          ∙ ap
              (λ b. (
                ok tt,
                at i
                    ((if b then t.event_buffer.events else map (replayed a) t.event_buffer.events)
                      ++ e ∷ es)
                    ((if b then [] else map (replayed a) t.event_buffer.events) ++ e ∷ es) r,
              ))
              (sym done)
      | inr fresh ↦
          let marked : List RuntimeEvent = map (replayed a) t.event_buffer.events in
          ap (λ s. continue s.0 (λ _. publish_all i es) s.1)
            (publish-fresh i a e r t found fresh own mine known)
          ∙ publish_all-at i es (marked ++ e ∷ []) (marked ++ e ∷ []) r t found later
          ∙ ap (λ xs. (ok tt, at i xs xs r)) (append_assoc marked (e ∷ []) es)
          ∙ ap
              (λ b. (
                ok tt,
                at i ((if b then t.event_buffer.events else marked) ++ e ∷ es)
                    ((if b then [] else marked) ++ e ∷ es) r,
              ))
              (sym fresh)
    ]
