-- ===== src/Os/Runtime/Finished.antt =====
-- os/runtime.py `_replay_finished_task_events_if_needed`: what finished tasks left is sent once.
use turtlemap.Prelude.{
  ◌≡◌, refl, sym, ap, ◌∙◌, Bool, true, List, [], ◌∷◌, ◌++◌, map, if◌then◌else◌, inl, inr,
  Bool-cases, All, subst, append-nil, append_assoc,
}
use turtlemap.Prelude.Blocks.{concat_map}
use turtlemap.Events.{RuntimeEvent, EventBuffer}
use turtlemap.Os.Runtime.{
  OsRuntime, send, send_all, sent_again, replayed_buffer, replay_one, with_finished,
  replay_finished, replay_finished_task_events_if_needed,
}

abbrev pub unsent_of : EventBuffer → List RuntimeEvent
unsent_of b = if b.did_replay then [] else map sent_again b.events

send_all-sent : (es : List RuntimeEvent) (r : OsRuntime) → (send_all es r).sent ≡ r.sent ++ es
unfolding send_all send
send_all-sent [] r = sym (append-nil r.sent)
send_all-sent (e ∷ es) r = send_all-sent es (send e r) ∙ append_assoc r.sent (e ∷ []) es

replay_one-sent : (b : EventBuffer) (r : OsRuntime) → (replay_one b r).sent ≡ r.sent ++ unsent_of b
replay_one-sent b r = elim (Bool-cases b.did_replay) [
  | inl h ↦ rw h (sym (append-nil r.sent))
  | inr h ↦ rw h (send_all-sent (map sent_again b.events) r)
]

replay_finished-sent :
    (bs : List EventBuffer) (r : OsRuntime)
    → (replay_finished bs r).1.sent ≡ r.sent ++ concat_map unsent_of bs
unfolding replay_finished concat_map
replay_finished-sent [] r = sym (append-nil r.sent)
replay_finished-sent (b ∷ bs) r =
    replay_finished-sent bs (replay_one b r)
    ∙ ap (λ xs. xs ++ concat_map unsent_of bs) (replay_one-sent b r)
    ∙ append_assoc r.sent (unsent_of b) (concat_map unsent_of bs)

replay_finished-buffers :
    (bs : List EventBuffer) (r : OsRuntime) → (replay_finished bs r).0 ≡ map replayed_buffer bs
unfolding replay_finished
replay_finished-buffers [] r = refl
replay_finished-buffers (b ∷ bs) r =
    ap (λ xs. replayed_buffer b ∷ xs) (replay_finished-buffers bs (replay_one b r))

abbrev Done : EventBuffer → Type 0
Done b = b.did_replay ≡ true

replayed_buffer-Done : (b : EventBuffer) → Done (replayed_buffer b)
replayed_buffer-Done b = elim (Bool-cases b.did_replay) [
  | inl h ↦
      ap
        (λ (c : Bool).
          (if c
            then b
            else record { events = map sent_again b.events; did_replay = true }).did_replay)
        h
      ∙ h
  | inr h ↦
      ap
        (λ (c : Bool).
          (if c
            then b
            else record { events = map sent_again b.events; did_replay = true }).did_replay)
        h
]

all-Done : (bs : List EventBuffer) → All Done (map replayed_buffer bs)
all-Done [] = tt
all-Done (b ∷ bs) = (replayed_buffer-Done b, all-Done bs)

replay_finished-Done :
    (bs : List EventBuffer) (r : OsRuntime) → All Done bs → replay_finished bs r ≡ (bs, r)
unfolding replay_finished
replay_finished-Done [] r h = refl
replay_finished-Done (b ∷ bs) r (h, k) =
    ap
      (λ (c : Bool).
        let (rest, s) =
          replay_finished bs (if c then r else send_all (map sent_again b.events) r) in
        (
          (if c then b else record { events = map sent_again b.events; did_replay = true }) ∷ rest,
          s,
        ))
      h
    ∙ ap (λ p. (b ∷ p.0, p.1)) (replay_finished-Done bs r k)

-- The replay of finished tasks sends the marked events of the buffers that were not yet replayed,
-- in order, and a second replay changes and sends nothing.
pub replay_finished-once :
    (r : OsRuntime)
    → ((replay_finished_task_events_if_needed r).sent
        ≡ r.sent ++ concat_map unsent_of r.session.finished_task_events)
      × (replay_finished_task_events_if_needed (replay_finished_task_events_if_needed r)
          ≡ replay_finished_task_events_if_needed r)
unfolding replay_finished_task_events_if_needed
replay_finished-once r =
    let bs : List EventBuffer = r.session.finished_task_events in
    let s : OsRuntime = replay_finished_task_events_if_needed r in
    let done : All Done s.session.finished_task_events =
      subst (All Done) (sym (replay_finished-buffers bs r)) (all-Done bs) in
    (
      replay_finished-sent bs r,
      ap with_finished (replay_finished-Done s.session.finished_task_events s done),
    )
