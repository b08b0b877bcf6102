-- ===== src/EventBus/Sequence.antt =====
-- os/event_bus/event_bus.py `publish`: the sequence numbers of events.
use turtlemap.Prelude.{
  ℕ, ◌+◌, ◌≤◌, ◌<◌, ◌≡◌, ap, sym, subst, ◌∙◌, Option, none, some, [], ◌∷◌, arith, length,
  Bool-cases, inl, inr,
}
use turtlemap.Prelude.Eq.{◌==◌, nat_eq}
use turtlemap.Prelude.Dict.{Dict}
use turtlemap.Kernel.Exec.{Result, ok, pure, gets, ◌>>=◌, >>=-eq-ok}
use turtlemap.Kernel.Exec.Keeps.{Keeps, Keeps-pure, Keeps-gets, ◌andthen◌}
use turtlemap.Events.{RuntimeEvent, event_type}
use turtlemap.EventBus.{
  EventBus, EventBusChannel, EventSubscription, BusAct, ensure_channel, subscriptions,
  allocate_sequence, logged, same_size, subscription_items, notify_listeners, complete_one,
  notify_completion_listeners, stamp, deliver, publish_on, publish,
}

-- The bus has given out every number below `n`.
pub record IsPast (n : ℕ) (b : EventBus) : Type 0 where
  pub past : n ≤ b.next_sequence

-- No listener sets the numbers back.
abbrev pub Forward : (ℕ → RuntimeEvent → BusAct (Unit {0})) → Type 0
Forward call = (n l : ℕ) (e : RuntimeEvent) → Keeps (IsPast n) (call l e)

module _ (call : ℕ → RuntimeEvent → BusAct (Unit {0})) (forward : Forward call) (n : ℕ) where
  logged-Keeps : (m : BusAct (Unit {0})) → Keeps (IsPast n) m → Keeps (IsPast n) (logged m)
  logged-Keeps m k = record { at = λ b p. k.at b p }

  same_size-Keeps : (i k : ℕ) → Keeps (IsPast n) (same_size i k)
  same_size-Keeps i k = record {
    at = λ b p. elim (Bool-cases (length (subscriptions i b) == k)) [
      | inl same ↦ rw same p
      | inr other ↦ rw other p
    ];
  }

  notify-Keeps :
      (e : RuntimeEvent) (items : Dict ℕ EventSubscription)
      → Keeps (IsPast n) (notify_listeners call e items)
  unfolding notify_listeners
  notify-Keeps e [] = Keeps-pure tt
  notify-Keeps e ((l, s) ∷ items) =
      logged-Keeps (call s.listener e) (forward n s.listener e) andthen λ _. notify-Keeps e items

  complete_one-Keeps : (e : RuntimeEvent) (o : Option ℕ) → Keeps (IsPast n) (complete_one call e o)
  complete_one-Keeps e none = Keeps-pure tt
  complete_one-Keeps e (some l) = logged-Keeps (call l e) (forward n l e)

  completion-Keeps :
      (i k : ℕ) (e : RuntimeEvent) (items : Dict ℕ EventSubscription)
      → Keeps (IsPast n) (notify_completion_listeners call i k e items)
  unfolding notify_completion_listeners
  completion-Keeps i k e [] = same_size-Keeps i k
  completion-Keeps i k e ((l, s) ∷ items) = same_size-Keeps i k andthen λ _.
      complete_one-Keeps e s.completion_listener andthen λ _. completion-Keeps i k e items

module _ (call : ℕ → RuntimeEvent → BusAct (Unit {0})) (forward : Forward call) (now i : ℕ)
    (e : RuntimeEvent) where
  deliver-Keeps : (c : EventBusChannel) (n m : ℕ) → Keeps (IsPast m) (deliver call now i e c n)
  deliver-Keeps c n m =
      notify-Keeps call forward m (stamp call now n e)
        (subscription_items (event_type e) c.listener_id2subscription)
      andthen λ _. Keeps-gets (subscriptions i) andthen λ left.
          completion-Keeps call forward m i (length left) (stamp call now n e) left andthen λ _.
          Keeps-pure (some (stamp call now n e))

  deliver-event :
      (c : EventBusChannel) (n : ℕ) (b b' : EventBus) (x : RuntimeEvent)
      → deliver call now i e c n b ≡ (ok (some x), b')
      → x.sequence ≡ n
  unfolding pure
  deliver-event c n b b' x h =
      let (u, s, f, g) = >>=-eq-ok _ _ b h in
      let (left, s', f', g') = >>=-eq-ok _ _ s g in
      let (v, s'', f'', g'') = >>=-eq-ok _ _ s' g' in
      let same : stamp call now n e ≡ x = cc in ap (λ (z : RuntimeEvent). z.sequence) (sym same)

  deliver-past :
      (c : EventBusChannel) (n : ℕ) (s b' : EventBus) (x : RuntimeEvent) (m : ℕ)
      → deliver call now i e c n s ≡ (ok (some x), b')
      → s.next_sequence ≡ m + 1
      → m < b'.next_sequence
  deliver-past c n s b' x m h at =
      let kept = (deliver-Keeps c n (m + 1)).at s (record { past = omega (arith, at) }) in
      let same : (deliver call now i e c n s).1 ≡ b' =
        ap (λ (r : Result (Option RuntimeEvent) × EventBus). r.1) h in
      let left = subst (IsPast (m + 1)) same kept in omega (arith, left.past)

  publish_on-sequence :
      (o : Option EventBusChannel) (b b' : EventBus) (x : RuntimeEvent)
      → publish_on call now i e o b ≡ (ok (some x), b')
      → (x.sequence ≡ b.next_sequence) × (b.next_sequence < b'.next_sequence)
  unfolding pure allocate_sequence
  publish_on-sequence none b b' x h = absurd (cc)
  publish_on-sequence (some c) b b' x h =
      let (n, s, f, g) = >>=-eq-ok allocate_sequence (deliver call now i e c) b h in
      let number : b.next_sequence ≡ n = cc in
      let after : record b { next_sequence = b.next_sequence + 1 } ≡ s = cc in
      (
        deliver-event c n s b' x g ∙ sym number,
        deliver-past c n s b' x b.next_sequence g
            (ap (λ (z : EventBus). z.next_sequence) (sym after)),
      )

  publish-stamps :
      (b b' : EventBus) (x : RuntimeEvent)
      → publish call now i e b ≡ (ok (some x), b')
      → (x.sequence ≡ b.next_sequence) × (b.next_sequence < b'.next_sequence)
  unfolding publish gets ◌>>=◌
  publish-stamps b b' x h = publish_on-sequence (ensure_channel i b) b b' x h

-- If no listener sets the numbers back, the number of an event that a later publication stamped is
-- the greater one, on whatever buses and however many events the listeners published in between.
pub publish-increasing :
    (call : ℕ → RuntimeEvent → BusAct (Unit {0})) (now now' i j : ℕ) (e e' x y : RuntimeEvent)
    (b b' b'' : EventBus)
    → Forward call
    → publish call now i e b ≡ (ok (some x), b')
    → publish call now' j e' b' ≡ (ok (some y), b'')
    → x.sequence < y.sequence
publish-increasing call now now' i j e e' x y b b' b'' forward first second =
    let (at, passed) = publish-stamps call forward now i e b b' x first in
    let (at', passed') = publish-stamps call forward now' j e' b' b'' y second in
    omega (arith, at, passed, at')
