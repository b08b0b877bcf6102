-- ===== src/EventBus/Delivery.antt =====
-- os/event_bus/event_bus.py `publish`: its answer, with listeners that raise.
use turtlemap.Prelude.{ℕ, ◌+◌, ◌≡◌, refl, ap, ◌∙◌, Option, none, some, [], ◌∷◌, length}
use turtlemap.Prelude.Eq.{nat_eq}
use turtlemap.Prelude.Dict.{Dict}
use turtlemap.Kernel.Exec.{Result, ok, pure, gets, continue, ◌>>=◌, ◌>>◌}
use turtlemap.Events.{RuntimeEvent, event_type}
use turtlemap.EventBus.{
  EventBus, EventBusChannel, EventSubscription, BusAct, ensure_channel, subscriptions,
  allocate_sequence, logged, same_size, subscription_items, notify_listeners, complete_one,
  notify_completion_listeners, stamp, deliver, publish,
}

-- `m` returns `v` from `b` and leaves the subscriptions of channel `i` as they are.
record Runs {A : Type 0} (i : ℕ) (m : BusAct A) (v : A) (b : EventBus) : Type 0 where
  after : EventBus
  returns : m b ≡ (ok v, after)
  same : subscriptions i after ≡ subscriptions i b

module _ {A B : Type 0} (i : ℕ) where
  bind-Runs :
      (m : BusAct A) (f : A → BusAct B) (v : A) (w : B) (b : EventBus)
      → Runs i m v b
      → ((b' : EventBus) → subscriptions i b' ≡ subscriptions i b → Runs i (f v) w b')
      → Runs i (m >>= f) w b
  unfolding ◌>>=◌
  bind-Runs m f v w b k rest =
      let l = rest k.after k.same in
      let step : continue (m b).0 f (m b).1 ≡ f v k.after =
        ap (λ (r : Result A × EventBus). continue r.0 f r.1) k.returns in
      record { after = l.after; returns = step ∙ l.returns; same = l.same ∙ k.same }

-- No listener changes the subscriptions of channel `i`.
abbrev pub Steady : ℕ → (ℕ → RuntimeEvent → BusAct (Unit {0})) → Type 0
Steady i call =
    (l : ℕ) (e : RuntimeEvent) (b : EventBus) → subscriptions i (call l e b).1 ≡ subscriptions i b

module _ (call : ℕ → RuntimeEvent → BusAct (Unit {0})) (i : ℕ) (steady : Steady i call) where
  logged-Runs : (l : ℕ) (e : RuntimeEvent) (b : EventBus) → Runs i (logged (call l e)) tt b
  logged-Runs l e b = record { after = (call l e b).1; returns = refl; same = steady l e b }

  pure-Runs : {A : Type 0} (v : A) (b : EventBus) → Runs i (pure v) v b
  unfolding pure
  pure-Runs v b = record { after = b; returns = refl; same = refl }

  subscriptions-Runs : (b : EventBus) → Runs i (gets (subscriptions i)) (subscriptions i b) b
  unfolding gets
  subscriptions-Runs b = record { after = b; returns = refl; same = refl }

  notify-Runs :
      (e : RuntimeEvent) (items : Dict ℕ EventSubscription) (b : EventBus)
      → Runs i (notify_listeners call e items) tt b
  unfolding notify_listeners
  notify-Runs e [] b = pure-Runs tt b
  notify-Runs e ((l, s) ∷ items) b =
      bind-Runs i (logged (call s.listener e)) (λ _. notify_listeners call e items) tt tt b
        (logged-Runs s.listener e b) (λ b' same. notify-Runs e items b')

  complete_one-Runs :
      (e : RuntimeEvent) (o : Option ℕ) (b : EventBus) → Runs i (complete_one call e o) tt b
  complete_one-Runs e none b = pure-Runs tt b
  complete_one-Runs e (some l) b = logged-Runs l e b

  same_size-Runs :
      (n : ℕ) (b : EventBus) → length (subscriptions i b) ≡ n → Runs i (same_size i n) tt b
  same_size-Runs n b size = record {
    after = b;
    returns = rw ((nat_eq.decides (length (subscriptions i b)) n).1 size) refl;
    same = refl;
  }

  completion-Runs :
      (n : ℕ) (e : RuntimeEvent) (items : Dict ℕ EventSubscription) (b : EventBus)
      → length (subscriptions i b) ≡ n
      → Runs i (notify_completion_listeners call i n e items) tt b
  unfolding notify_completion_listeners
  completion-Runs n e [] b size = same_size-Runs n b size
  completion-Runs n e ((l, s) ∷ items) b size =
      bind-Runs i (same_size i n)
        (λ _.
          complete_one call e s.completion_listener >> notify_completion_listeners call i n e items)
        tt tt b (same_size-Runs n b size)
        (λ b' same.
          bind-Runs i (complete_one call e s.completion_listener)
            (λ _. notify_completion_listeners call i n e items) tt tt b'
            (complete_one-Runs e s.completion_listener b')
            (λ b'' same'. completion-Runs n e items b'' (ap length (same' ∙ same) ∙ size)))

  deliver-Runs :
      (now : ℕ) (e : RuntimeEvent) (c : EventBusChannel) (n : ℕ) (b : EventBus)
      → Runs i (deliver call now i e c n) (some (stamp call now n e)) b
  deliver-Runs now e c n b =
      let x = stamp call now n e in
      let items = subscription_items (event_type e) c.listener_id2subscription in
      let answer : BusAct (Option RuntimeEvent) = pure (some x) in
      let completed : Dict ℕ EventSubscription → BusAct (Option RuntimeEvent) =
        λ left. notify_completion_listeners call i (length left) x left >> answer in
      bind-Runs i (notify_listeners call x items) (λ _. gets (subscriptions i) >>= completed) tt
        (some x) b (notify-Runs x items b)
        (λ b' same.
          bind-Runs i (gets (subscriptions i)) completed (subscriptions i b') (some x) b'
            (subscriptions-Runs b')
            (λ b'' same'.
              let left = subscriptions i b' in
              bind-Runs i (notify_completion_listeners call i (length left) x left) (λ _. answer) tt
                (some x) b'' (completion-Runs (length left) x left b'' (ap length same'))
                (λ last _. pure-Runs (some x) last)))

  -- Publishing on an open channel returns the event with the next number, whichever of the listeners
  -- raise, if none of them changes the channel's subscriptions; on a channel that is closed or was
  -- never there it returns nothing and changes nothing.
  pub publish-returns :
      (now : ℕ) (e : RuntimeEvent) (b : EventBus)
      → ((ensure_channel i b ≡ none → publish call now i e b ≡ (ok none, b))
          × ((c : EventBusChannel)
              → ensure_channel i b ≡ some c
              → (b' : EventBus) × (publish call now i e b
                  ≡ (ok (some (stamp call now b.next_sequence e)), b'))))
  unfolding publish gets allocate_sequence pure ◌>>=◌
  publish-returns now e b = (
    (λ closed. rw closed refl),
    (λ c is_open.
        let numbered = record b { next_sequence = b.next_sequence + 1 } in
        let k = deliver-Runs now e c b.next_sequence numbered in (k.after, rw is_open k.returns)),
  )
