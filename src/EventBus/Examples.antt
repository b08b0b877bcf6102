-- ===== src/EventBus/Examples.antt =====
-- A bus with one channel and one listener, for what it does and for what it must not do.
use turtlemap.Prelude.{ℕ, false, ◌<◌, ◌≡◌, refl, none, some, [], ◌∷◌, if◌then◌else◌}
use turtlemap.Prelude.Eq.{nat_eq, ◌==◌}
use turtlemap.Prelude.Dict.{lookup, erase, insert}
use turtlemap.Kernel.Exec.{ok, err, pure, gets, modify, ◌>>=◌}
use turtlemap.Events.{RuntimeEventType, RuntimeEvent, RuntimeEventPhase, message_event}
use turtlemap.EventBus.{
  EventBusChannel, EventBus, BusAct, changed_size, os_runtime, ensure_channel, unsubscribe,
  allocate_sequence, subscription_items, notify_listeners, notify_completion_listeners, stamp,
  publish, create_event_bus, subscribe, close_event_bus, reset,
}
use turtlemap.EventBus.Sequence.{publish-increasing}
use turtlemap.EventBus.Delivery.{publish-returns}

abbrev empty_bus : EventBus
empty_bus = record { event_bus_id2channel = []; next_sequence = 1; next_id = 50 }

abbrev created : EventBus
created = (create_event_bus empty_bus).1

abbrev bus : EventBus
bus =
    (subscribe 50
      (record {
        listener = 1;
        completion_listener = some 2;
        event_types = some (RuntimeEventType.message ∷ []);
      })
      created).1

abbrev event : RuntimeEvent
event = record {
  event_id = 9;
  parent_event_id = none;
  task_id = none;
  sequence = 0;
  created_ts_ms = none;
  duration_ms = 0;
  event_phase = RuntimeEventPhase.final;
  is_history_event_for_interruption = false;
  is_replay_event = false;
  body = message_event none none;
}

-- a listener that raises
abbrev failing : ℕ → RuntimeEvent → BusAct (Unit {0})
failing l e b = (err os_runtime, b)

abbrev first : EventBus
first = (publish failing 100 50 event bus).1

abbrev second : EventBus
second = (publish failing 200 50 event first).1

publish-increasing_example :
    (stamp failing 100 1 event).sequence < (stamp failing 200 2 event).sequence
unfolding publish create_event_bus subscribe ensure_channel allocate_sequence subscription_items
    notify_listeners notify_completion_listeners lookup insert gets pure ◌>>=◌
publish-increasing_example =
    publish-increasing failing 100 200 50 50 event event (stamp failing 100 1 event)
      (stamp failing 200 2 event) bus first second (λ n l e. record { at = λ b p. p }) refl refl

publish-returns_example :
    (ensure_channel 50 bus ≡ none → publish failing 100 50 event bus ≡ (ok none, bus))
    × ((c : EventBusChannel)
        → ensure_channel 50 bus ≡ some c
        → (b' : EventBus) × (publish failing 100 50 event bus
            ≡ (ok (some (stamp failing 100 bus.next_sequence event)), b')))
publish-returns_example = publish-returns failing 50 (λ l e b. refl) 100 event bus

-- A completion listener that unsubscribes makes the publication raise: the loop is over the dict
-- itself.
abbrev leaving : ℕ → RuntimeEvent → BusAct (Unit {0})
leaving l e = if l == 2 then unsubscribe 50 51 else pure tt

leaving_raises : (publish leaving 100 50 event bus).0 ≡ err changed_size
unfolding publish create_event_bus subscribe unsubscribe ensure_channel allocate_sequence
    subscription_items notify_listeners notify_completion_listeners lookup insert erase gets pure
    modify ◌>>=◌
leaving_raises = refl

-- a closed channel takes no event
closed_drops : (publish failing 100 50 event (close_event_bus 50 bus).1).0 ≡ ok none
unfolding publish create_event_bus subscribe close_event_bus ensure_channel lookup insert gets pure
    modify ◌>>=◌
closed_drops = refl

-- after `reset` the numbers begin anew, and the channel that was there takes no event
reset_drops : publish failing 100 50 event ((reset first).1) ≡ (ok none, (reset first).1)
unfolding publish create_event_bus subscribe reset ensure_channel lookup insert allocate_sequence
    subscription_items notify_listeners notify_completion_listeners ◌>>=◌
reset_drops = refl
