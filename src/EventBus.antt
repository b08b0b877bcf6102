-- ===== src/EventBus.antt =====
-- os/event_bus/event_bus.py: `EventBus`. A channel object outlives its removal from the class's map:
-- a removed channel stays here, closed. One asyncio task runs at a time; listeners are called in the
-- order of their subscriptions, and what they do to the bus is a parameter.
pub mod Sequence
pub mod Delivery
mod Examples
use turtlemap.Prelude.{
  ℕ, ◌+◌, Bool, true, false, Option, none, some, List, [], ◌∷◌, length, keep, leb, if◌then◌else◌,
}
use turtlemap.Prelude.Eq.{◌==◌, nat_eq}
use turtlemap.Prelude.Dict.{Dict, lookup, insert, erase}
use turtlemap.Events.{RuntimeEventType, RuntimeEvent, event_type}
use turtlemap.Kernel.Exec.{Error, Exec, ok, err, raised, pure, gets, modify, ◌>>=◌, ◌>>◌}

abbrev type_code : RuntimeEventType → ℕ
type_code RuntimeEventType.input = 0
type_code RuntimeEventType.message = 1
type_code RuntimeEventType.tool_call = 2
type_code RuntimeEventType.tool_result = 3
type_code RuntimeEventType.context_compression = 4
type_code RuntimeEventType.interrupted = 5
type_code RuntimeEventType.custom = 6
type_code RuntimeEventType.agent_frame_change = 7

-- `_EventSubscription`, with listeners by their names
pub record EventSubscription : Type 0 where
  pub listener : ℕ
  pub completion_listener : Option ℕ
  pub event_types : Option (List RuntimeEventType)

-- `_EventBusChannel`
pub record EventBusChannel : Type 0 where
  pub is_open : Bool
  pub listener_id2subscription : Dict ℕ EventSubscription

pub record EventBus : Type 0 where
  pub event_bus_id2channel : Dict ℕ EventBusChannel
  pub next_sequence : ℕ
  pub next_id : ℕ

abbrev pub BusAct : Type 0 → Type 0
BusAct A = Exec EventBus A

-- `OSRuntimeError`, and Python's `RuntimeError` for a dict that changes while it is iterated
abbrev pub os_runtime : Error
os_runtime = raised 0

abbrev pub changed_size : Error
changed_size = raised 1

-- `create_event_bus`
unfoldable pub create_event_bus : BusAct ℕ
create_event_bus b = (
  ok b.next_id,
  record b {
    next_id = b.next_id + 1;
    event_bus_id2channel =
        insert b.next_id (record { is_open = true; listener_id2subscription = [] })
          b.event_bus_id2channel;
  },
)

abbrev on_channel :
    (EventBusChannel → EventBusChannel) → ℕ → Option EventBusChannel → EventBus → EventBus
on_channel f i none b = b
on_channel f i (some c) b = record b {
  event_bus_id2channel = insert i (f c) b.event_bus_id2channel;
}

abbrev if_open : Option EventBusChannel → Option EventBusChannel
if_open none = none
if_open (some c) = if c.is_open then some c else none

-- `_ensure_channel`
unfoldable pub ensure_channel : ℕ → EventBus → Option EventBusChannel
ensure_channel i b = if_open (lookup i b.event_bus_id2channel)

-- `close_event_bus`
unfoldable pub close_event_bus : ℕ → BusAct (Unit {0})
close_event_bus i =
    modify
      (λ b. on_channel (λ c. record c { is_open = false }) i (lookup i b.event_bus_id2channel) b)

abbrev subscribe_in : ℕ → EventSubscription → Option EventBusChannel → BusAct ℕ
subscribe_in i s none b = (err os_runtime, b)
subscribe_in i s (some c) b = (
  ok b.next_id,
  record b {
    next_id = b.next_id + 1;
    event_bus_id2channel =
        insert i
          (record c { listener_id2subscription = insert b.next_id s c.listener_id2subscription })
          b.event_bus_id2channel;
  },
)

-- `subscribe`
unfoldable pub subscribe : ℕ → EventSubscription → BusAct ℕ
subscribe i s b = subscribe_in i s (ensure_channel i b) b

-- `unsubscribe`
unfoldable pub unsubscribe : ℕ → ℕ → BusAct (Unit {0})
unsubscribe i l = modify (λ b.
    on_channel (λ c. record c { listener_id2subscription = erase l c.listener_id2subscription }) i
      (ensure_channel i b) b)

abbrev close_all : Dict ℕ EventBusChannel → Dict ℕ EventBusChannel
close_all [] = []
close_all ((i, c) ∷ d) = (i, record c { is_open = false }) ∷ close_all d

-- `reset`
unfoldable pub reset : BusAct (Unit {0})
reset =
    modify
      (λ b. record b { event_bus_id2channel = close_all b.event_bus_id2channel; next_sequence = 1 })

-- `_allocate_sequence`
unfoldable pub allocate_sequence : BusAct ℕ
allocate_sequence b = (ok b.next_sequence, record b { next_sequence = b.next_sequence + 1 })

abbrev has_type : ℕ → List RuntimeEventType → Bool
has_type n [] = false
has_type n (t ∷ ts) = let rest = has_type n ts in if type_code t == n then true else rest

abbrev accepts : RuntimeEventType → Option (List RuntimeEventType) → Bool
accepts t none = true
accepts t (some ts) = has_type (type_code t) ts

abbrev subscriptions_of : Option EventBusChannel → Dict ℕ EventSubscription
subscriptions_of none = []
subscriptions_of (some c) = c.listener_id2subscription

-- the subscriptions of channel `i`, open or closed
abbrev pub subscriptions : ℕ → EventBus → Dict ℕ EventSubscription
subscriptions i b = subscriptions_of (lookup i b.event_bus_id2channel)

-- `subscription_items`
unfoldable pub subscription_items :
    RuntimeEventType → Dict ℕ EventSubscription → Dict ℕ EventSubscription
subscription_items t = keep (λ e. accepts t e.1.event_types)

-- an exception that is logged and goes no further
abbrev pub logged : BusAct (Unit {0}) → BusAct (Unit {0})
logged m b = (ok tt, (m b).1)

-- the dict's iterator at its next step
abbrev pub same_size : ℕ → ℕ → BusAct (Unit {0})
same_size i n b = if length (subscriptions i b) == n then (ok tt, b) else (err changed_size, b)

-- `call` is what a listener does to the bus when it is given an event.
module _ (call : ℕ → RuntimeEvent → BusAct (Unit {0})) where
  -- `_notify_listeners`, for the items
  unfoldable pub notify_listeners : RuntimeEvent → Dict ℕ EventSubscription → BusAct (Unit {0})
  notify_listeners e [] = pure tt
  notify_listeners e ((l, s) ∷ items) = do logged (call s.listener e); notify_listeners e items

  abbrev complete_one : RuntimeEvent → Option ℕ → BusAct (Unit {0})
  complete_one e none = pure tt
  complete_one e (some l) = logged (call l e)

  -- `_notify_completion_listeners`, over a dict of `n` entries
  unfoldable pub notify_completion_listeners :
      ℕ → ℕ → RuntimeEvent → Dict ℕ EventSubscription → BusAct (Unit {0})
  notify_completion_listeners i n e [] = same_size i n
  notify_completion_listeners i n e ((l, s) ∷ items) = do
    same_size i n
    complete_one e s.completion_listener
    notify_completion_listeners i n e items

  abbrev time_or : ℕ → Option ℕ → ℕ
  time_or now none = now
  time_or now (some t) = if leb t 0 then now else t

  abbrev pub stamp : ℕ → ℕ → RuntimeEvent → RuntimeEvent
  stamp now n e = record e { sequence = n; created_ts_ms = some (time_or now e.created_ts_ms) }

  -- `block`, once the event has the number `n`
  abbrev pub deliver : ℕ → ℕ → RuntimeEvent → EventBusChannel → ℕ → BusAct (Option RuntimeEvent)
  deliver now i e c n = do
    notify_listeners (stamp now n e) (subscription_items (event_type e) c.listener_id2subscription)
    left ← gets (subscriptions i)
    notify_completion_listeners i (length left) (stamp now n e) left
    pure (some (stamp now n e))

  abbrev pub publish_on :
      ℕ → ℕ → RuntimeEvent → Option EventBusChannel → BusAct (Option RuntimeEvent)
  publish_on now i e none = pure none
  publish_on now i e (some c) = allocate_sequence >>= deliver now i e c

  -- `publish`, at the time `now`
  unfoldable pub publish : ℕ → ℕ → RuntimeEvent → BusAct (Option RuntimeEvent)
  publish now i e = do channel ← gets (ensure_channel i); publish_on now i e channel
