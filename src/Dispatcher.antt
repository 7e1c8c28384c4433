-- ===== src/Dispatcher.antt =====
-- src/core/events/dispatcher.cpp: the thread between the ingest servers and the event bus. It takes
-- events from the inbound queue, sets their priority, and pushes them to the queue of that priority.
-- `start` and `stop` set the flag that `dispatch_loop` reads; the threads themselves and the logging
-- have no state here. A null event in `route` fails its assertion in a debug build; here the release
-- build's branch follows.
pub mod Routing
pub mod Delivery
pub mod Pressure
pub mod Loop
mod Tests
use event_stream_core.Common.{
  ℕ, zero, suc, ◌-◌, Bool, true, false, Option, none, some, List, [], ◌∷◌, ltb, if◌then◌else◌,
  Bytes,
}
use event_stream_core.Event.{Event, EventPtr, EventPriority, priority_value, set_priority}
use event_stream_core.Mpsc
use event_stream_core.TopicTable.{Table, find_topic}
use event_stream_core.DeadLetterQueue
use event_stream_core.Bus
use event_stream_core.Bus.{Bus, QueueId, PressureLevel}

abbrev pub inbound_capacity : ℕ
inbound_capacity = 65536

abbrev pub max_retries : ℕ
max_retries = 3

pub record Dispatcher : Type 0 where
  pub event_bus : Bus
  pub inbound_queue : Mpsc.Queue EventPtr
  pub topic_table : Option Table
  pub running : Bool

unfoldable pub set_topic_table : Dispatcher → Option Table → Dispatcher
set_topic_table d t = record d { topic_table = t }

unfoldable pub start : Dispatcher → Dispatcher
start d = record d { running = true }

unfoldable pub stop : Dispatcher → Dispatcher
stop d = record d { running = false }

inbound_pushed : Dispatcher → Mpsc.Queue EventPtr × Bool → Dispatcher × Bool
inbound_pushed d (q, done) = (record d { inbound_queue = q }, done)

unfoldable pub try_push : Dispatcher → EventPtr → Dispatcher × Bool
unfolding inbound_pushed
try_push d evt = inbound_pushed d (Mpsc.push inbound_capacity d.inbound_queue evt)

inbound_popped : Dispatcher → Mpsc.Queue EventPtr × Option EventPtr → Dispatcher × Option EventPtr
inbound_popped d (q, evt) = (record d { inbound_queue = q }, evt)

-- The timeout is not used.
unfoldable pub try_pop : Dispatcher → Dispatcher × Option EventPtr
unfolding inbound_popped
try_pop d = inbound_popped d (Mpsc.pop d.inbound_queue)

abbrev pub is_high : EventPriority → Bool
is_high EventPriority.batch = false
is_high EventPriority.low = false
is_high EventPriority.medium = false
is_high EventPriority.high = true
is_high EventPriority.critical = false

unfoldable pub adapt_to_pressure : PressureLevel → Event → Event
adapt_to_pressure PressureLevel.critical e =
    if is_high e.header.priority then set_priority e EventPriority.medium else e
adapt_to_pressure PressureLevel.high e =
    if is_high e.header.priority then set_priority e EventPriority.medium else e
adapt_to_pressure PressureLevel.normal e = e

-- The priority that `route` compares with: `findTopic` leaves MEDIUM as it is when it finds nothing.
topic_priority : Option EventPriority → EventPriority
topic_priority none = EventPriority.medium
topic_priority (some p) = p

unfoldable pub configured_priority : Option Table → Bytes → EventPriority
unfolding topic_priority
configured_priority none topic = EventPriority.medium
configured_priority (some table) topic = topic_priority (find_topic topic table)

unfoldable pub upgrade : Event → EventPriority → Event
upgrade e p =
    if ltb (priority_value e.header.priority) (priority_value p) then set_priority e p else e

abbrev pub queue_of : EventPriority → QueueId
queue_of EventPriority.critical = QueueId.realtime
queue_of EventPriority.high = QueueId.realtime
queue_of EventPriority.medium = QueueId.transactional
queue_of EventPriority.low = QueueId.transactional
queue_of EventPriority.batch = QueueId.batch

-- `route`: the queue, and the event with the priority that it wrote into it.
unfoldable pub route : Dispatcher → Event → QueueId × Event
unfolding configured_priority upgrade adapt_to_pressure
route d e =
    let upgraded = upgrade e (configured_priority d.topic_table e.topic) in
    let e' = adapt_to_pressure d.event_bus.realtime_bus.pressure upgraded in
    (queue_of e'.header.priority, e')

unfoldable pub route_ptr : Dispatcher → EventPtr → QueueId × EventPtr
route_ptr d none = (QueueId.transactional, none)
route_ptr d (some e) = let (q, e') = route d e in (q, some e')

-- What stands outside the dispatch thread: the arguments of `Bus.push` at each attempt, and what
-- the other threads do to the bus while the dispatch thread sleeps.
pub record Surroundings : Type 0 where
  pub now : ℕ → Option ℕ
  pub taken : ℕ → ℕ
  pub sleep : ℕ → Bus → Bus

-- `retry_count` after an attempt that was refused, and the sleep before the next one.
unfoldable pub after_attempt : (Bus → Bus × Bool) → Bus × Bool → Bus × Bool
after_attempt retry (b, true) = (b, true)
after_attempt retry (b, false) = retry b

-- The loop with `left` attempts to go, `max_retries` in all.
unfoldable pub push_attempts : Surroundings → ℕ → QueueId → Event → Bus → Bus × Bool
unfolding after_attempt
push_attempts s zero q e b = (b, false)
push_attempts s (suc left) q e b =
    let retry_count = max_retries - left in
    after_attempt
      (λ b'.
        push_attempts s left q e
          (if ltb retry_count max_retries then s.sleep retry_count b' else b'))
      (Bus.push (s.now retry_count) (s.taken retry_count) q b e)

-- What no attempt delivers goes to the dead letter queue.
unfoldable pub settle : Event → Bus × Bool → Bus
settle e (b, true) = b
settle e (b, false) = record b { dlq = DeadLetterQueue.push b.dlq e }

unfoldable pub deliver : Surroundings → Dispatcher → Event → Dispatcher
unfolding push_attempts settle
deliver s d e =
    let (q, e') = route d e in
    record d { event_bus = settle e' (push_attempts s max_retries q e' d.event_bus) }

-- One turn of `dispatchLoop`. Without an event the thread sleeps; a null event is discarded.
unfoldable pub dispatch_popped : Surroundings → Dispatcher × Option EventPtr → Dispatcher
unfolding deliver
dispatch_popped s (d, none) = record d { event_bus = s.sleep 0 d.event_bus }
dispatch_popped s (d, some none) = d
dispatch_popped s (d, some (some e)) = deliver s d e

unfoldable pub dispatch : Surroundings → Dispatcher → Dispatcher
unfolding dispatch_popped inbound_popped
dispatch s d = dispatch_popped s (inbound_popped d (Mpsc.pop d.inbound_queue))

-- `dispatchLoop`, at most one turn for each of the given surroundings.
unfoldable pub dispatch_loop : List Surroundings → Dispatcher → Dispatcher
dispatch_loop [] d = d
dispatch_loop (s ∷ rest) d = if d.running then dispatch_loop rest (dispatch s d) else d
