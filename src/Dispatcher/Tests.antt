-- ===== src/Dispatcher/Tests.antt =====
-- Dispatchers with a small bus.
use event_stream_core.Common.{
  ◌<◌, ◌≡◌, refl, ◌↔◌, ◌⊎◌, true, none, some, List, [], ◌∷◌, ◌++◌, arith, codes, bytes_eq,
}
use event_stream_core.Event.{Event, EventPriority, priority_value, set_priority, blank_event}
use event_stream_core.Mpsc
use event_stream_core.Ring
use event_stream_core.DeadLetterQueue
use event_stream_core.TopicTable.{find_topic}
use event_stream_core.Bus
use event_stream_core.Bus.{Bus, QueueId, OverflowPolicy, PressureLevel}
use event_stream_core.Dispatcher.{
  Dispatcher, set_topic_table, try_push, adapt_to_pressure, configured_priority, upgrade, route,
  Surroundings, deliver, dispatch_popped, dispatch, dispatch_loop,
}
use event_stream_core.Dispatcher.Routing.{wanted, pressure, route_lem}
use event_stream_core.Dispatcher.Delivery.{IsSafe, InDeadLetters, deliver_lem}
use event_stream_core.Ring.Contents.{fifo_pop}
use event_stream_core.Dispatcher.Loop.{IsValid, arrivals, Handed, try_push_lem, dispatch_loop_lem}

abbrev an_event : EventPriority → Event
an_event p = record blank_event {
  header = record (blank_event.header) { priority = p };
  topic = codes "t";
}

-- The batch queue has room for one event, and holds it.
abbrev bus_at : PressureLevel → Bus
bus_at level = record {
  realtime_bus = record {
    ring_buffer = Ring.empty Bus.ring_capacity blank_event;
    policy = OverflowPolicy.drop_old;
    pressure = level;
  };
  transactional_bus = record { dq = []; capacity = 2; policy = OverflowPolicy.block_producer };
  batch_bus = record { dq = blank_event ∷ []; capacity = 1; policy = OverflowPolicy.drop_new };
  dlq = DeadLetterQueue.empty;
  metrics = record {
    total_events_processed = 0;
    total_events_dropped = 0;
    current_queue_depth = 0;
    last_event_timestamp_ms = 0;
  };
}

abbrev dispatcher_at : PressureLevel → Dispatcher
dispatcher_at level = record {
  event_bus = bus_at level;
  inbound_queue = Mpsc.empty;
  topic_table = some ((codes "t", EventPriority.batch) ∷ []);
  running = true;
}

bus_at-IsValid : (level : PressureLevel) → Bus.Queues.IsValid (bus_at level)
bus_at-IsValid level = record {
  realtime = record {
    ring = Ring.Bounds.empty-IsValid Bus.ring_capacity blank_event (omega arith);
    policy = refl;
  };
  transactional_policy = refl;
  batch_policy = refl;
  transactional_bound = omega arith;
  batch_bound = omega arith;
  transactional_capacity = omega arith;
}

dispatcher_at-IsValid : (level : PressureLevel) → IsValid (dispatcher_at level)
dispatcher_at-IsValid level = record {
  bus = bus_at-IsValid level;
  inbound = Mpsc.Chain.empty-IsValid;
}

abbrev alone : Surroundings
alone = record { now = λ k. none; taken = λ k. 0; sleep = λ k b. b }

alone-IsSafe : IsSafe alone
alone-IsSafe k b v = v

high_under_pressure :
    (route (dispatcher_at PressureLevel.high) (an_event EventPriority.high)).0
    ≡ QueueId.transactional
unfolding route upgrade configured_priority adapt_to_pressure find_topic bytes_eq
high_under_pressure = refl

-- Without an entry in the table a LOW event is raised to MEDIUM.
low_without_entry :
    (route
      (set_topic_table (dispatcher_at PressureLevel.normal) none)
      (an_event EventPriority.low)).1
    ≡ an_event EventPriority.medium
unfolding route upgrade configured_priority adapt_to_pressure set_topic_table
low_without_entry = refl

null_is_discarded :
    let (d, done) = try_push (dispatcher_at PressureLevel.normal) none in
    (dispatch alone d).event_bus ≡ bus_at PressureLevel.normal
unfolding try_push dispatch dispatch_popped Mpsc.push Mpsc.pop Mpsc.exchange Mpsc.link Mpsc.count_in
    Mpsc.take_next Mpsc.count_out Mpsc.empty
null_is_discarded = refl

deliver_lem_example :
    let d = dispatcher_at PressureLevel.normal in
    let (q, e') = route d (an_event EventPriority.high) in
    let b' = (deliver alone d (an_event EventPriority.high)).event_bus in
    Bus.Queues.IsValid b'
    × (((front : List Event) × (Bus.Drain.queued q b' ≡ front ++ e' ∷ [])) ⊎ InDeadLetters e' b')
deliver_lem_example =
    deliver_lem alone (dispatcher_at PressureLevel.normal) (an_event EventPriority.high)
      alone-IsSafe (bus_at-IsValid PressureLevel.normal)

route_lem_example :
    let d = dispatcher_at PressureLevel.high in
    let e = an_event EventPriority.critical in
    let (q, e') = route d e in
    ((q ≡ QueueId.realtime)
      ↔ ((wanted d e ≡ 4) ⊎ ((wanted d e ≡ 3) × (pressure d ≡ PressureLevel.normal))))
    × ((q ≡ QueueId.batch) ↔ (wanted d e ≡ 0))
    × (set_priority e' e.header.priority ≡ e)
route_lem_example = route_lem (dispatcher_at PressureLevel.high) (an_event EventPriority.critical)

critical_to_realtime :
    (route (dispatcher_at PressureLevel.high) (an_event EventPriority.critical)).0
    ≡ QueueId.realtime
unfolding route upgrade configured_priority adapt_to_pressure find_topic bytes_eq
critical_to_realtime = refl

batch_to_batch :
    (route (dispatcher_at PressureLevel.normal) (an_event EventPriority.batch)).0 ≡ QueueId.batch
unfolding route upgrade configured_priority adapt_to_pressure find_topic bytes_eq
batch_to_batch = refl

wanted-low :
    (p : EventPriority)
    → priority_value p < 4
    → wanted (dispatcher_at PressureLevel.critical) (an_event p) < 4
unfolding configured_priority find_topic bytes_eq
wanted-low p h = omega arith

abbrev a_filled : Dispatcher
a_filled = (try_push (dispatcher_at PressureLevel.normal) (some (an_event EventPriority.low))).0

dispatch_loop_lem_example :
    (arrivals a_filled ≡ arrivals a_filled)
    × IsValid a_filled
    × Handed alone a_filled
        (fifo_pop (arrivals a_filled)).0
        (dispatch_loop (alone ∷ []) a_filled).event_bus
unfolding try_push dispatch_loop
dispatch_loop_lem_example =
    dispatch_loop_lem [] alone a_filled tt alone-IsSafe
      (try_push_lem (dispatcher_at PressureLevel.normal) (some (an_event EventPriority.low))
        (dispatcher_at-IsValid PressureLevel.normal)).1
      refl
