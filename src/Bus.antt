-- ===== src/Bus.antt =====
-- src/core/events/event_bus.cpp: the three queues between the dispatcher and the processors.
-- The mutex makes each operation on a queue atomic; what the other threads do while an operation
-- waits on the condition variable is an argument of it. The ring holds events for the pointers that
-- C++ stores: no caller pushes a null one. Logging and the NUMA binding of threads leave no state
-- here.
pub mod Overflow
pub mod Queues
pub mod Taken
pub mod Separate
pub mod Drain
mod Tests
use event_stream_core.Common.{
  ℕ, zero, suc, ◌+◌, min, Bool, true, false, Option, none, some, List, [], ◌∷◌, ◌++◌, map, ltb, leb,
  if◌then◌else◌, length, drop, u64,
}
use event_stream_core.Event.{Event, blank_event}
use event_stream_core.DeadLetterQueue
use event_stream_core.DeadLetterQueue.{DeadLetterQueue}
use event_stream_core.Ring
use event_stream_core.Ring.{Ring}

pub data QueueId : Type 0 where
  realtime transactional batch : QueueId

pub data OverflowPolicy : Type 0 where
  drop_old block_producer drop_new : OverflowPolicy

pub data PressureLevel : Type 0 where
  normal high critical : PressureLevel

abbrev pub ring_capacity : ℕ
ring_capacity = 16384

abbrev pub drop_batch_size : ℕ
drop_batch_size = 64

-- The counters that the bus keeps in the metric registry, under "EventBusMulti".
pub record BusMetrics : Type 0 where
  pub total_events_processed : ℕ
  pub total_events_dropped : ℕ
  pub current_queue_depth : ℕ
  pub last_event_timestamp_ms : ℕ

pub record RealtimeQueue : Type 0 where
  pub ring_buffer : Ring Event
  pub policy : OverflowPolicy
  pub pressure : PressureLevel

pub record Queue : Type 0 where
  pub dq : List Event
  pub capacity : ℕ
  pub policy : OverflowPolicy

pub record Bus : Type 0 where
  pub realtime_bus : RealtimeQueue
  pub transactional_bus : Queue
  pub batch_bus : Queue
  pub dlq : DeadLetterQueue
  pub metrics : BusMetrics

-- The constructor; `metrics` belongs to the registry and is there already.
unfoldable pub init : BusMetrics → Bus
init metrics = record {
  realtime_bus = record {
    ring_buffer = Ring.empty ring_capacity blank_event;
    policy = OverflowPolicy.drop_old;
    pressure = PressureLevel.normal;
  };
  transactional_bus = record { dq = []; capacity = 131072; policy = OverflowPolicy.block_producer };
  batch_bus = record { dq = []; capacity = 32768; policy = OverflowPolicy.drop_new };
  dlq = DeadLetterQueue.empty;
  metrics = metrics;
}

-- `getQueue`, and the write back through the pointer that it returns.
abbrev pub get_queue : QueueId → Bus → Queue
get_queue QueueId.transactional b = b.transactional_bus
get_queue QueueId.batch b = b.batch_bus
get_queue QueueId.realtime b = b.transactional_bus

abbrev pub set_queue : QueueId → Bus → Queue → Bus
set_queue QueueId.transactional b q = record b { transactional_bus = q }
set_queue QueueId.batch b q = record b { batch_bus = q }
set_queue QueueId.realtime b q = record b { transactional_bus = q }

unfoldable pub size : Bus → QueueId → ℕ
size b q = length (get_queue q b).dq

abbrev pub add_processed : BusMetrics → BusMetrics
add_processed m = record m { total_events_processed = u64 (m.total_events_processed + 1) }

abbrev pub add_dropped : ℕ → BusMetrics → BusMetrics
add_dropped n m = record m { total_events_dropped = u64 (m.total_events_dropped + n) }

-- `updateEventTimestamp`: `some t` where the registry writes the time `t`, `none` where less than a
-- millisecond has passed since this thread's last write.
abbrev pub stamp : Option ℕ → BusMetrics → BusMetrics
stamp none m = m
stamp (some t) m = record m { last_event_timestamp_ms = t }

unfoldable pub pressure_of : ℕ → PressureLevel
pressure_of used =
    if leb 14000 used
    then PressureLevel.critical
    else if leb 12000 used
    then PressureLevel.high
    else PressureLevel.normal

abbrev pub set_ring : Bus → Ring Event → Bus
set_ring b r = record b { realtime_bus = record (b.realtime_bus) { ring_buffer = r } }

-- The two statements that hand an event to the dead letter queue and count it.
abbrev pub drop_event : Bus → Event → Bus
drop_event b e = record b { dlq = DeadLetterQueue.push b.dlq e; metrics = add_dropped 1 b.metrics }

-- The depth and pressure that `push` records before it tries.
unfoldable pub note_depth : Bus → Bus
note_depth b =
    let used = Ring.size ring_capacity b.realtime_bus.ring_buffer in
    record b {
      realtime_bus = record (b.realtime_bus) { pressure = pressure_of used };
      metrics = record (b.metrics) { current_queue_depth = used };
    }

-- The policy DROP_OLD: the oldest event goes to the dead letter queue, and the push is tried again.
pub drop_oldest : Bus → Option Event × Ring Event → Bus
drop_oldest b (none, r) = set_ring b r
drop_oldest b (some old, r) = drop_event (set_ring b r) old

pub push_again : Bus → Event → Ring Event × Bool → Bus × Bool
push_again b e (r, true) = (record (set_ring b r) { metrics = add_processed b.metrics }, true)
push_again b e (r, false) = (drop_event b e, false)

abbrev pub is_drop_old : OverflowPolicy → Bool
is_drop_old OverflowPolicy.drop_old = true
is_drop_old OverflowPolicy.block_producer = false
is_drop_old OverflowPolicy.drop_new = false

pub overflow : Bus → Event → Bus × Bool
unfolding drop_oldest push_again
overflow b e =
    let b' = drop_oldest b (Ring.pop ring_capacity b.realtime_bus.ring_buffer) in
    if is_drop_old b.realtime_bus.policy
    then push_again b' e (Ring.push ring_capacity b'.realtime_bus.ring_buffer e)
    else (drop_event b e, false)

pub first_push : Option ℕ → Bus → Event → Ring Event × Bool → Bus × Bool
unfolding overflow
first_push now b e (r, true) =
    (record (set_ring b r) { metrics = stamp now (add_processed b.metrics) }, true)
first_push now b e (r, false) = overflow b e

unfoldable pub push_realtime : Option ℕ → Bus → Event → Bus × Bool
unfolding first_push note_depth
push_realtime now b e =
    let b' = note_depth b in
    first_push now b' e (Ring.push ring_capacity b'.realtime_bus.ring_buffer e)

unfoldable pub append_event : Option ℕ → QueueId → Bus → Queue → Event → Bus × Bool
append_event now q b queue e = (
  record (set_queue q b (record queue { dq = queue.dq ++ e ∷ [] })) {
    metrics = stamp now (add_processed b.metrics);
  },
  true,
)

-- A full queue, by its policy. `taken` events leave the front while BLOCK_PRODUCER waits, at most
-- 100 ms, for room.
unfoldable pub when_full : Option ℕ → ℕ → QueueId → Bus → Event → OverflowPolicy → Bus × Bool
unfolding append_event
when_full now taken q b e OverflowPolicy.block_producer =
    let queue = get_queue q b in
    let queue' = record queue { dq = drop taken queue.dq } in
    if ltb (length queue'.dq) queue'.capacity
    then append_event now q b queue' e
    else (set_queue q b queue', false)
when_full now taken q b e OverflowPolicy.drop_new =
    (record b { metrics = add_dropped 1 b.metrics }, false)
when_full now taken q b e OverflowPolicy.drop_old = append_event now q b (get_queue q b) e

unfoldable pub push_queue : Option ℕ → ℕ → QueueId → Bus → Event → Bus × Bool
unfolding when_full append_event
push_queue now taken q b e =
    let queue = get_queue q b in
    if leb queue.capacity (length queue.dq)
    then when_full now taken q b e queue.policy
    else append_event now q b queue e

-- `push`; `now` is what `stamp` takes, and `taken` what `when_full` takes.
unfoldable pub push : Option ℕ → ℕ → QueueId → Bus → Event → Bus × Bool
push now taken QueueId.realtime b e = push_realtime now b e
push now taken QueueId.transactional b e = push_queue now taken QueueId.transactional b e
push now taken QueueId.batch b e = push_queue now taken QueueId.batch b e

-- `pop`. `now_ns` is the clock's reading; while it waits, at most the timeout, the producers append
-- `arrived`.
abbrev pub stamped : ℕ → Event → Event
stamped now_ns e = record e { dequeue_time_ns = now_ns }

pub pop_realtime_result : ℕ → Bus → Option Event × Ring Event → Bus × Option Event
pop_realtime_result now_ns b (none, r) = (b, none)
pop_realtime_result now_ns b (some e, r) = (set_ring b r, some (stamped now_ns e))

pub take_front : ℕ → QueueId → Bus → Queue → List Event → Bus × Option Event
take_front now_ns q b queue [] = (set_queue q b queue, none)
take_front now_ns q b queue (e ∷ rest) =
    (set_queue q b (record queue { dq = rest }), some (stamped now_ns e))

pub pop_queue : ℕ → List Event → QueueId → Bus → List Event → Bus × Option Event
unfolding take_front
pop_queue now_ns arrived q b [] =
    take_front now_ns q b (record (get_queue q b) { dq = arrived }) arrived
pop_queue now_ns arrived q b (e ∷ rest) = take_front now_ns q b (get_queue q b) (e ∷ rest)

unfoldable pub pop : ℕ → List Event → QueueId → Bus → Bus × Option Event
unfolding pop_realtime_result pop_queue
pop now_ns arrived QueueId.realtime b =
    pop_realtime_result now_ns b (Ring.pop ring_capacity b.realtime_bus.ring_buffer)
pop now_ns arrived QueueId.transactional b =
    pop_queue now_ns arrived QueueId.transactional b b.transactional_bus.dq
pop now_ns arrived QueueId.batch b = pop_queue now_ns arrived QueueId.batch b b.batch_bus.dq

-- The loop of `dropBatchFromQueue` over the ring: at most `n` pops, up to the first empty one.
pub keep_popped :
    (Ring Event → List Event × Ring Event) → Option Event × Ring Event → List Event × Ring Event
keep_popped more (none, r) = ([], r)
keep_popped more (some e, r) = let (events, r') = more r in (e ∷ events, r')

unfoldable pub pop_batch : ℕ → Ring Event → List Event × Ring Event
unfolding keep_popped
pop_batch zero r = ([], r)
pop_batch (suc n) r = keep_popped (pop_batch n) (Ring.pop ring_capacity r)

-- The loop over the deque: `n` times `front` and `pop_front`, where there is one.
unfoldable pub pop_fronts : ℕ → List Event → List Event × List Event
pop_fronts zero dq = ([], dq)
pop_fronts (suc n) [] = pop_fronts n []
pop_fronts (suc n) (e ∷ dq) = let (events, rest) = pop_fronts n dq in (e ∷ events, rest)

pub record_drops : Bus → List Event → Bus × ℕ
record_drops b [] = (b, 0)
record_drops b (e ∷ events) = (
  record b {
    dlq = DeadLetterQueue.push_batch b.dlq (map some (e ∷ events));
    metrics = add_dropped (length (e ∷ events)) b.metrics;
  },
  length (e ∷ events),
)

pub drop_batch_queue : QueueId → Bus → Bus × ℕ
unfolding record_drops
drop_batch_queue q b =
    let queue = get_queue q b in
    let (events, rest) = pop_fronts (min drop_batch_size (length queue.dq)) queue.dq in
    record_drops (set_queue q b (record queue { dq = rest })) events

-- `dropBatchFromQueue`: up to 64 events of a queue go to the dead letter queue.
unfoldable pub drop_batch_from_queue : QueueId → Bus → Bus × ℕ
unfolding record_drops drop_batch_queue
drop_batch_from_queue QueueId.realtime b =
    let (events, r) = pop_batch drop_batch_size b.realtime_bus.ring_buffer in
    record_drops (set_ring b r) events
drop_batch_from_queue QueueId.transactional b = drop_batch_queue QueueId.transactional b
drop_batch_from_queue QueueId.batch b = drop_batch_queue QueueId.batch b
