-- ===== src/Batch.antt =====
-- src/core/processor/batch.cpp: events collected by topic and flushed topic by topic. The bus is the
-- one that src/core/processor/manager.cpp passes, and the dead letter queue, where there is one, is
-- the bus's, as src/main.cpp wires them. What stands around is otherwise as in `Realtime`; no write
-- of the storage engine fails. NUMA binding and logging leave no state.
pub mod Flush
pub mod Safety
pub mod Takes
pub mod Stored
pub mod Settled
mod Tests
use event_stream_core.Common.{
  ℕ, ◌+◌, Bool, true, false, ◌||◌, Option, none, some, List, [], ◌∷◌, ◌++◌, leb, ◌==◌,
  if◌then◌else◌, Bytes, codes, bytes_eq,
}
use event_stream_core.Event.{Event}
use event_stream_core.DeadLetterQueue
use event_stream_core.Bus
use event_stream_core.Bus.{Bus, QueueId, BusMetrics, add_processed, add_dropped, stamp}
use event_stream_core.Handler.{
  Message, text, ValidationResult, HandleOutcome, HandleResult, EventHandler, Registry,
  get_or_default,
}
use event_stream_core.Realtime.{Notice, processed, dropped_for, store_event}

-- A `last_flush_time` of 0 is the time point that was never set.
pub record TopicBucket : Type 0 where
  pub events : List Event
  pub last_flush_time : ℕ

pub record Processor : Type 0 where
  pub drop_events : Bool
  pub window : ℕ
  pub bus : Bus
  pub has_dlq : Bool
  pub storage : Option (List Event)
  pub metrics : BusMetrics
  pub buckets : List (Bytes × TopicBucket)
  pub notices : List Notice

-- The readings of the clocks during one call.
pub record Times : Type 0 where
  pub now : ℕ
  pub stamped : Option ℕ

unfoldable pub drop_batch_events : Processor → Processor
drop_batch_events p = record p { drop_events = true }

unfoldable pub resume_batch_events : Processor → Processor
resume_batch_events p = record p { drop_events = false }

-- `if (dlq_) dlq_->push(event)`, on the bus's queue.
unfoldable pub push_dead : Event → Processor → Processor
push_dead e p = record p {
  bus = if p.has_dlq then record (p.bus) { dlq = DeadLetterQueue.push p.bus.dlq e } else p.bus;
}

-- The statements of a drop before the event is in a bucket.
unfoldable pub drop_event : Message → Event → Processor → Processor
unfolding push_dead
drop_event reason e p =
    let p' = push_dead e (record p { metrics = add_dropped 1 p.metrics }) in
    record p' { notices = p'.notices ++ dropped_for e reason ∷ [] }

-- A drop while `drop_events_` is set makes room on the bus too.
unfoldable pub drop_for_pressure : Event → Processor → Processor
unfolding push_dead
drop_for_pressure e p =
    let p' = push_dead e (record p { metrics = add_dropped 1 p.metrics }) in
    record p' {
      bus = (Bus.drop_batch_from_queue QueueId.batch p'.bus).0;
      notices = p'.notices ++ dropped_for e (text (codes "backpressure_drop")) ∷ [];
    }

-- One round of the loop of `flushBucketLocked`.
unfoldable pub flush_event : Event → HandleResult → HandleOutcome → Processor → Processor
unfolding push_dead
flush_event e r HandleOutcome.fail p =
    let p' = push_dead e p in record p' { notices = p'.notices ++ dropped_for e r.message ∷ [] }
flush_event e r HandleOutcome.dropped p =
    let p' = push_dead e p in record p' { notices = p'.notices ++ dropped_for e r.message ∷ [] }
flush_event e r HandleOutcome.success p = record p {
  storage = store_event p.storage e;
  notices = p.notices ++ processed e ∷ [];
}
flush_event e r HandleOutcome.alert p = record p {
  storage = store_event p.storage e;
  notices = p.notices ++ processed e ∷ [];
}

unfoldable pub flush_handled : Event → Processor → Option HandleResult → Option Processor
unfolding flush_event
flush_handled e p none = none
flush_handled e p (some r) = some (flush_event e r r.outcome p)

unfoldable pub flush_events : EventHandler → List Event → Option Processor → Option Processor
unfolding flush_handled
flush_events h es none = none
flush_events h [] (some p) = some p
flush_events h (e ∷ es) (some p) = flush_events h es (flush_handled e p (h.handle e))

-- `flushBucketLocked`, which leaves the bucket empty; `none` where a handler reads outside a body.
unfoldable pub flush_bucket_locked : Registry → Bytes → TopicBucket → Processor → Option Processor
unfolding flush_events
flush_bucket_locked registry topic bucket p =
    flush_events (get_or_default topic registry) bucket.events (some p)

abbrev pub new_bucket : TopicBucket
new_bucket = record { events = []; last_flush_time = 0 }

-- `try_emplace`, read.
unfoldable pub bucket_of : Bytes → List (Bytes × TopicBucket) → TopicBucket
bucket_of topic [] = new_bucket
bucket_of topic ((t, b) ∷ rest) = if bytes_eq t topic then b else bucket_of topic rest

-- `try_emplace`, and a write to the bucket.
unfoldable pub put_bucket :
    Bytes → TopicBucket → List (Bytes × TopicBucket) → List (Bytes × TopicBucket)
put_bucket topic bucket [] = (topic, bucket) ∷ []
put_bucket topic bucket ((t, b) ∷ rest) =
    if bytes_eq t topic then (t, bucket) ∷ rest else (t, b) ∷ put_bucket topic bucket rest

unfoldable pub after_flush : Times → Bytes → Option Processor → Option Processor
after_flush t topic none = none
after_flush t topic (some p) = some record p {
  buckets = put_bucket topic (record { events = []; last_flush_time = t.now }) p.buckets;
  metrics = stamp t.stamped p.metrics;
}

-- The event joins its topic's bucket; the bucket's first event starts its window, and an event after
-- the window flushes the bucket, itself included.
unfoldable pub add_to_bucket : Times → Registry → Event → Processor → Option Processor
unfolding after_flush flush_bucket_locked
add_to_bucket t registry e p =
    let bucket = bucket_of e.topic p.buckets in
    let filled = record bucket { events = bucket.events ++ e ∷ [] } in
    let p' = record p { metrics = add_processed p.metrics } in
    if bucket.last_flush_time == 0
    then some record p' {
      buckets = put_bucket e.topic (record filled { last_flush_time = t.now }) p.buckets;
      metrics = stamp t.stamped p'.metrics;
    }
    else if leb (bucket.last_flush_time + p.window) t.now
    then after_flush t e.topic (flush_bucket_locked registry e.topic filled p')
    else some record p' {
      buckets = put_bucket e.topic filled p.buckets;
      metrics = stamp t.stamped p'.metrics;
    }

unfoldable pub checked :
    Times → Registry → Event → Processor → Option ValidationResult → Option Processor
unfolding add_to_bucket drop_event
checked t registry e p none = none
checked t registry e p (some r) =
    if r.valid then add_to_bucket t registry e p else some (drop_event (text r.error) e p)

unfoldable pub process : Times → Registry → Event → Processor → Option Processor
unfolding checked drop_event drop_for_pressure
process t registry e p =
    let h = get_or_default e.topic registry in
    let v = h.validate e in
    if p.drop_events
    then some (drop_for_pressure e p)
    else if v.valid
    then checked t registry e p (h.check_rules e)
    else some (drop_event (text v.error) e p)

-- `setStorage`.
unfoldable pub set_storage : Option (List Event) → Processor → Processor
set_storage storage p = record p { storage = storage }

-- `flush` of one topic, which leaves the time of the last flush as it is.
unfoldable pub flush_found : Bytes → TopicBucket → Option Processor → Option Processor
flush_found topic bucket none = none
flush_found topic bucket (some p) =
    some record p { buckets = put_bucket topic (record bucket { events = [] }) p.buckets }

abbrev pub has_bucket : Bytes → List (Bytes × TopicBucket) → Bool
has_bucket topic [] = false
has_bucket topic ((t, b) ∷ rest) = bytes_eq t topic || has_bucket topic rest

unfoldable pub flush : Registry → Bytes → Processor → Option Processor
unfolding flush_found flush_bucket_locked
flush registry topic p =
    let bucket = bucket_of topic p.buckets in
    if has_bucket topic p.buckets
    then flush_found topic bucket (flush_bucket_locked registry topic bucket p)
    else some p

-- The loop of `stop` over the buckets, in their order.
unfoldable pub flush_all :
    Registry → List (Bytes × TopicBucket) → Option Processor → Option Processor
unfolding flush_bucket_locked
flush_all registry buckets none = none
flush_all registry [] (some p) = some p
flush_all registry ((topic, bucket) ∷ rest) (some p) =
    flush_all registry rest (flush_bucket_locked registry topic bucket p)

abbrev pub emptied : List (Bytes × TopicBucket) → List (Bytes × TopicBucket)
emptied [] = []
emptied ((topic, bucket) ∷ rest) = (topic, record bucket { events = [] }) ∷ emptied rest

unfoldable pub after_stop : Option Processor → Option Processor
after_stop none = none
after_stop (some p) = some record p { buckets = emptied p.buckets }

unfoldable pub stop : Registry → Processor → Option Processor
unfolding after_stop flush_all
stop registry p = after_stop (flush_all registry p.buckets (some p))
