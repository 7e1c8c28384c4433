-- ===== src/ProcessManager/BatchBus.antt =====
-- What the batch processor does to the bus: it pushes dead letters, and drops events of its queue
-- while it is told to.
use event_stream_core.Common.{
  ◌+◌, refl, ap, ◌∙◌, Bool, true, false, Option, none, some, List, [], ◌∷◌, ◌++◌, leb, ◌==◌,
  if◌then◌else◌, drop, drop-drop, Bytes,
}
use event_stream_core.Event.{Event}
use event_stream_core.Bus.{QueueId, Bus, add_dropped, add_processed, stamp}
use event_stream_core.Bus.Drain.{queued}
use event_stream_core.Bus.Queues.{IsValid}
use event_stream_core.Bus.Separate.{dlq_set, queued-dlq}
use event_stream_core.ProcessManager.Fifo.{Leaves}
use event_stream_core.ProcessManager.Loop.{drop-Leaves}
use event_stream_core.Handler.{
  Message, text, ValidationResult, HandleOutcome, HandleResult, EventHandler, Registry,
  get_or_default,
}
use event_stream_core.DeadLetterQueue
use event_stream_core.DeadLetterQueue.{DeadLetterQueue}
use event_stream_core.Batch.{
  TopicBucket, Processor, Times, push_dead, drop_event, drop_for_pressure, flush_event,
  flush_handled, flush_events, flush_bucket_locked, after_flush, add_to_bucket, checked, process,
  flush_all, after_stop, stop, bucket_of, put_bucket,
}

pub Leaves-refl : (b : Bus) → IsValid b → Leaves b b
Leaves-refl b v = (v, λ q. (0, refl))

Leaves-trans : (b c d : Bus) → Leaves b c → Leaves c d → Leaves b d
Leaves-trans b c d (_, f) (v, g) = (
  v,
  λ q.
      let (n, e) = f q in
      let (k, e') = g q in (n + k, e' ∙ ap (λ l. drop k l) e ∙ drop-drop n k (queued q b)),
)

pub dlq-Leaves : (b : Bus) (d : DeadLetterQueue) → IsValid b → Leaves b (record b { dlq = d })
dlq-Leaves b d v = (dlq_set b d v, λ q. (0, queued-dlq q b d))

-- A processor whose bus comes from `b`; or none, after a read outside an event's body.
pub data From (b : Bus) : Option Processor → Type 0 where
  faulted : From b none
  came : (p : Processor) → Leaves b p.bus → From b (some p)

module _ {b : Bus} where
  either : (c : Bool) (x y : Bus) → Leaves b x → Leaves b y → Leaves b (if c then x else y)
  either true x y f g = f
  either false x y f g = g

  dead-Leaves : (e : Event) (p : Processor) → Leaves b p.bus → Leaves b (push_dead e p).bus
  unfolding push_dead
  dead-Leaves e p h =
      let d = DeadLetterQueue.push p.bus.dlq e in
      either p.has_dlq (record (p.bus) { dlq = d }) p.bus
        (Leaves-trans b p.bus _ h (dlq-Leaves p.bus d h.0)) h

  drop_event-From :
      (reason : Message) (e : Event) (p : Processor)
      → Leaves b p.bus
      → From b (some (drop_event reason e p))
  unfolding drop_event
  drop_event-From reason e p h =
      came _ (dead-Leaves e (record p { metrics = add_dropped 1 p.metrics }) h)

  pressure-From :
      (e : Event) (p : Processor) → Leaves b p.bus → From b (some (drop_for_pressure e p))
  unfolding drop_for_pressure
  pressure-From e p h =
      let counted : Processor = record p { metrics = add_dropped 1 p.metrics } in
      let dead = dead-Leaves e counted h in
      let b' : Bus = (push_dead e counted).bus in
      came _ (Leaves-trans b b' _ dead (drop-Leaves QueueId.batch b' dead.0))

  flush_event-From :
      (e : Event) (r : HandleResult) (o : HandleOutcome) (p : Processor)
      → Leaves b p.bus
      → From b (some (flush_event e r o p))
  unfolding flush_event
  flush_event-From e r HandleOutcome.fail p h = came _ (dead-Leaves e p h)
  flush_event-From e r HandleOutcome.dropped p h = came _ (dead-Leaves e p h)
  flush_event-From e r HandleOutcome.success p h = came _ h
  flush_event-From e r HandleOutcome.alert p h = came _ h

  flush_handled-From :
      (e : Event) (p : Processor) (r : Option HandleResult)
      → Leaves b p.bus
      → From b (flush_handled e p r)
  unfolding flush_handled
  flush_handled-From e p none h = faulted
  flush_handled-From e p (some r) h = flush_event-From e r r.outcome p h

  flush_events-From :
      (handler : EventHandler) (es : List Event) (p : Option Processor)
      → From b p
      → From b (flush_events handler es p)
  unfolding flush_events
  flush_events-From handler es none h = faulted
  flush_events-From handler [] (some p) h = h
  flush_events-From handler (e ∷ es) (some _) (came p h) =
      flush_events-From handler es (flush_handled e p (handler.handle e))
        (flush_handled-From e p (handler.handle e) h)

  flush_bucket-From :
      (registry : Registry) (topic : Bytes) (bucket : TopicBucket) (p : Processor)
      → Leaves b p.bus
      → From b (flush_bucket_locked registry topic bucket p)
  unfolding flush_bucket_locked
  flush_bucket-From registry topic bucket p h =
      flush_events-From (get_or_default topic registry) bucket.events (some p) (came p h)

  after_flush-From :
      (t : Times) (topic : Bytes) (p : Option Processor) → From b p → From b (after_flush t topic p)
  unfolding after_flush
  after_flush-From t topic none h = faulted
  after_flush-From t topic (some _) (came p h) = came _ h

  if-From : (c : Bool) (p q : Option Processor) → From b p → From b q → From b (if c then p else q)
  if-From true p q f g = f
  if-From false p q f g = g

  add_to_bucket-From :
      (t : Times) (registry : Registry) (e : Event) (p : Processor)
      → Leaves b p.bus
      → From b (add_to_bucket t registry e p)
  unfolding add_to_bucket
  add_to_bucket-From t registry e p h =
      let bucket : TopicBucket = bucket_of e.topic p.buckets in
      let filled : TopicBucket = record bucket { events = bucket.events ++ e ∷ [] } in
      let counted : Processor = record p { metrics = add_processed p.metrics } in
      let started : Processor = record counted {
        buckets = put_bucket e.topic (record filled { last_flush_time = t.now }) p.buckets;
        metrics = stamp t.stamped counted.metrics;
      } in
      let joined : Processor = record counted {
        buckets = put_bucket e.topic filled p.buckets;
        metrics = stamp t.stamped counted.metrics;
      } in
      let flushed : Option Processor =
        after_flush t e.topic (flush_bucket_locked registry e.topic filled counted) in
      if-From (bucket.last_flush_time == 0) (some started)
        (if leb (bucket.last_flush_time + p.window) t.now then flushed else some joined)
        (came started h)
        (if-From (leb (bucket.last_flush_time + p.window) t.now) flushed (some joined)
          (after_flush-From t e.topic (flush_bucket_locked registry e.topic filled counted)
            (flush_bucket-From registry e.topic filled counted h))
          (came joined h))

  checked-From :
      (t : Times) (registry : Registry) (e : Event) (p : Processor) (r : Option ValidationResult)
      → Leaves b p.bus
      → From b (checked t registry e p r)
  unfolding checked
  checked-From t registry e p none h = faulted
  checked-From t registry e p (some r) h =
      if-From r.valid _ _ (add_to_bucket-From t registry e p h)
        (drop_event-From (text r.error) e p h)

  pub process-From :
      (t : Times) (registry : Registry) (e : Event) (p : Processor)
      → Leaves b p.bus
      → From b (process t registry e p)
  unfolding process
  process-From t registry e p h =
      let handler : EventHandler = get_or_default e.topic registry in
      let rejected : Option Processor = some (drop_event (text (handler.validate e).error) e p) in
      let accepted : Option Processor = checked t registry e p (handler.check_rules e) in
      if-From p.drop_events (some (drop_for_pressure e p))
        (if (handler.validate e).valid then accepted else rejected) (pressure-From e p h)
        (if-From (handler.validate e).valid accepted rejected
          (checked-From t registry e p (handler.check_rules e) h)
          (drop_event-From (text (handler.validate e).error) e p h))

  flush_all-From :
      (registry : Registry) (buckets : List (Bytes × TopicBucket)) (p : Option Processor)
      → From b p
      → From b (flush_all registry buckets p)
  unfolding flush_all
  flush_all-From registry buckets none h = faulted
  flush_all-From registry [] (some p) h = h
  flush_all-From registry ((topic, bucket) ∷ rest) (some _) (came p h) =
      flush_all-From registry rest (flush_bucket_locked registry topic bucket p)
        (flush_bucket-From registry topic bucket p h)

  after_stop-From : (p : Option Processor) → From b p → From b (after_stop p)
  unfolding after_stop
  after_stop-From none h = faulted
  after_stop-From (some _) (came p h) = came _ h

  pub stop-From : (registry : Registry) (p : Processor) → Leaves b p.bus → From b (stop registry p)
  unfolding stop
  stop-From registry p h =
      after_stop-From (flush_all registry p.buckets (some p))
        (flush_all-From registry p.buckets (some p) (came p h))
