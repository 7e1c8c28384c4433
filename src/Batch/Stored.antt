-- ===== src/Batch/Stored.antt =====
-- What the batch processor reports as processed is what it stores.
use event_stream_core.Common.{
  ℕ, ◌+◌, ◌≡◌, refl, ap, ap₂, ◌∙◌, Bool, true, false, Option, none, some, List, [], ◌∷◌, ◌++◌,
  arith, leb, ◌==◌, if◌then◌else◌, Bytes, codes,
}
use event_stream_core.Event.{Event}
use event_stream_core.Handler.{
  Message, text, ValidationResult, HandleOutcome, HandleResult, EventHandler, Registry,
  get_or_default,
}
use event_stream_core.Bus.{add_processed, stamp}
use event_stream_core.Realtime.{Notice, processed, dropped_for, store_event}
use event_stream_core.Batch.{
  TopicBucket, Processor, Times, push_dead, drop_event, drop_for_pressure, flush_event,
  flush_handled, flush_events, flush_bucket_locked, bucket_of, put_bucket, after_flush,
  add_to_bucket, checked, process, flush_all, after_stop, stop,
}
use event_stream_core.Batch.Takes.{count_if, count_if-append}

-- The events that were reported as processed.
abbrev pub kept_of : List Notice → List Event
kept_of [] = []
kept_of (processed e ∷ ns) = e ∷ kept_of ns
kept_of (dropped_for e reason ∷ ns) = kept_of ns

kept_of-append : (ms ns : List Notice) → kept_of (ms ++ ns) ≡ kept_of ms ++ kept_of ns
kept_of-append [] ns = refl
kept_of-append (processed e ∷ ms) ns = ap (λ l. e ∷ l) (kept_of-append ms ns)
kept_of-append (dropped_for e reason ∷ ms) ns = kept_of-append ms ns

count_kept :
    (f : Event → Bool) (ns : List Notice) (n : Notice)
    → count_if f (kept_of (ns ++ n ∷ [])) ≡ count_if f (kept_of ns) + count_if f (kept_of (n ∷ []))
count_kept f ns n =
    ap (count_if f) (kept_of-append ns (n ∷ [])) ∙ count_if-append f (kept_of ns) (kept_of (n ∷ []))

-- The stored events that pass a test; without a storage engine, those reported as processed.
abbrev pub stored : (Event → Bool) → Option (List Event) → List Notice → ℕ
stored f none ns = count_if f (kept_of ns)
stored f (some es) ns = count_if f es

-- Since `p`, as many events were stored as were reported as processed.
abbrev pub Backs : Processor → Processor → Type 0
Backs p q =
    (f : Event → Bool)
    → stored f q.storage q.notices + count_if f (kept_of p.notices)
      ≡ stored f p.storage p.notices + count_if f (kept_of q.notices)

drop_notice :
    (f : Event → Bool) (s : Option (List Event)) (ns : List Notice) (e : Event) (reason : Message)
    → stored f s (ns ++ dropped_for e reason ∷ []) ≡ stored f s ns
drop_notice f none ns e reason = omega (arith, count_kept f ns (dropped_for e reason))
drop_notice f (some es) ns e reason = refl

keep_notice :
    (f : Event → Bool) (s : Option (List Event)) (ns : List Notice) (e : Event)
    → stored f (store_event s e) (ns ++ processed e ∷ []) ≡ stored f s ns + count_if f (e ∷ [])
keep_notice f none ns e = count_kept f ns (processed e)
keep_notice f (some es) ns e = count_if-append f es (e ∷ [])

-- After a call, if it came to an end.
pub data BacksAfter (p : Processor) : Option Processor → Type 0 where
  faulted : BacksAfter p none
  ended : (q : Processor) → Backs p q → BacksAfter p (some q)

module _ (p : Processor) where
  dropped-Backs :
      (q r : Processor) (e : Event) (reason : Message)
      → Backs p q
      → r.storage ≡ q.storage
      → r.notices ≡ q.notices ++ dropped_for e reason ∷ []
      → Backs p r
  dropped-Backs q r e reason h same told f = omega (
    arith,
    h f,
    ap₂ (λ s ns. stored f s ns) same told,
    drop_notice f q.storage q.notices e reason,
    ap (λ ns. count_if f (kept_of ns)) told,
    count_kept f q.notices (dropped_for e reason),
  )

  kept-Backs :
      (q : Processor) (e : Event)
      → Backs p q
      → Backs p
          (record q { storage = store_event q.storage e; notices = q.notices ++ processed e ∷ [] })
  kept-Backs q e h f =
      omega (arith, h f, keep_notice f q.storage q.notices e, count_kept f q.notices (processed e))

  drop_event-BacksAfter :
      (reason : Message) (e : Event) (q : Processor)
      → Backs p q
      → BacksAfter p (some (drop_event reason e q))
  unfolding drop_event push_dead
  drop_event-BacksAfter reason e q h =
      ended _ (dropped-Backs q (drop_event reason e q) e reason h refl refl)

  pressure-BacksAfter :
      (e : Event) (q : Processor) → Backs p q → BacksAfter p (some (drop_for_pressure e q))
  unfolding drop_for_pressure push_dead
  pressure-BacksAfter e q h =
      ended _
        (dropped-Backs q (drop_for_pressure e q) e (text (codes "backpressure_drop")) h refl refl)

  flush_event-BacksAfter :
      (e : Event) (r : HandleResult) (o : HandleOutcome) (q : Processor)
      → Backs p q
      → BacksAfter p (some (flush_event e r o q))
  unfolding flush_event push_dead
  flush_event-BacksAfter e r HandleOutcome.fail q h =
      ended _ (dropped-Backs q (flush_event e r HandleOutcome.fail q) e r.message h refl refl)
  flush_event-BacksAfter e r HandleOutcome.dropped q h =
      ended _ (dropped-Backs q (flush_event e r HandleOutcome.dropped q) e r.message h refl refl)
  flush_event-BacksAfter e r HandleOutcome.success q h = ended _ (kept-Backs q e h)
  flush_event-BacksAfter e r HandleOutcome.alert q h = ended _ (kept-Backs q e h)

  flush_handled-BacksAfter :
      (e : Event) (q : Processor) (r : Option HandleResult)
      → Backs p q
      → BacksAfter p (flush_handled e q r)
  unfolding flush_handled
  flush_handled-BacksAfter e q none h = faulted
  flush_handled-BacksAfter e q (some r) h = flush_event-BacksAfter e r r.outcome q h

  flush_events-BacksAfter :
      (handler : EventHandler) (es : List Event) (o : Option Processor)
      → BacksAfter p o
      → BacksAfter p (flush_events handler es o)
  unfolding flush_events
  flush_events-BacksAfter handler es none h = faulted
  flush_events-BacksAfter handler [] (some q) h = h
  flush_events-BacksAfter handler (e ∷ es) (some _) (ended q h) =
      flush_events-BacksAfter handler es (flush_handled e q (handler.handle e))
        (flush_handled-BacksAfter e q (handler.handle e) h)

  after_flush-BacksAfter :
      (t : Times) (topic : Bytes) (o : Option Processor)
      → BacksAfter p o
      → BacksAfter p (after_flush t topic o)
  unfolding after_flush
  after_flush-BacksAfter t topic none h = faulted
  after_flush-BacksAfter t topic (some _) (ended q h) = ended _ h

  either :
      (c : Bool) (x y : Option Processor)
      → BacksAfter p x
      → BacksAfter p y
      → BacksAfter p (if c then x else y)
  either true x y g h = g
  either false x y g h = h

  flush_bucket-BacksAfter :
      (registry : Registry) (topic : Bytes) (bucket : TopicBucket) (q : Processor)
      → Backs p q
      → BacksAfter p (flush_bucket_locked registry topic bucket q)
  unfolding flush_bucket_locked
  flush_bucket-BacksAfter registry topic bucket q h =
      flush_events-BacksAfter (get_or_default topic registry) bucket.events (some q) (ended q h)

  add_to_bucket-BacksAfter :
      (t : Times) (registry : Registry) (e : Event) (q : Processor)
      → Backs p q
      → BacksAfter p (add_to_bucket t registry e q)
  unfolding add_to_bucket
  add_to_bucket-BacksAfter t registry e q h =
      let bucket : TopicBucket = bucket_of e.topic q.buckets in
      let filled : TopicBucket = record bucket { events = bucket.events ++ e ∷ [] } in
      let q' : Processor = record q { metrics = add_processed q.metrics } in
      let first : Processor = record q' {
        buckets = put_bucket e.topic (record filled { last_flush_time = t.now }) q.buckets;
        metrics = stamp t.stamped q'.metrics;
      } in
      let later : Processor = record q' {
        buckets = put_bucket e.topic filled q.buckets;
        metrics = stamp t.stamped q'.metrics;
      } in
      let flushed = flush_bucket_locked registry e.topic filled q' in
      either (bucket.last_flush_time == 0) (some first)
        (if leb (bucket.last_flush_time + q.window) t.now
          then after_flush t e.topic flushed
          else some later)
        (ended first h)
        (either (leb (bucket.last_flush_time + q.window) t.now) (after_flush t e.topic flushed)
          (some later)
          (after_flush-BacksAfter t e.topic flushed
            (flush_bucket-BacksAfter registry e.topic filled q' h))
          (ended later h))

  checked-BacksAfter :
      (t : Times) (registry : Registry) (e : Event) (q : Processor) (r : Option ValidationResult)
      → Backs p q
      → BacksAfter p (checked t registry e q r)
  unfolding checked
  checked-BacksAfter t registry e q none h = faulted
  checked-BacksAfter t registry e q (some r) h =
      either r.valid _ _ (add_to_bucket-BacksAfter t registry e q h)
        (drop_event-BacksAfter (text r.error) e q h)

  pub process-BacksAfter :
      (t : Times) (registry : Registry) (e : Event) (q : Processor)
      → Backs p q
      → BacksAfter p (process t registry e q)
  unfolding process
  process-BacksAfter t registry e q h =
      let handler = get_or_default e.topic registry in
      let v = handler.validate e in
      let rejected = some (drop_event (text v.error) e q) in
      let accepted = checked t registry e q (handler.check_rules e) in
      either q.drop_events (some (drop_for_pressure e q)) (if v.valid then accepted else rejected)
        (pressure-BacksAfter e q h)
        (either v.valid accepted rejected
          (checked-BacksAfter t registry e q (handler.check_rules e) h)
          (drop_event-BacksAfter (text v.error) e q h))

  flush_all-BacksAfter :
      (registry : Registry) (buckets : List (Bytes × TopicBucket)) (o : Option Processor)
      → BacksAfter p o
      → BacksAfter p (flush_all registry buckets o)
  unfolding flush_all
  flush_all-BacksAfter registry buckets none h = faulted
  flush_all-BacksAfter registry [] (some q) h = h
  flush_all-BacksAfter registry ((topic, bucket) ∷ rest) (some _) (ended q h) =
      flush_all-BacksAfter registry rest (flush_bucket_locked registry topic bucket q)
        (flush_bucket-BacksAfter registry topic bucket q h)

  after_stop-BacksAfter : (o : Option Processor) → BacksAfter p o → BacksAfter p (after_stop o)
  unfolding after_stop
  after_stop-BacksAfter none h = faulted
  after_stop-BacksAfter (some _) (ended q h) = ended _ h

  pub stop-BacksAfter :
      (registry : Registry) (q : Processor) → Backs p q → BacksAfter p (stop registry q)
  unfolding stop
  stop-BacksAfter registry q h =
      after_stop-BacksAfter (flush_all registry q.buckets (some q))
        (flush_all-BacksAfter registry q.buckets (some q) (ended q h))
