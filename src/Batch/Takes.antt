-- ===== src/Batch/Takes.antt =====
-- What one call does with its event: settled at once, by a flush, or left in its bucket.
use event_stream_core.Common.{
  ℕ, ◌+◌, ◌≡◌, refl, sym, ap, subst, ◌∙◌, ◌≢◌, inl, inr, Bool, true, false, Option, none, some,
  List, [], ◌∷◌, ◌++◌, arith, leb, ◌==◌, if◌then◌else◌, Bool-cases, All-append, Bytes, codes,
  bytes_eq,
}
use event_stream_core.Event.{Event}
use event_stream_core.Bus.{BusMetrics, stamp, add_processed}
use event_stream_core.Handler.{Message, text, ValidationResult, Registry, get_or_default}
use event_stream_core.Realtime.{Notice, dropped_for}
use event_stream_core.Batch.{
  TopicBucket, Processor, Times, push_dead, drop_event, drop_for_pressure, flush_events,
  flush_bucket_locked, bucket_of, put_bucket, after_flush, add_to_bucket, checked, process, emptied,
}
use event_stream_core.Batch.Flush.{event_of, noticed, noticed-append, flush_events_lem}
use event_stream_core.Batch.Safety.{
  IsSafeRegistry, get_or_default-IsSafe, AllAnswered, AllFlushable, bucket_of-AllAnswered,
  put_bucket-AllFlushable,
}

-- How many of the events pass a test.
abbrev pub count_if : (Event → Bool) → List Event → ℕ
count_if f [] = 0
count_if f (e ∷ es) = (if f e then 1 else 0) + count_if f es

abbrev pub waiting : (Event → Bool) → List (Bytes × TopicBucket) → ℕ
waiting f [] = 0
waiting f ((topic, b) ∷ bs) = count_if f b.events + waiting f bs

-- The settled events that pass a test, and those in the buckets.
abbrev pub total : (Event → Bool) → Processor → ℕ
total f p = count_if f (noticed p.notices) + waiting f p.buckets

pub count_if-append :
    (f : Event → Bool) (es fs : List Event) → count_if f (es ++ fs) ≡ count_if f es + count_if f fs
count_if-append f [] fs = omega arith
count_if-append f (e ∷ es) fs = omega (arith, count_if-append f es fs)

waiting-put_bucket :
    (f : Event → Bool) (topic : Bytes) (b : TopicBucket) (bs : List (Bytes × TopicBucket))
    → waiting f (put_bucket topic b bs) + count_if f (bucket_of topic bs).events
      ≡ waiting f bs + count_if f b.events
unfolding put_bucket bucket_of
waiting-put_bucket f topic b [] = omega arith
waiting-put_bucket f topic b ((t, c) ∷ bs) = elim (Bool-cases (bytes_eq t topic)) [
  | inl e ↦ rw e (omega arith)
  | inr e ↦ rw e (omega (arith, waiting-put_bucket f topic b bs))
]

pub waiting-emptied :
    (f : Event → Bool) (bs : List (Bytes × TopicBucket)) → waiting f (emptied bs) ≡ 0
waiting-emptied f [] = refl
waiting-emptied f ((topic, b) ∷ bs) = omega (arith, waiting-emptied f bs)

-- A call that took the events `es`: it came to an end, in a valid state that has them.
abbrev pub Takes : Registry → List Event → Processor → Option Processor → Type 0
Takes registry es p o =
    (p' : Processor) × (o ≡ some p')
    × AllFlushable registry p'.buckets
    × ((f : Event → Bool) → total f p' ≡ total f p + count_if f es)

if-Takes :
    (registry : Registry) (es : List Event) (p : Processor) (b : Bool) (x y : Option Processor)
    → Takes registry es p x
    → (b ≡ false → Takes registry es p y)
    → Takes registry es p (if b then x else y)
if-Takes registry es p true x y s t = s
if-Takes registry es p false x y s t = t refl

module _ (registry : Registry) (safe : IsSafeRegistry registry) (e : Event) (p : Processor)
    (valid : AllFlushable registry p.buckets) where
  noticed_now :
      (n : Notice)
      → event_of n ≡ e
      → (f : Event → Bool)
      → count_if f (noticed (p.notices ++ n ∷ [])) + waiting f p.buckets
        ≡ total f p + count_if f (e ∷ [])
  noticed_now n told f =
      let shown : count_if f (noticed (p.notices ++ n ∷ []))
          ≡ count_if f (noticed p.notices) + count_if f (e ∷ []) =
        ap (count_if f)
          (noticed-append p.notices (n ∷ []) ∙ ap (λ x. noticed p.notices ++ x ∷ []) told)
        ∙ count_if-append f (noticed p.notices) (e ∷ []) in
      omega (arith, shown)

  drop_event-Takes : (reason : Message) → Takes registry (e ∷ []) p (some (drop_event reason e p))
  unfolding drop_event push_dead
  drop_event-Takes reason =
      (drop_event reason e p, refl, valid, noticed_now (dropped_for e reason) refl)

  drop_for_pressure-Takes : Takes registry (e ∷ []) p (some (drop_for_pressure e p))
  unfolding drop_for_pressure push_dead
  drop_for_pressure-Takes = (
    drop_for_pressure e p,
    refl,
    valid,
    noticed_now (dropped_for e (text (codes "backpressure_drop"))) refl,
  )

  abbrev filled : List Event
  filled = (bucket_of e.topic p.buckets).events ++ e ∷ []

  abbrev Answered : Type 0
  Answered = (get_or_default e.topic registry).handle e ≢ none

  filled-AllAnswered : Answered → AllAnswered registry e.topic filled
  filled-AllAnswered ok =
      All-append _ (bucket_of e.topic p.buckets).events (e ∷ [])
        (bucket_of-AllAnswered registry e.topic p.buckets valid) (ok, tt)

  -- The event waits in its bucket.
  put_bucket-Takes :
      (m : BusMetrics) (last : ℕ)
      → Answered
      → Takes registry (e ∷ []) p (
          some record p {
            buckets =
                put_bucket e.topic (record { events = filled; last_flush_time = last }) p.buckets;
            metrics = m;
          })
  put_bucket-Takes m last ok =
      let b : TopicBucket = record { events = filled; last_flush_time = last } in
      (
        record p { buckets = put_bucket e.topic b p.buckets; metrics = m },
        refl,
        put_bucket-AllFlushable registry e.topic b p.buckets valid (filled-AllAnswered ok),
        λ f. omega (
          arith,
          waiting-put_bucket f e.topic b p.buckets,
          count_if-append f (bucket_of e.topic p.buckets).events (e ∷ []),
        ),
      )

  -- The bucket is flushed with the event in it, and is empty.
  after_flush-Takes :
      (t : Times) (m : BusMetrics)
      → Answered
      → Takes registry (e ∷ []) p (
          after_flush t e.topic
            (flush_events (get_or_default e.topic registry) filled (some record p { metrics = m })))
  unfolding after_flush
  after_flush-Takes t m ok =
      let (q, done, flushed) =
        flush_events_lem (get_or_default e.topic registry) filled (record p { metrics = m })
          (filled-AllAnswered ok) in
      let b : TopicBucket = record { events = []; last_flush_time = t.now } in
      let same : q.buckets ≡ p.buckets = flushed.buckets_same in
      (
        record q { buckets = put_bucket e.topic b q.buckets; metrics = stamp t.stamped q.metrics },
        ap (after_flush t e.topic) done,
        put_bucket-AllFlushable registry e.topic b q.buckets
            (subst (AllFlushable registry) (sym same) valid) tt,
        λ f. omega (
          arith,
          waiting-put_bucket f e.topic b p.buckets,
          ap (λ bs. waiting f (put_bucket e.topic b bs)) same,
          ap (count_if f) flushed.reported,
          count_if-append f (noticed p.notices) filled,
          count_if-append f (bucket_of e.topic p.buckets).events (e ∷ []),
        ),
      )

  add_to_bucket-Takes :
      (t : Times) → Answered → Takes registry (e ∷ []) p (add_to_bucket t registry e p)
  unfolding add_to_bucket flush_bucket_locked
  add_to_bucket-Takes t ok =
      let bucket = bucket_of e.topic p.buckets in
      if-Takes registry (e ∷ []) p (bucket.last_flush_time == 0) _ _
        (put_bucket-Takes (stamp t.stamped (add_processed p.metrics)) t.now ok)
        (λ _.
          if-Takes registry (e ∷ []) p (leb (bucket.last_flush_time + p.window) t.now) _ _
            (after_flush-Takes t (add_processed p.metrics) ok)
            (λ _.
              put_bucket-Takes (stamp t.stamped (add_processed p.metrics)) bucket.last_flush_time
                ok))

  checked-Takes :
      (t : Times) (o : Option ValidationResult)
      → o ≢ none
      → Answered
      → Takes registry (e ∷ []) p (checked t registry e p o)
  unfolding checked
  checked-Takes t none some_result ok = absurd (some_result refl)
  checked-Takes t (some r) some_result ok =
      if-Takes registry (e ∷ []) p r.valid _ _ (add_to_bucket-Takes t ok)
        (λ _. drop_event-Takes (text r.error))

  pub process-Takes : (t : Times) → Takes registry (e ∷ []) p (process t registry e p)
  unfolding process
  process-Takes t =
      let h = get_or_default e.topic registry in
      let v = h.validate e in
      if-Takes registry (e ∷ []) p p.drop_events _ _ drop_for_pressure-Takes (λ _.
        elim (Bool-cases v.valid) [
          | inl ok ↦
              let (rules, answer) = get_or_default-IsSafe e.topic registry safe e ok in
              subst
                (λ b. Takes registry (e ∷ []) p (
                  if b
                  then checked t registry e p (h.check_rules e)
                  else some (drop_event (text v.error) e p)))
                (sym ok) (checked-Takes t (h.check_rules e) rules answer)
          | inr bad ↦
              subst
                (λ b. Takes registry (e ∷ []) p (
                  if b
                  then checked t registry e p (h.check_rules e)
                  else some (drop_event (text v.error) e p)))
                (sym bad) (drop_event-Takes (text v.error))
        ])
