-- ===== src/Batch/Settled.antt =====
-- Every event given to the batch processor is reported: at once, by a flush, or when it stops.
use event_stream_core.Common.{
  ◌+◌, ◌≡◌, refl, ap, subst, ◌∙◌, Bool, Option, none, some, List, [], ◌∷◌, arith, Bytes,
}
use event_stream_core.Event.{Event}
use event_stream_core.Handler.{Registry, get_or_default}
use event_stream_core.Batch.{
  TopicBucket, Processor, Times, flush_bucket_locked, process, flush_all, emptied, after_stop, stop,
}
use event_stream_core.Batch.Flush.{noticed, flush_events_lem}
use event_stream_core.Batch.Safety.{IsSafeRegistry, AllFlushable}
use event_stream_core.Batch.Stored.{
  Backs, BacksAfter, faulted, ended, process-BacksAfter, stop-BacksAfter,
}
use event_stream_core.Batch.Takes.{
  count_if, waiting, total, count_if-append, waiting-emptied, Takes, process-Takes,
}

-- `runLoop` over the events that it pops, and `stop` when it ends.
unfoldable pub process_all : Registry → List (Times × Event) → Option Processor → Option Processor
process_all registry calls none = none
process_all registry [] (some p) = stop registry p
process_all registry ((t, e) ∷ calls) (some p) = process_all registry calls (process t registry e p)

abbrev pub given : List (Times × Event) → List Event
given [] = []
given ((t, e) ∷ calls) = e ∷ given calls

-- Nothing waits, and everything given is reported.
abbrev Reports : List Event → Processor → Option Processor → Type 0
Reports es p o =
    (p' : Processor) × (o ≡ some p')
    × ((f : Event → Bool) → waiting f p'.buckets ≡ 0)
    × ((f : Event → Bool) → count_if f (noticed p'.notices) ≡ total f p + count_if f es)

-- The same, and as much is stored as is reported as processed.
abbrev pub Settles : List Event → Processor → Option Processor → Type 0
Settles es p o =
    (p' : Processor) × (o ≡ some p')
    × ((f : Event → Bool) → waiting f p'.buckets ≡ 0)
    × ((f : Event → Bool) → count_if f (noticed p'.notices) ≡ total f p + count_if f es)
    × Backs p p'

ended-Backs : (p p' : Processor) (o : Option Processor) → o ≡ some p' → BacksAfter p o → Backs p p'
ended-Backs p p' _ e faulted = cc
ended-Backs p p' _ e (ended q h) = let same : q ≡ p' = cc in subst (Backs p) same h

module _ (registry : Registry) (safe : IsSafeRegistry registry) where
  flush_all_lem :
      (bs : List (Bytes × TopicBucket)) (p : Processor)
      → AllFlushable registry bs
      → (q : Processor) × (flush_all registry bs (some p) ≡ some q)
        × (q.buckets ≡ p.buckets)
        × ((f : Event → Bool)
            → count_if f (noticed q.notices) ≡ count_if f (noticed p.notices) + waiting f bs)
  unfolding flush_all flush_bucket_locked
  flush_all_lem [] p valid = (p, refl, refl, λ f. omega arith)
  flush_all_lem ((topic, b) ∷ bs) p (now, later) =
      let (q, done, flushed) = flush_events_lem (get_or_default topic registry) b.events p now in
      let (r, rest, same, settled) = flush_all_lem bs q later in
      (
        r,
        ap (flush_all registry bs) done ∙ rest,
        same ∙ flushed.buckets_same,
        λ f. omega (
          arith,
          settled f,
          ap (count_if f) flushed.reported,
          count_if-append f (noticed p.notices) b.events,
        ),
      )

  stop-Reports : (p : Processor) → AllFlushable registry p.buckets → Reports [] p (stop registry p)
  unfolding stop after_stop
  stop-Reports p valid =
      let (q, done, same, settled) = flush_all_lem p.buckets p valid in
      (
        record q { buckets = emptied q.buckets },
        ap after_stop done,
        λ f. waiting-emptied f q.buckets,
        λ f. omega (arith, settled f),
      )

  after_process :
      (e : Event) (calls : List (Times × Event)) (p : Processor) (o : Option Processor)
      → Takes registry (e ∷ []) p o
      → ((q : Processor)
          → AllFlushable registry q.buckets
          → Reports (given calls) q (process_all registry calls (some q)))
      → Reports (e ∷ given calls) p (process_all registry calls o)
  after_process e calls p o (q, took, valid, counts) ih =
      let (r, done, empty, settled) = ih q valid in
      (
        r,
        ap (process_all registry calls) took ∙ done,
        empty,
        λ f. omega (arith, settled f, counts f),
      )

  process_all-Reports :
      (calls : List (Times × Event)) (p : Processor)
      → AllFlushable registry p.buckets
      → Reports (given calls) p (process_all registry calls (some p))
  unfolding process_all
  process_all-Reports [] p valid = stop-Reports p valid
  process_all-Reports ((t, e) ∷ calls) p valid =
      after_process e calls p (process t registry e p) (process-Takes registry safe e p valid t)
        (process_all-Reports calls)

  process_all-BacksAfter :
      (p : Processor) (calls : List (Times × Event)) (o : Option Processor)
      → BacksAfter p o
      → BacksAfter p (process_all registry calls o)
  unfolding process_all
  process_all-BacksAfter p calls none h = faulted
  process_all-BacksAfter p [] (some _) (ended q h) = stop-BacksAfter p registry q h
  process_all-BacksAfter p ((t, e) ∷ calls) (some _) (ended q h) =
      process_all-BacksAfter p calls (process t registry e q)
        (process-BacksAfter p t registry e q h)

  -- As long as no write of the storage engine fails, and with handlers that read only what they
  -- validated, the batch processor takes any events at any times, its switch for dropping set or not,
  -- and stops; of the events that pass any test, as many have then been reported to the observers as
  -- were given, reported before, or waiting in a bucket, and none is left in a bucket. Where there is a
  -- storage engine, it holds as many more of them as were meanwhile reported as processed.
  pub process_all-Settles :
      (calls : List (Times × Event)) (p : Processor)
      → AllFlushable registry p.buckets
      → Settles (given calls) p (process_all registry calls (some p))
  process_all-Settles calls p valid =
      let (p', done, empty, reported) = process_all-Reports calls p valid in
      (
        p',
        done,
        empty,
        reported,
        ended-Backs p p' _ done (process_all-BacksAfter p calls (some p) (ended p (λ f. refl))),
      )
