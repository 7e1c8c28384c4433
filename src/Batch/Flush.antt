-- ===== src/Batch/Flush.antt =====
-- The flush of one bucket.
use event_stream_core.Common.{
  ◌≡◌, refl, sym, ap, ap₂, ◌∙◌, ◌≢◌, Bool, true, false, Option, none, some, List, [], ◌∷◌, ◌++◌,
  if◌then◌else◌, All,
}
use mathlib.Core.List.{append-nil, append_assoc}
use event_stream_core.Event.{Event}
use event_stream_core.DeadLetterQueue
use event_stream_core.Bus.{Bus}
use event_stream_core.Handler.{HandleOutcome, HandleResult, EventHandler}
use event_stream_core.Realtime.{Notice, processed, dropped_for, store_event}
use event_stream_core.Batch.{Processor, push_dead, flush_event, flush_handled, flush_events}

abbrev pub event_of : Notice → Event
event_of (processed e) = e
event_of (dropped_for e reason) = e

-- The events that the observers were told of.
abbrev pub noticed : List Notice → List Event
noticed [] = []
noticed (n ∷ ns) = event_of n ∷ noticed ns

-- What the handler makes of an event when its bucket is flushed.
abbrev pub kept_one : Event → HandleOutcome → List Event
kept_one e HandleOutcome.success = e ∷ []
kept_one e HandleOutcome.alert = e ∷ []
kept_one e HandleOutcome.fail = []
kept_one e HandleOutcome.dropped = []

abbrev pub refused_one : Event → HandleOutcome → List Event
refused_one e HandleOutcome.success = []
refused_one e HandleOutcome.alert = []
refused_one e HandleOutcome.fail = e ∷ []
refused_one e HandleOutcome.dropped = e ∷ []

abbrev pub of_handled : (HandleOutcome → List Event) → Option HandleResult → List Event
of_handled f none = []
of_handled f (some r) = f r.outcome

abbrev pub kept : EventHandler → List Event → List Event
kept h [] = []
kept h (e ∷ es) = of_handled (kept_one e) (h.handle e) ++ kept h es

abbrev pub refused : EventHandler → List Event → List Event
refused h [] = []
refused h (e ∷ es) = of_handled (refused_one e) (h.handle e) ++ refused h es

abbrev pub store_events : Option (List Event) → List Event → Option (List Event)
store_events s [] = s
store_events s (e ∷ es) = store_events (store_event s e) es

abbrev pub bury : Bool → Bus → List Event → Bus
bury false b es = b
bury true b [] = b
bury true b (e ∷ es) = bury true (record b { dlq = DeadLetterQueue.push b.dlq e }) es

-- From `p` to `p'` the events `es` were settled: `ks` stored, `rs` dead letters, all reported.
pub record Flushed (es ks rs : List Event) (p p' : Processor) : Type 0 where
  pub reported : noticed p'.notices ≡ noticed p.notices ++ es
  pub stored : p'.storage ≡ store_events p.storage ks
  pub buried : p'.bus ≡ bury p.has_dlq p.bus rs
  pub has_dlq_same : p'.has_dlq ≡ p.has_dlq
  pub buckets_same : p'.buckets ≡ p.buckets
  pub metrics_same : p'.metrics ≡ p.metrics

pub noticed-append : (ms ns : List Notice) → noticed (ms ++ ns) ≡ noticed ms ++ noticed ns
noticed-append [] ns = refl
noticed-append (m ∷ ms) ns = ap (λ l. event_of m ∷ l) (noticed-append ms ns)

store_events-append :
    (s : Option (List Event)) (ks ls : List Event)
    → store_events s (ks ++ ls) ≡ store_events (store_events s ks) ls
store_events-append s [] ls = refl
store_events-append s (k ∷ ks) ls = store_events-append (store_event s k) ks ls

bury-append :
    (d : Bool) (b : Bus) (rs qs : List Event) → bury d b (rs ++ qs) ≡ bury d (bury d b rs) qs
bury-append false b rs qs = refl
bury-append true b [] qs = refl
bury-append true b (r ∷ rs) qs =
    bury-append true (record b { dlq = DeadLetterQueue.push b.dlq r }) rs qs

Flushed-nil : (p : Processor) → Flushed [] [] [] p p
Flushed-nil p = record {
  reported = sym (append-nil _);
  stored = refl;
  buried = nothing p.has_dlq p.bus;
  has_dlq_same = refl;
  buckets_same = refl;
  metrics_same = refl;
}
  where
    nothing : (d : Bool) (b : Bus) → b ≡ bury d b []
    nothing true b = refl
    nothing false b = refl

Flushed-append :
    {es fs ks ls rs qs : List Event} (p q r : Processor)
    → Flushed es ks rs p q
    → Flushed fs ls qs q r
    → Flushed (es ++ fs) (ks ++ ls) (rs ++ qs) p r
Flushed-append {es} {fs} {ks} {ls} {rs} {qs} p q r f g = record {
  reported = g.reported ∙ ap (λ l. l ++ fs) f.reported ∙ append_assoc (noticed p.notices) es fs;
  stored =
      g.stored ∙ ap (λ s. store_events s ls) f.stored ∙ sym (store_events-append p.storage ks ls);
  buried =
      g.buried
      ∙ ap₂ (λ d b. bury d b qs) f.has_dlq_same f.buried
      ∙ sym (bury-append p.has_dlq p.bus rs qs);
  has_dlq_same = g.has_dlq_same ∙ f.has_dlq_same;
  buckets_same = g.buckets_same ∙ f.buckets_same;
  metrics_same = g.metrics_same ∙ f.metrics_same;
}

push_dead-Flushed :
    (e : Event) (n : Notice) (p : Processor)
    → event_of n ≡ e
    → Flushed
        (e ∷ [])
        []
        (e ∷ [])
        p
        (record (push_dead e p) { notices = (push_dead e p).notices ++ n ∷ [] })
unfolding push_dead
push_dead-Flushed e n p told = record {
  reported = noticed-append p.notices (n ∷ []) ∙ ap (λ x. noticed p.notices ++ x ∷ []) told;
  stored = refl;
  buried = buried_one p.has_dlq p.bus;
  has_dlq_same = refl;
  buckets_same = refl;
  metrics_same = refl;
}
  where
    buried_one :
        (d : Bool) (b : Bus)
        → (if d then record b { dlq = DeadLetterQueue.push b.dlq e } else b) ≡ bury d b (e ∷ [])
    buried_one true b = refl
    buried_one false b = refl

kept-Flushed :
    (e : Event) (p : Processor)
    → Flushed
        (e ∷ [])
        (e ∷ [])
        []
        p
        (record p { storage = store_event p.storage e; notices = p.notices ++ processed e ∷ [] })
kept-Flushed e p = record {
  reported = noticed-append p.notices (processed e ∷ []);
  stored = refl;
  buried = (Flushed-nil p).buried;
  has_dlq_same = refl;
  buckets_same = refl;
  metrics_same = refl;
}

flush_event-Flushed :
    (e : Event) (r : HandleResult) (o : HandleOutcome) (p : Processor)
    → Flushed (e ∷ []) (kept_one e o) (refused_one e o) p (flush_event e r o p)
unfolding flush_event
flush_event-Flushed e r HandleOutcome.success p = kept-Flushed e p
flush_event-Flushed e r HandleOutcome.alert p = kept-Flushed e p
flush_event-Flushed e r HandleOutcome.fail p = push_dead-Flushed e (dropped_for e r.message) p refl
flush_event-Flushed e r HandleOutcome.dropped p =
    push_dead-Flushed e (dropped_for e r.message) p refl

-- One round succeeds where the handler has an answer.
flush_handled-Flushed :
    (e : Event) (p : Processor) (a : Option HandleResult)
    → a ≢ none
    → (q : Processor) × (flush_handled e p a ≡ some q)
      × Flushed (e ∷ []) (of_handled (kept_one e) a) (of_handled (refused_one e) a) p q
unfolding flush_handled
flush_handled-Flushed e p none ok = absurd (ok refl)
flush_handled-Flushed e p (some r) ok =
    (flush_event e r r.outcome p, refl, flush_event-Flushed e r r.outcome p)

-- Flushing events that the handler has answers for reports each of them, in order: those it keeps
-- are stored, and those it fails or drops become dead letters, where there is such a queue. The
-- counters of the processor stay as they were, also for those.
pub flush_events_lem :
    (h : EventHandler) (es : List Event) (p : Processor)
    → All (λ e. h.handle e ≢ none) es
    → (p' : Processor) × (flush_events h es (some p) ≡ some p')
      × Flushed es (kept h es) (refused h es) p p'
unfolding flush_events
flush_events_lem h [] p ok = (p, refl, Flushed-nil p)
flush_events_lem h (e ∷ es) p ok =
    let (q, one, first) = flush_handled-Flushed e p (h.handle e) ok.0 in
    let (r, rest, others) = flush_events_lem h es q ok.1 in
    (r, ap (flush_events h es) one ∙ rest, Flushed-append p q r first others)
