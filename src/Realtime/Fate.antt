-- ===== src/Realtime/Fate.antt =====
-- Every event has one fate.
use event_stream_core.Common.{
  ℕ, ◌+◌, ◌≡◌, refl, sym, ap, subst, ◌∙◌, ◌≢◌, ◌⊎◌, inl, inr, true, false, Option, none, some, [],
  ◌∷◌, ◌++◌, ltb, if◌then◌else◌, Bool-cases, codes, u64,
}
use event_stream_core.Event.{Event}
use event_stream_core.Bus.{BusMetrics, stamp, add_processed}
use event_stream_core.Handler.{
  Message, text, ValidationResult, HandleOutcome, HandleResult, EventHandler,
}
use event_stream_core.Handler.Safety.{IsSafe}
use event_stream_core.Realtime.{
  processed, dropped_for, Processor, Times, push_dlq, store_event, emit_alert, drop_event,
  count_processed, store_throws, store_and_notify, enforce_sla, after_handle, handled, checked,
  process,
}

-- Stored and reported, or dropped and reported with a reason; or, where the storage engine throws,
-- counted as processed and nothing else.
abbrev pub Fate : Times → Event → Processor → Processor → Type 0
Fate t e p p' =
    ((store_throws t.write_fails p.storage ≡ false)
      × (p'.storage ≡ store_event p.storage e)
      × (p'.dlq ≡ p.dlq)
      × (p'.notices ≡ p.notices ++ processed e ∷ [])
      × (p'.metrics.total_events_dropped ≡ p.metrics.total_events_dropped)
      × (p'.metrics.total_events_processed ≡ u64 (p.metrics.total_events_processed + 1)))
    ⊎ ((p'.storage ≡ p.storage)
        × (p'.dlq ≡ push_dlq p.dlq e)
        × (reason : Message) × (p'.notices ≡ p.notices ++ dropped_for e reason ∷ [])
        × (p'.metrics.total_events_dropped ≡ u64 (p.metrics.total_events_dropped + 1)))
    ⊎ ((store_throws t.write_fails p.storage ≡ true)
        × (p'.storage ≡ p.storage)
        × (p'.dlq ≡ p.dlq)
        × (p'.notices ≡ p.notices)
        × (p'.metrics.total_events_dropped ≡ p.metrics.total_events_dropped)
        × (p'.metrics.total_events_processed ≡ u64 (p.metrics.total_events_processed + 1)))

drop_event-Fate :
    (t : Times) (reason : Message) (e : Event) (p : Processor) → Fate t e p (drop_event reason e p)
unfolding drop_event
drop_event-Fate t reason e p = inr (inl (refl, refl, reason, refl, refl))

stamp_counts :
    (o : Option ℕ) (m : BusMetrics)
    → ((stamp o m).total_events_dropped ≡ m.total_events_dropped)
      × ((stamp o m).total_events_processed ≡ m.total_events_processed)
stamp_counts none m = (refl, refl)
stamp_counts (some t) m = (refl, refl)

-- `q` is the processor when the time of the event is written.
store_and_notify-Fate :
    (t : Times) (e : Event) (p q : Processor)
    → q.storage ≡ p.storage
    → q.dlq ≡ p.dlq
    → q.notices ≡ p.notices
    → q.metrics.total_events_dropped ≡ p.metrics.total_events_dropped
    → q.metrics.total_events_processed ≡ u64 (p.metrics.total_events_processed + 1)
    → Fate t e p (store_and_notify t.write_fails e q)
unfolding store_and_notify
store_and_notify-Fate t e p q storage dlq notices dropped counted =
    let same = ap (λ s. store_throws t.write_fails s) storage in
    elim (Bool-cases (store_throws t.write_fails q.storage)) [
      | inl throws ↦
          rw throws (inr (inr (sym same ∙ throws, storage, dlq, notices, dropped, counted)))
      | inr stores ↦ rw stores (
          inl (
            sym same ∙ stores,
            ap (λ s. store_event s e) storage,
            dlq,
            ap (λ n. n ++ processed e ∷ []) notices,
            dropped,
            counted,
          ))
    ]

-- `q` is the processor after the outcome is counted, with or without an alert.
enforce_sla-Fate :
    (t : Times) (e : Event) (p q : Processor)
    → q.storage ≡ p.storage
    → q.dlq ≡ p.dlq
    → q.notices ≡ p.notices
    → q.metrics ≡ add_processed p.metrics
    → Fate t e p (enforce_sla t e q)
unfolding enforce_sla drop_event emit_alert
enforce_sla-Fate t e p q storage dlq notices metrics =
    elim (Bool-cases (ltb q.max_processing_ms t.elapsed_ms)) [
      | inl late ↦ rw late (
          inr (
            inl (
              storage,
              ap (λ d. push_dlq d e) dlq,
              text (codes "sla_breach"),
              ap (λ n. n ++ dropped_for e (text (codes "sla_breach")) ∷ []) notices,
              ap (λ (m : BusMetrics). u64 (m.total_events_dropped + 1)) metrics,
            )))
      | inr timely ↦ rw timely (
          store_and_notify-Fate t e p (record q { metrics = stamp t.stamped q.metrics }) storage dlq
            notices
            ((stamp_counts t.stamped q.metrics).0
              ∙ ap (λ (m : BusMetrics). m.total_events_dropped) metrics)
            ((stamp_counts t.stamped q.metrics).1
              ∙ ap (λ (m : BusMetrics). m.total_events_processed) metrics))
    ]

after_handle-Fate :
    (t : Times) (e : Event) (p : Processor) (r : HandleResult) (o : HandleOutcome)
    → Fate t e p (after_handle t e p r o)
unfolding after_handle count_processed emit_alert
after_handle-Fate t e p r HandleOutcome.success = enforce_sla-Fate t e p _ refl refl refl refl
after_handle-Fate t e p r HandleOutcome.alert = enforce_sla-Fate t e p _ refl refl refl refl
after_handle-Fate t e p r HandleOutcome.fail = drop_event-Fate t r.message e p
after_handle-Fate t e p r HandleOutcome.dropped = drop_event-Fate t r.message e p

abbrev pub Ends : Times → Event → Processor → Option Processor → Type 0
Ends t e p out = (p' : Processor) × (out ≡ some p') × Fate t e p p'

handled-Ends :
    (t : Times) (e : Event) (p : Processor) (r : Option HandleResult)
    → r ≢ none
    → Ends t e p (handled t e p r)
unfolding handled
handled-Ends t e p none h = absurd (h refl)
handled-Ends t e p (some r) h = (_, refl, after_handle-Fate t e p r r.outcome)

checked-Ends :
    (t : Times) (h : EventHandler) (e : Event) (p : Processor) (r : Option ValidationResult)
    → r ≢ none
    → h.handle e ≢ none
    → Ends t e p (checked t h e p r)
unfolding checked
checked-Ends t h e p none some_r some_h = absurd (some_r refl)
checked-Ends t h e p (some r) some_r some_h = elim (Bool-cases r.valid) [
  | inl good ↦
      subst
        (λ b.
          Ends t e p
            (if b then handled t e p (h.handle e) else some (drop_event (text r.error) e p)))
        (sym good) (handled-Ends t e p (h.handle e) some_h)
  | inr bad ↦
      subst
        (λ b.
          Ends t e p
            (if b then handled t e p (h.handle e) else some (drop_event (text r.error) e p)))
        (sym bad) (_, refl, drop_event-Fate t (text r.error) e p)
]

-- With a handler that reads only inside events that it validated, `process` comes to an end. Where the
-- storage engine does not throw, the event is either stored if there is one, reported as processed and
-- counted so, or put in the dead letter queue if there is one, reported as dropped and counted so, with
-- nothing stored. Where it would throw, the event is dropped in that way too, or it is counted as
-- processed and neither stored, reported nor put in the dead letter queue.
pub process_lem :
    (t : Times) (h : EventHandler) (e : Event) (p : Processor)
    → IsSafe h
    → Ends t e p (process t h e p)
unfolding process
process_lem t h e p safe = elim (Bool-cases (h.validate e).valid) [
  | inl good ↦
      subst
        (λ b. Ends t e p (
          if b
          then checked t h e p (h.check_rules e)
          else some (drop_event (text (h.validate e).error) e p)))
        (sym good) (checked-Ends t h e p (h.check_rules e) (safe e good).0 (safe e good).1)
  | inr bad ↦
      subst
        (λ b. Ends t e p (
          if b
          then checked t h e p (h.check_rules e)
          else some (drop_event (text (h.validate e).error) e p)))
        (sym bad) (_, refl, drop_event-Fate t (text (h.validate e).error) e p)
]
