-- ===== src/Transactional.antt =====
-- src/core/processor/transactional.cpp: retries, and no event twice. What stands around the processor
-- is as in `Realtime`; the histogram is the list of the latencies it is given. `insert` and `cleanup`
-- run on the processor's one thread, so that no race is lost.
pub mod Once
mod Tests
use event_stream_core.Common.{
  ℕ, zero, suc, ◌+◌, ◌-◌, ◌^◌, Bool, true, false, ◌||◌, Option, none, some, List, [], ◌∷◌, ◌++◌,
  ltb, ◌==◌, if◌then◌else◌, codes, u64,
}
use event_stream_core.Event.{Event}
use event_stream_core.DeadLetterQueue.{DeadLetterQueue}
use event_stream_core.Bus.{BusMetrics, add_processed, add_dropped, stamp}
use event_stream_core.Dedup
use event_stream_core.Dedup.{Deduplicator}
use event_stream_core.Handler.{
  Message, text, ValidationResult, HandleOutcome, success, fail, alert, dropped, HandleResult,
  EventHandler,
}
use event_stream_core.Realtime.{Notice, processed, dropped_for, push_dlq, store_event, store_throws}

pub record Processor : Type 0 where
  pub paused : Bool
  pub max_retries : ℕ
  pub dedup_table : Deduplicator
  pub last_cleanup_ms : ℕ
  pub latencies : List ℕ
  pub metrics : BusMetrics
  pub storage : Option (List Event)
  pub dlq : Option DeadLetterQueue
  pub notices : List Notice

-- The readings of the clocks during one call, whether a write of the storage engine fails in it, and
-- the handler's answer to each attempt.
pub record Call : Type 0 where
  pub now_ms : ℕ
  pub done_ns : ℕ
  pub stamped : Option ℕ
  pub write_fails : Bool
  pub handler : EventHandler
  pub answers : ℕ → Option HandleResult

unfoldable pub pause_processing : Processor → Processor
pause_processing p = record p { paused = true }

unfoldable pub resume_processing : Processor → Processor
resume_processing p = record p { paused = false }

unfoldable pub drop_event : Message → Event → Processor → Processor
drop_event reason e p = record p {
  metrics = add_dropped 1 p.metrics;
  dlq = push_dlq p.dlq e;
  notices = p.notices ++ dropped_for e reason ∷ [];
}

-- Every ten seconds; the difference is unsigned.
unfoldable pub clean_up : ℕ → Processor → Processor
clean_up now_ms p =
    if p.last_cleanup_ms == 0 || ltb 10000 (u64 (now_ms + 2 ^ 64 - p.last_cleanup_ms))
    then record p { last_cleanup_ms = now_ms; dedup_table = (Dedup.cleanup now_ms p.dedup_table).0 }
    else p

abbrev pub is_success : HandleOutcome → Bool
is_success HandleOutcome.success = true
is_success HandleOutcome.alert = true
is_success HandleOutcome.fail = false
is_success HandleOutcome.dropped = false

-- The outcome of an attempt, and the attempts that are left.
unfoldable pub try_again : Option HandleResult → Option Bool → Option Bool
try_again none rest = none
try_again (some r) rest = if is_success r.outcome then some true else rest

-- The loop over the attempts, from `attempt` on; `none` where the handler reads outside the body.
unfoldable pub attempts : (ℕ → Option HandleResult) → ℕ → ℕ → Option Bool
unfolding try_again
attempts answers attempt zero = some false
attempts answers attempt (suc left) =
    try_again (answers attempt) (attempts answers (attempt + 1) left)

unfoldable pub record_latency : ℕ → Event → Processor → Processor
record_latency done_ns e p =
    if ltb 0 e.dequeue_time_ns
    then record p { latencies = p.latencies ++ u64 (done_ns + 2 ^ 64 - e.dequeue_time_ns) ∷ [] }
    else p

abbrev pub no_races : ℕ → List Dedup.Entry
no_races attempt = []

-- What follows once the event is stored; where `storeEvent` throws, `process` ends before it.
unfoldable pub store_and_notify : Call → Event → Processor → Processor
unfolding record_latency
store_and_notify c e p =
    let p' = record_latency c.done_ns e (record p { storage = store_event p.storage e }) in
    if store_throws c.write_fails p.storage then p else record p' {
      metrics = stamp c.stamped p'.metrics;
      notices = p'.notices ++ processed e ∷ [];
    }

unfoldable pub succeed : Call → Event → Processor → Processor
unfolding store_and_notify
succeed c e p = store_and_notify c e (record p {
  dedup_table = (Dedup.insert no_races e.header.id c.now_ms p.dedup_table).0;
  metrics = add_processed p.metrics;
})

unfoldable pub settle : Call → Event → Processor → Option Bool → Option Processor
unfolding succeed drop_event
settle c e p none = none
settle c e p (some true) = some (succeed c e p)
settle c e p (some false) = some (drop_event (text (codes "max_retries_exceeded")) e p)

unfoldable pub checked : Call → Event → Processor → Option ValidationResult → Option Processor
unfolding settle attempts drop_event
checked c e p none = none
checked c e p (some r) =
    if r.valid
    then settle c e p (attempts c.answers 1 p.max_retries)
    else some (drop_event (text r.error) e p)

unfoldable pub validated : Call → Event → Processor → Option Processor
unfolding checked drop_event
validated c e p =
    let v = c.handler.validate e in
    if v.valid
    then checked c e p (c.handler.check_rules e)
    else some (drop_event (text v.error) e p)

unfoldable pub process : Call → Event → Processor → Option Processor
unfolding validated clean_up drop_event
process c e p =
    if p.paused
    then some (drop_event (text (codes "processor_paused")) e p)
    else if Dedup.is_duplicate p.dedup_table e.header.id c.now_ms
    then some p
    else validated c e (clean_up c.now_ms p)
