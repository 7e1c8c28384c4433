-- ===== src/Realtime.antt =====
-- src/core/processor/realtime.cpp: what the realtime processor does with an event. The observers, the
-- alert handler and the storage engine are lists of what they are given, in order; the storage engine
-- and the dead letter queue may be null. The handler is the one that `Handler.get_or_default` finds.
-- NUMA binding and logging leave no state.
pub mod Fate
mod Tests
use event_stream_core.Common.{
  ℕ, Bool, false, Option, none, some, List, [], ◌∷◌, ◌++◌, ltb, if◌then◌else◌, Bytes, codes,
}
use event_stream_core.Event.{Event}
use event_stream_core.DeadLetterQueue
use event_stream_core.DeadLetterQueue.{DeadLetterQueue}
use event_stream_core.Bus.{BusMetrics, add_processed, add_dropped, stamp}
use event_stream_core.Handler.{
  AlertLevel, warning, Message, text, formatted, ValidationResult, HandleOutcome, success, fail,
  alert, dropped, HandleResult, EventHandler,
}

pub data Notice : Type 0 where
  processed : Event → Notice
  dropped_for : Event → Message → Notice

pub record Alert : Type 0 where
  pub level : AlertLevel
  pub message : Message
  pub source : Bytes
  pub event_id : ℕ
  pub timestamp_ns : ℕ
  pub context : Bytes

pub record Processor : Type 0 where
  pub max_processing_ms : ℕ
  pub metrics : BusMetrics
  pub storage : Option (List Event)
  pub dlq : Option DeadLetterQueue
  pub alerts : List Alert
  pub notices : List Notice

-- The readings of the clocks during one call, and whether a write of the storage engine fails in it.
pub record Times : Type 0 where
  pub now_ns : ℕ
  pub elapsed_ms : ℕ
  pub stamped : Option ℕ
  pub write_fails : Bool

abbrev pub push_dlq : Option DeadLetterQueue → Event → Option DeadLetterQueue
push_dlq none e = none
push_dlq (some d) e = some (DeadLetterQueue.push d e)

abbrev pub store_event : Option (List Event) → Event → Option (List Event)
store_event none e = none
store_event (some events) e = some (events ++ e ∷ [])

unfoldable pub emit_alert : ℕ → AlertLevel → Message → Event → Processor → Processor
emit_alert now_ns level message e p = record p {
  alerts =
      p.alerts
      ++ record {
        level = level;
        message = message;
        source = e.topic;
        event_id = e.header.id;
        timestamp_ns = now_ns;
        context = e.body;
      }
        ∷ [];
}

-- The three statements of every drop.
unfoldable pub drop_event : Message → Event → Processor → Processor
drop_event reason e p = record p {
  metrics = add_dropped 1 p.metrics;
  dlq = push_dlq p.dlq e;
  notices = p.notices ++ dropped_for e reason ∷ [];
}

unfoldable pub count_processed : Processor → Processor
count_processed p = record p { metrics = add_processed p.metrics }

-- Whether `storeEvent` throws.
abbrev pub store_throws : Bool → Option (List Event) → Bool
store_throws write_fails none = false
store_throws write_fails (some events) = write_fails

-- The last two statements: where `storeEvent` throws, `process` ends there, with what it has done.
unfoldable pub store_and_notify : Bool → Event → Processor → Processor
store_and_notify write_fails e p =
    if store_throws write_fails p.storage
    then p
    else record p { storage = store_event p.storage e; notices = p.notices ++ processed e ∷ [] }

-- The SLA, and what follows for an event within it.
unfoldable pub enforce_sla : Times → Event → Processor → Processor
unfolding drop_event emit_alert store_and_notify
enforce_sla t e p =
    if ltb p.max_processing_ms t.elapsed_ms
    then drop_event (text (codes "sla_breach")) e (
        emit_alert t.now_ns AlertLevel.warning
          (formatted (codes "SLA breach: {}ms > {}ms") (t.elapsed_ms ∷ p.max_processing_ms ∷ [])) e
          p)
    else store_and_notify t.write_fails e (record p { metrics = stamp t.stamped p.metrics })

unfoldable pub after_handle : Times → Event → Processor → HandleResult → HandleOutcome → Processor
unfolding drop_event count_processed emit_alert enforce_sla
after_handle t e p r HandleOutcome.alert =
    enforce_sla t e (count_processed (emit_alert t.now_ns r.alert_level r.message e p))
after_handle t e p r HandleOutcome.success = enforce_sla t e (count_processed p)
after_handle t e p r HandleOutcome.fail = drop_event r.message e p
after_handle t e p r HandleOutcome.dropped = drop_event r.message e p

unfoldable pub handled : Times → Event → Processor → Option HandleResult → Option Processor
unfolding after_handle
handled t e p none = none
handled t e p (some r) = some (after_handle t e p r r.outcome)

unfoldable pub checked :
    Times → EventHandler → Event → Processor → Option ValidationResult → Option Processor
unfolding handled drop_event
checked t h e p none = none
checked t h e p (some r) =
    if r.valid then handled t e p (h.handle e) else some (drop_event (text r.error) e p)

-- `process`; `none` where the handler reads outside the event's body. An exception that leaves it
-- is caught by the loop that calls it.
unfoldable pub process : Times → EventHandler → Event → Processor → Option Processor
unfolding checked drop_event
process t h e p =
    let v = h.validate e in
    if v.valid then checked t h e p (h.check_rules e) else some (drop_event (text v.error) e p)
