-- ===== src/Realtime/Tests.antt =====
-- A processor with storage and a dead letter queue.
use event_stream_core.Common.{ℕ, ◌≡◌, refl, false, true, Option, none, some, List, [], ◌∷◌, codes}
use event_stream_core.Event.{Event, blank_event}
use event_stream_core.DeadLetterQueue
use event_stream_core.Handler.{with_first, sensor_temperature_handler}
use event_stream_core.Handler.Safety.{handlers_IsSafe}
use event_stream_core.Realtime.{
  Notice, Processor, Times, emit_alert, drop_event, count_processed, store_and_notify, enforce_sla,
  after_handle, handled, checked, process,
}
use event_stream_core.Realtime.Fate.{Ends, process_lem}

abbrev fresh : Processor
fresh = record {
  max_processing_ms = 5;
  metrics = record {
    total_events_processed = 0;
    total_events_dropped = 0;
    current_queue_depth = 0;
    last_event_timestamp_ms = 0;
  };
  storage = some [];
  dlq = some DeadLetterQueue.empty;
  alerts = [];
  notices = [];
}

abbrev reading : ℕ → Event
reading value = record blank_event { topic = codes "sensor/temperature"; body = value ∷ [] }

abbrev quick : Times
quick = record { now_ns = 9; elapsed_ms = 1; stamped = none; write_fails = false }

abbrev slow : Times
slow = record { now_ns = 9; elapsed_ms = 6; stamped = none; write_fails = false }

abbrev metrics_after : Option Processor → Option (ℕ × ℕ)
metrics_after none = none
metrics_after (some p) = some (p.metrics.total_events_processed, p.metrics.total_events_dropped)

-- An event that is handled too late counts as processed and as dropped.
late_counts_twice :
    metrics_after (process slow sensor_temperature_handler (reading 20) fresh) ≡ some (1, 1)
unfolding process checked handled after_handle enforce_sla drop_event emit_alert count_processed
    sensor_temperature_handler with_first
late_counts_twice = refl

-- An event that cannot be written counts as processed, and nobody hears of it.
abbrev notices_after : Option Processor → Option (List Notice)
notices_after none = none
notices_after (some p) = some p.notices

abbrev failing : Times
failing = record { now_ns = 9; elapsed_ms = 1; stamped = none; write_fails = true }

failed_write_is_silent :
    let out = process failing sensor_temperature_handler (reading 20) fresh in
    (metrics_after out ≡ some (1, 0)) × (notices_after out ≡ some [])
unfolding process checked handled after_handle enforce_sla store_and_notify count_processed
    sensor_temperature_handler with_first
failed_write_is_silent = (refl, refl)

process_lem_example :
    Ends quick (reading 120) fresh (process quick sensor_temperature_handler (reading 120) fresh)
process_lem_example =
    process_lem quick sensor_temperature_handler (reading 120) fresh (handlers_IsSafe.1)
