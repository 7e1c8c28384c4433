-- ===== src/Batch/Tests.antt =====
-- A processor with two topics, and one handler that fails.
use event_stream_core.Common.{ℕ, true, false, none, some, List, [], ◌∷◌, Bytes, codes}
use event_stream_core.Event.{Event, blank_event}
use event_stream_core.Bus
use event_stream_core.Handler.{
  info, HandleOutcome, EventHandler, Registry, base_validate, base_check_rules, payment_handler,
  text,
}
use event_stream_core.Handler.Safety.{handlers_IsSafe}
use event_stream_core.Batch.{Processor, Times}
use event_stream_core.Batch.Safety.{IsSafeRegistry}
use event_stream_core.Batch.Settled.{process_all, given, Settles, process_all-Settles}

abbrev no_metrics : Bus.BusMetrics
no_metrics = record {
  total_events_processed = 0;
  total_events_dropped = 0;
  current_queue_depth = 0;
  last_event_timestamp_ms = 0;
}

abbrev refusing : EventHandler
refusing = record {
  validate = base_validate;
  check_rules = base_check_rules;
  handle =
      λ e. some (record { outcome = HandleOutcome.fail; message = text []; alert_level = info });
}

abbrev registry : Registry
registry = (codes "payment", payment_handler) ∷ (codes "bad", refusing) ∷ []

registry-IsSafe : IsSafeRegistry registry
registry-IsSafe = (handlers_IsSafe.3, ((λ e h. (λ x. cc, λ x. cc)), tt))

abbrev begun : Processor
begun = record {
  drop_events = false;
  window = 5;
  bus = Bus.init no_metrics;
  has_dlq = true;
  storage = some [];
  metrics = no_metrics;
  buckets = [];
  notices = [];
}

abbrev about : Bytes → ℕ → Event
about topic id = record blank_event {
  header = record (blank_event.header) { id = id };
  topic = topic;
  body = 1 ∷ 2 ∷ 3 ∷ 4 ∷ [];
}

abbrev at_time : ℕ → Times
at_time now = record { now = now; stamped = none }

abbrev calls : List (Times × Event)
calls =
    (at_time 1, about (codes "payment") 1)
    ∷ (at_time 2, about (codes "bad") 2)
    ∷ (at_time 9, about (codes "payment") 3)
    ∷ (at_time 10, about [] 4)
    ∷ []

process_all-Settles_example : Settles (given calls) begun (process_all registry calls (some begun))
process_all-Settles_example = process_all-Settles registry registry-IsSafe calls begun tt
