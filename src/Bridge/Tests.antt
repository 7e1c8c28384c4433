-- ===== src/Bridge/Tests.antt =====
-- The C interface on an engine with three queued events.
use event_stream_core.Common.{◌≡◌, refl, ◌≢◌, true, false, none, [], ◌∷◌}
use event_stream_core.Event.{blank_event}
use event_stream_core.Bus
use event_stream_core.IngestEventPool
use event_stream_core.Observers.{no_observers}
use event_stream_core.Bridge.{
  Globals, Wiring, set_up, leak, esccore_init, queue_depth, esccore_metrics, esccore_health,
}
use event_stream_core.Bridge.Lifecycle.{inits, shuts_down, subscribes, call_all, call_all_answers}

abbrev no_metrics : Bus.BusMetrics
no_metrics = record {
  total_events_processed = 3;
  total_events_dropped = 1;
  current_queue_depth = 0;
  last_event_timestamp_ms = 0;
}

abbrev bus : Bus.Bus
unfolding Bus.init
bus =
    let b = Bus.init no_metrics in
    record b {
      transactional_bus = record (b.transactional_bus) { dq = blank_event ∷ blank_event ∷ [] };
      batch_bus = record (b.batch_bus) { dq = blank_event ∷ [] };
    }

abbrev down : Globals
down = record {
  initialised = false;
  engine = none;
  leaked = [];
  pool = IngestEventPool.start;
  handlers = [];
  stream = no_observers;
  subscriptions = 0;
}

abbrev failing : Wiring
failing = record {
  config_loads = true;
  storage_opens = true;
  tcp_enabled = true;
  tcp_starts = false;
  udp_enabled = false;
  udp_starts = false;
  fresh_bus = bus;
}

a_failed_start_leaves_a_running_engine : (esccore_init failing down).0.leaked ≡ true ∷ []
unfolding esccore_init set_up leak
a_failed_start_leaves_a_running_engine = refl

five_for_three_events : queue_depth bus ≡ 5
unfolding queue_depth Bus.size Bus.init
five_for_three_events = refl

call_all_answers_example :
    let g = call_all (inits failing ∷ subscribes none true ∷ shuts_down false ∷ []) down in
    (esccore_metrics [] true g ≢ none) × (esccore_health true g ≢ none)
call_all_answers_example =
    call_all_answers (inits failing ∷ subscribes none true ∷ shuts_down false ∷ []) down [] true
      (λ e. cc)
