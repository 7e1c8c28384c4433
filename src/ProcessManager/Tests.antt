-- ===== src/ProcessManager/Tests.antt =====
-- Two events for the transactional processor, which is paused.
use event_stream_core.Common.{ℕ, ◌≡◌, refl, true, false, none, some, List, [], ◌∷◌, length}
use event_stream_core.Event.{Event, blank_event}
use event_stream_core.Bus
use event_stream_core.Bus.{QueueId, BusMetrics}
use event_stream_core.DeadLetterQueue
use event_stream_core.Dedup
use event_stream_core.Handler.{default_handler}
use event_stream_core.Transactional
use event_stream_core.ProcessManager.{
  ProcessManager, Turn, pushes, polls, starts, stops, new_manager, after_pop, note_push, run_round,
  step, run,
}
use event_stream_core.ProcessManager.Processors.{
  Processors, Surroundings, processor_of, transactional_process, after_transactional,
}
use event_stream_core.ProcessManager.Fifo.{on, IsFifo}
use event_stream_core.Bus.Drain.{queued}
use event_stream_core.ProcessManager.Processors.Order.{IsBounded, run_order}

abbrev no_metrics : BusMetrics
no_metrics = record {
  total_events_processed = 0;
  total_events_dropped = 0;
  current_queue_depth = 0;
  last_event_timestamp_ms = 0;
}

abbrev paused_processor : Transactional.Processor
paused_processor = record {
  paused = true;
  max_retries = 3;
  dedup_table = Dedup.empty 2;
  last_cleanup_ms = 0;
  latencies = [];
  metrics = no_metrics;
  storage = none;
  dlq = none;
  notices = [];
}

abbrev processors : Processors
processors = record {
  realtime = none;
  transactional = some paused_processor;
  batch = none;
  storage = some [];
}

abbrev surroundings : Surroundings
surroundings = record {
  realtime_times = λ n. record { now_ns = n; elapsed_ms = 0; stamped = none; write_fails = false };
  transactional_calls = λ n. record {
    now_ms = n;
    done_ns = n;
    stamped = none;
    write_fails = false;
    handler = default_handler;
    answers = λ k. none;
  };
  batch_times = λ n. record { now = n; stamped = none };
  registry = [];
}

abbrev event : ℕ → Event
event n = record blank_event { header = record (blank_event.header) { id = n } }

abbrev turns : List Turn
turns =
    starts
    ∷ pushes none QueueId.transactional (event 1)
    ∷ pushes none QueueId.transactional (event 2)
    ∷ polls 5 QueueId.transactional
    ∷ stops
    ∷ polls 6 QueueId.transactional
    ∷ []

abbrev ended : ProcessManager Processors
ended = run (processor_of surroundings) turns (new_manager (Bus.init no_metrics) processors)

abbrev ids : List (QueueId × Event) → List ℕ
ids [] = []
ids ((q, e) ∷ log) = e.header.id ∷ ids log

-- What is queued when the threads stop is not handed on any more.
the_second_is_left :
    (ids ended.accepted ≡ 1 ∷ 2 ∷ [])
    × (ids ended.handed ≡ 1 ∷ [])
    × (length ended.event_bus.transactional_bus.dq ≡ 1)
    × (length ended.event_bus.dlq.stored_events ≡ 1)
unfolding run step run_round after_pop note_push processor_of transactional_process
    after_transactional Bus.init Bus.push Bus.push_queue Bus.append_event Bus.pop
    Transactional.process Transactional.drop_event DeadLetterQueue.push DeadLetterQueue.store
    Dedup.empty
the_second_is_left = (refl, refl, refl, refl)

run_order_example :
    IsFifo
      (on QueueId.transactional ended.accepted)
      (on QueueId.transactional ended.handed)
      (queued QueueId.transactional ended.event_bus)
    × IsBounded ended.event_bus
run_order_example =
    run_order surroundings no_metrics processors turns QueueId.transactional (λ e. cc)
