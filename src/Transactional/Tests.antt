-- ===== src/Transactional/Tests.antt =====
-- A processor with a small table.
use event_stream_core.Common.{
  ℕ, ◌≡◌, refl, true, false, Option, none, some, [], arith, ◌==◌, if◌then◌else◌, codes,
}
use event_stream_core.Event.{Event, blank_event}
use event_stream_core.DeadLetterQueue
use event_stream_core.Dedup
use event_stream_core.Handler.{
  AlertLevel, text, HandleOutcome, HandleResult, result_success, default_handler,
}
use event_stream_core.Transactional.{
  Processor, Call, clean_up, try_again, attempts, succeed, process,
}
use event_stream_core.Transactional.Once.{process_once}

abbrev fresh : Processor
fresh = record {
  paused = false;
  max_retries = 3;
  dedup_table = Dedup.empty 2;
  last_cleanup_ms = 0;
  latencies = [];
  metrics = record {
    total_events_processed = 0;
    total_events_dropped = 0;
    current_queue_depth = 0;
    last_event_timestamp_ms = 0;
  };
  storage = some [];
  dlq = some DeadLetterQueue.empty;
  notices = [];
}

abbrev failed : HandleResult
failed = record { outcome = HandleOutcome.fail; alert_level = AlertLevel.info; message = text [] }

abbrev done_at : ℕ → ℕ → Option HandleResult
done_at n k = if k == n then some (result_success (text [])) else some failed

abbrev an_event : Event
an_event = record blank_event { topic = codes "orders" }

abbrev call_at : ℕ → ℕ → Call
call_at now n = record {
  now_ms = now;
  done_ns = 0;
  stamped = none;
  write_fails = false;
  handler = default_handler;
  answers = done_at n;
}

third_attempt_succeeds : attempts (done_at 3) 1 3 ≡ some true
unfolding attempts try_again
third_attempt_succeeds = refl

fourth_is_too_late : attempts (done_at 4) 1 3 ≡ some false
unfolding attempts try_again
fourth_is_too_late = refl

process_once_example :
    let p' = succeed (call_at 5 2) an_event (clean_up 5 fresh) in
    (process (call_at 5 2) an_event fresh ≡ some p') × (process (call_at 6 1) an_event p' ≡ some p')
unfolding attempts try_again Dedup.empty Dedup.is_duplicate Dedup.in_chain
process_once_example =
    process_once (call_at 5 2) (call_at 6 1) an_event an_event fresh (omega arith) refl refl refl
      refl refl refl
