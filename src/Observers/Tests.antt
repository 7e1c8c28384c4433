-- ===== src/Observers/Tests.antt =====
-- Two subscribers, one of which leaves after its first call.
use event_stream_core.Common.{◌≡◌, refl, true, List, [], ◌∷◌, ◌==◌, codes, bytes_eq}
use event_stream_core.Event.{Event, blank_event}
use event_stream_core.Observers.{
  esc_observer, ProcessedEventStream, no_observers, wants, Answers, notify_processed, subscribe,
  register_default_observers,
}
use event_stream_core.Observers.Calls.{calls_of, notify_processed_lem}
use event_stream_core.Observers.Ended.{IsRespectful}
use event_stream_core.Observers.Run.{
  Operation, processed_by, subscribes, registers, apply, run, run-IsRespectful,
}
use event_stream_core.Handler.{starts_with}

abbrev leaving : Answers
leaving log id e = id == 0

abbrev payment : Event
payment = record blank_event { topic = codes "payment/eu" }

abbrev operations : List Operation
operations =
    registers
    ∷ subscribes (codes "pay")
    ∷ subscribes []
    ∷ processed_by (codes "BatchProcessor") payment
    ∷ processed_by (codes "TransactionalProcessor") payment
    ∷ []

abbrev subscribed : ProcessedEventStream
subscribed = record no_observers {
  observers =
      esc_observer 0 (codes "pay") true
      ∷ esc_observer 1 [] true
      ∷ esc_observer 2 (codes "audit") true
      ∷ [];
}

the_first_is_called_once :
    calls_of (run leaving operations no_observers 0).0.log
    ≡ (1, payment) ∷ (1, payment) ∷ (0, payment) ∷ []
unfolding apply notify_processed register_default_observers subscribe starts_with bytes_eq
the_first_is_called_once = refl

notify_processed_lem_example :
    calls_of (notify_processed leaving payment (codes "BatchProcessor") subscribed).log
    ≡ (1, payment) ∷ (0, payment) ∷ []
unfolding wants starts_with
notify_processed_lem_example =
    notify_processed_lem leaving payment (codes "BatchProcessor") subscribed

run-IsRespectful_example : IsRespectful leaving (run leaving operations no_observers 0).0.log
run-IsRespectful_example = run-IsRespectful leaving operations
