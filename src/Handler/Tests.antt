-- ===== src/Handler/Tests.antt =====
-- The default handlers.
use event_stream_core.Common.{ℕ, ◌≡◌, refl, some, [], ◌∷◌, codes, bytes_eq}
use event_stream_core.Event.{Event, blank_event}
use event_stream_core.Handler.{
  AlertLevel, formatted, result_alert, with_first, sensor_temperature_handler, audit_handler,
  Registry, find_handler, starts_with, best_handler, found_or, get_handler, or_default,
  get_or_default,
}

abbrev reading : ℕ → Event
reading value = record blank_event { topic = codes "sensor/temperature/7"; body = value ∷ [] }

abbrev two_handlers : Registry
two_handlers =
    (codes "sensor", audit_handler) ∷ (codes "sensor/temperature", sensor_temperature_handler) ∷ []

hot :
    sensor_temperature_handler.handle (reading 101)
    ≡ some (
        result_alert AlertLevel.critical_alert
          (formatted (codes "Temperature critical: {}C") (101 ∷ [])))
unfolding sensor_temperature_handler with_first
hot = refl

longest_prefix_wins :
    get_or_default (codes "sensor/temperature/7") two_handlers ≡ sensor_temperature_handler
unfolding get_or_default or_default get_handler found_or find_handler best_handler starts_with
    bytes_eq
longest_prefix_wins = refl
