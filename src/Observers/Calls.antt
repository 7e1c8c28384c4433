-- ===== src/Observers/Calls.antt =====
-- Which subscribers a notification reaches.
use event_stream_core.Common.{
  ℕ, ◌≡◌, refl, sym, ap, ◌∙◌, inl, inr, Bool, true, false, ◌&&◌, Option, none, some, List, [], ◌∷◌,
  ◌++◌, if◌then◌else◌, Bool-cases, Bytes, codes, bytes_eq,
}
use mathlib.Core.List.{reverse, append_assoc, reverse-append}
use event_stream_core.Event.{Event}
use event_stream_core.Observers.{
  Destination, Observer, realtime_alert, transactional_business, batch_analytics,
  dropped_event_monitor, esc_observer, Entry, called, routed, drop_noted, ProcessedEventStream,
  realtime_destination, transactional_destination, batch_destination, route_to, routed_by, wants,
  Answers, on_event_processed, notify_each, notify, notify_processed,
}

-- The calls of a log, newest first.
abbrev pub calls_of : List Entry → List (ℕ × Event)
calls_of [] = []
calls_of (called id e ∷ log) = (id, e) ∷ calls_of log
calls_of (routed d e ∷ log) = calls_of log
calls_of (drop_noted e ∷ log) = calls_of log

-- The active subscribers that want an event, in the order of their subscriptions.
abbrev pub takers : Event → List Observer → List ℕ
takers e [] = []
takers e (esc_observer id prefix active ∷ os) =
    if active && wants prefix e then id ∷ takers e os else takers e os
takers e (realtime_alert ∷ os) = takers e os
takers e (transactional_business ∷ os) = takers e os
takers e (batch_analytics ∷ os) = takers e os
takers e (dropped_event_monitor n ∷ os) = takers e os

abbrev pub with_event : Event → List ℕ → List (ℕ × Event)
with_event e [] = []
with_event e (id ∷ ids) = (id, e) ∷ with_event e ids

calls_of-routed_by :
    (proc name : Bytes) (destination : Bytes → Option Destination) (e : Event) (log : List Entry)
    → calls_of (routed_by proc name destination e log) ≡ calls_of log
calls_of-routed_by proc name destination e log = either (bytes_eq proc name) (destination e.topic)
  where
    either :
        (b : Bool) (d : Option Destination)
        → calls_of (if b then route_to d e log else log) ≡ calls_of log
    either true none = refl
    either true (some d) = refl
    either false d = refl

calls_onto : List (ℕ × Event) → List (ℕ × Event) → List (ℕ × Event)
calls_onto [] acc = acc
calls_onto (c ∷ cs) acc = calls_onto cs (c ∷ acc)

calls_onto-reverse : (cs acc : List (ℕ × Event)) → calls_onto cs acc ≡ reverse cs ++ acc
unfolding calls_onto
calls_onto-reverse [] acc = refl
calls_onto-reverse (c ∷ cs) acc =
    calls_onto-reverse cs (c ∷ acc)
    ∙ sym (append_assoc (reverse cs) (c ∷ []) acc)
    ∙ ap (λ l. l ++ acc) (sym (reverse-append (c ∷ []) cs))

notify_each_calls :
    (answers : Answers) (proc : Bytes) (e : Event) (os : List Observer) (log : List Entry)
    → calls_of (notify_each (on_event_processed answers proc e) os log).1
      ≡ calls_onto (with_event e (takers e os)) (calls_of log)
unfolding notify_each on_event_processed calls_onto
notify_each_calls answers proc e [] log = refl
notify_each_calls answers proc e (realtime_alert ∷ os) log =
    notify_each_calls answers proc e os
      (routed_by proc (codes "RealtimeProcessor") realtime_destination e log)
    ∙ ap (calls_onto (with_event e (takers e os)))
        (calls_of-routed_by proc (codes "RealtimeProcessor") realtime_destination e log)
notify_each_calls answers proc e (transactional_business ∷ os) log =
    notify_each_calls answers proc e os
      (routed_by proc (codes "TransactionalProcessor") transactional_destination e log)
    ∙ ap (calls_onto (with_event e (takers e os)))
        (calls_of-routed_by proc (codes "TransactionalProcessor") transactional_destination e log)
notify_each_calls answers proc e (batch_analytics ∷ os) log =
    notify_each_calls answers proc e os
      (routed_by proc (codes "BatchProcessor") batch_destination e log)
    ∙ ap (calls_onto (with_event e (takers e os)))
        (calls_of-routed_by proc (codes "BatchProcessor") batch_destination e log)
notify_each_calls answers proc e (dropped_event_monitor n ∷ os) log =
    notify_each_calls answers proc e os log
notify_each_calls answers proc e (esc_observer id prefix false ∷ os) log =
    notify_each_calls answers proc e os log
notify_each_calls answers proc e (esc_observer id prefix true ∷ os) log =
    elim (Bool-cases (wants prefix e)) [
      | inl w ↦ rw w (notify_each_calls answers proc e os (called id e ∷ log))
      | inr w ↦ rw w (notify_each_calls answers proc e os log)
    ]

-- A processed event reaches, when reporting is enabled, every active subscriber whose prefix its
-- topic has, once, in the order of their subscriptions, and no other subscriber; when it is
-- disabled, none.
pub notify_processed_lem :
    (answers : Answers) (e : Event) (proc : Bytes) (s : ProcessedEventStream)
    → calls_of (notify_processed answers e proc s).log
      ≡ (if s.enabled then reverse (with_event e (takers e s.observers)) else []) ++ calls_of s.log
unfolding notify_processed notify
notify_processed_lem answers e proc s = elim (Bool-cases s.enabled) [
  | inl on ↦ rw on (
      notify_each_calls answers proc e s.observers s.log
      ∙ calls_onto-reverse (with_event e (takers e s.observers)) (calls_of s.log))
  | inr off ↦ rw off
]
