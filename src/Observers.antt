-- ===== src/Observers.antt =====
-- include/eventstream/core/processor/output.hpp: the observers that the processors report to, with
-- the subscribers of the C interface (`EscObserver` of src/bridge/esccore.cpp) among them. `log` is
-- what the observers did, newest first; a callback's answer may depend on all calls before it. A
-- notification is one step: what the observers see of notifications that overlap, from the threads of
-- two processors, is not modelled.
pub mod Calls
pub mod Ended
pub mod Round
pub mod Numbering
pub mod Run
mod Tests
use event_stream_core.Common.{
  ℕ, ◌+◌, Bool, true, false, not, ◌&&◌, ◌||◌, Option, none, some, List, [], ◌∷◌, ◌++◌, leb, ◌==◌,
  if◌then◌else◌, length, Bytes, codes, u64, bytes_eq,
}
use event_stream_core.Event.{Event}
use event_stream_core.Handler.{starts_with}

-- Where the built-in observers say that an event goes on to.
pub data Destination : Type 0 where
  emergency_svc monitoring payment_status state_change compliance analytics : Destination

-- An `EscObserver` has its number, the prefix of its topics, and its flag `active`.
pub data Observer : Type 0 where
  realtime_alert transactional_business batch_analytics : Observer
  dropped_event_monitor : ℕ → Observer
  esc_observer : ℕ → Bytes → Bool → Observer

pub data Entry : Type 0 where
  called : ℕ → Event → Entry
  routed : Destination → Event → Entry
  drop_noted : Event → Entry

-- `ProcessedEventStream`.
pub record ProcessedEventStream : Type 0 where
  pub enabled : Bool
  pub observers : List Observer
  pub defaults_registered : Bool
  pub log : List Entry

abbrev pub no_observers : ProcessedEventStream
no_observers = record { enabled = true; observers = []; defaults_registered = false; log = [] }

abbrev pub is_active : Observer → Bool
is_active (esc_observer id prefix active) = active
is_active _ = true

unfoldable pub realtime_destination : Bytes → Option Destination
realtime_destination topic =
    if starts_with (codes "sensor/pressure") topic
    then some emergency_svc
    else if starts_with (codes "sensor/temperature") topic
    then some monitoring
    else none

unfoldable pub transactional_destination : Bytes → Option Destination
transactional_destination topic =
    if starts_with (codes "payment") topic
    then some payment_status
    else if starts_with (codes "state") topic
    then some state_change
    else if starts_with (codes "audit") topic
    then some compliance
    else none

unfoldable pub batch_destination : Bytes → Option Destination
batch_destination topic = if starts_with (codes "audit") topic then some analytics else none

abbrev pub route_to : Option Destination → Event → List Entry → List Entry
route_to none e log = log
route_to (some d) e log = routed d e ∷ log

abbrev pub routed_by :
    Bytes → Bytes → (Bytes → Option Destination) → Event → List Entry → List Entry
routed_by proc name destination e log =
    if bytes_eq proc name then route_to (destination e.topic) e log else log

-- The filter of a subscriber: an empty prefix takes every topic.
unfoldable pub wants : Bytes → Event → Bool
wants prefix e = not (not (leb (length prefix) 0) && not (starts_with prefix e.topic))

-- What the callback of a subscriber returns, non-zero to unsubscribe, after the calls in the log.
abbrev pub Answers : Type 0
Answers = List Entry → ℕ → Event → Bool

unfoldable pub on_event_processed :
    Answers → Bytes → Event → Observer → List Entry → Observer × List Entry
unfolding wants realtime_destination transactional_destination batch_destination
on_event_processed answers proc e realtime_alert log =
    (realtime_alert, routed_by proc (codes "RealtimeProcessor") realtime_destination e log)
on_event_processed answers proc e transactional_business log = (
  transactional_business,
  routed_by proc (codes "TransactionalProcessor") transactional_destination e log,
)
on_event_processed answers proc e batch_analytics log =
    (batch_analytics, routed_by proc (codes "BatchProcessor") batch_destination e log)
on_event_processed answers proc e (dropped_event_monitor n) log = (dropped_event_monitor n, log)
on_event_processed answers proc e (esc_observer id prefix active) log =
    if active && wants prefix e
    then (esc_observer id prefix (not (answers log id e)), called id e ∷ log)
    else (esc_observer id prefix active, log)

abbrev pub noted_by : Bytes → Bytes → Event → List Entry → List Entry
noted_by proc name e log = if bytes_eq proc name then drop_noted e ∷ log else log

unfoldable pub on_event_dropped : Bytes → Event → Observer → List Entry → Observer × List Entry
on_event_dropped proc e realtime_alert log =
    (realtime_alert, noted_by proc (codes "RealtimeProcessor") e log)
on_event_dropped proc e transactional_business log =
    (transactional_business, noted_by proc (codes "TransactionalProcessor") e log)
on_event_dropped proc e batch_analytics log =
    (batch_analytics, noted_by proc (codes "BatchProcessor") e log)
on_event_dropped proc e (dropped_event_monitor n) log =
    (dropped_event_monitor (u64 (n + 1)), drop_noted e ∷ log)
on_event_dropped proc e (esc_observer id prefix active) log = (esc_observer id prefix active, log)

-- The loop over the observers: inactive ones are passed over.
unfoldable pub notify_each :
    (Observer → List Entry → Observer × List Entry)
    → List Observer
    → List Entry
    → List Observer × List Entry
notify_each on_event [] log = ([], log)
notify_each on_event (o ∷ os) log =
    let (o', log') = if is_active o then on_event o log else (o, log) in
    let (os', log'') = notify_each on_event os log' in (o' ∷ os', log'')

abbrev pub any_inactive : List Observer → Bool
any_inactive [] = false
any_inactive (o ∷ os) = not (is_active o) || any_inactive os

unfoldable pub prune_inactive : List Observer → List Observer
prune_inactive [] = []
prune_inactive (o ∷ os) = if is_active o then o ∷ prune_inactive os else prune_inactive os

-- `needs_prune` is set when the loop meets an inactive observer, and the pruning follows the loop.
unfoldable pub notify :
    (Observer → List Entry → Observer × List Entry) → ProcessedEventStream → ProcessedEventStream
unfolding notify_each prune_inactive
notify on_event s =
    let after = notify_each on_event s.observers s.log in
    if s.enabled
    then record s {
      observers = if any_inactive s.observers then prune_inactive after.0 else after.0;
      log = after.1;
    }
    else s

unfoldable pub notify_processed :
    Answers → Event → Bytes → ProcessedEventStream → ProcessedEventStream
unfolding notify on_event_processed
notify_processed answers e proc s = notify (on_event_processed answers proc e) s

unfoldable pub notify_dropped : Event → Bytes → ProcessedEventStream → ProcessedEventStream
unfolding notify on_event_dropped
notify_dropped e proc s = notify (on_event_dropped proc e) s

unfoldable pub subscribe : Option Observer → ProcessedEventStream → ProcessedEventStream
subscribe none s = s
subscribe (some o) s = record s { observers = s.observers ++ o ∷ [] }

unfoldable pub set_enabled : Bool → ProcessedEventStream → ProcessedEventStream
set_enabled enabled s = record s { enabled = enabled }

unfoldable pub has_observers : ProcessedEventStream → Bool
has_observers s = not (length s.observers == 0)

-- `registerDefaultObservers`, which its flag makes idempotent.
unfoldable pub register_default_observers : ProcessedEventStream → ProcessedEventStream
register_default_observers s = if s.defaults_registered then s else record s {
  defaults_registered = true;
  observers =
      s.observers
      ++ (realtime_alert ∷ transactional_business ∷ batch_analytics ∷ dropped_event_monitor 0 ∷ []);
}

unfoldable pub clear_all_observers : ProcessedEventStream → ProcessedEventStream
clear_all_observers s = record s { observers = []; defaults_registered = false }
