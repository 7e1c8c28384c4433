-- ===== src/Observers/Ended.antt =====
-- A subscriber that asked to be unsubscribed.
use event_stream_core.Common.{
  ℕ, ◌≡◌, refl, ◌≢◌, inl, inr, Bool, true, false, not, ◌&&◌, ◌||◌, Option, none, some, List, [],
  ◌∷◌, arith, ◌==◌, if◌then◌else◌, Bool-cases, All, Bytes, codes, bytes_eq,
}
use event_stream_core.Event.{Event}
use event_stream_core.Observers.{
  Destination, Observer, realtime_alert, transactional_business, batch_analytics,
  dropped_event_monitor, esc_observer, Entry, called, routed, drop_noted, realtime_destination,
  transactional_destination, batch_destination, route_to, routed_by, wants, Answers,
  on_event_processed, noted_by, on_event_dropped,
}

-- Whether some call of subscriber `id` was answered by a wish to be unsubscribed.
abbrev pub ended : Answers → ℕ → List Entry → Bool
ended answers id [] = false
ended answers id (called i e ∷ older) = (i == id && answers older i e) || ended answers id older
ended answers id (routed d e ∷ older) = ended answers id older
ended answers id (drop_noted e ∷ older) = ended answers id older

-- Every call was made to a subscriber that had not asked to be unsubscribed before.
abbrev pub IsRespectful : Answers → List Entry → Type 0
IsRespectful answers [] = Unit
IsRespectful answers (called i e ∷ older) =
    (ended answers i older ≡ false) × IsRespectful answers older
IsRespectful answers (routed d e ∷ older) = IsRespectful answers older
IsRespectful answers (drop_noted e ∷ older) = IsRespectful answers older

-- An active subscriber has not asked to be unsubscribed.
abbrev pub IsCurrent : Answers → List Entry → Observer → Type 0
IsCurrent answers log (esc_observer id prefix true) = ended answers id log ≡ false
IsCurrent answers log (esc_observer id prefix false) = Unit
IsCurrent answers log realtime_alert = Unit
IsCurrent answers log transactional_business = Unit
IsCurrent answers log batch_analytics = Unit
IsCurrent answers log (dropped_event_monitor n) = Unit

abbrev pub Differs : ℕ → Observer → Type 0
Differs id (esc_observer i prefix active) = i ≢ id
Differs id realtime_alert = Unit
Differs id transactional_business = Unit
Differs id batch_analytics = Unit
Differs id (dropped_event_monitor n) = Unit

abbrev pub IsNew : Observer → List Observer → Type 0
IsNew (esc_observer id prefix active) os = All (Differs id) os
IsNew realtime_alert os = Unit
IsNew transactional_business os = Unit
IsNew batch_analytics os = Unit
IsNew (dropped_event_monitor n) os = Unit

-- Each subscriber has a number of its own.
abbrev pub IsNumbered : List Observer → Type 0
IsNumbered [] = Unit
IsNumbered (o ∷ os) = IsNew o os × IsNumbered os

module _ (answers : Answers) where
  -- What one observer may do to the log: no other subscriber's end comes of it.
  abbrev pub Steps : Observer → List Entry → Observer × List Entry → Type 0
  Steps o log (o', log') =
      (IsRespectful answers log → IsCurrent answers log o → IsRespectful answers log')
      × (IsCurrent answers log o → IsCurrent answers log' o')
      × ((id : ℕ) → Differs id o → ended answers id log' ≡ ended answers id log)
      × ((id : ℕ) → Differs id o → Differs id o')
      × ((os : List Observer) → IsNew o os → IsNew o' os)

  pub Steps-same : (o : Observer) (log : List Entry) → Steps o log (o, log)
  Steps-same o log = (λ r c. r, λ c. c, λ id d. refl, λ id d. d, λ os n. n)

  routed_by-Steps :
      (o : Observer) (proc name : Bytes) (destination : Bytes → Option Destination) (e : Event)
      (log : List Entry)
      → ((d : Destination) → Steps o log (o, routed d e ∷ log))
      → Steps o log (o, routed_by proc name destination e log)
  routed_by-Steps o proc name destination e log h =
      either (bytes_eq proc name) (destination e.topic)
    where
      either :
          (b : Bool) (d : Option Destination)
          → Steps o log (o, (if b then route_to d e log else log))
      either true none = Steps-same o log
      either true (some d) = h d
      either false d = Steps-same o log

  pub on_event_processed-Steps :
      (proc : Bytes) (e : Event) (o : Observer) (log : List Entry)
      → Steps o log (on_event_processed answers proc e o log)
  unfolding on_event_processed
  on_event_processed-Steps proc e realtime_alert log =
      routed_by-Steps realtime_alert proc (codes "RealtimeProcessor") realtime_destination e log
        (λ d. (λ r c. r, λ c. c, λ id x. refl, λ id x. x, λ os n. n))
  on_event_processed-Steps proc e transactional_business log =
      routed_by-Steps transactional_business proc (codes "TransactionalProcessor")
        transactional_destination e log
        (λ d. (λ r c. r, λ c. c, λ id x. refl, λ id x. x, λ os n. n))
  on_event_processed-Steps proc e batch_analytics log =
      routed_by-Steps batch_analytics proc (codes "BatchProcessor") batch_destination e log
        (λ d. (λ r c. r, λ c. c, λ id x. refl, λ id x. x, λ os n. n))
  on_event_processed-Steps proc e (dropped_event_monitor n) log =
      Steps-same (dropped_event_monitor n) log
  on_event_processed-Steps proc e (esc_observer id prefix false) log =
      Steps-same (esc_observer id prefix false) log
  on_event_processed-Steps proc e (esc_observer id prefix true) log =
      elim (Bool-cases (wants prefix e)) [
        | inl w ↦ rw w (call (answers log id e) refl)
        | inr w ↦ rw w (Steps-same (esc_observer id prefix true) log)
      ]
    where
      call :
          (b : Bool)
          → answers log id e ≡ b
          → Steps
              (esc_observer id prefix true)
              log
              (esc_observer id prefix (not b), called id e ∷ log)
      call true a = (λ r c. (c, r), λ c. tt, λ i ne. ground arith, λ i ne. ne, λ os n. n)
      call false a = (λ r c. (c, r), λ c. ground arith, λ i ne. ground arith, λ i ne. ne, λ os n. n)

  noted_by-Steps :
      (o : Observer) (proc name : Bytes) (e : Event) (log : List Entry)
      → Steps o log (o, drop_noted e ∷ log)
      → Steps o log (o, noted_by proc name e log)
  noted_by-Steps o proc name e log h = either (bytes_eq proc name)
    where
      either : (b : Bool) → Steps o log (o, (if b then drop_noted e ∷ log else log))
      either true = h
      either false = Steps-same o log

  pub on_event_dropped-Steps :
      (proc : Bytes) (e : Event) (o : Observer) (log : List Entry)
      → Steps o log (on_event_dropped proc e o log)
  unfolding on_event_dropped
  on_event_dropped-Steps proc e realtime_alert log =
      noted_by-Steps realtime_alert proc (codes "RealtimeProcessor") e log
        (λ r c. r, λ c. c, λ id x. refl, λ id x. x, λ os n. n)
  on_event_dropped-Steps proc e transactional_business log =
      noted_by-Steps transactional_business proc (codes "TransactionalProcessor") e log
        (λ r c. r, λ c. c, λ id x. refl, λ id x. x, λ os n. n)
  on_event_dropped-Steps proc e batch_analytics log =
      noted_by-Steps batch_analytics proc (codes "BatchProcessor") e log
        (λ r c. r, λ c. c, λ id x. refl, λ id x. x, λ os n. n)
  on_event_dropped-Steps proc e (dropped_event_monitor n) log =
      (λ r c. r, λ c. tt, λ id x. refl, λ id x. tt, λ os n. tt)
  on_event_dropped-Steps proc e (esc_observer id prefix active) log =
      Steps-same (esc_observer id prefix active) log
