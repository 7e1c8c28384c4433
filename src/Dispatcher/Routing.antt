-- ===== src/Dispatcher/Routing.antt =====
-- Which queue an event goes to.
use event_stream_core.Common.{
  ℕ, ◌≤◌, max, ◌≡◌, refl, ap, ◌∙◌, ◌≢◌, ◌↔◌, ◌⊎◌, inl, inr, true, arith, ◌==◌, if◌then◌else◌,
}
use event_stream_core.Event.{Event, EventPriority, priority_value, set_priority}
use event_stream_core.Bus.{QueueId, PressureLevel}
use event_stream_core.Dispatcher.{
  Dispatcher, is_high, adapt_to_pressure, configured_priority, upgrade, queue_of, route,
}

then_iff : {A B C : Type 0} → A ↔ B → B ↔ C → A ↔ C
then_iff f g = (λ a. g.0 (f.0 a), λ c. f.1 (g.1 c))

queue_of-realtime_iff :
    (p : EventPriority) → (queue_of p ≡ QueueId.realtime) ↔ (3 ≤ priority_value p)
queue_of-realtime_iff EventPriority.batch = ground arith
queue_of-realtime_iff EventPriority.low = ground arith
queue_of-realtime_iff EventPriority.medium = ground arith
queue_of-realtime_iff EventPriority.high = ground arith
queue_of-realtime_iff EventPriority.critical = ground arith

queue_of-batch_iff : (p : EventPriority) → (queue_of p ≡ QueueId.batch) ↔ (priority_value p ≡ 0)
queue_of-batch_iff EventPriority.batch = ground arith
queue_of-batch_iff EventPriority.low = ground arith
queue_of-batch_iff EventPriority.medium = ground arith
queue_of-batch_iff EventPriority.high = ground arith
queue_of-batch_iff EventPriority.critical = ground arith

is_high_iff : (p : EventPriority) → (is_high p ≡ true) ↔ (priority_value p ≡ 3)
is_high_iff EventPriority.batch = ground arith
is_high_iff EventPriority.low = ground arith
is_high_iff EventPriority.medium = ground arith
is_high_iff EventPriority.high = ground arith
is_high_iff EventPriority.critical = ground arith

upgrade_value :
    (e : Event) (p : EventPriority)
    → priority_value (upgrade e p).header.priority
      ≡ max (priority_value e.header.priority) (priority_value p)
unfolding upgrade
upgrade_value e p = ground arith

-- Under pressure HIGH becomes MEDIUM.
adapt_calm : (e : Event) → adapt_to_pressure PressureLevel.normal e ≡ e
unfolding adapt_to_pressure
adapt_calm e = refl

adapt_pressed :
    (l : PressureLevel) (e : Event)
    → l ≢ PressureLevel.normal
    → priority_value (adapt_to_pressure l e).header.priority
      ≡ (if priority_value e.header.priority == 3 then 2 else priority_value e.header.priority)
unfolding adapt_to_pressure
adapt_pressed PressureLevel.normal e h = absurd (h refl)
adapt_pressed PressureLevel.high e h = ground (arith, is_high_iff e.header.priority)
adapt_pressed PressureLevel.critical e h = ground (arith, is_high_iff e.header.priority)

level_cases : (l : PressureLevel) → (l ≡ PressureLevel.normal) ⊎ (l ≢ PressureLevel.normal)
level_cases PressureLevel.normal = inl refl
level_cases PressureLevel.high = inr (λ e. cc)
level_cases PressureLevel.critical = inr (λ e. cc)

priority_value-le : (p : EventPriority) → priority_value p ≤ 4
priority_value-le EventPriority.batch = omega arith
priority_value-le EventPriority.low = omega arith
priority_value-le EventPriority.medium = omega arith
priority_value-le EventPriority.high = omega arith
priority_value-le EventPriority.critical = omega arith

upgrade_rest : (e : Event) (p : EventPriority) → set_priority (upgrade e p) e.header.priority ≡ e
unfolding upgrade
upgrade_rest e p = ground arith

adapt_rest :
    (l : PressureLevel) (e : Event) (p : EventPriority)
    → set_priority (adapt_to_pressure l e) p ≡ set_priority e p
unfolding adapt_to_pressure
adapt_rest PressureLevel.normal e p = refl
adapt_rest PressureLevel.high e p = ground arith
adapt_rest PressureLevel.critical e p = ground arith

-- The higher of the client's priority and the topic's.
abbrev pub wanted : Dispatcher → Event → ℕ
wanted d e =
    max (priority_value e.header.priority)
      (priority_value (configured_priority d.topic_table e.topic))

abbrev pub pressure : Dispatcher → PressureLevel
pressure d = d.event_bus.realtime_bus.pressure

abbrev final : Dispatcher → Event → Event
final d e = (route d e).1

final_value :
    (d : Dispatcher) (e : Event)
    → let v = priority_value (final d e).header.priority in
      ((pressure d ≡ PressureLevel.normal) × (v ≡ wanted d e))
      ⊎ ((pressure d ≢ PressureLevel.normal) × (v ≡ (if wanted d e == 3 then 2 else wanted d e)))
unfolding route
final_value d e =
    let c = configured_priority d.topic_table e.topic in
    let raised = upgrade_value e c in
    elim (level_cases (pressure d)) [
      | inl calm ↦ inl (
        calm,
        ap (λ l. priority_value (adapt_to_pressure l (upgrade e c)).header.priority) calm ∙ raised,
      )
      | inr pressed ↦ inr (
        pressed,
        adapt_pressed (pressure d) (upgrade e c) pressed ∙ ap (λ v. if v == 3 then 2 else v) raised,
      )
    ]

final_rest : (d : Dispatcher) (e : Event) → set_priority (final d e) e.header.priority ≡ e
unfolding route
final_rest d e =
    adapt_rest (pressure d) (upgrade e (configured_priority d.topic_table e.topic))
      e.header.priority
    ∙ upgrade_rest e (configured_priority d.topic_table e.topic)

wanted-le : (d : Dispatcher) (e : Event) → wanted d e ≤ 4
wanted-le d e = omega (
  arith,
  priority_value-le e.header.priority,
  priority_value-le (configured_priority d.topic_table e.topic),
)

-- What the two equations on the final priority come to.
realtime_values :
    (m v : ℕ) (Calm : Type 0)
    → m ≤ 4
    → (Calm × (v ≡ m)) ⊎ ((¬ Calm) × (v ≡ (if m == 3 then 2 else m)))
    → ((3 ≤ v) ↔ ((m ≡ 4) ⊎ ((m ≡ 3) × Calm))) × ((v ≡ 0) ↔ (m ≡ 0))
realtime_values m v Calm bound (inl (calm, e)) = (ground arith, ground arith)
realtime_values m v Calm bound (inr (pressed, e)) = (ground arith, ground arith)

-- An event is routed to REALTIME exactly if the higher of its own and its topic's priority is
-- CRITICAL, or is HIGH while the bus reports no pressure; it is routed to BATCH exactly if both
-- are BATCH. Nothing but its priority is changed.
pub route_lem :
    (d : Dispatcher) (e : Event)
    → let (q, e') = route d e in
      ((q ≡ QueueId.realtime)
        ↔ ((wanted d e ≡ 4) ⊎ ((wanted d e ≡ 3) × (pressure d ≡ PressureLevel.normal))))
      × ((q ≡ QueueId.batch) ↔ (wanted d e ≡ 0))
      × (set_priority e' e.header.priority ≡ e)
unfolding route
route_lem d e =
    let (real, bat) =
      realtime_values (wanted d e) (priority_value (final d e).header.priority)
        (pressure d ≡ PressureLevel.normal) (wanted-le d e) (final_value d e) in
    (
      then_iff (queue_of-realtime_iff (final d e).header.priority) real,
      then_iff (queue_of-batch_iff (final d e).header.priority) bat,
      final_rest d e,
    )
