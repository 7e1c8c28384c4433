-- ===== src/Bus/Taken.antt =====
-- `pop` over all three queues: the event that it takes and what it leaves.
use event_stream_core.Ring.Overwrite.{pop_cases}
use event_stream_core.Common.{ℕ, ◌≡◌, refl, ap, inl, inr, Option, none, some, List, [], ◌∷◌}
use event_stream_core.Bus.Drain.{queued}
use event_stream_core.Bus.Queues.{IsValid}
use event_stream_core.Bus.{
  QueueId, ring_capacity, Bus, get_queue, stamped, take_front, pop_queue, pop,
}
use event_stream_core.Event.{Event}

abbrev pub if_nil : List Event → List Event → List Event
if_nil [] arrived = arrived
if_nil (e ∷ dq) arrived = e ∷ dq

-- The events that a consumer finds, the REALTIME queue's being those at the call.
abbrev pub found : QueueId → List Event → Bus → List Event
found QueueId.realtime arrived b = queued QueueId.realtime b
found QueueId.transactional arrived b = if_nil (queued QueueId.transactional b) arrived
found QueueId.batch arrived b = if_nil (queued QueueId.batch b) arrived

abbrev pub Popped : ℕ → List Event → List Event × Option Event → Type 0
Popped now_ns [] (after, out) = (after ≡ []) × (out ≡ none)
Popped now_ns (e ∷ rest) (after, out) = (after ≡ rest) × (out ≡ some (stamped now_ns e))

take_front-Popped :
    (now_ns : ℕ) (q : QueueId) (b : Bus) (dq : List Event)
    → ¬ (q ≡ QueueId.realtime)
    → let (b', out) = take_front now_ns q b (record (get_queue q b) { dq = dq }) dq in
      Popped now_ns dq (queued q b', out)
unfolding take_front
take_front-Popped now_ns QueueId.realtime b dq h = absurd (h refl)
take_front-Popped now_ns QueueId.transactional b [] h = (refl, refl)
take_front-Popped now_ns QueueId.transactional b (e ∷ rest) h = (refl, refl)
take_front-Popped now_ns QueueId.batch b [] h = (refl, refl)
take_front-Popped now_ns QueueId.batch b (e ∷ rest) h = (refl, refl)

pop_queue-Popped :
    (now_ns : ℕ) (arrived : List Event) (q : QueueId) (b : Bus) (dq : List Event)
    → ¬ (q ≡ QueueId.realtime)
    → dq ≡ (get_queue q b).dq
    → let (b', out) = pop_queue now_ns arrived q b dq in
      Popped now_ns (if_nil dq arrived) (queued q b', out)
unfolding pop_queue
pop_queue-Popped now_ns arrived q b [] h e = take_front-Popped now_ns q b arrived h
pop_queue-Popped now_ns arrived q b (x ∷ dq) h e =
    rw (← ap (λ l. record (get_queue q b) { dq = l }) e) (take_front-Popped now_ns q b (x ∷ dq) h)

-- `pop` takes the oldest event that the queue holds, or the first that arrives while it waits on an
-- empty queue; it stamps the event, and leaves the others in order. With none it returns nothing.
pub pop-Popped :
    (now_ns : ℕ) (arrived : List Event) (q : QueueId) (b : Bus)
    → IsValid b
    → let (b', out) = pop now_ns arrived q b in Popped now_ns (found q arrived b) (queued q b', out)
unfolding pop
pop-Popped now_ns arrived QueueId.realtime b v = elim (pop_cases ring_capacity v.realtime.ring) [
  | inl (nil, same) ↦ rw (same, nil) (refl, refl)
  | inr (x, r', popped, front, valid) ↦ rw (popped, front) (refl, refl)
]
pop-Popped now_ns arrived QueueId.transactional b v =
    pop_queue-Popped now_ns arrived QueueId.transactional b _ (λ e. cc) refl
pop-Popped now_ns arrived QueueId.batch b v =
    pop_queue-Popped now_ns arrived QueueId.batch b _ (λ e. cc) refl
