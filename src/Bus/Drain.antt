-- ===== src/Bus/Drain.antt =====
-- `dropBatchFromQueue`: the front of any of the three queues, moved to the dead letter queue.
use event_stream_core.Common.{
  ℕ, zero, suc, min, ◌≡◌, refl, ap, ◌∙◌, inl, inr, Bool, true, false, some, List, [], ◌∷◌, map,
  if◌then◌else◌, length, take, drop, length-take, take-min, drop-min,
}
use event_stream_core.Bus.{
  QueueId, realtime, transactional, batch, ring_capacity, drop_batch_size, Queue, Bus, get_queue,
  set_queue, set_ring, pop_batch, pop_fronts, record_drops, drop_batch_queue, drop_batch_from_queue,
}
use event_stream_core.Ring.Contents.{contents}
use event_stream_core.Ring.Overwrite.{pop_cases}
use event_stream_core.Bus.Overflow.{waiting, IsRealtimeValid}
use event_stream_core.Event.{Event}
use event_stream_core.Ring
use event_stream_core.Ring.{Ring}
use event_stream_core.DeadLetterQueue

-- The events of a queue, oldest first.
abbrev pub queued : QueueId → Bus → List Event
queued QueueId.realtime b = waiting b
queued QueueId.transactional b = b.transactional_bus.dq
queued QueueId.batch b = b.batch_bus.dq

abbrev pub is_queue : QueueId → QueueId → Bool
is_queue QueueId.realtime QueueId.realtime = true
is_queue QueueId.transactional QueueId.transactional = true
is_queue QueueId.batch QueueId.batch = true
is_queue _ _ = false

pub pop_batch_lem :
    (n : ℕ) (r : Ring Event)
    → Ring.Bounds.IsValid ring_capacity r
    → let (events, r') = pop_batch n r in
      (events ≡ take n (contents ring_capacity r))
      × (contents ring_capacity r' ≡ drop n (contents ring_capacity r))
      × Ring.Bounds.IsValid ring_capacity r'
unfolding pop_batch
pop_batch_lem zero r v = (refl, refl, v)
pop_batch_lem (suc n) r v = elim (pop_cases ring_capacity v) [
  | inl (nil, same) ↦ rw (same, nil) (refl, refl, v)
  | inr (x, r', popped, front, valid) ↦
      let (taken, rest, v') = pop_batch_lem n r' valid in
      rw (popped, front) (ap (◌∷◌ x) taken, rest, v')
]

pub pop_fronts_lem : (n : ℕ) (dq : List Event) → pop_fronts n dq ≡ (take n dq, drop n dq)
unfolding pop_fronts
pop_fronts_lem zero dq = refl
pop_fronts_lem (suc zero) [] = refl
pop_fronts_lem (suc (suc n)) [] = pop_fronts_lem (suc n) []
pop_fronts_lem (suc n) (e ∷ dq) =
    ap (λ (p : List Event × List Event). (e ∷ p.0, p.1)) (pop_fronts_lem n dq)

record_drops_lem :
    (b : Bus) (events : List Event)
    → let (b', n) = record_drops b events in
      (n ≡ length events)
      × (b'.dlq ≡ DeadLetterQueue.push_batch b.dlq (map some events))
      × (b'.realtime_bus ≡ b.realtime_bus)
      × (b'.transactional_bus ≡ b.transactional_bus)
      × (b'.batch_bus ≡ b.batch_bus)
unfolding record_drops DeadLetterQueue.push_batch
record_drops_lem b [] = (refl, refl, refl, refl, refl)
record_drops_lem b (e ∷ events) = (refl, refl, refl, refl, refl)

abbrev pub Drained : QueueId → Bus → Bus × ℕ → Type 0
Drained q b (b', n) =
    (n ≡ min drop_batch_size (length (queued q b)))
    × (b'.dlq ≡ DeadLetterQueue.push_batch b.dlq (map some (take drop_batch_size (queued q b))))
    × ((p : QueueId)
        → queued p b' ≡ (if is_queue p q then drop drop_batch_size (queued p b) else queued p b))

drop_realtime :
    (b : Bus)
    → IsRealtimeValid b
    → Drained QueueId.realtime b (drop_batch_from_queue QueueId.realtime b)
unfolding drop_batch_from_queue
drop_realtime b v = (
  counted ∙ ap length (taken) ∙ length-take drop_batch_size (waiting b),
  dlq ∙ ap (λ l. DeadLetterQueue.push_batch b.dlq (map some l)) taken,
  λ p.
      elim p
        as (λ p. queued p b' ≡ (
          if is_queue p QueueId.realtime then drop drop_batch_size (queued p b) else queued p b)) [
            | realtime ↦ ap (λ rq. contents ring_capacity rq.ring_buffer) realtime_same ∙ rest
            | transactional ↦ ap (λ (x : Queue). x.dq) transactional_same
            | batch ↦ ap (λ (x : Queue). x.dq) batch_same
          ],
)
  where
    popped : List Event × Ring Event
    popped = pop_batch drop_batch_size b.realtime_bus.ring_buffer

    open pop_batch_lem drop_batch_size b.realtime_bus.ring_buffer v.ring use {
      «0» as taken, «1» as rest,
    }
    open record_drops_lem (set_ring b popped.1) popped.0 use {
      «0» as counted, «1» as dlq, «2» as realtime_same, «3» as transactional_same,
      «4» as batch_same,
    }

    b' : Bus
    b' = (drop_batch_from_queue QueueId.realtime b).0

-- The loop over a deque, in one step.
drop_front :
    (q : QueueId) (b : Bus)
    → let dq = (get_queue q b).dq in
      drop_batch_queue q b
      ≡ record_drops
          (set_queue q b (record (get_queue q b) { dq = drop drop_batch_size dq }))
          (take drop_batch_size dq)
unfolding drop_batch_queue
drop_front q b =
    let dq = (get_queue q b).dq in
    rw (
      pop_fronts_lem (min drop_batch_size (length dq)) dq,
      take-min drop_batch_size dq,
      drop-min drop_batch_size dq,
    )

drop_transactional :
    (b : Bus) → Drained QueueId.transactional b (drop_batch_from_queue QueueId.transactional b)
unfolding drop_batch_from_queue
drop_transactional b = rw (drop_front QueueId.transactional b) (
  counted ∙ length-take drop_batch_size dq,
  dlq,
  λ p.
      elim p
        as (λ p. queued p b' ≡ (
          if is_queue p QueueId.transactional
          then drop drop_batch_size (queued p b)
          else queued p b)) [
            | realtime ↦ ap (λ rq. contents ring_capacity rq.ring_buffer) realtime_same
            | transactional ↦ ap (λ (x : Queue). x.dq) transactional_same
            | batch ↦ ap (λ (x : Queue). x.dq) batch_same
          ],
)
  where
    dq : List Event
    dq = b.transactional_bus.dq

    rest : Bus
    rest = record b {
      transactional_bus = record (b.transactional_bus) { dq = drop drop_batch_size dq };
    }

    open record_drops_lem rest (take drop_batch_size dq) use {
      «0» as counted, «1» as dlq, «2» as realtime_same, «3» as transactional_same,
      «4» as batch_same,
    }

    b' : Bus
    b' = (record_drops rest (take drop_batch_size dq)).0

drop_batch : (b : Bus) → Drained QueueId.batch b (drop_batch_from_queue QueueId.batch b)
unfolding drop_batch_from_queue
drop_batch b = rw (drop_front QueueId.batch b) (
  counted ∙ length-take drop_batch_size dq,
  dlq,
  λ p.
      elim p
        as (λ p.
          queued p b'
          ≡ (if is_queue p QueueId.batch then drop drop_batch_size (queued p b) else queued p b)) [
            | realtime ↦ ap (λ rq. contents ring_capacity rq.ring_buffer) realtime_same
            | transactional ↦ ap (λ (x : Queue). x.dq) transactional_same
            | batch ↦ ap (λ (x : Queue). x.dq) batch_same
          ],
)
  where
    dq : List Event
    dq = b.batch_bus.dq

    rest : Bus
    rest = record b { batch_bus = record (b.batch_bus) { dq = drop drop_batch_size dq } }

    open record_drops_lem rest (take drop_batch_size dq) use {
      «0» as counted, «1» as dlq, «2» as realtime_same, «3» as transactional_same,
      «4» as batch_same,
    }

    b' : Bus
    b' = (record_drops rest (take drop_batch_size dq)).0

-- Up to 64 events leave the front of the queue named, whichever of the three it is: they go to the
-- dead letter queue in their order, as one batch, and their number is returned; the rest of the
-- queue keeps its order, and the other two queues keep their events.
pub drop_batch_from_queue_lem :
    (q : QueueId) (b : Bus) → IsRealtimeValid b → Drained q b (drop_batch_from_queue q b)
drop_batch_from_queue_lem QueueId.realtime b v = drop_realtime b v
drop_batch_from_queue_lem QueueId.transactional b v = drop_transactional b
drop_batch_from_queue_lem QueueId.batch b v = drop_batch b
