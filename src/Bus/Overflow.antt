-- ===== src/Bus/Overflow.antt =====
-- The REALTIME queue under load: what a push does to the ring, the dead letter queue, the counters
-- and the pressure level.
use event_stream_core.Common.{
  ℕ, ◌+◌, ◌<◌, ◌≡◌, refl, ap, ◌∙◌, ◌⊎◌, inl, inr, Bool, true, false, Option, none, some, List, [],
  ◌∷◌, ◌++◌, arith, if◌then◌else◌, length, u64,
}
use event_stream_core.Ring.Contents.{contents}
use event_stream_core.Ring.Overwrite.{push_cases, pop_cases}
use event_stream_core.Bus.{
  OverflowPolicy, ring_capacity, BusMetrics, Bus, add_processed, stamp, set_ring, drop_event,
  note_depth, drop_oldest, push_again, is_drop_old, overflow, first_push, push_realtime,
}
use event_stream_core.Event.{Event}
use event_stream_core.Ring
use event_stream_core.Ring.{Ring}
use event_stream_core.DeadLetterQueue

-- The events that wait in the ring, oldest first.
abbrev pub waiting : Bus → List Event
waiting b = contents ring_capacity b.realtime_bus.ring_buffer

pub record IsRealtimeValid (b : Bus) : Type 0 where
  pub ring : Ring.Bounds.IsValid ring_capacity b.realtime_bus.ring_buffer
  pub policy : b.realtime_bus.policy ≡ OverflowPolicy.drop_old

abbrev pub Outcome : Bus → Event → Bus → Type 0
Outcome b e b' =
    ((length (waiting b) + 1 < ring_capacity)
      × (waiting b' ≡ waiting b ++ e ∷ [])
      × (b'.dlq ≡ b.dlq)
      × (b'.metrics.total_events_dropped ≡ b.metrics.total_events_dropped))
    ⊎ ((length (waiting b) + 1 ≡ ring_capacity)
        × (oldest : Event) × (rest : List Event) × (waiting b ≡ oldest ∷ rest)
        × (waiting b' ≡ rest ++ e ∷ [])
        × (b'.dlq ≡ DeadLetterQueue.push b.dlq oldest)
        × (b'.metrics.total_events_dropped ≡ u64 (b.metrics.total_events_dropped + 1)))

stamp-dropped :
    (now : Option ℕ) (m : BusMetrics) → (stamp now m).total_events_dropped ≡ m.total_events_dropped
stamp-dropped none m = refl
stamp-dropped (some t) m = refl

first_push-done :
    (now : Option ℕ) (b : Bus) (e : Event) (r : Ring Event)
    → length (waiting b) + 1 < ring_capacity
    → contents ring_capacity r ≡ waiting b ++ e ∷ []
    → Ring.Bounds.IsValid ring_capacity r
    → b.realtime_bus.policy ≡ OverflowPolicy.drop_old
    → let (b', done) = first_push now b e (r, true) in
      (done ≡ true) × Outcome b e b' × IsRealtimeValid b'
unfolding first_push
first_push-done now b e r room holds valid policy = (
  refl,
  inl (room, holds, refl, stamp-dropped now (add_processed b.metrics)),
  record { ring = valid; policy = policy },
)

push_again-done :
    (b b' : Bus) (oldest e : Event) (rest : List Event) (r : Ring Event)
    → length (waiting b) + 1 ≡ ring_capacity
    → waiting b ≡ oldest ∷ rest
    → contents ring_capacity r ≡ rest ++ e ∷ []
    → Ring.Bounds.IsValid ring_capacity r
    → b'.realtime_bus.policy ≡ OverflowPolicy.drop_old
    → b'.dlq ≡ DeadLetterQueue.push b.dlq oldest
    → b'.metrics.total_events_dropped ≡ u64 (b.metrics.total_events_dropped + 1)
    → let (b'', done) = push_again b' e (r, true) in
      (done ≡ true) × Outcome b e b'' × IsRealtimeValid b''
unfolding push_again
push_again-done b b' oldest e rest r full front holds valid policy dlq count = (
  refl,
  inr (full, oldest, rest, front, holds, dlq, count),
  record { ring = valid; policy = policy },
)

overflow_lem :
    (b : Bus) (e : Event)
    → IsRealtimeValid b
    → length (waiting b) + 1 ≡ ring_capacity
    → let (b', done) = overflow b e in (done ≡ true) × Outcome b e b' × IsRealtimeValid b'
unfolding overflow
overflow_lem b e v full = elim (pop_cases ring_capacity v.ring) [
  | inl (nil, _) ↦ absurd (omega (arith, ap length nil))
  | inr (oldest, r, popped, front, valid) ↦ elim (push_cases ring_capacity e valid) [
    | inr (still, _) ↦ absurd (omega (arith, ap length front))
    | inl (room, r', pushed, holds, valid') ↦
        rw (v.policy, popped, drop_oldest)
          (rw pushed (
            push_again-done b (drop_event (set_ring b r) oldest) oldest e (contents ring_capacity r)
              r' full front holds valid' v.policy refl refl))
  ]
]

-- A push to the REALTIME queue always succeeds. With room it appends the event and drops nothing; on
-- a full ring, of 16383 events, it makes room by moving the oldest event, and only that one, to the
-- dead letter queue, and counts one drop. The ring stays valid.
pub push_realtime_lem :
    (now : Option ℕ) (b : Bus) (e : Event)
    → IsRealtimeValid b
    → let (b', done) = push_realtime now b e in (done ≡ true) × Outcome b e b' × IsRealtimeValid b'
unfolding push_realtime
push_realtime_lem now b e v = elim (push_cases ring_capacity e v.ring) [
  | inl (room, r', pushed, holds, valid) ↦
      rw pushed (first_push-done now (note_depth b) e r' room holds valid v.policy)
  | inr (full, refused) ↦
      rw (refused, first_push)
        (overflow_lem (note_depth b) e (record { ring = v.ring; policy = v.policy }) full)
]

-- The other queues are not touched.
abbrev pub SameDeques : Bus → Bus → Type 0
SameDeques b b' = (b'.transactional_bus ≡ b.transactional_bus) × (b'.batch_bus ≡ b.batch_bus)

push_again-same : (b : Bus) (e : Event) (p : Ring Event × Bool) → SameDeques b (push_again b e p).0
unfolding push_again
push_again-same b e (r, true) = (refl, refl)
push_again-same b e (r, false) = (refl, refl)

drop_oldest-same : (b : Bus) (p : Option Event × Ring Event) → SameDeques b (drop_oldest b p)
unfolding drop_oldest
drop_oldest-same b (none, r) = (refl, refl)
drop_oldest-same b (some e, r) = (refl, refl)

if-same :
    (b : Bus) (c : Bool) (x y : Bus × Bool)
    → SameDeques b x.0
    → SameDeques b y.0
    → SameDeques b (if c then x else y).0
if-same b true x y h k = h
if-same b false x y h k = k

overflow-same : (b : Bus) (e : Event) → SameDeques b (overflow b e).0
unfolding overflow
overflow-same b e =
    let popped = Ring.pop ring_capacity b.realtime_bus.ring_buffer in
    let b' = drop_oldest b popped in
    let p = Ring.push ring_capacity b'.realtime_bus.ring_buffer e in
    let first = drop_oldest-same b popped in
    let second = push_again-same b' e p in
    if-same b (is_drop_old b.realtime_bus.policy) (push_again b' e p) (drop_event b e, false)
      (second.0 ∙ first.0, second.1 ∙ first.1) (refl, refl)

first_push-same :
    (now : Option ℕ) (b : Bus) (e : Event) (p : Ring Event × Bool)
    → SameDeques b (first_push now b e p).0
unfolding first_push
first_push-same now b e (r, true) = (refl, refl)
first_push-same now b e (r, false) = overflow-same b e

pub push_realtime-same :
    (now : Option ℕ) (b : Bus) (e : Event) → SameDeques b (push_realtime now b e).0
unfolding push_realtime
push_realtime-same now b e = first_push-same now (note_depth b) e _
