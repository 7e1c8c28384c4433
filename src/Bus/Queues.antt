-- ===== src/Bus/Queues.antt =====
-- `push` over all three queues: order, capacity and what a refusal leaves.
use event_stream_core.Common.{
  ℕ, ◌≤◌, ◌<◌, ◌≡◌, refl, sym, ap, subst, ◌∙◌, ◌⊎◌, inl, inr, Bool, true, false, Option, List, [],
  ◌∷◌, ◌++◌, arith, ltb, leb, ltb→lt, ltb→le, Bool-cases, length, drop, length-append, length-drop,
}
use event_stream_core.Bus.Overflow.{waiting, IsRealtimeValid, push_realtime_lem, push_realtime-same}
use event_stream_core.Bus.Drain.{queued}
use event_stream_core.Bus.{
  QueueId, OverflowPolicy, ring_capacity, BusMetrics, Queue, Bus, init, push_realtime, append_event,
  when_full, push_queue, push,
}
use event_stream_core.Event.{Event, blank_event}
use event_stream_core.Ring
use event_stream_core.Ring.{Ring}
use event_stream_core.Bus.Overflow.{IsRealtimeValid}

-- The queues as the constructor sets them up, within their capacities.
pub record IsValid (b : Bus) : Type 0 where
  pub realtime : IsRealtimeValid b
  pub transactional_policy : b.transactional_bus.policy ≡ OverflowPolicy.block_producer
  pub batch_policy : b.batch_bus.policy ≡ OverflowPolicy.drop_new
  pub transactional_bound : length b.transactional_bus.dq ≤ b.transactional_bus.capacity
  pub batch_bound : length b.batch_bus.dq ≤ b.batch_bus.capacity
  pub transactional_capacity : 0 < b.transactional_bus.capacity

pub init-IsValid : (m : BusMetrics) → IsValid (init m)
unfolding init
init-IsValid m = record {
  realtime = record {
    ring = Ring.Bounds.empty-IsValid ring_capacity blank_event (omega arith);
    policy = refl;
  };
  transactional_policy = refl;
  batch_policy = refl;
  transactional_bound = omega arith;
  batch_bound = omega arith;
  transactional_capacity = omega arith;
}

-- One deque: what `push` leaves of it, `e` being accepted or not, when `left` events have been
-- taken from its front by the other threads.
abbrev pub Pushed : List Event → ℕ → Event → List Event × Bool → Type 0
Pushed dq capacity e (dq', done) =
    ((done ≡ true) × (left : ℕ) × (dq' ≡ drop left dq ++ e ∷ []) × (length dq' ≤ capacity))
    ⊎ ((done ≡ false) × (left : ℕ) × (dq' ≡ drop left dq) × (capacity ≤ length dq'))

abbrev TransactionalPushed : Bus → Event → Bus × Bool → Type 0
TransactionalPushed b e (b', done) =
    Pushed b.transactional_bus.dq b.transactional_bus.capacity e (b'.transactional_bus.dq, done)
    × IsValid b'

append_transactional :
    (now : Option ℕ) (left : ℕ) (b : Bus) (e : Event)
    → IsValid b
    → length (drop left b.transactional_bus.dq) < b.transactional_bus.capacity
    → TransactionalPushed b e (
        append_event now QueueId.transactional b
          (record (b.transactional_bus) { dq = drop left b.transactional_bus.dq })
          e)
unfolding append_event
append_transactional now left b e v room =
    let dq = drop left b.transactional_bus.dq in
    let bound : length (dq ++ e ∷ []) ≤ b.transactional_bus.capacity =
      omega (arith, length-append dq (e ∷ [])) in
    (
      inl (refl, left, refl, bound),
      record {
        realtime = record { ring = v.realtime.ring; policy = v.realtime.policy };
        transactional_policy = v.transactional_policy;
        batch_policy = v.batch_policy;
        transactional_bound = bound;
        batch_bound = v.batch_bound;
        transactional_capacity = v.transactional_capacity;
      },
    )

block_transactional :
    (now : Option ℕ) (taken : ℕ) (b : Bus) (e : Event)
    → IsValid b
    → TransactionalPushed b e
        (when_full now taken QueueId.transactional b e OverflowPolicy.block_producer)
unfolding when_full
block_transactional now taken b e v =
    elim (Bool-cases (ltb (length (drop taken dq)) b.transactional_bus.capacity)) [
      | inl room ↦ rw room (append_transactional now taken b e v (ltb→lt _ _ room))
      | inr full ↦ rw full (
        inr (refl, taken, refl, ltb→le _ _ full),
        record {
          realtime = record { ring = v.realtime.ring; policy = v.realtime.policy };
          transactional_policy = v.transactional_policy;
          batch_policy = v.batch_policy;
          transactional_bound = omega (arith, length-drop taken dq, v.transactional_bound);
          batch_bound = v.batch_bound;
          transactional_capacity = v.transactional_capacity;
        },
      )
    ]
  where
    dq : List Event
    dq = b.transactional_bus.dq

push_transactional :
    (now : Option ℕ) (taken : ℕ) (b : Bus) (e : Event)
    → IsValid b
    → TransactionalPushed b e (push now taken QueueId.transactional b e)
unfolding push push_queue
push_transactional now taken b e v = elim (Bool-cases (leb queue.capacity (length queue.dq))) [
  | inr room ↦ rw room (append_transactional now 0 b e v (ground arith))
  | inl full ↦ rw full (
      subst (λ p. TransactionalPushed b e (when_full now taken QueueId.transactional b e p))
        (sym v.transactional_policy) (block_transactional now taken b e v))
]
  where
    queue : Queue
    queue = b.transactional_bus

abbrev BatchPushed : Bus → Event → Bus × Bool → Type 0
BatchPushed b e (b', done) =
    (((done ≡ true) × (b'.batch_bus.dq ≡ b.batch_bus.dq ++ e ∷ []))
      ⊎ ((done ≡ false)
          × (b'.batch_bus.dq ≡ b.batch_bus.dq)
          × (b.batch_bus.capacity ≡ length b.batch_bus.dq)))
    × IsValid b'

append_batch :
    (now : Option ℕ) (b : Bus) (e : Event)
    → IsValid b
    → length b.batch_bus.dq < b.batch_bus.capacity
    → BatchPushed b e (append_event now QueueId.batch b b.batch_bus e)
unfolding append_event
append_batch now b e v room = (
  inl (refl, refl),
  record {
    realtime = record { ring = v.realtime.ring; policy = v.realtime.policy };
    transactional_policy = v.transactional_policy;
    batch_policy = v.batch_policy;
    transactional_bound = v.transactional_bound;
    batch_bound = omega (arith, length-append b.batch_bus.dq (e ∷ []));
    transactional_capacity = v.transactional_capacity;
  },
)

drop_new_batch :
    (now : Option ℕ) (taken : ℕ) (b : Bus) (e : Event)
    → IsValid b
    → b.batch_bus.capacity ≤ length b.batch_bus.dq
    → BatchPushed b e (when_full now taken QueueId.batch b e OverflowPolicy.drop_new)
unfolding when_full
drop_new_batch now taken b e v full = (
  inr (refl, refl, omega (arith, v.batch_bound)),
  record {
    realtime = record { ring = v.realtime.ring; policy = v.realtime.policy };
    transactional_policy = v.transactional_policy;
    batch_policy = v.batch_policy;
    transactional_bound = v.transactional_bound;
    batch_bound = v.batch_bound;
    transactional_capacity = v.transactional_capacity;
  },
)

push_batch :
    (now : Option ℕ) (taken : ℕ) (b : Bus) (e : Event)
    → IsValid b
    → BatchPushed b e (push now taken QueueId.batch b e)
unfolding push push_queue
push_batch now taken b e v = elim (Bool-cases (leb queue.capacity (length queue.dq))) [
  | inr room ↦ rw room (append_batch now b e v (ground arith))
  | inl full ↦ rw full (
      subst (λ p. BatchPushed b e (when_full now taken QueueId.batch b e p)) (sym v.batch_policy)
        (drop_new_batch now taken b e v (ground arith)))
]
  where
    queue : Queue
    queue = b.batch_bus

push_realtime-IsValid :
    (now : Option ℕ) (b : Bus) (e : Event) → IsValid b → IsValid (push_realtime now b e).0
push_realtime-IsValid now b e v =
    let (done, outcome, valid) = push_realtime_lem now b e v.realtime in
    let (same_t, same_b) = push_realtime-same now b e in
    record {
      realtime = valid;
      transactional_policy = ap (λ (q : Queue). q.policy) same_t ∙ v.transactional_policy;
      batch_policy = ap (λ (q : Queue). q.policy) same_b ∙ v.batch_policy;
      transactional_bound =
          subst (λ (q : Queue). length q.dq ≤ q.capacity) (sym same_t) v.transactional_bound;
      batch_bound = subst (λ (q : Queue). length q.dq ≤ q.capacity) (sym same_b) v.batch_bound;
      transactional_capacity =
          subst (λ (q : Queue). 0 < q.capacity) (sym same_t) v.transactional_capacity;
    }

-- `push` keeps the queues within their capacities, on every queue and branch, and whatever the
-- consumers take while it waits.
pub push-IsValid :
    (now : Option ℕ) (taken : ℕ) (q : QueueId) (b : Bus) (e : Event)
    → IsValid b
    → IsValid (push now taken q b e).0
unfolding push
push-IsValid now taken QueueId.realtime b e v = push_realtime-IsValid now b e v
push-IsValid now taken QueueId.transactional b e v = (push_transactional now taken b e v).1
push-IsValid now taken QueueId.batch b e v = (push_batch now taken b e v).1

-- What an accepted or refused push of `e` leaves of a queue: `left` events have gone from its front,
-- and `e` is its newest, exactly if the push was accepted.
abbrev pub Accepted : List Event → Event → List Event × Bool → Type 0
Accepted before e (after, done) =
    ((done ≡ true) × (left : ℕ) × (after ≡ drop left before ++ e ∷ []))
    ⊎ ((done ≡ false) × (left : ℕ) × (after ≡ drop left before))

realtime-Accepted :
    (now : Option ℕ) (b : Bus) (e : Event)
    → IsValid b
    → let (b', done) = push_realtime now b e in Accepted (waiting b) e (waiting b', done)
realtime-Accepted now b e v =
    let (done, outcome, valid) = push_realtime_lem now b e v.realtime in
    elim outcome [
      | inl (room, holds, _, _) ↦ inl (done, 0, holds)
      | inr (full, oldest, rest, front, holds, _, _) ↦
          inl (done, 1, holds ∙ ap (λ l. drop 1 l ++ e ∷ []) (sym front))
    ]

-- On every queue an accepted event becomes the newest of its queue; otherwise the push is refused,
-- and adds nothing. Either way the events before it keep their order, and only some at the front
-- are gone.
pub push-Accepted :
    (now : Option ℕ) (taken : ℕ) (q : QueueId) (b : Bus) (e : Event)
    → IsValid b
    → let (b', done) = push now taken q b e in Accepted (queued q b) e (queued q b', done)
unfolding push
push-Accepted now taken QueueId.realtime b e v = realtime-Accepted now b e v
push-Accepted now taken QueueId.transactional b e v = elim (push_transactional now taken b e v).0 [
  | inl (done, left, e', _) ↦ inl (done, left, e')
  | inr (done, left, e', _) ↦ inr (done, left, e')
]
push-Accepted now taken QueueId.batch b e v = elim (push_batch now taken b e v).0 [
  | inl (done, e') ↦ inl (done, 0, e')
  | inr (done, e', _) ↦ inr (done, 0, e')
]
