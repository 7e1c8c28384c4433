-- ===== src/Bus/Separate.antt =====
-- What each call of the bus leaves of the three queues: the one it is about, and the other two.
use event_stream_core.Common.{
  ℕ, ◌≤◌, min, ◌≡◌, refl, ap, ◌⊎◌, inl, inr, true, false, Option, List, [], ◌∷◌, arith, length,
  take, drop, length-drop,
}
use event_stream_core.Event.{Event}
use event_stream_core.Bus
use event_stream_core.Bus.{
  QueueId, Bus, Queue, append_event, when_full, push_queue, take_front, pop_queue,
  pop_realtime_result, pop_batch, record_drops, drop_batch_queue, drop_batch_size, get_queue,
  set_queue, set_ring, ring_capacity,
}
use event_stream_core.Bus.Drain.{queued, is_queue, pop_batch_lem, pop_fronts_lem}
use event_stream_core.Bus.Overflow.{push_realtime-same}
use event_stream_core.Bus.Queues.{IsValid}
use event_stream_core.Ring
use event_stream_core.Ring.{Ring}
use event_stream_core.Ring.Overwrite.{pop_cases}
use event_stream_core.DeadLetterQueue.{DeadLetterQueue}

-- The same queue or another.
pub same_or_other : (p q : QueueId) → (p ≡ q) ⊎ (is_queue p q ≡ false)
same_or_other QueueId.realtime QueueId.realtime = inl refl
same_or_other QueueId.realtime QueueId.transactional = inr refl
same_or_other QueueId.realtime QueueId.batch = inr refl
same_or_other QueueId.transactional QueueId.realtime = inr refl
same_or_other QueueId.transactional QueueId.transactional = inl refl
same_or_other QueueId.transactional QueueId.batch = inr refl
same_or_other QueueId.batch QueueId.realtime = inr refl
same_or_other QueueId.batch QueueId.transactional = inr refl
same_or_other QueueId.batch QueueId.batch = inl refl

pub is_queue_self : (q : QueueId) → is_queue q q ≡ true
is_queue_self QueueId.realtime = refl
is_queue_self QueueId.transactional = refl
is_queue_self QueueId.batch = refl

-- A push or pop leaves the other queues alone.
pub push-other :
    (now : Option ℕ) (p q : QueueId) (b : Bus) (e : Event)
    → is_queue p q ≡ false
    → queued p (Bus.push now 0 q b e).0 ≡ queued p b
unfolding Bus.push push_queue when_full append_event
push-other now QueueId.realtime QueueId.realtime b e h = cc
push-other now QueueId.transactional QueueId.realtime b e h =
    ap (λ (q : Queue). q.dq) (push_realtime-same now b e).0
push-other now QueueId.batch QueueId.realtime b e h =
    ap (λ (q : Queue). q.dq) (push_realtime-same now b e).1
push-other now QueueId.realtime QueueId.transactional b e h = ground arith
push-other now QueueId.batch QueueId.transactional b e h = ground arith
push-other now QueueId.transactional QueueId.transactional b e h = cc
push-other now QueueId.realtime QueueId.batch b e h = ground arith
push-other now QueueId.transactional QueueId.batch b e h = ground arith
push-other now QueueId.batch QueueId.batch b e h = cc

-- What `pop` does to the bus besides its queue.
pub record Keeps (q : QueueId) (b b' : Bus) : Type 0 where
  pub others : (p : QueueId) → is_queue p q ≡ false → queued p b' ≡ queued p b
  pub valid : IsValid b'

set_queue-other :
    (p q : QueueId) (b : Bus) (queue : Queue)
    → is_queue q QueueId.realtime ≡ false
    → is_queue p q ≡ false
    → queued p (set_queue q b queue) ≡ queued p b
set_queue-other p QueueId.realtime b queue h e = cc
set_queue-other QueueId.realtime QueueId.transactional b queue h e = refl
set_queue-other QueueId.transactional QueueId.transactional b queue h e = cc
set_queue-other QueueId.batch QueueId.transactional b queue h e = refl
set_queue-other QueueId.realtime QueueId.batch b queue h e = refl
set_queue-other QueueId.transactional QueueId.batch b queue h e = refl
set_queue-other QueueId.batch QueueId.batch b queue h e = cc

set_ring-other :
    (p : QueueId) (b : Bus) (r : Ring Event)
    → is_queue p QueueId.realtime ≡ false
    → queued p (set_ring b r) ≡ queued p b
set_ring-other QueueId.realtime b r e = cc
set_ring-other QueueId.transactional b r e = refl
set_ring-other QueueId.batch b r e = refl

dq_set :
    (q : QueueId) (b : Bus) (dq : List Event)
    → is_queue q QueueId.realtime ≡ false
    → length dq ≤ length (queued q b)
    → IsValid b
    → Keeps q b (set_queue q b (record (get_queue q b) { dq = dq }))
dq_set QueueId.realtime b dq h small v = cc
dq_set QueueId.transactional b dq h small v = record {
  others = λ p e. set_queue-other p QueueId.transactional b _ refl e;
  valid = record {
    realtime = record { ring = v.realtime.ring; policy = v.realtime.policy };
    transactional_policy = v.transactional_policy;
    batch_policy = v.batch_policy;
    transactional_bound = omega (arith, small, v.transactional_bound);
    batch_bound = v.batch_bound;
    transactional_capacity = v.transactional_capacity;
  };
}
dq_set QueueId.batch b dq h small v = record {
  others = λ p e. set_queue-other p QueueId.batch b _ refl e;
  valid = record {
    realtime = record { ring = v.realtime.ring; policy = v.realtime.policy };
    transactional_policy = v.transactional_policy;
    batch_policy = v.batch_policy;
    transactional_bound = v.transactional_bound;
    batch_bound = omega (arith, small, v.batch_bound);
    transactional_capacity = v.transactional_capacity;
  };
}

ring_set :
    (b : Bus) (r : Ring Event)
    → Ring.Bounds.IsValid ring_capacity r
    → IsValid b
    → Keeps QueueId.realtime b (set_ring b r)
ring_set b r ring v = record {
  others = λ p e. set_ring-other p b r e;
  valid = record {
    realtime = record { ring = ring; policy = v.realtime.policy };
    transactional_policy = v.transactional_policy;
    batch_policy = v.batch_policy;
    transactional_bound = v.transactional_bound;
    batch_bound = v.batch_bound;
    transactional_capacity = v.transactional_capacity;
  };
}

pop_queue-Keeps :
    (now_ns : ℕ) (q : QueueId) (b : Bus) (dq : List Event)
    → is_queue q QueueId.realtime ≡ false
    → length dq ≤ length (queued q b)
    → IsValid b
    → Keeps q b (pop_queue now_ns [] q b dq).0
unfolding pop_queue take_front
pop_queue-Keeps now_ns q b [] h small v = dq_set q b [] h small v
pop_queue-Keeps now_ns q b (e ∷ rest) h small v = dq_set q b rest h (omega (arith, small)) v

pub pop-Keeps :
    (now_ns : ℕ) (q : QueueId) (b : Bus) → IsValid b → Keeps q b (Bus.pop now_ns [] q b).0
unfolding Bus.pop pop_realtime_result
pop-Keeps now_ns QueueId.realtime b v = elim (pop_cases ring_capacity v.realtime.ring) [
  | inl (nil, same) ↦ rw same record { others = λ p h. refl; valid = v }
  | inr (x, r', popped, front, valid) ↦ rw popped (ring_set b r' valid v)
]
pop-Keeps now_ns QueueId.transactional b v =
    pop_queue-Keeps now_ns QueueId.transactional b b.transactional_bus.dq refl (omega arith) v
pop-Keeps now_ns QueueId.batch b v =
    pop_queue-Keeps now_ns QueueId.batch b b.batch_bus.dq refl (omega arith) v

pub dlq_set : (b : Bus) (d : DeadLetterQueue) → IsValid b → IsValid (record b { dlq = d })
dlq_set b d v = record {
  realtime = record { ring = v.realtime.ring; policy = v.realtime.policy };
  transactional_policy = v.transactional_policy;
  batch_policy = v.batch_policy;
  transactional_bound = v.transactional_bound;
  batch_bound = v.batch_bound;
  transactional_capacity = v.transactional_capacity;
}

pub queued-dlq :
    (q : QueueId) (b : Bus) (d : DeadLetterQueue) → queued q (record b { dlq = d }) ≡ queued q b
queued-dlq QueueId.realtime b d = refl
queued-dlq QueueId.transactional b d = refl
queued-dlq QueueId.batch b d = refl

record_drops-IsValid :
    (b : Bus) (events : List Event) → IsValid b → IsValid (record_drops b events).0
unfolding record_drops
record_drops-IsValid b [] v = v
record_drops-IsValid b (e ∷ events) v = record {
  realtime = record { ring = v.realtime.ring; policy = v.realtime.policy };
  transactional_policy = v.transactional_policy;
  batch_policy = v.batch_policy;
  transactional_bound = v.transactional_bound;
  batch_bound = v.batch_bound;
  transactional_capacity = v.transactional_capacity;
}

drop_queue-IsValid :
    (q : QueueId) (b : Bus)
    → is_queue q QueueId.realtime ≡ false
    → (get_queue q b).dq ≡ queued q b
    → IsValid b
    → IsValid (drop_batch_queue q b).0
unfolding drop_batch_queue
drop_queue-IsValid q b h same v =
    let n = min drop_batch_size (length (get_queue q b).dq) in
    rw (pop_fronts_lem n (get_queue q b).dq) (
      record_drops-IsValid
        (set_queue q b (record (get_queue q b) { dq = drop n (get_queue q b).dq }))
        (take n (get_queue q b).dq)
        (dq_set q b (drop n (get_queue q b).dq) h
          (omega (arith, length-drop n (get_queue q b).dq, ap length same)) v).valid)

pub drop_batch-IsValid :
    (q : QueueId) (b : Bus) → IsValid b → IsValid (Bus.drop_batch_from_queue q b).0
unfolding Bus.drop_batch_from_queue
drop_batch-IsValid QueueId.realtime b v =
    let (_, _, ring) = pop_batch_lem drop_batch_size b.realtime_bus.ring_buffer v.realtime.ring in
    record_drops-IsValid (set_ring b (pop_batch drop_batch_size b.realtime_bus.ring_buffer).1)
      (pop_batch drop_batch_size b.realtime_bus.ring_buffer).0
      (ring_set b (pop_batch drop_batch_size b.realtime_bus.ring_buffer).1 ring v).valid
drop_batch-IsValid QueueId.transactional b v =
    drop_queue-IsValid QueueId.transactional b refl refl v
drop_batch-IsValid QueueId.batch b v = drop_queue-IsValid QueueId.batch b refl refl v
