-- ===== src/Dispatcher/Delivery.antt =====
-- What becomes of an event once it is routed.
use event_stream_core.Common.{
  ℕ, zero, suc, ◌+◌, ◌-◌, ◌≡◌, refl, sym, ap, subst, ◌∙◌, ◌⊎◌, inl, inr, Bool, true, false, Option,
  List, [], ◌∷◌, ◌++◌, arith, ltb, leb, if◌then◌else◌, length, drop, u64,
}
use event_stream_core.Event.{Event}
use event_stream_core.DeadLetterQueue
use event_stream_core.Bus
use event_stream_core.Bus.{Bus, QueueId, OverflowPolicy}
use event_stream_core.Bus.Overflow.{Outcome, push_realtime_lem}
use event_stream_core.Bus.Queues.{IsValid, push-IsValid, push-Accepted}
use event_stream_core.Bus.Drain.{queued}
use event_stream_core.Dispatcher.{
  max_retries, Dispatcher, route, Surroundings, after_attempt, push_attempts, settle, deliver,
}

-- The other threads keep the bus valid.
abbrev pub IsSafe : Surroundings → Type 0
IsSafe s = (k : ℕ) (b : Bus) → IsValid b → IsValid (s.sleep k b)

sleep-IsValid :
    (s : Surroundings) (k : ℕ) (b : Bus) (c : Bool)
    → IsSafe s
    → IsValid b
    → IsValid (if c then s.sleep k b else b)
sleep-IsValid s k b true safe v = safe k b v
sleep-IsValid s k b false safe v = v

-- What holds of an attempt's result, whatever the attempt came to.
abbrev Landed : QueueId → Event → Bus × Bool → Type 0
Landed q e (b, done) =
    IsValid b
    × ((done ≡ false) ⊎ ((done ≡ true) × (front : List Event) × (queued q b ≡ front ++ e ∷ [])))

retry-Landed :
    (q : QueueId) (e : Event) (retry : Bus → Bus × Bool) (r : Bus × Bool)
    → ((b : Bus) → IsValid b → Landed q e (retry b))
    → Landed q e r
    → Landed q e (after_attempt retry r)
unfolding after_attempt
retry-Landed q e retry (b, true) h landed = landed
retry-Landed q e retry (b, false) h (v, how) = h b v

attempt-Landed :
    (now : Option ℕ) (taken : ℕ) (q : QueueId) (b : Bus) (e : Event)
    → IsValid b
    → Landed q e (Bus.push now taken q b e)
attempt-Landed now taken q b e v = (
  push-IsValid now taken q b e v,
  elim (push-Accepted now taken q b e v) [
    | inl (done, left, holds) ↦ inr (done, drop left (queued q b), holds)
    | inr (refused, left, holds) ↦ inl refused
  ],
)

attempts-Landed :
    (s : Surroundings) (left : ℕ) (q : QueueId) (e : Event) (b : Bus)
    → IsSafe s
    → IsValid b
    → Landed q e (push_attempts s left q e b)
unfolding push_attempts
attempts-Landed s zero q e b safe v = (v, inl refl)
attempts-Landed s (suc left) q e b safe v =
    retry-Landed q e
      (λ b'.
        push_attempts s left q e
          (if ltb (max_retries - left) max_retries then s.sleep (max_retries - left) b' else b'))
      (Bus.push (s.now (max_retries - left)) (s.taken (max_retries - left)) q b e)
      (λ b' v'.
        attempts-Landed s left q e _ safe
          (sleep-IsValid s (max_retries - left) b' (ltb (max_retries - left) max_retries) safe v'))
      (attempt-Landed (s.now (max_retries - left)) (s.taken (max_retries - left)) q b e v)

abbrev pub InDeadLetters : Event → Bus → Type 0
InDeadLetters e b = (front : List Event) × (b.dlq.stored_events ≡ front ++ e ∷ [])

settle-Landed :
    (q : QueueId) (e : Event) (r : Bus × Bool)
    → Landed q e r
    → let b' = settle e r in
      IsValid b' × (((front : List Event) × (queued q b' ≡ front ++ e ∷ [])) ⊎ InDeadLetters e b')
unfolding settle DeadLetterQueue.push DeadLetterQueue.store
settle-Landed q e (b, true) (v, inl wrong) = absurd cc
settle-Landed q e (b, true) (v, inr (_, front, holds)) = (v, inl (front, holds))
settle-Landed q e (b, false) (v, how) = (
  record {
    realtime = record { ring = v.realtime.ring; policy = v.realtime.policy };
    transactional_policy = v.transactional_policy;
    batch_policy = v.batch_policy;
    transactional_bound = v.transactional_bound;
    batch_bound = v.batch_bound;
    transactional_capacity = v.transactional_capacity;
  },
  inr (_, refl),
)

-- Whatever the other threads do during the attempts, as long as they keep the bus valid, the bus is
-- valid after a delivery, and the event that was routed is then the newest of the queue that it was
-- routed to or the newest of the dead letter queue.
pub deliver_lem :
    (s : Surroundings) (d : Dispatcher) (e : Event)
    → IsSafe s
    → IsValid d.event_bus
    → let (q, e') = route d e in
      let b' = (deliver s d e).event_bus in
      IsValid b' × (((front : List Event) × (queued q b' ≡ front ++ e' ∷ [])) ⊎ InDeadLetters e' b')
unfolding deliver
deliver_lem s d e safe v =
    settle-Landed (route d e).0 (route d e).1 _
      (attempts-Landed s max_retries (route d e).0 (route d e).1 d.event_bus safe v)

-- The first of the attempts, when it is accepted.
first_accepted :
    (s : Surroundings) (left : ℕ) (q : QueueId) (e : Event) (b b' : Bus)
    → Bus.push (s.now (max_retries - left)) (s.taken (max_retries - left)) q b e ≡ (b', true)
    → push_attempts s (suc left) q e b ≡ (b', true)
unfolding push_attempts after_attempt
first_accepted s left q e b b' h = rw h

-- An event that is routed to REALTIME is accepted at the first attempt, whatever happens meanwhile:
-- it becomes the newest of the ring, and a full ring gives its oldest event to the dead letter
-- queue for it, once.
pub deliver_realtime :
    (s : Surroundings) (d : Dispatcher) (e : Event)
    → IsValid d.event_bus
    → (route d e).0 ≡ QueueId.realtime
    → Outcome d.event_bus (route d e).1 (deliver s d e).event_bus
unfolding deliver settle Bus.push
deliver_realtime s d e v h =
    let e' = (route d e).1 in
    let (done, outcome, valid) = push_realtime_lem (s.now 1) d.event_bus e' v.realtime in
    let accepted =
      first_accepted s 2 QueueId.realtime e' d.event_bus
        (Bus.push_realtime (s.now 1) d.event_bus e').0
        (ap (λ c. ((Bus.push_realtime (s.now 1) d.event_bus e').0, c)) done) in
    subst (λ q. Outcome d.event_bus e' (settle e' (push_attempts s max_retries q e' d.event_bus)))
      (sym h) (subst (λ r. Outcome d.event_bus e' (settle e' r)) (sym accepted) outcome)

abbrev one_dropped : Bus → Bus
one_dropped b = record b { metrics = Bus.add_dropped 1 b.metrics }

full_batch_refuses :
    (now : Option ℕ) (taken : ℕ) (b : Bus) (e : Event)
    → b.batch_bus.policy ≡ OverflowPolicy.drop_new
    → length b.batch_bus.dq ≡ b.batch_bus.capacity
    → Bus.push now taken QueueId.batch b e ≡ (one_dropped b, false)
unfolding Bus.push Bus.push_queue Bus.when_full
full_batch_refuses now taken b e policy full =
    let test : leb b.batch_bus.capacity (length b.batch_bus.dq) ≡ true = ground arith in
    rw (test, policy)

quiet_sleep :
    (s : Surroundings) (k : ℕ) (b : Bus) (c : Bool)
    → ((k : ℕ) (b : Bus) → s.sleep k b ≡ b)
    → (if c then s.sleep k b else b) ≡ b
quiet_sleep s k b true quiet = quiet k b
quiet_sleep s k b false quiet = refl

-- An attempt that is refused, and the sleep after it.
refused :
    (s : Surroundings) (left : ℕ) (e : Event) (b : Bus)
    → ((k : ℕ) (b : Bus) → s.sleep k b ≡ b)
    → b.batch_bus.policy ≡ OverflowPolicy.drop_new
    → length b.batch_bus.dq ≡ b.batch_bus.capacity
    → push_attempts s (suc left) QueueId.batch e b
      ≡ push_attempts s left QueueId.batch e (one_dropped b)
unfolding push_attempts after_attempt
refused s left e b quiet policy full =
    let k : ℕ = max_retries - left in
    ap
      (after_attempt (λ b'.
        push_attempts s left QueueId.batch e (if ltb k max_retries then s.sleep k b' else b')))
      (full_batch_refuses (s.now k) (s.taken k) b e policy full)
    ∙ ap (push_attempts s left QueueId.batch e)
        (quiet_sleep s k (one_dropped b) (ltb k max_retries) quiet)

all_refused :
    (s : Surroundings) (e : Event) (b : Bus)
    → ((k : ℕ) (b : Bus) → s.sleep k b ≡ b)
    → b.batch_bus.policy ≡ OverflowPolicy.drop_new
    → length b.batch_bus.dq ≡ b.batch_bus.capacity
    → push_attempts s max_retries QueueId.batch e b
      ≡ (one_dropped (one_dropped (one_dropped b)), false)
unfolding push_attempts
all_refused s e b quiet policy full =
    refused s 2 e b quiet policy full
    ∙ refused s 1 e (one_dropped b) quiet policy full
    ∙ refused s 0 e (one_dropped (one_dropped b)) quiet policy full

-- `e` is one event more of the dead letter queue, and three more of the bus's counter.
abbrev pub Refused : Bus → Event → Bus → Type 0
Refused b e b' =
    (b'.dlq ≡ DeadLetterQueue.push b.dlq e)
    × (b'.metrics.total_events_dropped ≡ u64 (b.metrics.total_events_dropped + 3))
    × (b'.batch_bus ≡ b.batch_bus)

-- An event that a full BATCH queue refuses is one dropped event of the dead letter queue, but three
-- of the bus's counter, and the BATCH queue stays as it is, where the bus is valid and no other
-- thread changes it during the sleeps.
pub deliver_batch_full :
    (s : Surroundings) (d : Dispatcher) (e : Event)
    → IsValid d.event_bus
    → (route d e).0 ≡ QueueId.batch
    → length d.event_bus.batch_bus.dq ≡ d.event_bus.batch_bus.capacity
    → ((k : ℕ) (b : Bus) → s.sleep k b ≡ b)
    → Refused d.event_bus (route d e).1 (deliver s d e).event_bus
unfolding deliver settle
deliver_batch_full s d e v h full quiet =
    let b = d.event_bus in
    let e' = (route d e).1 in
    let n = b.metrics.total_events_dropped in
    let wrap : u64 (u64 (u64 (n + 1) + 1) + 1) ≡ u64 (n + 3) = omega arith in
    subst (λ q. Refused b e' (settle e' (push_attempts s max_retries q e' b))) (sym h)
      (subst (λ r. Refused b e' (settle e' r)) (sym (all_refused s e' b quiet v.batch_policy full))
        (refl, wrap, refl))
