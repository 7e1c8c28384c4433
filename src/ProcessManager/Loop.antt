-- ===== src/ProcessManager/Loop.antt =====
-- The turns of the threads keep every queue first in, first out.
use event_stream_core.Common.{
  ℕ, ◌≡◌, refl, sym, ap, subst, inl, inr, Bool, true, false, Option, none, some, List, [], ◌∷◌,
  ◌++◌, if◌then◌else◌, length, drop,
}
use event_stream_core.Event.{Event}
use event_stream_core.Bus
use event_stream_core.Bus.{QueueId, Bus, stamped, drop_batch_size}
use event_stream_core.Bus.Drain.{queued, is_queue, drop_batch_from_queue_lem}
use event_stream_core.Bus.Queues.{IsValid}
use event_stream_core.Bus.Taken.{Popped, pop-Popped, found, if_nil}
use event_stream_core.Bus.Separate.{same_or_other, Keeps, pop-Keeps, drop_batch-IsValid}
use event_stream_core.ProcessManager.{
  EventProcessor, ProcessManager, plain, Turn, pushes, polls, ends, drops, starts, stops, after_pop,
  run_round, step, run,
}
use event_stream_core.ProcessManager.Fifo.{
  Leaves, IsWellBehaved, on, IsFifo, hand-IsFifo, on-append_self, on-append_other,
}
use event_stream_core.ProcessManager.Pushes.{
  Fifo, IsOrdered, same-Fifo, push-IsOrdered, Leaves-IsOrdered,
}

found-queued : (q : QueueId) (b : Bus) → found q [] b ≡ queued q b
found-queued QueueId.realtime b = refl
found-queued QueueId.transactional b = or_nil b.transactional_bus.dq
  where
    or_nil : (dq : List Event) → if_nil dq [] ≡ dq
    or_nil [] = refl
    or_nil (e ∷ dq) = refl
found-queued QueueId.batch b = or_nil b.batch_bus.dq
  where
    or_nil : (dq : List Event) → if_nil dq [] ≡ dq
    or_nil [] = refl
    or_nil (e ∷ dq) = refl

module _ {P : Type 0} (q : QueueId) (m : ProcessManager P) (now_ns : ℕ) where
  -- The event at the front is handed on, and the processor has not been called yet.
  abbrev took : Bus → Event → ProcessManager P
  took b e = record m { event_bus = b; handed = m.handed ++ (q, plain e) ∷ [] }

  took-Fifo :
      (p : QueueId) (b : Bus) (e : Event) (held : List Event)
      → Popped now_ns held (queued q b, some e)
      → held ≡ queued q m.event_bus
      → (is_queue p q ≡ false → queued p b ≡ queued p m.event_bus)
      → IsOrdered m
      → Fifo p (took b e)
  took-Fifo p b e [] (after, out) front others h = cc
  took-Fifo p b e (x ∷ rest) (after, out) front others h = elim (same_or_other p q) [
    | inl same ↦
        subst (λ r. Fifo r (took b e)) (sym same)
          (subst (λ l. IsFifo (on q m.accepted) l (queued q b))
            (sym (on-append_self q (plain e) m.handed))
            (subst (λ l. IsFifo (on q m.accepted) (on q m.handed ++ plain e ∷ []) l) (sym after)
              (subst (λ f. IsFifo (on q m.accepted) (on q m.handed ++ f ∷ []) rest)
                (ap plain (is_some out))
                (hand-IsFifo x rest (
                  subst (λ l. IsFifo (on q m.accepted) (on q m.handed) l) (sym front)
                    (h.fifo q))))))
    | inr other ↦
        subst (λ l. IsFifo (on p m.accepted) l (queued p b))
          (sym (on-append_other p q (plain e) m.handed other))
          (subst (λ l. IsFifo (on p m.accepted) (on p m.handed) l) (sym (others other)) (h.fifo p))
  ]
    where
      is_some : some e ≡ some (stamped now_ns x) → stamped now_ns x ≡ e
      is_some h = cc

none_taken :
    (now_ns : ℕ) (held after : List Event) → Popped now_ns held (after, none) → after ≡ held
none_taken now_ns [] after (e, out) = e
none_taken now_ns (x ∷ rest) after (e, out) = cc

pub drop-Leaves : (q : QueueId) (b : Bus) → IsValid b → Leaves b (Bus.drop_batch_from_queue q b).0
drop-Leaves q b v = (
  drop_batch-IsValid q b v,
  λ p.
      let (_, _, dropped) = drop_batch_from_queue_lem q b v.realtime in
      by_queue (is_queue p q) (dropped p),
)
  where
    by_queue :
        {before after : List Event} (here : Bool)
        → after ≡ (if here then drop drop_batch_size before else before)
        → (n : ℕ) × (after ≡ drop n before)
    by_queue true e = (drop_batch_size, e)
    by_queue false e = (0, e)

module _ {P : Type 0} (processor : QueueId → EventProcessor P) where
  abbrev AllWellBehaved : Type 0
  AllWellBehaved = (q : QueueId) → IsWellBehaved (processor q)

  module _ (good : AllWellBehaved) where
    after_pop-IsOrdered :
        (q : QueueId) (now_ns : ℕ) (m : ProcessManager P) (r : Bus × Option Event)
        → Popped now_ns (queued q m.event_bus) (queued q r.0, r.1)
        → Keeps q m.event_bus r.0
        → IsOrdered m
        → IsOrdered (after_pop processor q m r)
    unfolding after_pop
    after_pop-IsOrdered q now_ns m (b, some e) popped keeps h =
        let taken : IsOrdered (took q m now_ns b e) = record {
          valid = keeps.valid;
          fifo = λ p.
              took-Fifo q m now_ns p b e (queued q m.event_bus) popped refl (λ o. keeps.others p o)
                h;
        } in
        let after =
          Leaves-IsOrdered (took q m now_ns b e) _ taken
            ((good q).processes (length m.handed) e b m.processors keeps.valid) in
        record { valid = after.valid; fifo = after.fifo }
    after_pop-IsOrdered q now_ns m (b, none) popped keeps h = record {
      valid = keeps.valid;
      fifo = λ p. elim (same_or_other p q) [
        | inl same ↦
            subst (λ r. Fifo r (record m { event_bus = b })) (sym same)
              (same-Fifo q m b (none_taken now_ns (queued q m.event_bus) (queued q b) popped)
                (h.fifo q))
        | inr other ↦ same-Fifo p m b (keeps.others p other) (h.fifo p)
      ];
    }

    round-IsOrdered :
        (now_ns : ℕ) (q : QueueId) (m : ProcessManager P)
        → IsOrdered m
        → IsOrdered (run_round processor now_ns q m)
    unfolding run_round
    round-IsOrdered now_ns q m h =
        after_pop-IsOrdered q now_ns m (Bus.pop now_ns [] q m.event_bus)
          (subst
            (λ l.
              Popped now_ns l
                (queued q (Bus.pop now_ns [] q m.event_bus).0, (Bus.pop now_ns [] q m.event_bus).1))
            (found-queued q m.event_bus) (pop-Popped now_ns [] q m.event_bus h.valid))
          (pop-Keeps now_ns q m.event_bus h.valid) h

    if-IsOrdered :
        (b : Bool) (m n : ProcessManager P)
        → IsOrdered m
        → IsOrdered n
        → IsOrdered (if b then m else n)
    if-IsOrdered true m n h k = h
    if-IsOrdered false m n h k = k

    step-IsOrdered :
        (t : Turn) (m : ProcessManager P) → IsOrdered m → IsOrdered (step processor t m)
    unfolding step
    step-IsOrdered (pushes now q e) m h = push-IsOrdered now q e m h
    step-IsOrdered (polls now_ns q) m h =
        if-IsOrdered m.is_running _ _ (round-IsOrdered now_ns q m h) h
    step-IsOrdered (ends q) m h =
        let after = Leaves-IsOrdered m _ h ((good q).stops m.event_bus m.processors h.valid) in
        if-IsOrdered m.is_running _ _ h record { valid = after.valid; fifo = after.fifo }
    step-IsOrdered (drops q) m h = Leaves-IsOrdered m _ h (drop-Leaves q m.event_bus h.valid)
    step-IsOrdered starts m h = record { valid = h.valid; fifo = h.fifo }
    step-IsOrdered stops m h = record { valid = h.valid; fifo = h.fifo }

    pub run-IsOrdered :
        (turns : List Turn) (m : ProcessManager P) → IsOrdered m → IsOrdered (run processor turns m)
    unfolding run
    run-IsOrdered [] m h = h
    run-IsOrdered (t ∷ rest) m h = run-IsOrdered rest (step processor t m) (step-IsOrdered t m h)
