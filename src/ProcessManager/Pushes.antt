-- ===== src/ProcessManager/Pushes.antt =====
-- A push, and a processor that drops events, keep every queue first in, first out.
use event_stream_core.Common.{
  ℕ, ◌≡◌, sym, subst, inl, inr, Bool, true, false, Option, [], ◌∷◌, ◌++◌, drop,
}
use event_stream_core.Event.{Event}
use event_stream_core.Bus
use event_stream_core.Bus.{QueueId, Bus}
use event_stream_core.Bus.Drain.{queued, is_queue}
use event_stream_core.Bus.Queues.{IsValid, Accepted, push-Accepted, push-IsValid}
use event_stream_core.Bus.Separate.{same_or_other, push-other}
use event_stream_core.ProcessManager.{ProcessManager, plain, note_push}
use event_stream_core.ProcessManager.Fifo.{
  Leaves, on, IsFifo, drop-IsFifo, push-IsFifo, on-append_self, on-append_other,
}

module _ {P : Type 0} where
  abbrev pub Fifo : QueueId → ProcessManager P → Type 0
  Fifo q m = IsFifo (on q m.accepted) (on q m.handed) (queued q m.event_bus)

  pub record IsOrdered (m : ProcessManager P) : Type 0 where
    pub valid : IsValid m.event_bus
    pub fifo : (q : QueueId) → Fifo q m

  -- A queue that a push or a drop leaves as it was.
  pub same-Fifo :
      (q : QueueId) (m : ProcessManager P) (b : Bus)
      → queued q b ≡ queued q m.event_bus
      → Fifo q m
      → Fifo q (record m { event_bus = b })
  same-Fifo q m b e h = subst (λ l. IsFifo (on q m.accepted) (on q m.handed) l) (sym e) h

  note_other :
      (p q : QueueId) (e : Event) (m : ProcessManager P) (r : Bus × Bool)
      → is_queue p q ≡ false
      → queued p r.0 ≡ queued p m.event_bus
      → Fifo p m
      → Fifo p (note_push q e m r)
  unfolding note_push
  note_other p q e m (b, false) h same f = same-Fifo p m b same f
  note_other p q e m (b, true) h same f =
      subst (λ l. IsFifo l (on p m.handed) (queued p b))
        (sym (on-append_other p q (plain e) m.accepted h)) (same-Fifo p m b same f)

  note_self :
      (q : QueueId) (e : Event) (m : ProcessManager P) (r : Bus × Bool)
      → Accepted (queued q m.event_bus) e (queued q r.0, r.1)
      → Fifo q m
      → Fifo q (note_push q e m r)
  unfolding note_push
  note_self q e m (b, false) (inl (done, left, after)) f = cc
  note_self q e m (b, false) (inr (done, left, after)) f =
      subst (λ l. IsFifo (on q m.accepted) (on q m.handed) l) (sym after)
        (drop-IsFifo left (queued q m.event_bus) f)
  note_self q e m (b, true) (inr (done, left, after)) f = cc
  note_self q e m (b, true) (inl (done, left, after)) f =
      subst (λ l. IsFifo l (on q m.handed) (queued q b))
        (sym (on-append_self q (plain e) m.accepted))
        (subst (λ l. IsFifo (on q m.accepted ++ plain e ∷ []) (on q m.handed) l) (sym after)
          (push-IsFifo e (drop left (queued q m.event_bus))
            (drop-IsFifo left (queued q m.event_bus) f)))

  note-valid :
      (q : QueueId) (e : Event) (m : ProcessManager P) (r : Bus × Bool)
      → IsValid r.0
      → IsValid (note_push q e m r).event_bus
  unfolding note_push
  note-valid q e m (b, false) v = v
  note-valid q e m (b, true) v = v

  pub push-IsOrdered :
      (now : Option ℕ) (q : QueueId) (e : Event) (m : ProcessManager P)
      → IsOrdered m
      → IsOrdered (note_push q e m (Bus.push now 0 q m.event_bus e))
  push-IsOrdered now q e m h = record {
    valid = note-valid q e m _ (push-IsValid now 0 q m.event_bus e h.valid);
    fifo = λ p. elim (same_or_other p q) [
      | inl same ↦
          subst (λ r. Fifo r (note_push q e m (Bus.push now 0 q m.event_bus e))) (sym same)
            (note_self q e m _ (push-Accepted now 0 q m.event_bus e h.valid) (h.fifo q))
      | inr other ↦ note_other p q e m _ other (push-other now p q m.event_bus e other) (h.fifo p)
    ];
  }

  pub Leaves-IsOrdered :
      (m : ProcessManager P) (b : Bus)
      → IsOrdered m
      → Leaves m.event_bus b
      → IsOrdered (record m { event_bus = b })
  Leaves-IsOrdered m b h (v, dropped) = record {
    valid = v;
    fifo = λ q.
        let (n, e) = dropped q in
        subst (λ l. IsFifo (on q m.accepted) (on q m.handed) l) (sym e)
          (drop-IsFifo n (queued q m.event_bus) (h.fifo q));
  }
