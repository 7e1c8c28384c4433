-- ===== src/ProcessManager/Processors/Order.antt =====
-- The processors do to the bus what they may, so that the queues stay in order.
use event_stream_core.Common.{
  ℕ, ◌≤◌, ◌≡◌, ◌≢◌, length, refl, sym, ap, Option, none, some, List, [], ◌++◌, map,
}
use event_stream_core.Event.{Event, blank_event}
use event_stream_core.Bus
use event_stream_core.Bus.{QueueId, Bus, BusMetrics, ring_capacity}
use event_stream_core.Bus.Drain.{queued}
use event_stream_core.Bus.Queues.{IsValid, init-IsValid}
use event_stream_core.Ring
use event_stream_core.Ring.{Ring}
use event_stream_core.Ring.Contents.{contents-empty, size-empty}
use event_stream_core.Realtime
use event_stream_core.Transactional
use event_stream_core.Batch
use event_stream_core.ProcessManager.{Turn, new_manager, run, plain}
use event_stream_core.ProcessManager.Fifo.{Leaves, IsWellBehaved, on, IsFifo}
use event_stream_core.ProcessManager.Pushes.{IsOrdered}
use event_stream_core.ProcessManager.Loop.{run-IsOrdered}
use event_stream_core.ProcessManager.BatchBus.{
  From, came, Leaves-refl, dlq-Leaves, process-From, stop-From,
}
use event_stream_core.ProcessManager.Processors.{
  Processors, Surroundings, or_same, after_realtime, after_transactional, after_batch,
  realtime_process, transactional_process, batch_process, batch_stop, processor_of,
}

-- The queues behind mutexes are within their capacities.
abbrev pub IsBounded : Bus → Type 0
IsBounded b =
    (length b.transactional_bus.dq ≤ b.transactional_bus.capacity)
    × (length b.batch_bus.dq ≤ b.batch_bus.capacity)

after_realtime-Leaves :
    (b : Bus) (p : Processors) (r : Option Realtime.Processor)
    → IsValid b
    → Leaves b (after_realtime b p r).0
unfolding after_realtime
after_realtime-Leaves b p none v = Leaves-refl b v
after_realtime-Leaves b p (some r) v = dlq-Leaves b (or_same b.dlq r.dlq) v

after_transactional-Leaves :
    (b : Bus) (p : Processors) (t : Option Transactional.Processor)
    → IsValid b
    → Leaves b (after_transactional b p t).0
unfolding after_transactional
after_transactional-Leaves b p none v = Leaves-refl b v
after_transactional-Leaves b p (some t) v = dlq-Leaves b (or_same b.dlq t.dlq) v

after_batch-Leaves :
    (b : Bus) (p : Processors) (t : Option Batch.Processor)
    → IsValid b
    → From b t
    → Leaves b (after_batch b p t).0
unfolding after_batch
after_batch-Leaves b p none v h = Leaves-refl b v
after_batch-Leaves b p (some _) v (came t h) = h

module _ (s : Surroundings) where
  realtime-Leaves :
      (n : ℕ) (e : Event) (b : Bus) (p : Processors) (r : Option Realtime.Processor)
      → IsValid b
      → Leaves b (realtime_process s n e b p r).0
  unfolding realtime_process
  realtime-Leaves n e b p none v = Leaves-refl b v
  realtime-Leaves n e b p (some r) v = after_realtime-Leaves b p _ v

  transactional-Leaves :
      (n : ℕ) (e : Event) (b : Bus) (p : Processors) (t : Option Transactional.Processor)
      → IsValid b
      → Leaves b (transactional_process s n e b p t).0
  unfolding transactional_process
  transactional-Leaves n e b p none v = Leaves-refl b v
  transactional-Leaves n e b p (some t) v = after_transactional-Leaves b p _ v

  batch-Leaves :
      (n : ℕ) (e : Event) (b : Bus) (p : Processors) (t : Option Batch.Processor)
      → IsValid b
      → Leaves b (batch_process s n e b p t).0
  unfolding batch_process
  batch-Leaves n e b p none v = Leaves-refl b v
  batch-Leaves n e b p (some t) v =
      let t' : Batch.Processor = record t { bus = b; storage = p.storage } in
      after_batch-Leaves b p _ v (process-From (s.batch_times n) s.registry e t' (Leaves-refl b v))

  batch_stop-Leaves :
      (b : Bus) (p : Processors) (t : Option Batch.Processor)
      → IsValid b
      → Leaves b (batch_stop s b p t).0
  unfolding batch_stop
  batch_stop-Leaves b p none v = Leaves-refl b v
  batch_stop-Leaves b p (some t) v =
      let t' : Batch.Processor = record t { bus = b; storage = p.storage } in
      after_batch-Leaves b p _ v (stop-From s.registry t' (Leaves-refl b v))

  processor_of-IsWellBehaved : (q : QueueId) → IsWellBehaved (processor_of s q)
  unfolding processor_of
  processor_of-IsWellBehaved QueueId.realtime = record {
    processes = λ n e b p v. realtime-Leaves n e b p p.realtime v;
    stops = λ b p v. Leaves-refl b v;
  }
  processor_of-IsWellBehaved QueueId.transactional = record {
    processes = λ n e b p v. transactional-Leaves n e b p p.transactional v;
    stops = λ b p v. Leaves-refl b v;
  }
  processor_of-IsWellBehaved QueueId.batch = record {
    processes = λ n e b p v. batch-Leaves n e b p p.batch v;
    stops = λ b p v. batch_stop-Leaves b p p.batch v;
  }

  new_manager-IsOrdered :
      (metrics : BusMetrics) (p : Processors) → IsOrdered (new_manager (Bus.init metrics) p)
  unfolding Bus.init Ring.empty
  new_manager-IsOrdered metrics p = record {
    valid = init-IsValid metrics;
    fifo = λ q. ([], nothing q, refl);
  }
    where
      nothing : (q : QueueId) → [] ≡ [] ++ map plain (queued q (Bus.init metrics))
      nothing QueueId.realtime =
          let fresh : Ring Event = Ring.empty ring_capacity blank_event in
          let none_waits =
            contents-empty ring_capacity fresh (size-empty ring_capacity fresh refl) in
          ap (λ l. map plain l) (sym none_waits)
      nothing QueueId.transactional = refl
      nothing QueueId.batch = refl

  -- From a fresh bus on, in whatever order events are pushed, taken off by the three threads, dropped,
  -- and the threads stopped, one call of the bus after the other as its mutexes make them: on the
  -- TRANSACTIONAL and the BATCH queue the accepted events are, in their order, those that have left its
  -- front and then those that it holds; those handed to its processor are some of the ones that left, in
  -- the same order, each once; and both queues stay within their capacities. No mutex guards the ring
  -- of REALTIME: of that queue nothing is said.
  pub run_order :
      (metrics : BusMetrics) (p : Processors) (turns : List Turn) (q : QueueId)
      → q ≢ QueueId.realtime
      → let m = run (processor_of s) turns (new_manager (Bus.init metrics) p) in
        IsFifo (on q m.accepted) (on q m.handed) (queued q m.event_bus) × IsBounded m.event_bus
  run_order metrics p turns q guarded =
      let ordered =
        run-IsOrdered (processor_of s) processor_of-IsWellBehaved turns
          (new_manager (Bus.init metrics) p) (new_manager-IsOrdered metrics p) in
      (ordered.fifo q, (ordered.valid.transactional_bound, ordered.valid.batch_bound))
