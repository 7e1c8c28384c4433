-- ===== src/ProcessManager/Processors.antt =====
-- The three processors that `ProcessManager` constructs: they share the storage engine, and the bus
-- with its dead letter queue.
pub mod Order
use event_stream_core.Common.{ℕ, Option, none, some, List}
use event_stream_core.Event.{Event}
use event_stream_core.DeadLetterQueue.{DeadLetterQueue}
use event_stream_core.Bus.{QueueId, Bus}
use event_stream_core.Handler.{Registry, get_or_default}
use event_stream_core.Realtime
use event_stream_core.Transactional
use event_stream_core.Batch
use event_stream_core.ProcessManager.{EventProcessor}

-- A processor is gone after a read outside an event's body.
pub record Processors : Type 0 where
  pub realtime : Option Realtime.Processor
  pub transactional : Option Transactional.Processor
  pub batch : Option Batch.Processor
  pub storage : Option (List Event)

-- What the clocks say during the call of a number, and the handlers.
pub record Surroundings : Type 0 where
  pub realtime_times : ℕ → Realtime.Times
  pub transactional_calls : ℕ → Transactional.Call
  pub batch_times : ℕ → Batch.Times
  pub registry : Registry

abbrev pub or_same : DeadLetterQueue → Option DeadLetterQueue → DeadLetterQueue
or_same old none = old
or_same old (some d) = d

-- The shared objects after a call.
unfoldable pub after_realtime : Bus → Processors → Option Realtime.Processor → Bus × Processors
after_realtime b p none = (b, record p { realtime = none })
after_realtime b p (some r) =
    (record b { dlq = or_same b.dlq r.dlq }, record p { realtime = some r; storage = r.storage })

unfoldable pub after_transactional :
    Bus → Processors → Option Transactional.Processor → Bus × Processors
after_transactional b p none = (b, record p { transactional = none })
after_transactional b p (some t) = (
  record b { dlq = or_same b.dlq t.dlq },
  record p { transactional = some t; storage = t.storage },
)

unfoldable pub after_batch : Bus → Processors → Option Batch.Processor → Bus × Processors
after_batch b p none = (b, record p { batch = none })
after_batch b p (some t) = (t.bus, record p { batch = some t; storage = t.storage })

module _ (s : Surroundings) where
  unfoldable pub realtime_process :
      ℕ → Event → Bus → Processors → Option Realtime.Processor → Bus × Processors
  unfolding after_realtime
  realtime_process n e b p none = (b, p)
  realtime_process n e b p (some r) = after_realtime b p (
      Realtime.process (s.realtime_times n) (get_or_default e.topic s.registry) e
        (record r { dlq = some b.dlq; storage = p.storage }))

  unfoldable pub transactional_process :
      ℕ → Event → Bus → Processors → Option Transactional.Processor → Bus × Processors
  unfolding after_transactional
  transactional_process n e b p none = (b, p)
  transactional_process n e b p (some t) = after_transactional b p (
      Transactional.process (s.transactional_calls n) e
        (record t { dlq = some b.dlq; storage = p.storage }))

  unfoldable pub batch_process :
      ℕ → Event → Bus → Processors → Option Batch.Processor → Bus × Processors
  unfolding after_batch
  batch_process n e b p none = (b, p)
  batch_process n e b p (some t) =
      after_batch b p
        (Batch.process (s.batch_times n) s.registry e (record t { bus = b; storage = p.storage }))

  unfoldable pub batch_stop : Bus → Processors → Option Batch.Processor → Bus × Processors
  unfolding after_batch
  batch_stop b p none = (b, p)
  batch_stop b p (some t) =
      after_batch b p (Batch.stop s.registry (record t { bus = b; storage = p.storage }))

  -- The other two only flush the storage engine when they are stopped.
  unfoldable pub processor_of : QueueId → EventProcessor Processors
  unfolding realtime_process transactional_process batch_process batch_stop
  processor_of QueueId.realtime = record {
    process =
        λ n e (shared : Bus × Processors). realtime_process n e shared.0 shared.1 shared.1.realtime;
    stop = λ shared. shared;
  }
  processor_of QueueId.transactional = record {
    process = λ n e (shared : Bus × Processors).
        transactional_process n e shared.0 shared.1 shared.1.transactional;
    stop = λ shared. shared;
  }
  processor_of QueueId.batch = record {
    process = λ n e (shared : Bus × Processors). batch_process n e shared.0 shared.1 shared.1.batch;
    stop = λ (shared : Bus × Processors). batch_stop shared.0 shared.1 shared.1.batch;
  }
