-- ===== src/Lib.antt =====
-- Verification of the core of EventStreamCore: how an event travels from a client's bytes to the
-- queues of the event bus, what the three processors behind it do with it, and where it is stored.
--
-- The parts, in the order of the data flow, with the file that models each:
--   Event           include/eventstream/core/events/event.hpp: the event, its header, priorities.
--   Frame           src/core/ingest/frame_parser.cpp: `parseFrameBody`, `parseFullFrame`.
--   Stream          src/core/ingest/tcp.cpp: the receive loop of `handleClient`, which cuts frames off
--                   a connection's bytes.
--   Mpsc            include/eventstream/core/queues/mpsc.hpp: the linked queue into the dispatcher.
--   TopicTable      src/core/events/topic_table.cpp: priorities of topics, from a file's lines.
--   Dispatcher      src/core/events/dispatcher.cpp: priority, route, retries and the loop.
--   Bus             src/core/events/event_bus.cpp: the queues REALTIME, TRANSACTIONAL and BATCH.
--   Ring            include/eventstream/core/queues/spsc.hpp: the ring of the REALTIME queue.
--   DeadLetterQueue src/core/events/dead_letter_queue.cpp: what the pipeline dropped.
--   EventFactory    src/core/events/event_factory.cpp: the event made of a frame, its id and checksum.
--   Ingest          what src/core/ingest/tcp.cpp and udp.cpp do with a frame; Ingest.Tcp is the whole
--                   path of a TCP client's bytes, Ingest.Udp a turn of the UDP server's loop.
--   Epoll           src/core/ingest/epoll.cpp: the server that serves many clients with a few threads;
--                   Epoll.Buffer compares its framing with the TCP server's.
--   IngestEventPool include/eventstream/core/ingest/pool.hpp: the pool that events are taken from.
--   Dedup           src/core/queues/dedup.cpp: the ids of the last hour.
--   Handler         include/eventstream/core/processor/handler.hpp: handlers and their registry.
--   Realtime        src/core/processor/realtime.cpp: the processor of the REALTIME queue.
--   Transactional   src/core/processor/transactional.cpp: the processor of the TRANSACTIONAL queue.
--   Batch           src/core/processor/batch.cpp: the processor of the BATCH queue.
--   Storage         src/core/storage/storage.cpp: the file of events and the log of dropped ones.
--   Histogram       include/eventstream/core/metrics/histogram.hpp: latencies by powers of two.
--   Observers       include/eventstream/core/processor/output.hpp: whom the processors report to.
--   Bridge          src/bridge/esccore.cpp: the C interface.
--   Config          src/core/config/loader.cpp: the settings and their validation.
--   EventPool       include/eventstream/core/memory/event_pool.hpp: the pool of one thread.
--   ThreadPool      src/core/utils/thread_pool.cpp: the task queue, the workers, the shutdown.
--   MetricRegistry  src/core/metrics/registry.cpp: counters by name, snapshots, timestamps.
--   Sockets         src/core/ingest/tcp.cpp, udp.cpp: start and stop of the servers' sockets.
--   ClientThreads   src/core/ingest/tcp.cpp: accepting clients, their threads and the joins.
--   ProcessManager  src/core/processor/manager.cpp: the threads between the bus and the processors.
--   Common          shared names, sequences over native numbers, bytes and machine words.
--
-- Each class is a record with its fields, and each method a function with the method's name in snake
-- case that returns the new record, and what the method returns. The parser's exceptions are
-- values, and an access outside a buffer is the value `fault`. An `EventPtr` is an `Option Event`.
-- Unsigned integers are natural numbers with their wrap-around written out.
--
-- Concurrency: a call that holds its queue's mutex is one step. What other threads do while a call
-- waits on a condition variable or sleeps is an argument of the call's model. The steps of the
-- lock-free queues are functions of their own, and a call runs them one after the other. Threads that
-- meet at a queue or a list take turns, as a sequence of actions in any order.
--
-- Fuel: the receive loop runs on the length of its buffer, and each round moves the offset on by 4
-- bytes or more, so that this is enough; the loop of the dispatcher has as many turns as it is given.
--
-- Not modelled: what the system calls on sockets do, logging, binding threads and memory to NUMA
-- nodes, reading files, the clock (its readings are arguments), and src/main.cpp, which constructs
-- the parts and starts and stops them as src/bridge/esccore.cpp does.
-- The processors' models take the storage engine as the list of what it is given, and the observers
-- as the list of what they are told. A failed write, at which `storeEvent` throws, is a case of
-- `Realtime` and `Transactional`; in `Batch` no write fails. Not modelled either: calls that meet
-- where no mutex keeps them apart. These are a push and a pop on a full REALTIME ring, notifications
-- of the observers from two processors, and the metrics and health of the C interface during a
-- shutdown.
pub mod Common
pub mod Event
pub mod Frame
pub mod Stream
pub mod Ring
pub mod DeadLetterQueue
pub mod Bus
pub mod TopicTable
pub mod Mpsc
pub mod EventFactory
pub mod Ingest
pub mod Epoll
pub mod Storage
pub mod Batch
pub mod Histogram
pub mod Observers
pub mod Bridge
pub mod Config
pub mod EventPool
pub mod ThreadPool
pub mod ProcessManager
pub mod MetricRegistry
pub mod Sockets
pub mod ClientThreads
pub mod IngestEventPool
pub mod Dispatcher
pub mod Dedup
pub mod Handler
pub mod Realtime
pub mod Transactional
