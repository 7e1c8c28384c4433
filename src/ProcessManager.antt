-- ===== src/ProcessManager.antt =====
-- src/core/processor/manager.cpp: the threads that take events off the three queues of the bus and
-- hand them to the processors. The threads, the producers and whoever drops events take turns, in any
-- order; what arrives while a thread waits in `pop` is a push before its turn.
pub mod Fifo
pub mod Pushes
pub mod Loop
pub mod BatchBus
pub mod Processors
mod Tests
use event_stream_core.Common.{
  ℕ, Bool, true, false, Option, none, some, List, [], ◌∷◌, ◌++◌, if◌then◌else◌, length,
}
use event_stream_core.Event.{Event}
use event_stream_core.Bus
use event_stream_core.Bus
use event_stream_core.Bus.{QueueId, Bus, stamped}

-- The virtual functions of `EventProcessor`, on a state `P` of the processors. They share the bus with
-- its dead letter queue; the number says how many events there were before, and so what the clocks say.
pub record EventProcessor (P : Type 0) : Type 0 where
  pub process : ℕ → Event → Bus × P → Bus × P
  pub stop : Bus × P → Bus × P

-- The events that the pushes accepted and those handed to the processors, by queue, oldest first.
pub record ProcessManager (P : Type 0) : Type 0 where
  pub is_running : Bool
  pub event_bus : Bus
  pub processors : P
  pub accepted : List (QueueId × Event)
  pub handed : List (QueueId × Event)

-- An event but for its time of dequeuing, which `pop` writes.
abbrev pub plain : Event → Event
plain e = stamped 0 e

abbrev pub new_manager : {P : Type 0} → Bus → P → ProcessManager P
new_manager b p = record {
  is_running = false;
  event_bus = b;
  processors = p;
  accepted = [];
  handed = [];
}

pub data Turn : Type 0 where
  pushes : Option ℕ → QueueId → Event → Turn
  polls : ℕ → QueueId → Turn
  ends drops : QueueId → Turn
  starts stops : Turn

unfoldable pub note_push :
    {P : Type 0} → QueueId → Event → ProcessManager P → Bus × Bool → ProcessManager P
note_push q e m (b, false) = record m { event_bus = b }
note_push q e m (b, true) = record m { event_bus = b; accepted = m.accepted ++ (q, plain e) ∷ [] }

module _ {P : Type 0} (processor : QueueId → EventProcessor P) where
  -- What follows `pop` in `runLoop`; what `process` throws is caught there.
  unfoldable pub after_pop : QueueId → ProcessManager P → Bus × Option Event → ProcessManager P
  after_pop q m (b, none) = record m { event_bus = b }
  after_pop q m (b, some e) =
      let (b', p) = (processor q).process (length m.handed) e (b, m.processors) in
      record m { event_bus = b'; processors = p; handed = m.handed ++ (q, plain e) ∷ [] }

  -- A round of `runLoop`.
  unfoldable pub run_round : ℕ → QueueId → ProcessManager P → ProcessManager P
  unfolding after_pop
  run_round now_ns q m = after_pop q m (Bus.pop now_ns [] q m.event_bus)

  -- `polls` is a round of a queue's thread and `ends` what follows its loop.
  unfoldable pub step : Turn → ProcessManager P → ProcessManager P
  unfolding run_round note_push
  step (pushes now q e) m = note_push q e m (Bus.push now 0 q m.event_bus e)
  step (polls now_ns q) m = if m.is_running then run_round now_ns q m else m
  step (ends q) m =
      if m.is_running
      then m
      else let (b, p) = (processor q).stop (m.event_bus, m.processors) in
        record m { event_bus = b; processors = p }
  step (drops q) m = record m { event_bus = (Bus.drop_batch_from_queue q m.event_bus).0 }
  step starts m = record m { is_running = true }
  step stops m = record m { is_running = false }

  unfoldable pub run : List Turn → ProcessManager P → ProcessManager P
  run [] m = m
  run (t ∷ ts) m = run ts (step t m)
