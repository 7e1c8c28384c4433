-- ===== src/ThreadPool.antt =====
-- src/core/utils/thread_pool.cpp: the queue of tasks, the worker threads, and the shutdown. The
-- threads are taken one turn at a time, in any order; what a task does is not modelled.
pub mod Order
pub mod Shutdown
mod Tests
use event_stream_core.Common.{
  ℕ, zero, suc, Bool, true, false, not, ◌&&◌, List, [], ◌∷◌, ◌++◌, if◌then◌else◌, length, replicate,
}

-- Where a worker stands in its loop: before the test of `isRunning`, before it takes the lock,
-- between the predicate of `wait` and its sleep (holding the lock), asleep, in a task, returned.
pub data Worker (T : Type 0) : Type 0 where
  at_loop at_wait about_to_block blocked exited : Worker T
  busy : T → Worker T

-- The fields of the class, and the tasks submitted, begun and thrown away so far, each in order.
pub record ThreadPool (T : Type 0) : Type 0 where
  pub is_running : Bool
  pub tasks : List T
  pub workers : List (Worker T)
  pub submitted : List T
  pub begun : List T
  pub discarded : List T

module _ {T : Type 0} where
  -- The constructor.
  abbrev pub start_threads : ℕ → ThreadPool T
  start_threads num_threads = record {
    is_running = true;
    tasks = [];
    workers = replicate num_threads at_loop;
    submitted = [];
    begun = [];
    discarded = [];
  }

  abbrev pub holds_lock : Worker T → Bool
  holds_lock about_to_block = true
  holds_lock _ = false

  abbrev pub lock_free : List (Worker T) → Bool
  lock_free [] = true
  lock_free (w ∷ ws) = not (holds_lock w) && lock_free ws

  abbrev pub has_exited : Worker T → Bool
  has_exited exited = true
  has_exited _ = false

  abbrev pub all_exited : List (Worker T) → Bool
  all_exited [] = true
  all_exited (w ∷ ws) = has_exited w && all_exited ws

  -- Whether a worker can go on by itself, when the lock is free or held by a worker.
  abbrev pub can_go : Bool → Worker T → Bool
  can_go free at_wait = free
  can_go free blocked = false
  can_go free exited = false
  can_go free _ = true

  abbrev pub can_turn : Bool → List (Worker T) → ℕ → Bool
  can_turn free [] i = false
  can_turn free (w ∷ ws) zero = can_go free w
  can_turn free (w ∷ ws) (suc i) = can_turn free ws i

  -- One turn of the loop of a worker: where it then is, the task that it takes, the tasks left.
  unfoldable pub turn : Bool → List T → Worker T → Worker T × List T × List T
  turn true ts at_loop = (at_wait, [], ts)
  turn false ts at_loop = (exited, [], ts)
  turn r (t ∷ ts) at_wait = (busy t, t ∷ [], ts)
  turn true [] at_wait = (about_to_block, [], [])
  turn false [] at_wait = (exited, [], [])
  turn r ts about_to_block = (blocked, [], ts)
  turn r ts blocked = (blocked, [], ts)
  turn r ts (busy t) = (at_loop, [], ts)
  turn r ts exited = (exited, [], ts)

  unfoldable pub turn_at : Bool → List T → List (Worker T) → ℕ → List (Worker T) × List T × List T
  turn_at r ts [] i = ([], [], ts)
  turn_at r ts (w ∷ ws) zero = let (w', taken, left) = turn r ts w in (w' ∷ ws, taken, left)
  turn_at r ts (w ∷ ws) (suc i) =
      let (ws', taken, left) = turn_at r ts ws i in (w ∷ ws', taken, left)

  abbrev pub wake : Worker T → Worker T
  wake blocked = at_wait
  wake w = w

  abbrev pub wake_at : List (Worker T) → ℕ → List (Worker T)
  wake_at [] i = []
  wake_at (w ∷ ws) zero = wake w ∷ ws
  wake_at (w ∷ ws) (suc i) = w ∷ wake_at ws i

  abbrev pub wake_all : List (Worker T) → List (Worker T)
  wake_all [] = []
  wake_all (w ∷ ws) = wake w ∷ wake_all ws

-- `wakes` is the `notify_one` of a `submit`, or a spurious wake-up; the last three are `shutdown`.
pub data Action (T : Type 0) : Type 0 where
  submits : T → Action T
  turns wakes : ℕ → Action T
  stores_false notifies_all clears : Action T

module _ {T : Type 0} where
  abbrev pub take_turn : ThreadPool T → List (Worker T) × List T × List T → ThreadPool T
  take_turn p (ws, taken, left) = record p { workers = ws; tasks = left; begun = p.begun ++ taken }

  -- An action that has to wait changes nothing: for the lock, or for the threads that are joined.
  unfoldable pub step : Action T → ThreadPool T → ThreadPool T
  step (submits t) p =
      if lock_free p.workers
      then record p { tasks = p.tasks ++ t ∷ []; submitted = p.submitted ++ t ∷ [] }
      else p
  step (turns i) p =
      if can_turn (lock_free p.workers) p.workers i
      then take_turn p (turn_at p.is_running p.tasks p.workers i)
      else p
  step (wakes i) p = record p { workers = wake_at p.workers i }
  step stores_false p = record p { is_running = false }
  step notifies_all p = record p { workers = wake_all p.workers }
  step clears p =
      if not p.is_running && all_exited p.workers
      then record p { tasks = []; discarded = p.discarded ++ p.tasks }
      else p

  unfoldable pub run : List (Action T) → ThreadPool T → ThreadPool T
  run [] p = p
  run (a ∷ rest) p = run rest (step a p)

  -- `getPendingTasks`.
  abbrev pub get_pending_tasks : ThreadPool T → ℕ
  get_pending_tasks p = length p.tasks
