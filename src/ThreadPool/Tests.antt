-- ===== src/ThreadPool/Tests.antt =====
-- One worker and two tasks.
use event_stream_core.Common.{ℕ, ◌≤◌, ◌≡◌, refl, ◌⊎◌, true, false, List, [], ◌∷◌}
use event_stream_core.ThreadPool.{
  at_wait, blocked, ThreadPool, start_threads, lock_free, turn, turn_at, Action, submits, turns,
  stores_false, notifies_all, clears, step, run,
}
use event_stream_core.ThreadPool.Order.{IsOrdered, run_in_order}
use event_stream_core.ThreadPool.Shutdown.{turns_taken, all_at_rest, CanGo, shutdown_ends}

abbrev two_tasks : List (Action ℕ)
two_tasks =
    submits 7
    ∷ turns 0
    ∷ submits 8
    ∷ turns 0
    ∷ stores_false
    ∷ notifies_all
    ∷ turns 0
    ∷ turns 0
    ∷ clears
    ∷ []

the_second_is_thrown_away :
    let p = run two_tasks (start_threads 1) in (p.begun ≡ 7 ∷ []) × (p.discarded ≡ 8 ∷ [])
unfolding run step turn_at turn
the_second_is_thrown_away = (refl, refl)

-- The flag is stored and the threads are notified between a worker's test and its sleep.
abbrev lost_wake_up : List (Action ℕ)
lost_wake_up = turns 0 ∷ turns 0 ∷ stores_false ∷ notifies_all ∷ turns 0 ∷ turns 0 ∷ []

the_worker_sleeps_on : (run lost_wake_up (start_threads 1)).workers ≡ blocked ∷ []
unfolding run step turn_at turn
the_worker_sleeps_on = refl

run_in_order_example : IsOrdered (run two_tasks (start_threads 1))
run_in_order_example = run_in_order 1 two_tasks

abbrev shut_down : ThreadPool ℕ
shut_down = record (start_threads 1) { is_running = false; tasks = 7 ∷ []; workers = at_wait ∷ [] }

shutdown_ends_example :
    (turns_taken two_tasks shut_down ≤ 5)
    × ((all_at_rest (run two_tasks shut_down).workers ≡ true)
        ⊎ CanGo (lock_free (run two_tasks shut_down).workers) (run two_tasks shut_down).workers)
shutdown_ends_example = shutdown_ends shut_down refl two_tasks
