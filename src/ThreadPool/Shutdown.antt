-- ===== src/ThreadPool/Shutdown.antt =====
-- After `isRunning` is false: the worker threads come to rest, and where.
use event_stream_core.Common.{
  ℕ, zero, suc, ◌+◌, ◌*◌, ◌≤◌, ◌<◌, ◌≡◌, refl, sym, ap, subst, ◌⊎◌, inl, inr, Bool, true, false,
  not, ◌&&◌, List, [], ◌∷◌, arith, if◌then◌else◌, Bool-cases, length,
}
use event_stream_core.ThreadPool.{
  Worker, at_loop, at_wait, about_to_block, blocked, exited, busy, ThreadPool, lock_free,
  all_exited, can_go, can_turn, turn, turn_at, wake, wake_at, wake_all, Action, submits, turns,
  wakes, stores_false, notifies_all, clears, take_turn, step, run,
}

module _ {T : Type 0} where
  -- How many turns and wake-ups a worker has left once the pool is shut down.
  abbrev pub turns_left : Worker T → ℕ
  turns_left exited = 0
  turns_left at_loop = 1
  turns_left (busy t) = 2
  turns_left at_wait = 3
  turns_left blocked = 4
  turns_left about_to_block = 5

  abbrev pub all_turns_left : List (Worker T) → ℕ
  all_turns_left [] = 0
  all_turns_left (w ∷ ws) = turns_left w + all_turns_left ws

  at_most_five : (w : Worker T) → turns_left w ≤ 5
  at_most_five exited = ground arith
  at_most_five at_loop = ground arith
  at_most_five (busy t) = ground arith
  at_most_five at_wait = ground arith
  at_most_five blocked = ground arith
  at_most_five about_to_block = ground arith

  all_at_most_five : (ws : List (Worker T)) → all_turns_left ws ≤ 5 * length ws
  all_at_most_five [] = omega arith
  all_at_most_five (w ∷ ws) = omega (arith, at_most_five w, all_at_most_five ws)

  turn_uses_one :
      (free : Bool) (ts : List T) (w : Worker T)
      → can_go free w ≡ true
      → turns_left (turn false ts w).0 < turns_left w
  unfolding turn
  turn_uses_one free ts at_loop h = ground arith
  turn_uses_one free [] at_wait h = ground arith
  turn_uses_one free (t ∷ ts) at_wait h = ground arith
  turn_uses_one free ts about_to_block h = ground arith
  turn_uses_one free ts blocked h = cc
  turn_uses_one free ts exited h = cc
  turn_uses_one free ts (busy t) h = ground arith

  turn_at_uses_one :
      (free : Bool) (ts : List T) (ws : List (Worker T)) (i : ℕ)
      → can_turn free ws i ≡ true
      → all_turns_left (turn_at false ts ws i).0 < all_turns_left ws
  unfolding turn_at
  turn_at_uses_one free ts [] i h = cc
  turn_at_uses_one free ts (w ∷ ws) zero h = omega (arith, turn_uses_one free ts w h)
  turn_at_uses_one free ts (w ∷ ws) (suc i) h = omega (arith, turn_at_uses_one free ts ws i h)

  wake_adds_none : (w : Worker T) → turns_left (wake w) ≤ turns_left w
  wake_adds_none exited = ground arith
  wake_adds_none at_loop = ground arith
  wake_adds_none (busy t) = ground arith
  wake_adds_none at_wait = ground arith
  wake_adds_none blocked = ground arith
  wake_adds_none about_to_block = ground arith

  wake_at_adds_none :
      (ws : List (Worker T)) (i : ℕ) → all_turns_left (wake_at ws i) ≤ all_turns_left ws
  wake_at_adds_none [] i = omega arith
  wake_at_adds_none (w ∷ ws) zero = omega (arith, wake_adds_none w)
  wake_at_adds_none (w ∷ ws) (suc i) = omega (arith, wake_at_adds_none ws i)

  wake_all_adds_none : (ws : List (Worker T)) → all_turns_left (wake_all ws) ≤ all_turns_left ws
  wake_all_adds_none [] = omega arith
  wake_all_adds_none (w ∷ ws) = omega (arith, wake_adds_none w, wake_all_adds_none ws)

  -- Whether an action is a turn that a worker really takes.
  abbrev pub goes_on : Action T → ThreadPool T → Bool
  goes_on (turns i) p = can_turn (lock_free p.workers) p.workers i
  goes_on _ p = false

  -- How many turns the workers take in all.
  unfoldable pub turns_taken : List (Action T) → ThreadPool T → ℕ
  turns_taken [] p = 0
  turns_taken (a ∷ rest) p = (if goes_on a p then 1 else 0) + turns_taken rest (step a p)

  -- What is left after an action on a pool that is shut down.
  abbrev Uses : ThreadPool T → ℕ → ThreadPool T → Type 0
  Uses p n p' = (p'.is_running ≡ false) × (n + all_turns_left p'.workers ≤ all_turns_left p.workers)

  when_it_goes :
      (b : Bool) (p q : ThreadPool T) (n : ℕ)
      → p.is_running ≡ false
      → (b ≡ true → Uses p n q)
      → Uses p (if b then n else 0) (if b then q else p)
  when_it_goes true p q n h k = k refl
  when_it_goes false p q n h k = (h, omega arith)

  step-Uses :
      (a : Action T) (p : ThreadPool T)
      → p.is_running ≡ false
      → Uses p (if goes_on a p then 1 else 0) (step a p)
  unfolding step
  step-Uses (submits t) p h = elim (Bool-cases (lock_free p.workers)) [
    | inl e ↦ ground arith
    | inr e ↦ ground arith
  ]
  step-Uses (turns i) p h =
      when_it_goes (can_turn (lock_free p.workers) p.workers i) p
        (take_turn p (turn_at p.is_running p.tasks p.workers i)) 1 h
        (λ e. (
          h,
          omega (
            arith,
            turn_at_uses_one (lock_free p.workers) p.tasks p.workers i e,
            ap (λ r. all_turns_left (turn_at r p.tasks p.workers i).0) h,
          ),
        ))
  step-Uses (wakes i) p h = (h, omega (arith, wake_at_adds_none p.workers i))
  step-Uses stores_false p h = (refl, omega arith)
  step-Uses notifies_all p h = (h, omega (arith, wake_all_adds_none p.workers))
  step-Uses clears p h = elim (Bool-cases (not p.is_running && all_exited p.workers)) [
    | inl e ↦ ground arith
    | inr e ↦ ground arith
  ]

  run-Uses :
      (actions : List (Action T)) (p : ThreadPool T)
      → p.is_running ≡ false
      → Uses p (turns_taken actions p) (run actions p)
  unfolding turns_taken run
  run-Uses [] p h = (h, omega arith)
  run-Uses (a ∷ rest) p h =
      let (off, one) = step-Uses a p h in
      let (still, more) = run-Uses rest (step a p) off in (still, omega (arith, one, more))

  -- Whether a worker has returned or sleeps.
  abbrev pub is_at_rest : Worker T → Bool
  is_at_rest exited = true
  is_at_rest blocked = true
  is_at_rest _ = false

  abbrev pub all_at_rest : List (Worker T) → Bool
  all_at_rest [] = true
  all_at_rest (w ∷ ws) = is_at_rest w && all_at_rest ws

  -- A worker that can go on, among those that no worker or some worker keeps waiting.
  abbrev pub CanGo : Bool → List (Worker T) → Type 0
  CanGo free ws = (i : ℕ) × (can_turn free ws i ≡ true)

  later : (free : Bool) (w : Worker T) (ws : List (Worker T)) → CanGo free ws → CanGo free (w ∷ ws)
  later free w ws (i, e) = (suc i, e)

  holder_goes : (free : Bool) (ws : List (Worker T)) → lock_free ws ≡ false → CanGo free ws
  holder_goes free [] h = cc
  holder_goes free (about_to_block ∷ ws) h = (0, refl)
  holder_goes free (at_loop ∷ ws) h = later free at_loop ws (holder_goes free ws h)
  holder_goes free (at_wait ∷ ws) h = later free at_wait ws (holder_goes free ws h)
  holder_goes free (blocked ∷ ws) h = later free blocked ws (holder_goes free ws h)
  holder_goes free (exited ∷ ws) h = later free exited ws (holder_goes free ws h)
  holder_goes free (busy t ∷ ws) h = later free (busy t) ws (holder_goes free ws h)

  rest_or_go : (ws : List (Worker T)) → (all_at_rest ws ≡ true) ⊎ CanGo true ws
  rest_or_go [] = inl refl
  rest_or_go (w ∷ ws) = elim (rest_or_go ws) [
    | inr go ↦ inr (later true w ws go)
    | inl e ↦ first ws w e
  ]
    where
      first :
          (ws : List (Worker T)) (w : Worker T)
          → all_at_rest ws ≡ true
          → (all_at_rest (w ∷ ws) ≡ true) ⊎ CanGo true (w ∷ ws)
      first ws exited e = inl e
      first ws blocked e = inl e
      first ws at_loop e = inr (0, refl)
      first ws at_wait e = inr (0, refl)
      first ws (busy t) e = inr (0, refl)
      first ws about_to_block e = inr (0, refl)

  one_goes : (ws : List (Worker T)) → (all_at_rest ws ≡ true) ⊎ CanGo (lock_free ws) ws
  one_goes ws = elim (Bool-cases (lock_free ws)) [
    | inl e ↦ subst (λ b. (all_at_rest ws ≡ true) ⊎ CanGo b ws) (sym e) (rest_or_go ws)
    | inr e ↦ inr (holder_goes (lock_free ws) ws e)
  ]

  -- Once `isRunning` is false, the workers together take at most five times as many turns as there are
  -- workers, however they are scheduled and woken and whatever is still submitted; and at any time
  -- either each of them has returned or sleeps, or one of them can take a turn.
  pub shutdown_ends :
      (p : ThreadPool T)
      → p.is_running ≡ false
      → (actions : List (Action T))
      → (turns_taken actions p ≤ 5 * length p.workers)
        × ((all_at_rest (run actions p).workers ≡ true)
            ⊎ CanGo (lock_free (run actions p).workers) (run actions p).workers)
  shutdown_ends p h actions = (
    omega (arith, (run-Uses actions p h).1, all_at_most_five p.workers),
    one_goes (run actions p).workers,
  )
