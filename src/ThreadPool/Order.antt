-- ===== src/ThreadPool/Order.antt =====
-- The order in which the submitted tasks begin, and what happens to those that do not.
use mathlib.Core.List.{append-nil, append_assoc}
use event_stream_core.Common.{
  ℕ, zero, suc, ◌≡◌, refl, sym, ap, ap₂, ◌∙◌, ◌⊎◌, inl, inr, Bool, true, false, not, ◌&&◌, List, [],
  ◌∷◌, ◌++◌, arith, if◌then◌else◌,
}
use event_stream_core.ThreadPool.{
  Worker, at_loop, at_wait, about_to_block, blocked, exited, busy, ThreadPool, start_threads,
  lock_free, all_exited, can_turn, turn, turn_at, wake_at, wake_all, Action, submits, turns, wakes,
  stores_false, notifies_all, clears, take_turn, step, run,
}

module _ {T : Type 0} where
  -- Each submitted task has begun, was thrown away when all threads had returned, or waits.
  abbrev pub InOrder : ThreadPool T → Type 0
  InOrder p = p.submitted ≡ p.begun ++ p.discarded ++ p.tasks

  pub record IsOrdered (p : ThreadPool T) : Type 0 where
    pub in_order : InOrder p
    pub only_at_end : (p.discarded ≡ []) ⊎ (all_exited p.workers ≡ true)

  turn-split : (r : Bool) (ts : List T) (w : Worker T) → (turn r ts w).1 ++ (turn r ts w).2 ≡ ts
  unfolding turn
  turn-split true ts at_loop = refl
  turn-split false ts at_loop = refl
  turn-split r (t ∷ ts) at_wait = refl
  turn-split true [] at_wait = refl
  turn-split false [] at_wait = refl
  turn-split r ts about_to_block = refl
  turn-split r ts blocked = refl
  turn-split r ts exited = refl
  turn-split r ts (busy t) = refl

  turn_at-split :
      (r : Bool) (ts : List T) (ws : List (Worker T)) (i : ℕ)
      → (turn_at r ts ws i).1 ++ (turn_at r ts ws i).2 ≡ ts
  unfolding turn_at
  turn_at-split r ts [] i = refl
  turn_at-split r ts (w ∷ ws) zero = turn-split r ts w
  turn_at-split r ts (w ∷ ws) (suc i) = turn_at-split r ts ws i

  none_turns :
      (free : Bool) (ws : List (Worker T)) (i : ℕ)
      → all_exited ws ≡ true
      → can_turn free ws i ≡ false
  none_turns free [] i h = refl
  none_turns free (exited ∷ ws) zero h = refl
  none_turns free (exited ∷ ws) (suc i) h = none_turns free ws i h
  none_turns free (at_loop ∷ ws) i h = cc
  none_turns free (at_wait ∷ ws) i h = cc
  none_turns free (about_to_block ∷ ws) i h = cc
  none_turns free (blocked ∷ ws) i h = cc
  none_turns free (busy t ∷ ws) i h = cc

  wake_at-all_exited :
      (ws : List (Worker T)) (i : ℕ) → all_exited ws ≡ true → all_exited (wake_at ws i) ≡ true
  wake_at-all_exited [] i h = refl
  wake_at-all_exited (exited ∷ ws) zero h = h
  wake_at-all_exited (exited ∷ ws) (suc i) h = wake_at-all_exited ws i h
  wake_at-all_exited (at_loop ∷ ws) i h = cc
  wake_at-all_exited (at_wait ∷ ws) i h = cc
  wake_at-all_exited (about_to_block ∷ ws) i h = cc
  wake_at-all_exited (blocked ∷ ws) i h = cc
  wake_at-all_exited (busy t ∷ ws) i h = cc

  wake_all-all_exited :
      (ws : List (Worker T)) → all_exited ws ≡ true → all_exited (wake_all ws) ≡ true
  wake_all-all_exited [] h = refl
  wake_all-all_exited (exited ∷ ws) h = wake_all-all_exited ws h
  wake_all-all_exited (at_loop ∷ ws) h = cc
  wake_all-all_exited (at_wait ∷ ws) h = cc
  wake_all-all_exited (about_to_block ∷ ws) h = cc
  wake_all-all_exited (blocked ∷ ws) h = cc
  wake_all-all_exited (busy t ∷ ws) h = cc

  if_IsOrdered :
      (b : Bool) (p q : ThreadPool T)
      → IsOrdered p
      → (b ≡ true → IsOrdered q)
      → IsOrdered (if b then q else p)
  if_IsOrdered true p q h k = k refl
  if_IsOrdered false p q h k = h

  -- A turn is only taken while nothing was thrown away.
  taken-InOrder :
      (p : ThreadPool T) (taken left : List T)
      → InOrder p
      → p.discarded ≡ []
      → taken ++ left ≡ p.tasks
      → p.submitted ≡ (p.begun ++ taken) ++ p.discarded ++ left
  taken-InOrder p taken left h empty split =
      h
      ∙ ap₂ (λ d ts. (p.begun ++ d) ++ ts) empty (sym split)
      ∙ ap (λ begun. begun ++ (taken ++ left)) (append-nil p.begun)
      ∙ sym (append_assoc p.begun taken left)
      ∙ ap (λ begun. begun ++ left) (sym (append-nil (p.begun ++ taken)))
      ∙ ap (λ d. ((p.begun ++ taken) ++ d) ++ left) (sym empty)

  turns-IsOrdered :
      (p : ThreadPool T) (i : ℕ)
      → IsOrdered p
      → can_turn (lock_free p.workers) p.workers i ≡ true
      → IsOrdered (take_turn p (turn_at p.is_running p.tasks p.workers i))
  turns-IsOrdered p i h e = elim h.only_at_end [
    | inl empty ↦ record {
      in_order =
          taken-InOrder p (turn_at p.is_running p.tasks p.workers i).1
            (turn_at p.is_running p.tasks p.workers i).2 h.in_order empty
            (turn_at-split p.is_running p.tasks p.workers i);
      only_at_end = inl empty;
    }
    | inr all ↦ absurd (apart (sym e ∙ none_turns (lock_free p.workers) p.workers i all))
  ]
    where
      apart : ¬ (true ≡ false)
      apart h = cc

  stays :
      {d : List T} (f : List (Worker T) → List (Worker T)) (ws : List (Worker T))
      → ((all_exited ws ≡ true) → all_exited (f ws) ≡ true)
      → (d ≡ []) ⊎ (all_exited ws ≡ true)
      → (d ≡ []) ⊎ (all_exited (f ws) ≡ true)
  stays f ws k (inl empty) = inl empty
  stays f ws k (inr all) = inr (k all)

  step-IsOrdered : (a : Action T) (p : ThreadPool T) → IsOrdered p → IsOrdered (step a p)
  unfolding step
  step-IsOrdered (submits t) p h = if_IsOrdered (lock_free p.workers) p _ h (λ e. record {
    in_order =
        ap (λ ts. ts ++ t ∷ []) h.in_order ∙ append_assoc (p.begun ++ p.discarded) p.tasks (t ∷ []);
    only_at_end = h.only_at_end;
  })
  step-IsOrdered (turns i) p h =
      if_IsOrdered (can_turn (lock_free p.workers) p.workers i) p _ h (λ e. turns-IsOrdered p i h e)
  step-IsOrdered (wakes i) p h = record {
    in_order = h.in_order;
    only_at_end =
        stays (λ ws. wake_at ws i) p.workers (λ e. wake_at-all_exited p.workers i e) h.only_at_end;
  }
  step-IsOrdered stores_false p h = record { in_order = h.in_order; only_at_end = h.only_at_end }
  step-IsOrdered notifies_all p h = record {
    in_order = h.in_order;
    only_at_end =
        stays (λ ws. wake_all ws) p.workers (λ e. wake_all-all_exited p.workers e) h.only_at_end;
  }
  step-IsOrdered clears p h = if_IsOrdered (not p.is_running && all_exited p.workers) p _ h (λ e.
      record {
        in_order =
            h.in_order
            ∙ append_assoc p.begun p.discarded p.tasks
            ∙ sym (append-nil (p.begun ++ (p.discarded ++ p.tasks)));
        only_at_end = inr (ground arith);
      })

  run-IsOrdered :
      (actions : List (Action T)) (p : ThreadPool T) → IsOrdered p → IsOrdered (run actions p)
  unfolding run
  run-IsOrdered [] p h = h
  run-IsOrdered (a ∷ rest) p h = run-IsOrdered rest (step a p) (step-IsOrdered a p h)

  -- However the threads are scheduled and woken, each submitted task has begun, was thrown away by
  -- the shutdown or still waits, and none twice: the begun tasks, then those thrown away, then the
  -- waiting ones are the submitted tasks in the order of their submission; and a task is thrown
  -- away only when all threads have returned.
  pub run_in_order :
      (num_threads : ℕ) (actions : List (Action T))
      → IsOrdered (run actions (start_threads num_threads))
  run_in_order n actions =
      run-IsOrdered actions (start_threads n) record { in_order = refl; only_at_end = inl refl }
