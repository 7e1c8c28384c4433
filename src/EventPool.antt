-- ===== src/EventPool.antt =====
-- include/eventstream/core/memory/event_pool.hpp: the pool of one thread. An object is known by its
-- place in the pool, or by a number where it came from the heap; `deleted` are the objects that
-- `delete` was called on. The index that an event carries and the map from pointers give the same.
pub mod Places
pub mod Exclusive
mod Tests
use event_stream_core.Common.{
  ℕ, zero, suc, ◌+◌, ◌-◌, Option, none, some, List, [], ◌∷◌, leb, ◌==◌, if◌then◌else◌, get_or, set,
}

pub data Pointer : Type 0 where
  pooled : ℕ → Pointer
  heap : ℕ → Pointer

pub record EventPool : Type 0 where
  pub free_list : List ℕ
  pub available_count : ℕ
  pub next_heap : ℕ
  pub deleted : List Pointer

abbrev pub indices_from : ℕ → ℕ → List ℕ
indices_from zero i = []
indices_from (suc n) i = i ∷ indices_from n (i + 1)

module _ (capacity : ℕ) where
  unfoldable pub new_pool : EventPool
  new_pool = record {
    free_list = indices_from capacity 0;
    available_count = capacity;
    next_heap = 0;
    deleted = [];
  }

  unfoldable pub acquire : EventPool → EventPool × Pointer
  acquire p =
      if p.available_count == 0
      then (record p { next_heap = p.next_heap + 1 }, heap p.next_heap)
      else (
        record p { available_count = p.available_count - 1 },
        pooled (get_or p.free_list (p.available_count - 1) 0),
      )

  abbrev pub delete : Pointer → EventPool → EventPool
  delete obj p = record p { deleted = obj ∷ p.deleted }

  -- What follows the lookup of the object's index.
  unfoldable pub give_back : Pointer → EventPool → EventPool
  give_back (heap n) p = delete (heap n) p
  give_back (pooled idx) p = if leb capacity idx then delete (pooled idx) p else record p {
    free_list = set p.free_list p.available_count idx;
    available_count = p.available_count + 1;
  }

  unfoldable pub release : Option Pointer → EventPool → EventPool
  unfolding give_back
  release none p = p
  release (some obj) p = if leb capacity p.available_count then delete obj p else give_back obj p

  unfoldable pub available : EventPool → ℕ
  available p = p.available_count

  unfoldable pub reset : EventPool → EventPool
  reset p = record p { free_list = indices_from capacity 0; available_count = capacity }
