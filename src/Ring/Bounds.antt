-- ===== src/Ring/Bounds.antt =====
-- The indices stay inside the array, and `size` counts the occupied slots.
use native.Mathlib.Decide.{dec_lt}
use native.Mathlib.Nat.{mod-eq_of_lt, mod_self}
use event_stream_core.Common.{
  ℕ, ◌+◌, ◌%◌, ◌<◌, ◌≡◌, ◌⊎◌, inl, inr, true, false, none, arith, length, length-set,
  length-replicate,
}
use event_stream_core.Ring.{Ring, empty, push, pop, size}

-- One step on, and round at the end.
pub next_index :
    (capacity i : ℕ)
    → i < capacity
    → ((i + 1 < capacity) × ((i + 1) % capacity ≡ i + 1))
      ⊎ ((i + 1 ≡ capacity) × ((i + 1) % capacity ≡ 0))
next_index capacity i h = elim (dec_lt (i + 1) capacity) [
  | yes p ↦ inl (p, mod-eq_of_lt p)
  | no p ↦ let e : i + 1 ≡ capacity = omega arith in inr (e, rw e (mod_self capacity))
]

module _ {A : Type 0} (capacity : ℕ) where
  pub record IsValid (r : Ring A) : Type 0 where
    pub storage : length r.buffer ≡ capacity
    pub head_in : r.head < capacity
    pub tail_in : r.tail < capacity

  pub empty-IsValid : (fresh : A) → 0 < capacity → IsValid (empty capacity fresh)
  unfolding empty
  empty-IsValid fresh h = omega (arith, length-replicate capacity fresh)

  pub push-IsValid : {r : Ring A} (item : A) → IsValid r → IsValid (push capacity r item).0
  unfolding push
  push-IsValid {r} item v = ground (arith, length-set r.buffer r.head item)

  pub pop-IsValid : {r : Ring A} → IsValid r → IsValid (pop capacity r).1
  unfolding pop
  pop-IsValid v = ground arith

  pub size-lt-capacity : {r : Ring A} → IsValid r → size capacity r < capacity
  unfolding size
  size-lt-capacity v = ground arith

  -- A push fails exactly on a ring with one free slot left, and otherwise adds one element.
  pub size-push :
      {r : Ring A} (item : A)
      → IsValid r
      → ((size capacity r + 1 ≡ capacity) × (push capacity r item ≡ (r, false)))
        ⊎ ((size capacity r + 1 < capacity)
            × ((push capacity r item).1 ≡ true)
            × (size capacity (push capacity r item).0 ≡ size capacity r + 1))
  unfolding push size
  size-push {r} item v = ground (arith, next_index capacity r.head)

  pub size-pop :
      {r : Ring A}
      → IsValid r
      → ((size capacity r ≡ 0) × (pop capacity r ≡ (none, r)))
        ⊎ ((0 < size capacity r) × (size capacity (pop capacity r).1 + 1 ≡ size capacity r))
  unfolding pop size
  size-pop {r} v = ground (arith, next_index capacity r.tail)
