-- ===== src/Ring.antt =====
-- include/eventstream/core/queues/spsc.hpp: the ring buffer of the REALTIME queue.
-- `Capacity` is a power of two (`static_assert`), so the index mask `& (Capacity - 1)` is written
-- `% capacity`. One slot stays free, so that a full ring differs from an empty one.
pub mod Bounds
pub mod Contents
pub mod Overwrite
mod Tests
use event_stream_core.Common.{
  ℕ, ◌+◌, ◌-◌, ◌%◌, Bool, true, false, Option, none, List, leb, ◌==◌, if◌then◌else◌, get_elem?, set,
  replicate,
}

pub record Ring {ℓ} (A : Type ℓ) : Type ℓ where
  pub buffer : List A
  pub head : ℕ
  pub tail : ℕ

module _ {ℓ} {A : Type ℓ} (capacity : ℕ) where
  -- The zero-initialised array, given what a fresh element is.
  unfoldable pub empty : A → Ring A
  empty fresh = record { buffer = replicate capacity fresh; head = 0; tail = 0 }

  unfoldable pub push : Ring A → A → Ring A × Bool
  push r item =
      let next = (r.head + 1) % capacity in
      if next == r.tail
      then (r, false)
      else (record r { buffer = set r.buffer r.head item; head = next }, true)

  -- `none` is `std::nullopt`; `Bounds` shows that the read is inside the array.
  unfoldable pub pop : Ring A → Option A × Ring A
  pop r =
      if r.tail == r.head
      then (none, r)
      else (get_elem? r.buffer r.tail, record r { tail = (r.tail + 1) % capacity })

  unfoldable pub size : Ring A → ℕ
  size r = if leb r.tail r.head then r.head - r.tail else capacity + r.head - r.tail
