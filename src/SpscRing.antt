-- ===== src/SpscRing.antt =====
-- lib/ff_core/ring_buffer.h: the ring that hands received frames from an interrupt to the main loop.
--
-- The memory order is sequentially consistent here: what release and acquire guarantee of the two
-- indices on the processors in use is taken as given. An access of one shared variable is a step.
pub mod Steps
pub mod Interleaved
pub mod Whole
pub mod Held
pub mod Moves
use formation_flight.Prelude.{
  ℕ, ◌+◌, ◌-◌, ◌%◌, List, Option, none, some, Bool, true, false, ◌==◌, if◌then◌else◌, get_elem?,
  set, u32,
}

pub record SpscRing (A : Type 0) : Type 0 where
  pub buf : List A
  pub head : ℕ
  pub tail : ℕ
  pub dropped : ℕ

module _ {A : Type 0} (capacity : ℕ) where
  unfoldable pub push : A → SpscRing A → SpscRing A × Bool
  push item r =
      let next_head = (r.head + 1) % capacity in
      if next_head == r.tail
      then (record r { dropped = u32 (r.dropped + 1) }, false)
      else (record r { buf = set r.buf r.head item; head = next_head }, true)

  -- The item, or `none` for an empty ring.
  unfoldable pub pop : SpscRing A → SpscRing A × Option A
  pop r =
      if r.tail == r.head
      then (r, none)
      else (record r { tail = (r.tail + 1) % capacity }, get_elem? r.buf r.tail)

  unfoldable pub empty : SpscRing A → Bool
  empty r = r.head == r.tail

  unfoldable pub full : SpscRing A → Bool
  full r = (r.head + 1) % capacity == r.tail

  unfoldable pub size : SpscRing A → ℕ
  size r = (r.head + capacity - r.tail) % capacity
