-- ===== src/TxSlot.antt =====
-- lib/ff_core/tx_slot.h: one frame held back while the radio finishes the previous one.
--
-- The frame and its length are a list, and a null pointer is `none`.
pub mod Order
use formation_flight.Prelude.{
  ℕ, ◌+◌, List, ◌++◌, Option, none, some, Bool, true, false, not, ◌||◌, ltb, ◌==◌, if◌then◌else◌,
  drop, take, length, u8, u32,
}

abbrev pub capacity : ℕ
capacity = 64

pub record TxSlot : Type 0 where
  pub buf : List ℕ
  pub len : ℕ
  pub full : Bool
  pub deferred : ℕ

unfoldable pub push : Option (List ℕ) → TxSlot → Bool × TxSlot
push none slot = (false, slot)
push (some frame) slot =
    let len = length frame in
    if slot.full || len == 0 || ltb capacity len then (false, slot) else (
      true,
      record slot {
        buf = frame ++ drop len slot.buf;
        len = u8 len;
        full = true;
        deferred = u32 (slot.deferred + 1);
      },
    )

unfoldable pub is_empty : TxSlot → Bool
is_empty slot = not slot.full

-- `data` with `size`.
unfoldable pub held_frame : TxSlot → List ℕ
held_frame slot = take slot.len slot.buf

unfoldable pub clear : TxSlot → TxSlot
clear slot = record slot { full = false; len = 0 }
