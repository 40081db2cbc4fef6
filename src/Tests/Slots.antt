-- ===== src/Tests/Slots.antt =====
-- lib/ff_core/tx_slot.h: frames that wait, and one that is dropped.
use formation_flight.Prelude.{◌≡◌, refl, List, [], ◌∷◌, ◌++◌, replicate, false}
use formation_flight.TxSlot.{TxSlot, push, is_empty, held_frame, clear}
use formation_flight.TxSlot.Order.{Op, hand, send, drive, waiting, drive_in_order}

abbrev slot : TxSlot
slot = record { buf = replicate 64 0; len = 0; full = false; deferred = 0 }

abbrev ops : List Op
ops = hand (1 ∷ 2 ∷ []) ∷ hand (3 ∷ []) ∷ send ∷ send ∷ hand (4 ∷ []) ∷ []

ops_sent : (drive slot ops).1 ≡ (1 ∷ 2 ∷ []) ∷ []
unfolding drive push is_empty held_frame clear
ops_sent = refl

drive_in_order_example :
    waiting slot ++ (drive slot ops).0 ≡ (drive slot ops).1 ++ waiting (drive slot ops).2
drive_in_order_example = drive_in_order slot ops
