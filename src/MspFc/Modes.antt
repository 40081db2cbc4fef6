-- ===== src/MspFc/Modes.antt =====
-- lib/ff_core/msp_fc.h and msp_fc.cpp: the flight modes that are on.
pub mod Active
pub mod Digits
use formation_flight.Prelude.{
  ℕ, ◌+◌, ◌/◌, ◌%◌, List, [], ◌∷◌, Bool, true, false, not, leb, ◌==◌, if◌then◌else◌, bit_and,
  bit_or, length, get_or, shl, shr,
}

abbrev pub fc_box_permanent_ids : List ℕ
fc_box_permanent_ids =
    0 ∷ 1 ∷ 2 ∷ 3 ∷ 5 ∷ 6 ∷ 7 ∷ 8 ∷ 10 ∷ 11 ∷ 12 ∷ 13 ∷ 15 ∷ 16 ∷ 19 ∷ 20 ∷ 21 ∷ 22 ∷ 26 ∷ 27 ∷ 28
    ∷ 29 ∷ 30 ∷ 31 ∷ 32 ∷ 33 ∷ 34 ∷ 35 ∷ 36 ∷ 37 ∷ []

-- The inner loop, from mode `j` on: the digit of the mode with a permanent id is set.
unfoldable pub add_mode : List ℕ → ℕ → ℕ → ℕ → ℕ
add_mode [] j id modes = modes
add_mode (permanent ∷ ids) j id modes =
    let rest = add_mode ids (j + 1) id modes in
    if permanent == id then bit_or modes (shl 1 j) else rest

-- The outer loop over the ids of the boxes, from box `i` on.
unfoldable pub modes_from : List ℕ → List ℕ → ℕ → ℕ → ℕ
unfolding add_mode
modes_from flags [] i modes = modes
modes_from flags (id ∷ box_ids) i modes =
    let byte = i / 8 in
    let off = bit_and (get_or flags byte 0) (shl 1 (i % 8)) == 0 in
    let with_box = if off then modes else add_mode fc_box_permanent_ids 0 id modes in
    let rest = modes_from flags box_ids (i + 1) with_box in
    if leb (length flags) byte then modes else rest

unfoldable pub decode_active_modes : List ℕ → List ℕ → ℕ
unfolding modes_from
decode_active_modes flags box_ids = modes_from flags box_ids 0 0

unfoldable pub mode_active : ℕ → ℕ → Bool
mode_active modes m = not (bit_and (shr modes m) 1 == 0)
