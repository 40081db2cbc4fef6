-- ===== src/Crypto/Replay/Tracks.antt =====
-- lib/ff_core/crypto.cpp: what a replay slot knows of the counters that were accepted.
use formation_flight.Prelude.{
  ℕ, ◌+◌, ◌-◌, ◌≤◌, ◌<◌, ◌≡◌, List, [], ◌∷◌, Bool, true, false, arith, ◌==◌, if◌then◌else◌, u32,
  shl, bit_or, ◌||◌,
}
use formation_flight.Prelude.Bits.{bit, bit-bit_or, bit-shift, bit-shift_below, bit-zero_number}
use formation_flight.Prelude.Bits.Single.{bit-mod, bit-single_self, bit-single_ne}
use formation_flight.Crypto.Replay.{ReplaySlot, accept_counter}

unfoldable pub contains : ℕ → List ℕ → Bool
contains c [] = false
contains c (s ∷ seen) = c == s || contains c seen

-- The slot stands for the accepted counters `seen`: its newest is the greatest of them, and of each
-- of the 31 counters below it the window says whether it is one of them.
pub record Tracks (slot : ReplaySlot) (seen : List ℕ) : Type 0 where
  pub newest : contains slot.high seen ≡ true
  pub greatest : (c : ℕ) → contains c seen ≡ true → c ≤ slot.high
  pub digits :
      (c d : ℕ)
      → d < 31
      → slot.high ≡ c + d + 1
      → bit d slot.window ≡ (if contains c seen then 1 else 0)

-- A reset starts a new history.
pub reset-Tracks :
    (slot : ReplaySlot) (counter : ℕ) → Tracks (accept_counter slot counter true).1 (counter ∷ [])
unfolding accept_counter contains
reset-Tracks slot counter = record {
  newest = ground arith;
  greatest = λ c h. ground arith;
  digits = λ c d lt e. ground (arith, bit-zero_number d);
}

-- The digits of the window after an advance.
pub advance_digit_above :
    (w advance d : ℕ)
    → advance < 32
    → d + 1 < advance
    → bit d (bit_or (u32 (shl w advance)) (shl 1 (advance - 1))) ≡ 0
advance_digit_above w advance d small h = omega (
  arith,
  bit-bit_or d (u32 (shl w advance)) (shl 1 (advance - 1)),
  bit-mod 32 d (shl w advance) (omega arith),
  bit-shift_below advance d w (omega arith),
  bit-single_ne d (advance - 1) (omega arith),
)

pub advance_digit_here :
    (w advance : ℕ)
    → advance < 32
    → 0 < advance
    → bit (advance - 1) (bit_or (u32 (shl w advance)) (shl 1 (advance - 1))) ≡ 1
advance_digit_here w advance small h = omega (
  arith,
  bit-bit_or (advance - 1) (u32 (shl w advance)) (shl 1 (advance - 1)),
  bit-mod 32 (advance - 1) (shl w advance) (omega arith),
  bit-shift_below advance (advance - 1) w (omega arith),
  bit-single_self (advance - 1),
)

pub advance_digit_below :
    (w advance d : ℕ)
    → advance + d < 32
    → 0 < advance
    → bit (advance + d) (bit_or (u32 (shl w advance)) (shl 1 (advance - 1))) ≡ bit d w
advance_digit_below w advance d small h = omega (
  arith,
  bit-bit_or (advance + d) (u32 (shl w advance)) (shl 1 (advance - 1)),
  bit-mod 32 (advance + d) (shl w advance) small,
  bit-shift advance d w,
  bit-single_ne (advance + d) (advance - 1) (omega arith),
)
