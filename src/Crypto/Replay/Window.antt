-- ===== src/Crypto/Replay/Window.antt =====
-- lib/ff_core/crypto.cpp: the digits of the replay window and the counters that were accepted.
use native.Mathlib.Decide.{ℕ_discrete, dec_lt}
use formation_flight.Prelude.{
  ℕ, ◌+◌, ◌-◌, ◌≤◌, ◌<◌, ◌≡◌, inl, inr, List, ◌∷◌, Bool, true, false, arith, ltb, ◌==◌,
  if◌then◌else◌, shl, bit_or, bit_and, Bool-cases, lt→ltb, not,
}
use formation_flight.Prelude.Bits.{bit, bit-lt, bit-bit_or, bit-zero_number}
use formation_flight.Prelude.Bits.Single.{bit-single_self, bit-single_ne, bit_and-single_iff}
use formation_flight.Crypto.Replay.{ReplaySlot, advance_window, look_behind, accept_counter}
use formation_flight.Crypto.Replay.Tracks.{
  contains, Tracks, advance_digit_above, advance_digit_here, advance_digit_below,
}

module _ (slot : ReplaySlot) (seen : List ℕ) (t : Tracks slot seen) (counter : ℕ) where
  contains_above : (c : ℕ) → slot.high < c → contains c seen ≡ false
  contains_above c h = elim (Bool-cases (contains c seen)) [
    | inl e ↦ absurd (omega (arith, t.greatest c e))
    | inr e ↦ e
  ]

  -- The digit d of the advanced window is the counter c = counter - d - 1.
  advance_digit :
      (c d : ℕ)
      → slot.high < counter
      → d < 31
      → counter ≡ c + d + 1
      → bit d (advance_window slot counter).window ≡ (if contains c seen then 1 else 0)
  unfolding advance_window
  advance_digit c d newer lt e = elim (dec_lt slot.high c) [
    | yes above ↦ ground (
      arith,
      contains_above c above,
      bit-zero_number d,
      advance_digit_above slot.window (counter - slot.high) d,
    )
    | no not_above ↦ elim (ℕ_discrete c slot.high) [
      | yes here ↦
          let at : d ≡ counter - slot.high - 1 = omega arith in
          let held : contains c seen ≡ true = rw here t.newest in
          rw (at, held) (ground (arith, advance_digit_here slot.window (counter - slot.high)))
      | no below ↦
          let at : d ≡ counter - slot.high + (slot.high - c - 1) = omega arith in
          rw at (
            ground (
              arith,
              advance_digit_below slot.window (counter - slot.high) (slot.high - c - 1),
              t.digits c (slot.high - c - 1),
            ))
    ]
  ]

  advance-Tracks : slot.high < counter → Tracks (advance_window slot counter) (counter ∷ seen)
  unfolding contains advance_window
  advance-Tracks newer = record {
    newest = ground arith;
    greatest = λ c h. ground (arith, t.greatest c);
    digits = λ c d lt e. ground (arith, advance_digit c d newer lt e);
  }

  -- The digit of a counter behind the newest.
  behind_digit : Bool
  behind_digit = bit_and slot.window (shl 1 (slot.high - counter - 1)) == 0

  -- `look_behind` accepts only a counter from 1 to 32 behind the newest whose digit is 0.
  look_behind-true :
      (look_behind slot counter).0 ≡ true
      → counter ≤ slot.high
      → (counter < slot.high)
        × (slot.high - counter ≤ 32)
        × (bit (slot.high - counter - 1) slot.window ≡ 0)
        × ((look_behind slot counter).1
            ≡ record slot { window = bit_or slot.window (shl 1 (slot.high - counter - 1)) })
  unfolding look_behind
  look_behind-true e le = ground (arith, bit_and-single_iff (slot.high - counter - 1) slot.window)

  mark_digit :
      (c d : ℕ)
      → d < 31
      → counter < slot.high
      → slot.high ≡ c + d + 1
      → bit d (bit_or slot.window (shl 1 (slot.high - counter - 1)))
        ≡ (if contains c (counter ∷ seen) then 1 else 0)
  unfolding contains
  mark_digit c d lt older e = elim (ℕ_discrete c counter) [
    | yes here ↦
        let at : d ≡ slot.high - counter - 1 = omega arith in
        rw at (
          ground (
            arith,
            bit-bit_or (slot.high - counter - 1) slot.window (shl 1 (slot.high - counter - 1)),
            bit-single_self (slot.high - counter - 1),
            bit-lt (slot.high - counter - 1) slot.window,
          ))
    | no other ↦ ground (
      arith,
      bit-bit_or d slot.window (shl 1 (slot.high - counter - 1)),
      bit-single_ne d (slot.high - counter - 1),
      t.digits c d lt e,
    )
  ]

  mark-Tracks :
      counter < slot.high
      → Tracks
          (record slot { window = bit_or slot.window (shl 1 (slot.high - counter - 1)) })
          (counter ∷ seen)
  unfolding contains
  mark-Tracks older = record {
    newest = ground (arith, t.newest);
    greatest = λ c h. ground (arith, t.greatest c);
    digits = λ c d lt e. mark_digit c d lt older e;
  }

  -- A counter that is accepted joins the history, and the slot stands for it again.
  pub accept_counter-Tracks :
      (accept_counter slot counter false).0 ≡ true
      → Tracks (accept_counter slot counter false).1 (counter ∷ seen)
  unfolding accept_counter
  accept_counter-Tracks e = elim (dec_lt slot.high counter) [
    | yes newer ↦ rw (lt→ltb slot.high counter newer) (advance-Tracks newer)
    | no not_newer ↦
        let test : ltb slot.high counter ≡ false = ground arith in
        let accepted : (look_behind slot counter).0 ≡ true = ground arith in
        let (older, near, clear, result) = look_behind-true accepted (omega arith) in
        rw (test, result) (mark-Tracks older)
  ]

  -- A counter that is refused leaves the slot as it was.
  pub accept_counter_refused :
      (accept_counter slot counter false).0 ≡ false → (accept_counter slot counter false).1 ≡ slot
  unfolding accept_counter look_behind
  accept_counter_refused e = ground arith

  look_behind_decides :
      counter ≤ slot.high
      → slot.high - counter ≤ 31
      → (look_behind slot counter).0 ≡ not (contains counter seen)
  unfolding look_behind
  look_behind_decides le near = elim (ℕ_discrete counter slot.high) [
    | yes newest ↦ let held : contains counter seen ≡ true = rw newest t.newest in ground arith
    | no other ↦ ground (
      arith,
      bit_and-single_iff (slot.high - counter - 1) slot.window,
      t.digits counter (slot.high - counter - 1),
    )
  ]

  -- Which counters are accepted: those above the newest; those up to 31 below it that are not in
  -- the history; the one 32 below it by its digit; none further below.
  pub accept_counter_decides :
      (slot.high < counter → (accept_counter slot counter false).0 ≡ true)
      × (counter ≤ slot.high
          → slot.high - counter ≤ 31
          → (accept_counter slot counter false).0 ≡ not (contains counter seen))
      × (counter + 32 < slot.high → (accept_counter slot counter false).0 ≡ false)
  unfolding accept_counter
  accept_counter_decides = (
    λ h. ground arith,
    λ le near. ground (arith, look_behind_decides le near),
    λ h. unfold look_behind in ground arith,
  )
