-- ===== src/Crypto/Replay.antt =====
-- lib/ff_core/crypto.h and crypto.cpp: the counters that a receiver has accepted from a sender.
--
-- A slot of the replay table keeps the newest counter of a sender and a word with one bit for each
-- of the 32 counters below it. Counters and times are uint32_t.
pub mod Window
pub mod History
pub mod Table
pub mod Refused
pub mod Tracks
use mathlib.Core.Option
use formation_flight.Prelude.{
  ℕ, zero, suc, ◌-◌, ◌+◌, List, [], ◌∷◌, Option, none, some, Bool, true, false, not, ◌&&◌, ◌||◌,
  bit_and, bit_or, ltb, leb, ◌==◌, if◌then◌else◌, set, get_or, replicate, u32, shl, sub32,
}

abbrev pub replay_window_bits : ℕ
replay_window_bits = 32

abbrev pub replay_resync_ms : ℕ
replay_resync_ms = 10000

pub record ReplaySlot : Type 0 where
  pub uid : ℕ
  pub high : ℕ
  pub window : ℕ
  pub last_ms : ℕ
  pub used : Bool

-- `ReplaySlot{}`.
abbrev pub blank_slot : ReplaySlot
blank_slot = record { uid = 0; high = 0; window = 0; last_ms = 0; used = false }

-- The branch of `acceptCounter` for a counter above the newest.
unfoldable pub advance_window : ReplaySlot → ℕ → ReplaySlot
advance_window slot counter =
    let advance = counter - slot.high in
    record slot {
      high = counter;
      window =
          if leb replay_window_bits advance
          then 0
          else bit_or (u32 (shl slot.window advance)) (shl 1 (advance - 1));
    }

-- The branch for a counter at or below the newest. `1u << (behind - 1)` is evaluated for `behind`
-- from 1 to 32 only.
unfoldable pub look_behind : ReplaySlot → ℕ → Bool × ReplaySlot
look_behind slot counter =
    let behind = slot.high - counter in
    let digit = shl 1 (behind - 1) in
    if behind == 0 || ltb replay_window_bits behind
    then (false, slot)
    else if not (bit_and slot.window digit == 0)
    then (false, slot)
    else (true, record slot { window = bit_or slot.window digit })

-- Whether the counter is accepted, and the slot after it.
unfoldable pub accept_counter : ReplaySlot → ℕ → Bool → Bool × ReplaySlot
unfolding advance_window look_behind
accept_counter slot counter reset =
    if reset
    then (true, record slot { high = counter; window = 0 })
    else if ltb slot.high counter
    then (true, advance_window slot counter)
    else look_behind slot counter

unfoldable pub find_slot : ℕ → List ReplaySlot → Option ℕ
find_slot uid [] = none
find_slot uid (s ∷ ss) =
    if s.used && s.uid == uid then some 0 else Option.map suc (find_slot uid ss)

-- `static_cast<int32_t>(a - b) < 0` on times.
abbrev pub earlier : ℕ → ℕ → Bool
earlier a b = leb 2147483648 (sub32 a b)

-- The loop of `slotFor` that picks a slot, from slot `i` on, with the victim so far and its time.
unfoldable pub pick_victim : List ReplaySlot → ℕ → ℕ → ℕ → ℕ
pick_victim [] i victim stamp = victim
pick_victim (s ∷ ss) i victim stamp =
    let older = earlier s.last_ms stamp in
    let rest =
      pick_victim ss (i + 1) (if older then i else victim) (if older then s.last_ms else stamp) in
    if not s.used then i else rest

-- The first round of the loop, which has no victim yet, takes slot 0 either way.
unfoldable pub victim_slot : List ReplaySlot → ℕ
unfolding pick_victim
victim_slot [] = 0
victim_slot (s ∷ ss) = if not s.used then 0 else pick_victim ss 1 0 s.last_ms

-- `slotFor`: the index of the sender's slot, whether it is new, and the table with the slot in it.
unfoldable pub slot_for : ℕ → ℕ → List ReplaySlot → ℕ × Bool × List ReplaySlot
unfolding find_slot victim_slot
slot_for uid now_ms slots = elim (find_slot uid slots) [
  | some i ↦ (i, false, slots)
  | none ↦
      let i = victim_slot slots in
      (i, true, set slots i (record blank_slot { uid = uid; used = true; last_ms = now_ms }))
]

-- The sender's slot decides about the counter; `fresh` is a first contact. The time is stored on
-- acceptance only.
unfoldable pub accept_at : ℕ → Bool → ℕ → ℕ → List ReplaySlot → Bool × List ReplaySlot
unfolding accept_counter
accept_at i fresh counter now_ms slots =
    let slot = get_or slots i blank_slot in
    let reset = fresh || ltb replay_resync_ms (sub32 now_ms slot.last_ms) in
    let (accepted, slot') = accept_counter slot counter reset in
    if accepted
    then (true, set slots i (record slot' { last_ms = now_ms }))
    else (false, set slots i slot')

-- The part of `decrypt` behind the authentication: whether the frame's counter is accepted, and the
-- replay table after it.
unfoldable pub accept_frame : ℕ → ℕ → ℕ → List ReplaySlot → Bool × List ReplaySlot
unfolding slot_for accept_at
accept_frame uid counter now_ms slots =
    let (i, fresh, slots') = slot_for uid now_ms slots in accept_at i fresh counter now_ms slots'
