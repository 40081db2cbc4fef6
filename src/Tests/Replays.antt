-- ===== src/Tests/Replays.antt =====
-- lib/ff_core/crypto.cpp: counters that arrive in order, out of order and twice.
use formation_flight.Prelude.{ℕ, ◌+◌, ◌≡◌, refl, List, [], ◌∷◌, true, false, arith}
use formation_flight.Crypto.Replay.{blank_slot, accept_counter}
use formation_flight.Crypto.Replay.Tracks.{contains}
use formation_flight.Crypto.Replay.History.{
  deliver, after_first, deliver_once, deliver_fresh, replay_after_step_of_32,
}

abbrev arrivals : List ℕ
arrivals = 103 ∷ 101 ∷ 103 ∷ 104 ∷ []

arrivals_accepted : (after_first blank_slot 100 arrivals).1 ≡ 104 ∷ 101 ∷ 103 ∷ 100 ∷ []
unfolding deliver accept_counter
arrivals_accepted = refl

deliver_once_example : (accept_counter (after_first blank_slot 100 arrivals).0 101 false).0 ≡ false
unfolding deliver contains accept_counter
deliver_once_example = deliver_once blank_slot 100 101 arrivals refl (omega arith)

deliver_fresh_example : (accept_counter (after_first blank_slot 100 arrivals).0 102 false).0 ≡ true
unfolding deliver contains accept_counter
deliver_fresh_example = deliver_fresh blank_slot 100 102 arrivals refl (omega arith)

replay_after_step_of_32_example :
    let first = (accept_counter blank_slot 7 true).1 in
    let second = accept_counter first (7 + 32) false in
    (second.0 ≡ true) × ((accept_counter second.1 7 false).0 ≡ true)
replay_after_step_of_32_example = replay_after_step_of_32 blank_slot 7 (omega arith)
