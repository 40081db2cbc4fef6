-- ===== src/Crypto/Replay/History.antt =====
-- lib/ff_core/crypto.cpp: what a sequence of frames from one sender can do to its slot.
use formation_flight.Prelude.{
  ℕ, ◌+◌, ◌≤◌, ◌≡◌, ◌≢◌, List, [], ◌∷◌, true, false, arith, inl, inr, Bool-cases, IsWord32,
}
use formation_flight.Crypto.Replay.{ReplaySlot, advance_window, look_behind, accept_counter}
use formation_flight.Crypto.Replay.Window.{
  accept_counter-Tracks, accept_counter_refused, accept_counter_decides,
}
use formation_flight.Crypto.Replay.Tracks.{contains, Tracks, reset-Tracks}

-- The counters of a sender's frames in the order of arrival, with no reset in between; the accepted
-- ones go on top of `seen`.
unfoldable pub deliver : ReplaySlot → List ℕ → List ℕ → ReplaySlot × List ℕ
deliver slot seen [] = (slot, seen)
deliver slot seen (c ∷ cs) =
    let (accepted, slot') = accept_counter slot c false in
    elim accepted [ true ↦ deliver slot' (c ∷ seen) cs | false ↦ deliver slot' seen cs ]

pub deliver-Tracks :
    (slot : ReplaySlot) (seen cs : List ℕ)
    → Tracks slot seen
    → Tracks (deliver slot seen cs).0 (deliver slot seen cs).1
unfolding deliver
deliver-Tracks slot seen [] t = t
deliver-Tracks slot seen (c ∷ cs) t =
    let r = accept_counter slot c false in
    elim (Bool-cases r.0) [
      | inl e ↦
          rw (e, deliver) (deliver-Tracks r.1 (c ∷ seen) cs (accept_counter-Tracks slot seen t c e))
      | inr e ↦
          rw (e, deliver)
            (deliver-Tracks r.1 seen cs (rw (accept_counter_refused slot seen t c e) t))
    ]

-- The slot and the accepted counters after a first frame, which resets the slot, and the frames
-- `cs` behind it.
abbrev pub after_first : ReplaySlot → ℕ → List ℕ → ReplaySlot × List ℕ
after_first slot first cs = deliver (accept_counter slot first true).1 (first ∷ []) cs

after_first-Tracks :
    (slot : ReplaySlot) (first : ℕ) (cs : List ℕ)
    → Tracks (after_first slot first cs).0 (after_first slot first cs).1
after_first-Tracks slot first cs = deliver-Tracks _ (first ∷ []) cs (reset-Tracks slot first)

-- After the first frame of a sender and any further ones, with no reset of the slot between them or
-- at the end (no ten seconds without an accepted frame, and no eviction), a counter that was accepted
-- is refused if it comes again, unless the newest accepted counter is exactly 32 above it.
pub deliver_once :
    (slot : ReplaySlot) (first c : ℕ) (cs : List ℕ)
    → contains c (after_first slot first cs).1 ≡ true
    → (after_first slot first cs).0.high ≢ c + 32
    → (accept_counter (after_first slot first cs).0 c false).0 ≡ false
deliver_once slot first c cs held far =
    let d = after_first slot first cs in
    let t = after_first-Tracks slot first cs in
    let decides = accept_counter_decides d.0 d.1 t c in let le = t.greatest c held in ground arith

-- As long as the slot is not reset, a counter that was not accepted since the sender's first frame is
-- accepted if the newest one is at most 31 above it, in whatever order the frames came.
pub deliver_fresh :
    (slot : ReplaySlot) (first c : ℕ) (cs : List ℕ)
    → contains c (after_first slot first cs).1 ≡ false
    → (after_first slot first cs).0.high ≤ c + 31
    → (accept_counter (after_first slot first cs).0 c false).0 ≡ true
deliver_fresh slot first c cs new near =
    let d = after_first slot first cs in
    let t = after_first-Tracks slot first cs in
    let decides = accept_counter_decides d.0 d.1 t c in ground arith

-- A step of exactly 32 forgets the counter that it starts from: a frame with the newest counter, a
-- frame 32 above it and the first frame again are all accepted.
pub replay_after_step_of_32 :
    (slot : ReplaySlot) (c : ℕ)
    → IsWord32 (c + 32)
    → let first = (accept_counter slot c true).1 in
      let second = accept_counter first (c + 32) false in
      (second.0 ≡ true) × ((accept_counter second.1 c false).0 ≡ true)
unfolding accept_counter advance_window look_behind
replay_after_step_of_32 slot c h = (ground arith, ground arith)
