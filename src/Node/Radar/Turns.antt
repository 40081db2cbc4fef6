-- ===== src/Node/Radar/Turns.antt =====
-- lib/ff_core/node.cpp, onMspRadarTick: which peer is sent when.
use formation_flight.Prelude.{◌∷◌, ℕ, zero, suc, ◌+◌, ◌%◌, ◌<◌, ◌≤◌, ◌≡◌, List, Option, none, some}
use formation_flight.PeerTable.{Peer, PeerTable, peer_at}
use formation_flight.Node.Radar.{on_msp_radar_tick}
use formation_flight.Node.Interfaces.{NodeDeps}
use formation_flight.Node.State.{Node}

-- What `next_peer` finds from a cursor within a number of tries: a peer at a distance from the
-- cursor, with only empty slots before it; or nothing, all those slots being empty.
pub data Found (peers : PeerTable) (cursor tries : ℕ) : ℕ × Option (ℕ × Peer) → Type 0 where
  peer :
      (skip : ℕ) (p : Peer)
      → skip < tries
      → peer_at ((cursor + skip) % 16) peers ≡ some p
      → ((j : ℕ) → j < skip → peer_at ((cursor + j) % 16) peers ≡ none)
      → Found peers cursor tries ((cursor + skip + 1) % 16, some ((cursor + skip) % 16, p))
  nobody :
      ((j : ℕ) → j < tries → peer_at ((cursor + j) % 16) peers ≡ none)
      → Found peers cursor tries ((cursor + tries) % 16, none)

module _ {D : Type 0} where
  -- Dependencies whose sink keeps a list of what it is sent, newest first.
  abbrev pub recorder : NodeDeps D (List (ℕ × Peer))
  recorder = record {
    radios = none;
    location = none;
    crypto = none;
    msp_radar_sink = some (λ slot_id p sent. (slot_id, p) ∷ sent);
    rng = none;
  }

  abbrev pub ticks : ℕ → Node D × List (ℕ × Peer) → Node D × List (ℕ × Peer)
  ticks zero st = st
  ticks (suc k) st = ticks k (on_msp_radar_tick recorder st)

  -- That the tick behind `k` others sends the peer `p` as number `slot_id`.
  abbrev pub Sends : Node D × List (ℕ × Peer) → ℕ → ℕ → Peer → Type 0
  Sends st k slot_id p = (ticks (suc k) st).1 ≡ (slot_id, p) ∷ (ticks k st).1

-- A peer at a distance of less than `bound` from the cursor has its turn.
abbrev Turns : Type 0 → ℕ → Type 0
Turns D bound =
    (d : ℕ) (n : Node D) (sent : List (ℕ × Peer)) (p : Peer)
    → d < bound
    → d < 16
    → n.msp_radar_cursor < 16
    → peer_at ((n.msp_radar_cursor + d) % 16) n.peers ≡ some p
    → (k : ℕ) × (k ≤ d) × Sends (n, sent) k ((n.msp_radar_cursor + d) % 16 + 1) p
