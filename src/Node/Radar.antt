-- ===== src/Node/Radar.antt =====
-- lib/ff_core/node.cpp, onMspRadarTick: the round robin over the peer table.
pub mod Turns
use formation_flight.Prelude.{ℕ, zero, suc, ◌+◌, ◌%◌, List, Option, none, some, u8}
use formation_flight.PeerTable.{Peer, PeerTable, peer_at, max_peers}
use formation_flight.Node.Interfaces.{NodeDeps}
use formation_flight.Node.State.{Node}

-- The loop with `tries` rounds left: the cursor behind it, and the slot found with its peer.
unfoldable pub next_peer : ℕ → ℕ → PeerTable → ℕ × Option (ℕ × Peer)
unfolding peer_at
next_peer zero cursor peers = (cursor, none)
next_peer (suc tries) cursor peers =
    let next = (cursor + 1) % max_peers in
    let rest = next_peer tries next peers in
    elim (peer_at cursor peers) [ none ↦ rest | some peer ↦ (next, some (cursor, peer)) ]

unfoldable pub send_found : {W : Type 0} → (ℕ → Peer → W → W) → Option (ℕ × Peer) → W → W
send_found sink none w = w
send_found sink (some (index, peer)) w = sink (u8 (index + 1)) peer w

unfoldable pub on_msp_radar_tick : {D W : Type 0} → NodeDeps D W → Node D × W → Node D × W
unfolding next_peer send_found
on_msp_radar_tick deps (n, w) = elim deps.msp_radar_sink [
  | none ↦ (n, w)
  | some sink ↦
      let (cursor, found) = next_peer max_peers n.msp_radar_cursor n.peers in
      (record n { msp_radar_cursor = cursor }, send_found sink found w)
]
