-- ===== src/Node/Receive.antt =====
-- lib/ff_core/node.cpp, onReceive: what a node does with a frame that a radio heard.
pub mod Accounting
pub mod Tally
use formation_flight.Prelude.{
  ℕ, ◌+◌, List, Option, none, some, Bool, true, false, ◌||◌, if◌then◌else◌, ltb, ◌==◌, length, u32,
}
use formation_flight.Protocol.{
  Header, PositionPacket, AnnouncePacket, PacketType, position, announce, Decoded, ok, refused,
  overrun, type_code, peek_header, decode_position, decode_announce,
}
use formation_flight.PeerTable.{update_position, update_announce}
use formation_flight.FrameLog
use formation_flight.FrameLog.{FrameResult}
use formation_flight.RateControl.{Double}
use formation_flight.Node.Interfaces.{NodeDeps, NodeStats, RadioStats, Cipher}
use formation_flight.Node.State.{Node, log_frame, on_radio}

-- kMaxRxFrame
abbrev pub max_rx_frame : ℕ
max_rx_frame = 64

-- What the decryption leaves in the buffer, or why there is nothing.
pub data Opened : Type 0 where
  plain : List ℕ → Opened
  replayed forged : Opened

unfoldable pub open_frame : {D W : Type 0} → NodeDeps D W → List ℕ → ℕ → W → W × Opened
open_frame deps data_bytes now_ms w = elim deps.crypto [
  | none ↦ (w, plain data_bytes)
  | some c ↦
      let (w', r) = c.decrypt data_bytes now_ms w in
      let why = if c.last_reject_was_replay w' then replayed else forged in
      (w', elim r [ none ↦ why | some packet ↦ plain packet ])
]

abbrev pub bad_decode : {D : Type 0} → RadioStats D → RadioStats D
bad_decode rs = record rs { rx_decode_fail = u32 (rs.rx_decode_fail + 1) }

module _ {D : Type 0} ⦃d : Double D⦄ where
  unfoldable pub count_rejected : Node D → Node D
  count_rejected n = record n {
    stats = record n.stats { rx_rejected = u32 (n.stats.rx_rejected + 1) };
  }

  unfoldable pub count_self : Node D → Node D
  count_self n = record n { stats = record n.stats { rx_self = u32 (n.stats.rx_self + 1) } }

  unfoldable pub count_ok : Node D → Node D
  count_ok n = record n { stats = record n.stats { rx_ok = u32 (n.stats.rx_ok + 1) } }

  -- A frame of `len` bytes that radio `radio_index` heard at `now_ms`, handled when the scheduler's
  -- clock shows `clock_ms`.
  module _ (clock_ms now_ms rssi radio_index len : ℕ) where
    -- The branches that reject a frame: `count` picks the radio's counter.
    unfoldable pub reject : (RadioStats D → RadioStats D) → ℕ → ℕ → FrameResult → Node D → Node D
    unfolding log_frame count_rejected
    reject count uid type result n =
        log_frame clock_ms radio_index uid len rssi type result
          (on_radio radio_index count (count_rejected n))

    -- The end of the two branches that accept a packet.
    unfoldable pub accept : ℕ → ℕ → Node D → Node D
    unfolding log_frame count_ok
    accept uid type n =
        log_frame clock_ms radio_index uid len rssi type FrameLog.ok
          (on_radio radio_index (λ rs. record rs { rx_ok = u32 (rs.rx_ok + 1) }) (count_ok n))

    unfoldable pub receive_position : Header → Decoded PositionPacket → Node D → Node D
    unfolding accept reject update_position
    receive_position hdr (ok pkt) n =
        accept hdr.uid (type_code position)
          (record n { peers = (update_position pkt now_ms rssi radio_index n.peers).0 })
    receive_position hdr (refused e) n =
        reject bad_decode hdr.uid (type_code position) FrameLog.decode_fail n
    receive_position hdr overrun n =
        reject bad_decode hdr.uid (type_code position) FrameLog.decode_fail n

    unfoldable pub receive_announce : Header → Decoded AnnouncePacket → Node D → Node D
    unfolding accept reject update_announce
    receive_announce hdr (ok pkt) n =
        accept hdr.uid (type_code announce)
          (record n { peers = (update_announce pkt now_ms radio_index n.peers).0 })
    receive_announce hdr (refused e) n =
        reject bad_decode hdr.uid (type_code announce) FrameLog.decode_fail n
    receive_announce hdr overrun n =
        reject bad_decode hdr.uid (type_code announce) FrameLog.decode_fail n

    -- The `switch`, whose default `peekHeader` rules out.
    unfoldable pub receive_packet : PacketType → Header → List ℕ → Node D → Node D
    unfolding receive_position receive_announce
    receive_packet position hdr buf n = receive_position hdr (decode_position buf) n
    receive_packet announce hdr buf n = receive_announce hdr (decode_announce buf) n

    unfoldable pub receive_self : Header → Node D → Node D
    unfolding log_frame count_self
    receive_self hdr n =
        log_frame clock_ms radio_index hdr.uid len rssi (type_code hdr.type) FrameLog.self
          (on_radio radio_index (λ rs. record rs { rx_self = u32 (rs.rx_self + 1) }) (count_self n))

    unfoldable pub receive_header : Decoded Header → List ℕ → Node D → Node D
    unfolding receive_packet receive_self reject
    receive_header (ok hdr) buf n =
        let other = receive_packet hdr.type hdr buf n in
        if hdr.uid == n.cfg.uid then receive_self hdr n else other
    receive_header (refused e) buf n = reject bad_decode 0 0 FrameLog.decode_fail n
    receive_header overrun buf n = reject bad_decode 0 0 FrameLog.decode_fail n

    unfoldable pub receive_opened : Opened → Node D → Node D
    unfolding receive_header reject
    receive_opened (plain buf) n = receive_header (peek_header buf) buf n
    receive_opened replayed n =
        reject (λ rs. record rs { rx_replay = u32 (rs.rx_replay + 1) }) 0 0 FrameLog.replay_fail n
    receive_opened forged n =
        reject (λ rs. record rs { rx_crypto_fail = u32 (rs.rx_crypto_fail + 1) }) 0 0
          FrameLog.crypto_fail n

  unfoldable pub on_receive :
      {W : Type 0} → NodeDeps D W → ℕ → List ℕ → ℕ → ℕ → ℕ → Node D × W → Node D × W
  unfolding open_frame receive_opened reject
  on_receive deps clock_ms data_bytes now_ms rssi radio_index (n, w) =
      let len = length data_bytes in
      let heard =
        on_radio radio_index (λ rs. record rs { last_rx_ms = now_ms; last_rssi = rssi }) n in
      let (w', opened) = open_frame deps data_bytes now_ms w in
      let received = receive_opened clock_ms now_ms rssi radio_index len opened heard in
      if len == 0 || ltb max_rx_frame len
      then (reject clock_ms now_ms rssi radio_index len bad_decode 0 0 FrameLog.oversize heard, w)
      else (received, w')
