-- ===== src/Node/Receive/Accounting.antt =====
-- lib/ff_core/node.cpp, onReceive: its counters, its log and the peer table.
use formation_flight.Prelude.{ℕ, ◌+◌, ◌≡◌, refl, List, ◌||◌, ltb, ◌==◌, length, u32}
use formation_flight.Protocol.{
  Header, PositionPacket, AnnouncePacket, PacketType, position, announce, Decoded, ok, refused,
  overrun, peek_header, decode_position, decode_announce,
}
use formation_flight.PeerTable.{PeerTable}
use formation_flight.FrameLog
use formation_flight.FrameLog.{FrameResult, FrameLogEntry, entry_at}
use formation_flight.FrameLog.Recent.{WellFormed}
use formation_flight.RateControl.{Double}
use formation_flight.Node.Interfaces.{NodeDeps}
use formation_flight.Node.State.{Node}
use formation_flight.Node.Receive.{
  Opened, plain, replayed, forged, open_frame, reject, accept, receive_position, receive_announce,
  receive_packet, receive_self, receive_header, receive_opened, on_receive, bad_decode,
  count_rejected, count_self, count_ok,
}
use formation_flight.Node.Receive.Tally.{Accounted, if_either, heard, settled-Accounted}

module _ {D : Type 0} ⦃d : Double D⦄ where
  -- The frame, and the state it meets, that the rest is about.
  module _ (clock_ms now_ms rssi radio_index len : ℕ) (n : Node D) (w : WellFormed n.frames)
      (l : length n.radio_stats ≡ 4) where
    abbrev dated : Node D
    dated = heard now_ms rssi radio_index n

    abbrev Fine : Node D → Type 0
    Fine = Accounted now_ms rssi radio_index n

    bad_decode-Fine :
        (uid type : ℕ)
        → Fine (
            reject clock_ms now_ms rssi radio_index len bad_decode uid type FrameLog.decode_fail
              dated)
    unfolding reject count_rejected
    bad_decode-Fine uid type =
        settled-Accounted clock_ms now_ms rssi radio_index uid len type FrameLog.decode_fail
          bad_decode _ n.peers n w l (λ rs. refl) refl refl

    accept-Fine :
        (uid type : ℕ) (peers : PeerTable)
        → Fine
            (accept clock_ms now_ms rssi radio_index len uid type (record dated { peers = peers }))
    unfolding accept count_ok
    accept-Fine uid type peers =
        settled-Accounted clock_ms now_ms rssi radio_index uid len type FrameLog.ok
          (λ rs. record rs { rx_ok = u32 (rs.rx_ok + 1) }) _ peers n w l (λ rs. refl) refl refl

    receive_position-Fine :
        (hdr : Header) (pkt : Decoded PositionPacket)
        → Fine (receive_position clock_ms now_ms rssi radio_index len hdr pkt dated)
    unfolding receive_position
    receive_position-Fine hdr (ok pkt) = accept-Fine hdr.uid 1 _
    receive_position-Fine hdr (refused e) = bad_decode-Fine hdr.uid 1
    receive_position-Fine hdr overrun = bad_decode-Fine hdr.uid 1

    receive_announce-Fine :
        (hdr : Header) (pkt : Decoded AnnouncePacket)
        → Fine (receive_announce clock_ms now_ms rssi radio_index len hdr pkt dated)
    unfolding receive_announce
    receive_announce-Fine hdr (ok pkt) = accept-Fine hdr.uid 2 _
    receive_announce-Fine hdr (refused e) = bad_decode-Fine hdr.uid 2
    receive_announce-Fine hdr overrun = bad_decode-Fine hdr.uid 2

    receive_packet-Fine :
        (type : PacketType) (hdr : Header) (buf : List ℕ)
        → Fine (receive_packet clock_ms now_ms rssi radio_index len type hdr buf dated)
    unfolding receive_packet
    receive_packet-Fine position hdr buf = receive_position-Fine hdr (decode_position buf)
    receive_packet-Fine announce hdr buf = receive_announce-Fine hdr (decode_announce buf)

    receive_self-Fine :
        (hdr : Header) → Fine (receive_self clock_ms now_ms rssi radio_index len hdr dated)
    unfolding receive_self count_self
    receive_self-Fine hdr =
        settled-Accounted clock_ms now_ms rssi radio_index hdr.uid len _ FrameLog.self
          (λ rs. record rs { rx_self = u32 (rs.rx_self + 1) }) _ n.peers n w l (λ rs. refl) refl
          refl

    receive_header-Fine :
        (hdr : Decoded Header) (buf : List ℕ)
        → Fine (receive_header clock_ms now_ms rssi radio_index len hdr buf dated)
    unfolding receive_header
    receive_header-Fine (ok hdr) buf =
        if_either Fine (hdr.uid == n.cfg.uid) (receive_self-Fine hdr)
          (receive_packet-Fine hdr.type hdr buf)
    receive_header-Fine (refused e) buf = bad_decode-Fine 0 0
    receive_header-Fine overrun buf = bad_decode-Fine 0 0

    receive_opened-Fine :
        (opened : Opened) → Fine (receive_opened clock_ms now_ms rssi radio_index len opened dated)
    unfolding receive_opened reject count_rejected
    receive_opened-Fine (plain buf) = receive_header-Fine (peek_header buf) buf
    receive_opened-Fine replayed =
        settled-Accounted clock_ms now_ms rssi radio_index 0 len 0 FrameLog.replay_fail
          (λ rs. record rs { rx_replay = u32 (rs.rx_replay + 1) }) _ n.peers n w l (λ rs. refl) refl
          refl
    receive_opened-Fine forged =
        settled-Accounted clock_ms now_ms rssi radio_index 0 len 0 FrameLog.crypto_fail
          (λ rs. record rs { rx_crypto_fail = u32 (rs.rx_crypto_fail + 1) }) _ n.peers n w l
          (λ rs. refl) refl refl

    oversize-Fine :
        Fine (reject clock_ms now_ms rssi radio_index len bad_decode 0 0 FrameLog.oversize dated)
    unfolding reject count_rejected
    oversize-Fine =
        settled-Accounted clock_ms now_ms rssi radio_index 0 len 0 FrameLog.oversize bad_decode _
          n.peers n w l (λ rs. refl) refl refl

  -- Of a node whose frame log is well formed and that keeps statistics for four radios: whatever
  -- bytes a radio hears and whatever the cipher makes of them, the node adds one to exactly the
  -- counter, in total and for that radio, that the result in the new line of its log names, dates
  -- the radio's statistics, and leaves the peer table alone unless that result is `ok`.
  pub on_receive-Accounted :
      (W : Type 0) (deps : NodeDeps D W) (clock_ms : ℕ) (data_bytes : List ℕ)
      (now_ms rssi radio_index : ℕ) (n : Node D) (world : W)
      → WellFormed n.frames
      → length n.radio_stats ≡ 4
      → Accounted now_ms rssi radio_index n
          (on_receive deps clock_ms data_bytes now_ms rssi radio_index (n, world)).0
  unfolding on_receive
  on_receive-Accounted W deps clock_ms data_bytes now_ms rssi radio_index n world w l =
      if_either (λ (r : Node D × W). Accounted now_ms rssi radio_index n r.0)
        (length data_bytes == 0 || ltb 64 (length data_bytes))
        (oversize-Fine clock_ms now_ms rssi radio_index (length data_bytes) n w l)
        (receive_opened-Fine clock_ms now_ms rssi radio_index (length data_bytes) n w l
          (open_frame deps data_bytes now_ms world).1)
