-- ===== src/Node/Send/Delivery.antt =====
-- lib/ff_core/node.cpp with crypto.cpp, protocol.cpp and peer_table.cpp: a beacon's way from one
-- node into the table of another.
use formation_flight.Prelude.{
  ℕ, ◌+◌, ◌≡◌, ◌≢◌, sym, ap, ◌∙◌, List, [], ◌∷◌, Option, none, some, Bool, true, false,
  if◌then◌else◌, length, append-nil, arith, u32, IsWord32,
}
use formation_flight.Protocol.{
  Header, position, PositionPacket, encode_position, decode_position, write_header,
  position_payload,
}
use formation_flight.Protocol.Roundtrip.{
  IsPosition, decode_position-encode_position, peek_header-write_header,
}
use formation_flight.Wire.{put_u8}
use formation_flight.PeerTable.{update_position}
use formation_flight.Crypto.Ccm.Mac.{IsBlockCipher}
use formation_flight.Crypto.Replay.{accept_frame}
use formation_flight.Crypto.Frame
use formation_flight.Crypto.Frame.{CcmCrypto, encrypt_as, deliver_frame}
use formation_flight.Crypto.Frame.Fits.{encrypt_as_total}
use formation_flight.Crypto.Frame.Roundtrip.{decrypt-encrypt_as}
use formation_flight.RateControl.{Double}
use formation_flight.Node.Interfaces.{NodeDeps, NodeLocation, RadioSet, Cipher}
use formation_flight.Node.State.{Node, on_radio}
use formation_flight.Node.Receive.{
  plain, replayed, forged, receive_self, open_frame, receive_position, receive_packet,
  receive_header, receive_opened, on_receive, accept,
}
use formation_flight.Node.Send.{beacon_packet, send_sealed_beacon, send_beacon}
use formation_flight.Node.Send.Heard.{
  different, packet_of, deliver_accepted, length-packet_of, on_receive_fitting, IsLocation, Air,
  beacon_packet-IsPosition,
}

module _ {D : Type 0} ⦃d : Double D⦄ where
  open d use {of_nat}

  -- A radio set of one radio, which puts frames into the air.
  abbrev pub one_radio : RadioSet D (CcmCrypto × Air)
  one_radio = record {
    radio_count = λ w. 1;
    airtime_ms = λ w index len. of_nat 0;
    radio_transmits = λ w index. true;
    transmit = λ index frame w. (w.0, frame ∷ w.1);
  }

module _ (encrypt_block : List ℕ → List ℕ → List ℕ) where
  -- `CcmCrypto` as the cipher of a node, beside the air.
  abbrev pub ccm_cipher : Cipher (CcmCrypto × Air)
  ccm_cipher = record {
    encrypt =
        λ buf cap w. let (c, frame) = Frame.encrypt encrypt_block w.0 buf cap in ((c, w.1), frame);
    decrypt = λ buf now_ms w.
        let (c, packet) = Frame.decrypt encrypt_block w.0 buf now_ms in ((c, w.1), packet);
    last_reject_was_replay = λ w. w.0.last_reject_replay;
  }

module _ {D : Type 0} ⦃d : Double D⦄ (encrypt_block : List ℕ → List ℕ → List ℕ) where
  -- The dependencies of a node at a place.
  abbrev pub flying : NodeLocation → NodeDeps D (CcmCrypto × Air)
  flying loc = record {
    radios = some one_radio;
    location = some (λ w. (w, loc));
    crypto = some (ccm_cipher encrypt_block);
    msp_radar_sink = none;
    rng = none;
  }

  sent_beacon :
      (a : Node D) (loc : NodeLocation) (clock_ms index : ℕ) (c : CcmCrypto) (air : Air)
      (frame : List ℕ)
      → encrypt_as encrypt_block c c.uid
          (u32 (c.counter + 1))
          (packet_of (beacon_packet a.cfg loc))
          64
        ≡ some frame
      → (send_beacon (flying loc) clock_ms index (a, (c, air))).1
        ≡ (record c { counter = u32 (c.counter + 1) }, frame ∷ air)
  unfolding send_beacon Frame.encrypt write_header put_u8
  sent_beacon a loc clock_ms index c air frame sealed =
      ap
        (λ r.
          (send_sealed_beacon (flying loc) one_radio clock_ms index
            ((record c { counter = u32 (c.counter + 1) }, air), r) a).1)
        sealed

  received_plain :
      (b : Node D) (p : PositionPacket) (clock_ms now_ms rssi radio_index len : ℕ)
      → IsPosition p
      → p.uid ≢ b.cfg.uid
      → (receive_opened clock_ms now_ms rssi radio_index len (plain (packet_of p)) b).peers
        ≡ (update_position p now_ms rssi radio_index b.peers).0
  unfolding receive_opened receive_position receive_packet receive_header encode_position accept
  received_plain b p clock_ms now_ms rssi radio_index len v other =
      let hdr : Header = record { version = 2; type = position; uid = p.uid } in
      ap (λ h. (receive_header clock_ms now_ms rssi radio_index len h (packet_of p) b).peers)
        (peek_header-write_header position p.uid (position_payload p) v.uid)
      ∙ (ap
            (λ (own : Bool).
              (if own
                then receive_self clock_ms now_ms rssi radio_index len hdr b
                else receive_packet clock_ms now_ms rssi radio_index len position hdr (packet_of p)
                    b).peers)
            (different p.uid b.cfg.uid other)
          ∙ ap (λ r. (receive_position clock_ms now_ms rssi radio_index len hdr r b).peers)
              (ap decode_position (sym (append-nil (packet_of p)))
                ∙ decode_position-encode_position p 64 [] v (omega arith)))

  opened_plain :
      (b : Node D) (here : NodeLocation) (receiver : CcmCrypto) (air : Air) (frame packet : List ℕ)
      (now_ms : ℕ)
      → (Frame.decrypt encrypt_block receiver frame now_ms).1 ≡ some packet
      → (open_frame (flying here) frame now_ms (receiver, air)).1 ≡ plain packet
  unfolding open_frame
  opened_plain b here receiver air frame packet now_ms opened =
      ap
        (λ (r : Option (List ℕ)). elim r [
          | none ↦
              (if (Frame.decrypt encrypt_block receiver frame now_ms).0.last_reject_replay
                then replayed
                else forged)
          | some packet ↦ plain packet
        ])
        opened

  received_frame :
      (b : Node D) (here : NodeLocation) (p : PositionPacket) (receiver : CcmCrypto) (air : Air)
      (clock_ms now_ms rssi radio_index : ℕ) (frame : List ℕ)
      → IsPosition p
      → p.uid ≢ b.cfg.uid
      → length frame ≡ 31
      → (Frame.decrypt encrypt_block receiver frame now_ms).1 ≡ some (packet_of p)
      → (on_receive
          (flying here)
          clock_ms
          frame
          now_ms
          rssi
          radio_index
          (b, (receiver, air))).0.peers
        ≡ (update_position p now_ms rssi radio_index b.peers).0
  received_frame b here p receiver air clock_ms now_ms rssi radio_index frame v other long opened =
      let heard =
        on_radio radio_index (λ rs. record rs { last_rx_ms = now_ms; last_rssi = rssi }) b in
      ap (λ n. n.peers)
        (on_receive_fitting (flying here) clock_ms frame now_ms rssi radio_index b (receiver, air)
          (omega (arith, long)) (omega (arith, long)))
      ∙ (ap (λ o. (receive_opened clock_ms now_ms rssi radio_index (length frame) o heard).peers)
            (opened_plain b here receiver air frame (packet_of p) now_ms opened)
          ∙ received_plain heard p clock_ms now_ms rssi radio_index (length frame) v other)

  -- One node's beacon reaches another's table. A node `a` at a place `loc`, with a uid and a place in
  -- the widths of their types, sends a beacon under `CcmCrypto`, over a block cipher and with its own
  -- uid in the cipher's state; a frame goes into the air. A node `b` with the same key and another
  -- uid hears it, and its replay table accepts the frame's counter: then `b`'s table is updated with
  -- `a`'s position.
  pub delivered :
      (a b : Node D) (loc : NodeLocation) (sender receiver : CcmCrypto) (air other_air : Air)
      (clock_ms index clock_ms' now_ms rssi radio_index : ℕ)
      → IsBlockCipher (encrypt_block sender.key)
      → IsWord32 a.cfg.uid
      → IsLocation loc
      → sender.uid ≡ a.cfg.uid
      → sender.key ≡ receiver.key
      → a.cfg.uid ≢ b.cfg.uid
      → (accept_frame a.cfg.uid (u32 (sender.counter + 1)) now_ms receiver.replay_slots).0 ≡ true
      → (here : NodeLocation)
      → (frame : List ℕ) × ((send_beacon (flying loc) clock_ms index (a, (sender, air))).1.1
          ≡ frame ∷ air)
        × ((on_receive
              (flying here)
              clock_ms'
              frame
              now_ms
              rssi
              radio_index
              (b, (receiver, other_air))).0.peers
            ≡ (update_position (beacon_packet a.cfg loc) now_ms rssi radio_index b.peers).0)
  unfolding beacon_packet
  delivered a b loc sender receiver air other_air clock_ms index clock_ms' now_ms rssi radio_index
        cipher u v own same other accepted here =
      let packet = packet_of (beacon_packet a.cfg loc) in
      let size = length-packet_of (beacon_packet a.cfg loc) in
      let counter = u32 (sender.counter + 1) in
      let (frame, sealed, long) =
        encrypt_as_total encrypt_block sender sender.uid counter 64 packet cipher
          (omega (arith, size)) (omega (arith, size)) (omega (arith, size)) in
      let mine : encrypt_as encrypt_block sender a.cfg.uid counter packet 64 ≡ some frame =
        ap (λ w. encrypt_as encrypt_block sender w counter packet 64) (sym own) ∙ sealed in
      (
        frame,
        ap (λ (w : CcmCrypto × Air). w.1)
            (sent_beacon a loc clock_ms index sender air frame sealed),
        received_frame b here (beacon_packet a.cfg loc) receiver other_air clock_ms' now_ms rssi
            radio_index frame (beacon_packet-IsPosition a.cfg loc u v) other
            (omega (arith, long, size))
            (ap (λ (r : CcmCrypto × Option (List ℕ)). r.1)
                (decrypt-encrypt_as encrypt_block sender receiver position a.cfg.uid counter 64
                  now_ms (position_payload (beacon_packet a.cfg loc)) frame cipher u (omega arith)
                  same mine)
              ∙ deliver_accepted (record receiver { last_reject_replay = false }) a.cfg.uid counter
                  now_ms packet accepted),
      )
