-- ===== src/Node/Send.antt =====
-- lib/ff_core/node.cpp: sendBeacon and sendAnnounce, how a node's own packets reach its radios.
pub mod Delivery
pub mod Heard
use formation_flight.Prelude.{
  ℕ, zero, suc, ◌+◌, List, [], ◌∷◌, Option, none, some, Bool, true, false, not, bit_or,
  if◌then◌else◌, ◌==◌, length, get_or, set, replicate, u32,
}
use formation_flight.Protocol.{
  PositionPacket, AnnouncePacket, position, announce, type_code, encode_position, encode_announce,
  max_name_len,
}
use formation_flight.FrameLog
use formation_flight.RateControl.{Double}
use formation_flight.Node.Interfaces.{
  NodeDeps, NodeConfig, NodeLocation, NodeStats, RadioSet, RadioStats, Cipher,
}
use formation_flight.Node.State.{Node, log_frame, no_radio_stats}
use formation_flight.Node.Receive.{max_rx_frame}

-- `NodeLocation{}`: the home position is not known.
abbrev pub no_location : NodeLocation
no_location = record {
  valid = false;
  armed = false;
  lat = 0;
  lon = 0;
  alt_m = 0;
  speed_cms = 0;
  course_ddeg = 0;
  sats = 0;
  fix_type = 0;
  hdop = 0;
}

abbrev pub position_flag_has_fix : ℕ
position_flag_has_fix = 2

abbrev pub position_flag_armed : ℕ
position_flag_armed = 1

unfoldable pub beacon_packet : {D : Type 0} → NodeConfig D → NodeLocation → PositionPacket
beacon_packet cfg loc =
    let fix = if loc.valid then bit_or 0 position_flag_has_fix else 0 in
    record {
      uid = cfg.uid;
      lat = loc.lat;
      lon = loc.lon;
      alt_m = loc.alt_m;
      speed_cms = loc.speed_cms;
      course_ddeg = loc.course_ddeg;
      flags = if loc.armed then bit_or fix position_flag_armed else fix;
    }

-- The loop that copies the configured name over a zeroed array.
unfoldable pub fill_name : ℕ → List ℕ → List ℕ → List ℕ
fill_name zero src dst = dst
fill_name (suc n) [] dst = dst
fill_name (suc n) (c ∷ src) [] = []
fill_name (suc n) (c ∷ src) (d ∷ dst) =
    let rest = fill_name n src dst in if c == 0 then d ∷ dst else c ∷ rest

unfoldable pub announce_packet : {D : Type 0} → NodeConfig D → AnnouncePacket
unfolding fill_name
announce_packet cfg = record {
  uid = cfg.uid;
  name = fill_name max_name_len cfg.name (replicate 16 0);
  capabilities = cfg.capabilities;
}

unfoldable pub no_bytes : List ℕ → Bool
no_bytes [] = true
no_bytes (b ∷ bs) = false

module _ {D W : Type 0} where
  unfoldable pub location_of : NodeDeps D W → W → W × NodeLocation
  location_of deps w = elim deps.location [ none ↦ (w, no_location) | some read ↦ read w ]

  -- The frame of a packet in a buffer of kMaxRxFrame bytes, `none` where its length would be 0.
  unfoldable pub seal_packet : NodeDeps D W → List ℕ → W → W × Option (List ℕ)
  seal_packet deps packet w = elim deps.crypto [
    | none ↦ (w, some packet)
    | some c ↦ c.encrypt packet max_rx_frame w
  ]

  module _ ⦃d : Double D⦄ (deps : NodeDeps D W) (radios : RadioSet D W) (clock_ms : ℕ) where
    -- The end of both functions for one radio: the transmission, its counter and its log line.
    unfoldable pub emit : ℕ → ℕ → List ℕ → Node D × W → Node D × W
    unfolding log_frame
    emit type index frame (n, w) =
        let rs = get_or n.radio_stats index no_radio_stats in
        let counted : Node D = record n {
          radio_stats = set n.radio_stats index (record rs { tx = u32 (rs.tx + 1) });
        } in
        let logged = log_frame clock_ms index n.cfg.uid (length frame) 0 type FrameLog.tx counted in
        (logged, radios.transmit index frame w)

    unfoldable pub count_beacon : Node D → Node D
    count_beacon n = record n {
      stats = record n.stats {
        beacons_sent = u32 (n.stats.beacons_sent + 1);
        last_tx_ms = clock_ms;
      };
    }

    unfoldable pub send_sealed_beacon : ℕ → W × Option (List ℕ) → Node D → Node D × W
    unfolding emit count_beacon
    send_sealed_beacon index (w, none) n = (n, w)
    send_sealed_beacon index (w, some frame) n =
        emit (type_code position) index frame (count_beacon n, w)

    -- `sendBeacon` for a node with radios.
    unfoldable pub send_beacon_on : ℕ → Node D × W → Node D × W
    unfolding beacon_packet encode_position location_of seal_packet send_sealed_beacon no_bytes
    send_beacon_on index (n, w) =
        let (w', loc) = location_of deps w in
        let packet = encode_position (beacon_packet n.cfg loc) max_rx_frame in
        let sent = send_sealed_beacon index (seal_packet deps packet w') n in
        if not (radios.radio_transmits w index)
        then (n, w)
        else if no_bytes packet
        then (n, w')
        else sent

    unfoldable pub announce_sealed : ℕ → W × Option (List ℕ) → Node D → Bool → (Node D × W) × Bool
    unfolding emit
    announce_sealed index (w, none) n sent = ((n, w), sent)
    announce_sealed index (w, some frame) n sent =
        (emit (type_code announce) index frame (n, w), true)

    -- One round of the loop over the radios. The flag tells whether a frame was sent.
    unfoldable pub announce_one : List ℕ → ℕ → (Node D × W) × Bool → (Node D × W) × Bool
    unfolding seal_packet announce_sealed
    announce_one packet index ((n, w), sent) =
        let announced = announce_sealed index (seal_packet deps packet w) n sent in
        if not (radios.radio_transmits w index) then ((n, w), sent) else announced

    -- `k` rounds, from radio `index` on.
    unfoldable pub announce_from : List ℕ → ℕ → ℕ → (Node D × W) × Bool → (Node D × W) × Bool
    unfolding announce_one
    announce_from packet zero index st = st
    announce_from packet (suc k) index st =
        announce_from packet k (index + 1) (announce_one packet index st)

    unfoldable pub count_announce : (Node D × W) × Bool → Node D × W
    count_announce ((n, w), false) = (n, w)
    count_announce ((n, w), true) = (
      record n {
        stats = record n.stats {
          announces_sent = u32 (n.stats.announces_sent + 1);
          last_tx_ms = clock_ms;
        };
      },
      w,
    )

    unfoldable pub send_announce_on : Node D × W → Node D × W
    unfolding announce_packet encode_announce announce_from count_announce no_bytes
    send_announce_on (n, w) =
        let packet = encode_announce (announce_packet n.cfg) max_rx_frame in
        let sent = announce_from packet n.radio_count 0 ((n, w), false) in
        if no_bytes packet then (n, w) else count_announce sent

  module _ ⦃d : Double D⦄ (deps : NodeDeps D W) (clock_ms : ℕ) where
    unfoldable pub send_beacon : ℕ → Node D × W → Node D × W
    unfolding send_beacon_on
    send_beacon index st = elim deps.radios [
      | none ↦ st
      | some radios ↦ send_beacon_on deps radios clock_ms index st
    ]

    unfoldable pub send_announce : Node D × W → Node D × W
    unfolding send_announce_on
    send_announce st = elim deps.radios [
      | none ↦ st
      | some radios ↦ send_announce_on deps radios clock_ms st
    ]
