-- ===== src/Node/Send/Heard.antt =====
-- lib/ff_core/node.cpp: what a frame that the cipher accepts does to the table.
use mathlib.Core.Path.{ap₂}
use formation_flight.Prelude.{
  ℕ, ◌+◌, ◌<◌, ◌≤◌, ◌≡◌, ◌≢◌, refl, ◌∙◌, List, ◌++◌, some, Bool, true, false, ◌||◌, ltb, ◌==◌,
  if◌then◌else◌, bit_or, length, length-append, arith, IsWord16, IsWord32, IsByte,
}
use formation_flight.Protocol.{position, PositionPacket, write_header, position_payload}
use formation_flight.Protocol.Roundtrip.{IsPosition, length-write_header, length-position_payload}
use formation_flight.Crypto.Replay.{accept_frame}
use formation_flight.Crypto.Frame.{CcmCrypto, deliver_frame}
use formation_flight.RateControl.{Double}
use formation_flight.Node.Interfaces.{NodeDeps, NodeConfig, NodeLocation}
use formation_flight.Node.State.{Node, on_radio}
use formation_flight.Node.Receive.{open_frame, receive_opened, on_receive}
use formation_flight.Node.Send.{beacon_packet}

pub different : (a b : ℕ) → a ≢ b → (a == b) ≡ false
different a b h = ground arith

-- The clear packet of a beacon.
abbrev pub packet_of : PositionPacket → List ℕ
packet_of p = write_header position p.uid ++ position_payload p

pub deliver_accepted :
    (c : CcmCrypto) (uid counter now_ms : ℕ) (packet : List ℕ)
    → (accept_frame uid counter now_ms c.replay_slots).0 ≡ true
    → (deliver_frame c uid counter now_ms packet).1 ≡ some packet
unfolding deliver_frame
deliver_accepted c uid counter now_ms packet accepted = ground (arith, accepted)

pub length-packet_of : (p : PositionPacket) → length (packet_of p) ≡ 21
length-packet_of p =
    length-append (write_header position p.uid) (position_payload p)
    ∙ ap₂ (λ m n. m + n) (length-write_header position p.uid) (length-position_payload p)

-- A frame of a fitting length is decrypted and looked at.
pub on_receive_fitting :
    {D W : Type 0} ⦃d : Double D⦄ (deps : NodeDeps D W) (clock_ms : ℕ) (data_bytes : List ℕ)
    (now_ms rssi radio_index : ℕ) (n : Node D) (w : W)
    → 0 < length data_bytes
    → length data_bytes ≤ 64
    → (on_receive deps clock_ms data_bytes now_ms rssi radio_index (n, w)).0
      ≡ receive_opened clock_ms now_ms rssi radio_index
          (length data_bytes)
          (open_frame deps data_bytes now_ms w).1
          (on_radio radio_index (λ rs. record rs { last_rx_ms = now_ms; last_rssi = rssi }) n)
unfolding on_receive
on_receive_fitting deps clock_ms data_bytes now_ms rssi radio_index n w some_bytes fits =
    let len = length data_bytes in
    let guard : (len == 0 || ltb 64 len) ≡ false = ground arith in rw guard refl

-- A location whose fields have their types' widths.
pub record IsLocation (loc : NodeLocation) : Type 0 where
  pub lat : IsWord32 loc.lat
  pub lon : IsWord32 loc.lon
  pub alt_m : IsWord16 loc.alt_m
  pub speed_cms : IsWord16 loc.speed_cms
  pub course_ddeg : IsWord16 loc.course_ddeg

-- The frames in the air, newest first.
abbrev pub Air : Type 0
Air = List (List ℕ)

pub beacon_packet-IsPosition :
    {D : Type 0} (cfg : NodeConfig D) (loc : NodeLocation)
    → IsWord32 cfg.uid
    → IsLocation loc
    → IsPosition (beacon_packet cfg loc)
unfolding beacon_packet
beacon_packet-IsPosition cfg loc u v = record {
  uid = u;
  lat = v.lat;
  lon = v.lon;
  alt_m = v.alt_m;
  speed_cms = v.speed_cms;
  course_ddeg = v.course_ddeg;
  flags = flags_fit loc.valid loc.armed;
}
  where
    flags_fit :
        (fix armed : Bool)
        → IsByte (
            if armed
            then bit_or (if fix then bit_or 0 2 else 0) 1
            else (if fix then bit_or 0 2 else 0))
    flags_fit true true = omega arith
    flags_fit true false = omega arith
    flags_fit false true = omega arith
    flags_fit false false = omega arith
