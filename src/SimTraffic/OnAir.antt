-- ===== src/SimTraffic/OnAir.antt =====
-- lib/ff_core/sim_traffic.cpp: simulated peers, encoded and received.
use formation_flight.Prelude.{
  ℕ, ◌<◌, ◌≤◌, ◌≡◌, Bool, true, false, List, ◌++◌, IsWord16, IsWord32, arith, if◌then◌else◌,
}
use formation_flight.Maths.{Maths}
use formation_flight.RateControl.{Double}
use formation_flight.Protocol.{encode_position, decode_position, ok, position_packet_size}
use formation_flight.Protocol.Roundtrip.{IsPosition, decode_position-encode_position}
use formation_flight.SimTraffic.{
  SimMode, SimPeerConfig, SimPeerState, static, line, circle, hex, course_to_ddeg, hex_altitude,
  parked, on_line, on_circle, on_hex, on_path, sim_peer_at, sim_position_packet,
}

module _ {D : Type 0} ⦃d : Double D⦄ ⦃m : Maths D⦄ where
  open m use {round_i32}

  -- What a packet has room for, with a course in tenths of a degree.
  record IsSent (s : SimPeerState D) : Type 0 where
    alt_m : IsWord16 s.alt_m
    speed_cms : IsWord16 s.speed_cms
    course_ddeg : s.course_ddeg < 3600

  course_to_ddeg-lt : (deg : D) → course_to_ddeg deg < 3600
  unfolding course_to_ddeg
  course_to_ddeg-lt deg = ground arith

  parked-IsSent : (cfg : SimPeerConfig D) → IsWord16 cfg.alt_m → IsSent (parked cfg)
  unfolding parked
  parked-IsSent cfg h = record {
    alt_m = h;
    speed_cms = omega arith;
    course_ddeg = course_to_ddeg-lt _;
  }

  on_line-IsSent :
      (cfg : SimPeerConfig D) (travelled : D) → IsWord16 cfg.alt_m → IsSent (on_line cfg travelled)
  unfolding on_line parked
  on_line-IsSent cfg travelled h = record {
    alt_m = h;
    speed_cms = omega arith;
    course_ddeg = course_to_ddeg-lt _;
  }

  on_circle-IsSent :
      (cfg : SimPeerConfig D) (travelled : D)
      → IsWord16 cfg.alt_m
      → IsSent (on_circle cfg travelled)
  unfolding on_circle parked
  on_circle-IsSent cfg travelled h = record {
    alt_m = h;
    speed_cms = omega arith;
    course_ddeg = course_to_ddeg-lt _;
  }

  on_hex-IsSent : (cfg : SimPeerConfig D) (travelled : D) → IsSent (on_hex cfg travelled)
  unfolding on_hex hex_altitude
  on_hex-IsSent cfg travelled = record {
    alt_m = omega arith;
    speed_cms = omega arith;
    course_ddeg = course_to_ddeg-lt _;
  }

  either : (b : Bool) (s t : SimPeerState D) → IsSent s → IsSent t → IsSent (if b then s else t)
  either true s t h k = h
  either false s t h k = k

  on_path-IsSent :
      (mode : SimMode) (cfg : SimPeerConfig D) (travelled : D)
      → IsWord16 cfg.alt_m
      → IsSent (on_path mode cfg travelled)
  unfolding on_path
  on_path-IsSent static cfg travelled h = parked-IsSent cfg h
  on_path-IsSent line cfg travelled h = on_line-IsSent cfg travelled h
  on_path-IsSent circle cfg travelled h =
      either _ _ _ (parked-IsSent cfg h) (on_circle-IsSent cfg travelled h)
  on_path-IsSent hex cfg travelled h =
      either _ _ _ (parked-IsSent cfg h) (on_hex-IsSent cfg travelled)

  -- If rounding gives words of 32 bits, the packet of a simulated peer at any time, whose uid and
  -- altitude are words of 32 and 16 bits, is decoded as it was made, and its course is below 3600.
  pub decode_position-sim_position_packet :
      (cfg : SimPeerConfig D) (elapsed_ms buf_len : ℕ) (rest : List ℕ)
      → ((v : D) → IsWord32 (round_i32 v))
      → IsWord32 cfg.uid
      → IsWord16 cfg.alt_m
      → position_packet_size ≤ buf_len
      → (decode_position
            (encode_position (sim_position_packet cfg (sim_peer_at cfg elapsed_ms)) buf_len ++ rest)
          ≡ ok (sim_position_packet cfg (sim_peer_at cfg elapsed_ms)))
        × ((sim_peer_at cfg elapsed_ms).course_ddeg < 3600)
  decode_position-sim_position_packet cfg elapsed_ms buf_len rest words uid alt room = (
    decode_position-encode_position (sim_position_packet cfg s) buf_len rest is_position room,
    sent.course_ddeg,
  )
    where
      s : SimPeerState D
      s = sim_peer_at cfg elapsed_ms

      sent : IsSent s
      sent = unfold sim_peer_at in on_path-IsSent cfg.mode cfg _ alt

      is_position : IsPosition (sim_position_packet cfg s)
      is_position =
          unfold sim_position_packet in
          record {
            uid = uid;
            lat = words _;
            lon = words _;
            alt_m = sent.alt_m;
            speed_cms = sent.speed_cms;
            course_ddeg = omega (arith, sent.course_ddeg);
            flags = omega arith;
          }
