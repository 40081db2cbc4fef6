-- ===== src/SimTraffic.antt =====
-- lib/ff_core/sim_traffic.h and sim_traffic.cpp: the motion of simulated peers.
--
-- The cast of a rounded value to a 16-bit integer keeps its low 16 bits.
pub mod OnAir
use formation_flight.Prelude.{ℕ, ◌%◌, List, leb, if◌then◌else◌, u16}
use formation_flight.Maths.{Maths}
use formation_flight.RateControl.{Double}
use formation_flight.Geo.{point_at_distance, to_deg}
use formation_flight.Protocol.{PositionPacket}

pub data SimMode : Type 0 where
  static line circle hex : SimMode

abbrev pub hex_sides : ℕ
hex_sides = 6

pub record SimPeerConfig (D : Type 0) : Type 0 where
  pub uid : ℕ
  pub name : List ℕ
  pub mode : SimMode
  pub lat : D
  pub lon : D
  pub alt_m : ℕ
  pub speed_ms : D
  pub course_deg : D
  pub radius_m : D

pub record SimPeerState (D : Type 0) : Type 0 where
  pub lat : D
  pub lon : D
  pub alt_m : ℕ
  pub speed_cms : ℕ
  pub course_ddeg : ℕ

module _ {D : Type 0} ⦃d : Double D⦄ ⦃m : Maths D⦄ where
  open d use {of_nat, add, sub, mul, div, lt, le, to_u32}
  open m use {of_i16, round_i32, fmod}

  -- The remainder of a division by a positive number, made positive.
  unfoldable pub wrapped : D → D → D
  wrapped v period = let r = fmod v period in if lt r (of_nat 0) then add r period else r

  unfoldable pub course_to_ddeg : D → ℕ
  unfolding wrapped
  course_to_ddeg deg =
      let ddeg = round_i32 (mul (wrapped deg (of_nat 360)) (of_nat 10)) in
      u16 (if leb 3600 ddeg then 0 else ddeg)

  abbrev pub speed_to_cms : SimPeerConfig D → ℕ
  speed_to_cms cfg = u16 (round_i32 (mul cfg.speed_ms (of_nat 100)))

  unfoldable pub parked : SimPeerConfig D → SimPeerState D
  unfolding course_to_ddeg
  parked cfg = record {
    lat = cfg.lat;
    lon = cfg.lon;
    alt_m = cfg.alt_m;
    speed_cms = 0;
    course_ddeg = course_to_ddeg cfg.course_deg;
  }

  unfoldable pub on_line : SimPeerConfig D → D → SimPeerState D
  unfolding parked point_at_distance
  on_line cfg travelled =
      let p = point_at_distance cfg.lat cfg.lon travelled cfg.course_deg in
      record (parked cfg) { lat = p.0; lon = p.1; speed_cms = speed_to_cms cfg }

  unfoldable pub on_circle : SimPeerConfig D → D → SimPeerState D
  unfolding course_to_ddeg parked point_at_distance
  on_circle cfg travelled =
      let angle_deg = to_deg (div travelled cfg.radius_m) in
      let p = point_at_distance cfg.lat cfg.lon cfg.radius_m angle_deg in
      record (parked cfg) {
        lat = p.0;
        lon = p.1;
        speed_cms = speed_to_cms cfg;
        course_ddeg = course_to_ddeg (add angle_deg (of_nat 90));
      }

  -- The altitude at a distance along the patrol.
  unfoldable pub hex_altitude : SimPeerConfig D → D → D → ℕ
  hex_altitude cfg perimeter along =
      let half = div perimeter (of_nat 2) in
      let frac = if le along half then div along half else div (sub perimeter along) half in
      u16 (round_i32 (add (of_i16 cfg.alt_m) (mul (of_nat 80) frac)))

  unfoldable pub on_hex : SimPeerConfig D → D → SimPeerState D
  unfolding wrapped course_to_ddeg parked point_at_distance hex_altitude
  on_hex cfg travelled =
      let side = cfg.radius_m in
      let perimeter = mul side (of_nat hex_sides) in
      let along = wrapped travelled perimeter in
      let leg = to_u32 (div along side) % hex_sides in
      let leg_progress = sub along (mul (of_nat leg) side) in
      let vertex_bearing = mul (of_nat leg) (div (of_nat 360) (of_nat hex_sides)) in
      let edge_bearing = add vertex_bearing (of_nat 120) in
      let vertex = point_at_distance cfg.lat cfg.lon side vertex_bearing in
      let p = point_at_distance vertex.0 vertex.1 leg_progress edge_bearing in
      record {
        lat = p.0;
        lon = p.1;
        alt_m = hex_altitude cfg perimeter along;
        speed_cms = speed_to_cms cfg;
        course_ddeg = course_to_ddeg edge_bearing;
      }

  -- The peer at a distance along its path.
  unfoldable pub on_path : SimMode → SimPeerConfig D → D → SimPeerState D
  unfolding parked on_line on_circle on_hex
  on_path static cfg travelled = parked cfg
  on_path line cfg travelled = on_line cfg travelled
  on_path circle cfg travelled =
      if le cfg.radius_m (of_nat 0) then parked cfg else on_circle cfg travelled
  on_path hex cfg travelled =
      if le cfg.radius_m (of_nat 0) then parked cfg else on_hex cfg travelled

  unfoldable pub sim_peer_at : SimPeerConfig D → ℕ → SimPeerState D
  unfolding on_path
  sim_peer_at cfg elapsed_ms =
      on_path cfg.mode cfg (mul cfg.speed_ms (div (of_nat elapsed_ms) (of_nat 1000)))

  -- The flag is POSITION_FLAG_HAS_FIX.
  unfoldable pub sim_position_packet : SimPeerConfig D → SimPeerState D → PositionPacket
  sim_position_packet cfg state = record {
    uid = cfg.uid;
    lat = round_i32 (mul state.lat (of_nat 10000000));
    lon = round_i32 (mul state.lon (of_nat 10000000));
    alt_m = state.alt_m;
    speed_cms = state.speed_cms;
    course_ddeg = state.course_ddeg;
    flags = 2;
  }
