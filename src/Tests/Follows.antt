-- ===== src/Tests/Follows.antt =====
-- lib/ff_core/follow.cpp with whole numbers for doubles, on which sine is 0 and cosine 1.
use formation_flight.Prelude.{
  ℕ, ◌+◌, ◌-◌, ◌*◌, ◌/◌, ◌%◌, ◌<◌, ◌≤◌, ◌≡◌, ◌≢◌, ◌⊎◌, refl, [], ◌∷◌, true, false, ltb, leb, ◌==◌,
  arith, set, replicate, none, some,
}
use formation_flight.Geo.{
  distance_m, earth_radius_m, to_rad, to_deg, bearing_deg, point_at_distance,
}
use formation_flight.Follow.Gvars.{
  update_debug_gvars, update_autothrottle_gvars, gvar_due, send_gvar_if_due, status_gvar_value,
  update_status_gvars,
}
use formation_flight.Maths.{Maths}
use formation_flight.RateControl.{Double}
use formation_flight.PeerTable.{PeerTable, Peer, blank_peer}
use formation_flight.Follow.Config.{
  field_checks, FollowConfig, disabled, follow_validate_config, static_offset,
  rc_candidate_matches_static_default,
}
use formation_flight.Follow.Config.Roles.{follow_validate_config-roles}
use formation_flight.Follow.Config.Apart.{GvarRole, ChannelRole, gvar_of, channel_of}
use formation_flight.Follow.Lock.{
  candidate_peer, distance_to, resolve_lock, lock_on, acquire, deg_1e7, follow_peer_stale,
  nearest_from, resolve_lock_in,
}
use formation_flight.Follow.Lock.Best.{IsStrictOrder}
use formation_flight.Follow.Lock.Nearest.{IsNearest, candidate_peer-IsNearest}
use formation_flight.Follow.Offset.{
  offset_geometry_sane, candidate_offset_ok, axis_sign_locked, crossed, offset_geometry,
}
use formation_flight.Follow.Service.{
  service, follow_leader, pre_arm_check, steer, check_and_emit, emit, commanded_altitude, run_cycle,
}
use formation_flight.Follow.Service.Guards.{service-AllGuarded}
use formation_flight.Follow.Service.Reports.{AllGuarded}
use formation_flight.Follow.Service.NoFailover.{HoldsLock, after_cycles, no_failover}
use formation_flight.Follow.Service.Kept.{KeepsSane}
use formation_flight.Follow.Service.Sane.{
  Cycle, cycle, configure, after_events, accepted_stays_sane,
}
use formation_flight.Follow.State.{
  FollowController, FcView, set_telemetry_needs, send_follow_waypoint, new_controller,
  default_config, apply_config, locked, padded_name,
}
use formation_flight.Follow.Target.{
  resolve_offset, resolve_course_deg, target_too_far, slot_to_lat_lon, resolve_heading_deg,
  raw_heading, wire_heading, degrees_of, resolve_axis_offset, scaled_offset,
  resolve_candidate_offset, autothrottle_armed, horizontal_offset_m,
}
use formation_flight.Tests.Nodes.{hill}

instance abbrev pub wholes : Double ℕ
wholes = record {
  of_nat = λ n. n;
  add = λ a b. a + b;
  sub = λ a b. a - b;
  mul = λ a b. a * b;
  div = λ a b. a / b;
  lt = ltb;
  le = leb;
  eq = λ a b. a == b;
  half = 0;
  default_load = 1;
  to_u32 = λ v. v;
}

instance abbrev pub flat : Maths ℕ
flat = record {
  of_i16 = λ x. x;
  of_i32 = λ x. x;
  round_i32 = λ x. x % 4294967296;
  to_float = λ x. x;
  neg = λ x. x;
  fabs = λ x. x;
  copysign = λ x s. x;
  sqrt = λ x. x;
  sin = λ x. 0;
  cos = λ x. 1;
  asin = λ x. x;
  atan2 = λ y x. 0;
  pow = λ x y. x;
  fmod = λ x y. x % y;
  ceil = λ x. x;
  pi = 3;
}

abbrev leader : Peer
leader = record blank_peer {
  uid = 7;
  valid = true;
  lat = 470000000;
  lon = 80000000;
  alt_m = 900;
  flags = 2;
  last_position_ms = 1000;
}

abbrev heard : PeerTable
heard = record { peers = set (replicate 16 blank_peer) 2 leader; timeout_ms = 6000 }

abbrev open_gate : FcView
open_gate = record {
  armed = true;
  gcs_nav_active = true;
  heading_hold_active = false;
  rc_channel_us = λ c. some 1800;
  local_altitude_cm = 5000;
  platform_type = 0;
}

abbrev fresh : FollowController ℕ
fresh = new_controller

-- The first cycle locks on to the leader and sends one waypoint.
first_cycle :
    (service 1200 open_gate hill hill heard fresh).1
    ≡ set_telemetry_needs true false
      ∷ send_follow_waypoint (record { lat_1e7 = 0; lon_1e7 = 0 }) 6000 1
      ∷ []
unfolding service follow_leader resolve_lock pre_arm_check lock_on candidate_peer steer
    check_and_emit offset_geometry_sane resolve_course_deg candidate_offset_ok target_too_far
    distance_m earth_radius_m emit update_debug_gvars update_autothrottle_gvars slot_to_lat_lon
    commanded_altitude resolve_heading_deg rc_candidate_matches_static_default gvar_due
    send_gvar_if_due status_gvar_value update_status_gvars acquire deg_1e7 distance_to
    follow_peer_stale nearest_from resolve_lock_in axis_sign_locked crossed offset_geometry
    run_cycle to_rad to_deg bearing_deg point_at_distance raw_heading wire_heading degrees_of
    resolve_axis_offset scaled_offset resolve_candidate_offset resolve_offset autothrottle_armed
    padded_name horizontal_offset_m
first_cycle = refl

service-AllGuarded_example :
    AllGuarded 1200 open_gate hill heard
      (service 1200 open_gate hill hill heard fresh).0
      (service 1200 open_gate hill hill heard fresh).1
service-AllGuarded_example = service-AllGuarded 1200 open_gate hill hill heard fresh

abbrev pub pair : FollowConfig ℕ
pair = record default_config {
  status_gvar_index = 0;
  condition_flags_gvar_index = 1;
  rc_long_channel = 5;
  autothrottle_enable_rc_channel = 6;
  min_target_speed_mps = 5;
  max_target_speed_mps = 20;
}

pair_accepted : follow_validate_config pair ≡ none
unfolding follow_validate_config field_checks offset_geometry
pair_accepted = refl

pair_gvars : (r : GvarRole) → gvar_of pair r < 65536
pair_gvars GvarRole.status = omega arith
pair_gvars GvarRole.condition_flags = omega arith
pair_gvars GvarRole.target_speed = omega arith
pair_gvars GvarRole.engage = omega arith

pair_channels : (r : ChannelRole) → channel_of pair r < 65536
pair_channels ChannelRole.long_axis = omega arith
pair_channels ChannelRole.lat_axis = omega arith
pair_channels ChannelRole.vert_axis = omega arith
pair_channels ChannelRole.enable = omega arith

follow_validate_config-roles_example :
    ((r : GvarRole) → (gvar_of pair r ≡ disabled) ⊎ (gvar_of pair r ≤ 7))
    × ((r s : GvarRole) → r ≢ s → gvar_of pair r ≢ disabled → gvar_of pair r ≢ gvar_of pair s)
    × ((r : ChannelRole)
        → (channel_of pair r ≡ disabled) ⊎ ((1 ≤ channel_of pair r) × (channel_of pair r ≤ 16)))
    × ((r s : ChannelRole)
        → r ≢ s
        → channel_of pair r ≢ disabled
        → channel_of pair r ≢ channel_of pair s)
    × (offset_geometry_sane (static_offset pair) pair.min_sep_m pair.min_vsep_m ≡ true)
follow_validate_config-roles_example =
    follow_validate_config-roles pair pair_gvars pair_channels pair_accepted

abbrev one_cycle : Cycle
one_cycle = record {
  now_ms = 1200;
  fc = open_gate;
  self_at_lock = hill;
  self = hill;
  table = heard;
}

accepted_stays_sane_example : KeepsSane (
    resolve_offset open_gate
      (after_events (cycle one_cycle ∷ configure pair ∷ []) (apply_config pair fresh).0))
accepted_stays_sane_example =
    accepted_stays_sane pair fresh pair_accepted (cycle one_cycle ∷ configure pair ∷ []) open_gate

abbrev following : FollowController ℕ
following = record new_controller { lock_state = locked; locked_uid = 7 }

-- The second cycle comes too late for the leader's position.
no_failover_example :
    HoldsLock 7 (after_cycles (one_cycle ∷ record one_cycle { now_ms = 9000 } ∷ []) following)
no_failover_example =
    no_failover (one_cycle ∷ record one_cycle { now_ms = 9000 } ∷ []) 7 following (refl, (refl, tt))
      (tt, refl)

wholes-IsStrictOrder : IsStrictOrder wholes
wholes-IsStrictOrder = record {
  irreflexive = λ x. ground arith;
  transitive = λ x y z h k. ground arith;
}

candidate_peer-IsNearest_example :
    IsNearest wholes (distance_to hill) 1200 1500 heard.peers (candidate_peer hill 1200 heard fresh)
candidate_peer-IsNearest_example =
    candidate_peer-IsNearest wholes-IsStrictOrder hill 1200 heard fresh refl refl
