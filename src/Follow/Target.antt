-- ===== src/Follow/Target.antt =====
-- lib/ff_core/follow.cpp: the numbers of a waypoint.
pub mod Heading
use formation_flight.Prelude.{
  ℕ, ◌+◌, ◌-◌, ◌%◌, Bool, true, false, not, ◌&&◌, ◌||◌, ltb, ◌==◌, if◌then◌else◌, Option, none,
  some, lt_i16, lt_i32, u8, u16,
}
use formation_flight.Geo.{to_rad, to_deg, distance_m, bearing_deg, point_at_distance}
use formation_flight.Maths.{Maths}
use formation_flight.RateControl.{Double}
use formation_flight.Node.Interfaces.{NodeLocation}
use formation_flight.PeerTable.{Peer}
use formation_flight.Follow.Config.{
  FollowConfig, HeadingMode, heading_off, course, point_leader, fixed, course_relative, disabled,
}
use formation_flight.Follow.Lock.{deg_1e7, distance_to}
use formation_flight.Follow.Offset.{FollowOffset, candidate_offset_ok}
use formation_flight.Follow.State.{FollowController, FollowTarget, FcView}

-- `x % 360` of an int32_t, brought into 0 to 359 by adding 360 if it is negative.
unfoldable pub degrees_of : ℕ → ℕ
degrees_of x =
    if ltb x 2147483648
    then x % 360
    else let below = (4294967296 - x) % 360 in if below == 0 then 0 else 360 - below

-- The heading of 0 degrees is sent as 1.
unfoldable pub wire_heading : ℕ → ℕ
unfolding degrees_of
wire_heading x = let deg = degrees_of x in if deg == 0 then 1 else deg

abbrev pub clamp_us : ℕ → ℕ
clamp_us us = if ltb us 1000 then 1000 else if ltb 2000 us then 2000 else us

-- An int16_t as an int32_t.
abbrev pub widen : ℕ → ℕ
widen x = if ltb x 32768 then x else x + 4294901760

module _ {D : Type 0} where
  abbrev pub any_rc_channel_assigned : FollowConfig D → Bool
  any_rc_channel_assigned cfg =
      not (cfg.rc_long_channel == disabled)
      || (not (cfg.rc_lat_channel == disabled) || not (cfg.rc_vert_channel == disabled))

  -- Inside the range of the arm switch. A uint16_t is compared with an int16_t as ints.
  abbrev pub in_arm_range : FollowConfig D → Option ℕ → Bool
  in_arm_range cfg none = true
  in_arm_range cfg (some us) =
      not (lt_i32 us (widen cfg.autothrottle_enable_min_threshold_us))
      && not (lt_i32 (widen cfg.autothrottle_enable_max_threshold_us) us)

  unfoldable pub autothrottle_armed : FcView → FollowConfig D → Bool
  autothrottle_armed fc cfg =
      if lt_i16 cfg.autothrottle_enable_rc_channel 1
      then true
      else in_arm_range cfg (fc.rc_channel_us (u8 cfg.autothrottle_enable_rc_channel))

module _ {D : Type 0} ⦃d : Double D⦄ ⦃m : Maths D⦄ where
  open d use {of_nat, add, sub, mul, div, lt, le}
  open m use {of_i16, of_i32, round_i32, to_float, fabs, copysign, sqrt, sin, cos, atan2}

  unfoldable pub clamp_d : D → D → D → D
  clamp_d v lo hi = if lt v lo then lo else if lt hi v then hi else v

  -- North and east of the node's own place, in metres.
  unfoldable pub horizontal_offset_m : NodeLocation → D → D → D × D
  horizontal_offset_m self lat lon =
      let self_lat = deg_1e7 self.lat in
      let self_lon = deg_1e7 self.lon in
      let dist = distance_m self_lat self_lon lat lon in
      let bearing = to_rad (bearing_deg self_lat self_lon lat lon) in
      (mul dist (cos bearing), mul dist (sin bearing))

  unfoldable pub slot_to_lat_lon : ℕ → ℕ → D → D → D → FollowTarget
  slot_to_lat_lon peer_lat_1e7 peer_lon_1e7 course_deg long_m lat_m =
      let th = to_rad course_deg in
      let north_m = sub (mul long_m (cos th)) (mul lat_m (sin th)) in
      let east_m = add (mul long_m (sin th)) (mul lat_m (cos th)) in
      let dist = sqrt (add (mul north_m north_m) (mul east_m east_m)) in
      let bearing = to_deg (atan2 east_m north_m) in
      let around = if lt bearing (of_nat 0) then add bearing (of_nat 360) else bearing in
      let (lat, lon) =
        point_at_distance (deg_1e7 peer_lat_1e7) (deg_1e7 peer_lon_1e7) dist around in
      record {
        lat_1e7 = round_i32 (mul lat (of_nat 10000000));
        lon_1e7 = round_i32 (mul lon (of_nat 10000000));
      }

  abbrev pub reported_course : Peer → D
  reported_course p = div (of_nat p.course_ddeg) (of_nat 10)

  -- `speed_cms` has 16 bits, so its cast to int32_t keeps it.
  unfoldable pub resolve_course_deg : Peer → FollowController D → FollowController D × D
  resolve_course_deg p c =
      let min_speed_cms = round_i32 (mul c.config.min_course_speed (of_nat 100)) in
      let fast = not (lt_i32 p.speed_cms min_speed_cms) in
      let reported = reported_course p in
      (
        record c {
          last_valid_course_deg = if fast then some reported else c.last_valid_course_deg;
        },
        if fast
            then reported
            else elim c.last_valid_course_deg [ some held ↦ held | none ↦ reported ],
      )

  unfoldable pub raw_heading : HeadingMode → D → D → Peer → NodeLocation → Option D
  raw_heading heading_off course_deg heading p self = none
  raw_heading course course_deg heading p self = some course_deg
  raw_heading point_leader course_deg heading p self =
      some (bearing_deg (deg_1e7 self.lat) (deg_1e7 self.lon) (deg_1e7 p.lat) (deg_1e7 p.lon))
  raw_heading fixed course_deg heading p self = some heading
  raw_heading course_relative course_deg heading p self = some (add course_deg heading)

  -- 0 means that the heading is left alone.
  abbrev pub heading_from : Option D → ℕ
  heading_from none = 0
  heading_from (some raw) = wire_heading (round_i32 raw)

  unfoldable pub resolve_heading_deg : FollowConfig D → Peer → D → NodeLocation → ℕ
  resolve_heading_deg cfg p course_deg self =
      heading_from (raw_heading cfg.heading_mode course_deg cfg.heading_deg p self)

  unfoldable pub resolve_along_track_error_m : FollowTarget → D → NodeLocation → D
  unfolding horizontal_offset_m
  resolve_along_track_error_m target course_deg self =
      let (north_m, east_m) =
        horizontal_offset_m self (deg_1e7 target.lat_1e7) (deg_1e7 target.lon_1e7) in
      let th = to_rad course_deg in add (mul north_m (cos th)) (mul east_m (sin th))

  -- The arithmetic in between is that of float.
  unfoldable pub resolve_target_speed_cms :
      FollowConfig D → Peer → FollowTarget → D → NodeLocation → ℕ
  unfolding resolve_along_track_error_m clamp_d
  resolve_target_speed_cms cfg p target course_deg self =
      let error_m = resolve_along_track_error_m target course_deg self in
      let error_cm = to_float (mul error_m (of_nat 100)) in
      let accel_cms2 = of_i16 cfg.speed_correction_accel_cms2 in
      let twice = to_float (mul (of_nat 2) accel_cms2) in
      let closing = to_float (sqrt (to_float (mul twice (fabs error_cm)))) in
      let wanted = add (of_nat p.speed_cms) (copysign closing error_cm) in
      let lo = mul cfg.min_target_speed_mps (of_nat 100) in
      let hi = mul cfg.max_target_speed_mps (of_nat 100) in round_i32 (clamp_d wanted lo hi)

  -- What a channel makes of an offset.
  unfoldable pub scaled_offset : D → Option ℕ → D
  scaled_offset configured_m none = configured_m
  scaled_offset configured_m (some us) =
      mul (div (sub (of_nat (clamp_us us)) (of_nat 1500)) (of_nat 500)) (fabs configured_m)

  unfoldable pub resolve_axis_offset : FcView → D → ℕ → D
  unfolding scaled_offset
  resolve_axis_offset fc configured_m channel =
      if lt_i16 channel 1
      then configured_m
      else scaled_offset configured_m (fc.rc_channel_us (u8 channel))

  unfoldable pub resolve_candidate_offset : FcView → FollowConfig D → FollowOffset D
  unfolding resolve_axis_offset
  resolve_candidate_offset fc cfg = record {
    longitudinal_m = resolve_axis_offset fc cfg.ofs_long_m cfg.rc_long_channel;
    lateral_m = resolve_axis_offset fc cfg.ofs_lat_m cfg.rc_lat_channel;
    vertical_m = resolve_axis_offset fc cfg.ofs_vert_m cfg.rc_vert_channel;
  }

  -- The offset of this cycle is `last_known_good` afterwards.
  unfoldable pub resolve_offset : FcView → FollowController D → FollowController D
  unfolding resolve_candidate_offset
  resolve_offset fc c =
      let candidate = resolve_candidate_offset fc c.config in
      let ok =
        candidate_offset_ok candidate c.last_known_good c.config.min_sep_m c.config.min_vsep_m in
      record c {
        rc_slot_frozen = not ok;
        last_known_good = if ok then candidate else c.last_known_good;
      }

  unfoldable pub target_too_far : FollowConfig D → FollowTarget → NodeLocation → Bool
  target_too_far cfg target self = lt cfg.max_target_dist_m (
      distance_m (deg_1e7 self.lat) (deg_1e7 self.lon) (deg_1e7 target.lat_1e7)
        (deg_1e7 target.lon_1e7))
