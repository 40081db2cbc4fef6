-- ===== src/Follow/Service.antt =====
-- lib/ff_core/follow.cpp: the control cycle.
pub mod Guards
pub mod Kept
pub mod NoFailover
pub mod Reports
pub mod Sane
use formation_flight.Prelude.{
  ℕ, ◌+◌, ◌/◌, Bool, true, false, not, ◌&&◌, ◌||◌, ltb, ◌==◌, if◌then◌else◌, List, [], ◌∷◌, ◌++◌,
  Option, none, some, lt_i16, lt_i32, u8, add32, sub32,
}
use formation_flight.Maths.{Maths}
use formation_flight.RateControl.{Double}
use formation_flight.Node.Interfaces.{NodeLocation}
use formation_flight.PeerTable.{Peer, PeerTable, terminate}
use formation_flight.Follow.Config.{FollowConfig, rc_candidate_matches_static_default}
use formation_flight.Follow.Gvars.{
  update_status_gvars, update_autothrottle_gvars, update_debug_gvars,
}
use formation_flight.Follow.Lock.{resolve_lock}
use formation_flight.Follow.Offset.{FollowOffset, candidate_offset_ok, offset_geometry_sane}
use formation_flight.Follow.State.{
  FollowController, FollowTarget, FcView, FcCommand, set_telemetry_needs, send_follow_waypoint,
  send_set_head, LockState, idle, airplane,
}
use formation_flight.Follow.Target.{
  slot_to_lat_lon, resolve_course_deg, resolve_heading_deg, resolve_target_speed_cms,
  resolve_candidate_offset, resolve_offset, target_too_far, any_rc_channel_assigned,
  autothrottle_armed,
}
use formation_flight.Follow.Conditions.{
  condition_none, condition_target_too_far, condition_rc_invalid_gap_settings, raise_condition,
  Altitude, floor_condition, follow_switch_active, bail, cycle_is_due, stand_down,
}

module _ {D : Type 0} ⦃d : Double D⦄ ⦃m : Maths D⦄ where
  open d use {of_nat, add, sub, mul}
  open m use {of_i16, of_i32, round_i32}

  abbrev pub floor_cm : FollowConfig D → ℕ
  floor_cm cfg = round_i32 (mul cfg.min_alt_m (of_nat 100))

  unfoldable pub commanded_altitude :
      FcView → FollowConfig D → FollowOffset D → Peer → NodeLocation → Altitude
  commanded_altitude fc cfg offset p self =
      let relalt_m = sub (of_i16 p.alt_m) (of_i16 self.alt_m) in
      let alt_cm_d =
        add (add (of_i32 fc.local_altitude_cm) (mul relalt_m (of_nat 100)))
          (mul offset.vertical_m (of_nat 100)) in
      let alt_cm : ℕ = round_i32 alt_cm_d in
      let clamped = lt_i32 alt_cm (floor_cm cfg) in
      let static_cm : ℕ =
        round_i32 (add alt_cm_d (mul (sub cfg.ofs_vert_m offset.vertical_m) (of_nat 100))) in
      record {
        alt_cm = if clamped then floor_cm cfg else alt_cm;
        floor_clamped = clamped;
        floor_attributable_to_rc = clamped && not (lt_i32 static_cm (floor_cm cfg));
      }

  -- The end of a cycle that steers.
  unfoldable pub emit :
      ℕ
      → FcView
      → ℕ
      → Peer
      → NodeLocation
      → D
      → FollowTarget
      → ℕ
      → FollowController D
      → FollowController D × List FcCommand
  emit now_ms fc condition_code p self course_deg target alt_cm c =
      let heading = resolve_heading_deg c.config p course_deg self in
      let engaged = fc.platform_type == airplane && autothrottle_armed fc c.config in
      let speed : ℕ =
        if engaged then resolve_target_speed_cms c.config p target course_deg self else 0 in
      let (c1, throttle) = update_autothrottle_gvars engaged speed now_ms c in
      let c2 = record c1 { last_autothrottle_engaged = engaged; last_target_speed_cms = speed } in
      let (c3, reported) = update_status_gvars condition_code now_ms c2 in
      (
        record c3 {
          last_target = some (record {
            target = target;
            alt_cm = alt_cm;
            heading_deg = heading;
            sent_ms = now_ms;
            live_offset = c.last_known_good;
          });
        },
        update_debug_gvars c.config target alt_cm heading self
            ++ (throttle
                ++ (send_follow_waypoint target alt_cm heading
                    ∷ ((if not (heading == 0) && fc.heading_hold_active
                          then send_set_head heading ∷ []
                          else [])
                        ++ reported))),
      )

  -- The last checks, on the offset that is in `last_known_good` and on the target.
  unfoldable pub check_and_emit :
      ℕ
      → FcView
      → ℕ
      → Peer
      → NodeLocation
      → D
      → FollowTarget
      → ℕ
      → FollowController D
      → FollowController D × List FcCommand
  check_and_emit now_ms fc code p self course_deg target alt_cm c =
      if not (offset_geometry_sane c.last_known_good c.config.min_sep_m c.config.min_vsep_m)
      then bail code now_ms c
      else if target_too_far c.config target self
      then bail (raise_condition condition_target_too_far code) now_ms c
      else emit now_ms fc code p self course_deg target alt_cm c

  -- A leader is locked on and the node has a fix.
  unfoldable pub steer :
      ℕ → FcView → Peer → NodeLocation → FollowController D → FollowController D × List FcCommand
  unfolding resolve_offset
  steer now_ms fc p self c =
      let c1 = resolve_offset fc c in
      let offset = c1.last_known_good in
      let (c2, course_deg) = resolve_course_deg p c1 in
      let target = slot_to_lat_lon p.lat p.lon course_deg offset.longitudinal_m offset.lateral_m in
      let alt = commanded_altitude fc c2.config offset p self in
      let code =
        if c2.rc_slot_frozen
        then raise_condition condition_rc_invalid_gap_settings (floor_condition alt)
        else floor_condition alt in
      check_and_emit now_ms fc code p self course_deg target alt.alt_cm c2

  unfoldable pub follow_leader :
      ℕ
      → FcView
      → NodeLocation
      → Option Peer
      → FollowController D
      → FollowController D × List FcCommand
  follow_leader now_ms fc self none c = bail condition_none now_ms c
  follow_leader now_ms fc self (some p) c =
      if not self.valid then bail condition_none now_ms c else steer now_ms fc p self c

  -- The check while the craft is on the ground.
  unfoldable pub pre_arm_check : FcView → FollowController D → FollowController D
  pre_arm_check fc c =
      let candidate = resolve_candidate_offset fc c.config in
      let failed =
        not (candidate_offset_ok candidate c.last_known_good c.config.min_sep_m c.config.min_vsep_m)
        || not (rc_candidate_matches_static_default candidate c.config) in
      if not fc.armed && any_rc_channel_assigned c.config
      then record c { pre_arm_candidate_offset = some candidate; rc_pre_arm_check_failed = failed }
      else record c { pre_arm_candidate_offset = none; rc_pre_arm_check_failed = false }

  -- The part of the cycle behind the checks on the ground. The node's location is asked for twice:
  -- by the search for the nearest peer, and afterwards.
  unfoldable pub run_cycle :
      ℕ
      → FcView
      → NodeLocation
      → NodeLocation
      → PeerTable
      → FollowController D
      → FollowController D × List FcCommand
  run_cycle now_ms fc self_at_lock self t c =
      let (c1, peer) = resolve_lock self_at_lock now_ms t c in
      if not (follow_switch_active fc)
      then stand_down now_ms c
      else follow_leader now_ms fc self peer c1

  -- A call of `service`: the controller afterwards, and what was sent.
  unfoldable pub service :
      ℕ
      → FcView
      → NodeLocation
      → NodeLocation
      → PeerTable
      → FollowController D
      → FollowController D × List FcCommand
  unfolding run_cycle
  service now_ms fc self_at_lock self t c =
      let begun = record c {
        started = true;
        next_run_ms = add32 now_ms (1000 / c.config.emit_hz);
      } in
      let needs = set_telemetry_needs (follow_switch_active fc) (
        any_rc_channel_assigned c.config
        || not (lt_i16 c.config.autothrottle_enable_rc_channel 1)) in
      let (c', sent) = run_cycle now_ms fc self_at_lock self t (pre_arm_check fc begun) in
      if cycle_is_due now_ms c then (c', needs ∷ sent) else (c, [])
