-- ===== src/Follow/Service/Guards.antt =====
-- lib/ff_core/follow.cpp: what has to hold for a waypoint to be sent.
use formation_flight.Prelude.{
  ℕ, ◌≡◌, refl, Bool, true, false, not, ◌||◌, ◌&&◌, ◌==◌, none, arith, some, Option, List, [], ◌∷◌,
  ◌/◌, add32, if◌then◌else◌, lt_i16, lt_i32,
}
use formation_flight.Maths.{Maths}
use formation_flight.RateControl.{Double}
use formation_flight.Node.Interfaces.{NodeLocation}
use formation_flight.PeerTable.{Peer, PeerTable}
use formation_flight.Follow.Config.{FollowConfig}
use formation_flight.Follow.Gvars.{update_status_gvars, update_autothrottle_gvars}
use formation_flight.Follow.Lock.{resolve_lock}
use formation_flight.Follow.Lock.Failover.{IsLeader, resolve_lock-IsLeader}
use formation_flight.Follow.Offset.{FollowOffset, offset_geometry_sane}
use formation_flight.Follow.Service.{
  check_and_emit, emit, steer, follow_leader, pre_arm_check, run_cycle, service, floor_cm,
  commanded_altitude,
}
use formation_flight.Follow.Status.{status}
use formation_flight.Follow.Conditions.{
  condition_target_too_far, raise_condition, bail, stand_down, cycle_is_due,
}
use formation_flight.Follow.State.{
  FollowController, FollowTarget, FcView, FcCommand, set_telemetry_needs, send_follow_waypoint,
  send_set_head, airplane,
}
use formation_flight.Follow.Target.{
  any_rc_channel_assigned, resolve_heading_deg, resolve_target_speed_cms, autothrottle_armed,
  slot_to_lat_lon, resolve_course_deg, resolve_offset, target_too_far,
}
use formation_flight.Follow.Service.Reports.{
  nothing, command, Each-append, IsGuarded, AllGuarded, one-AllGuarded, status-AllGuarded,
  throttle-AllGuarded, bail-AllGuarded, debug-AllGuarded,
}

true_of_not : (b : Bool) → not b ≡ false → b ≡ true
true_of_not true h = refl
true_of_not false h = cc

module _ {D : Type 0} ⦃d : Double D⦄ ⦃m : Maths D⦄ where
  module _ (now_ms : ℕ) (fc : FcView) (self : NodeLocation) (t : PeerTable) where
    not_below_floor :
        (cfg : FollowConfig D) (offset : FollowOffset D) (p : Peer)
        → lt_i32 (commanded_altitude fc cfg offset p self).alt_cm (floor_cm cfg) ≡ false
    unfolding commanded_altitude
    not_below_floor cfg offset p = ground arith

    emit-AllGuarded :
        (code : ℕ) (p : Peer) (course_deg : D) (target : FollowTarget) (alt : ℕ)
        (c : FollowController D)
        → IsGuarded now_ms fc self t
            (emit now_ms fc code p self course_deg target alt c).0
            (send_follow_waypoint target alt (resolve_heading_deg c.config p course_deg self))
        → AllGuarded now_ms fc self t
            (emit now_ms fc code p self course_deg target alt c).0
            (emit now_ms fc code p self course_deg target alt c).1
    unfolding emit
    emit-AllGuarded code p course_deg target alt c g =
        let heading = resolve_heading_deg c.config p course_deg self in
        let engaged = fc.platform_type == airplane && autothrottle_armed fc c.config in
        let speed : ℕ =
          if engaged then resolve_target_speed_cms c.config p target course_deg self else 0 in
        let end = (emit now_ms fc code p self course_deg target alt c).0 in
        let throttled = record ((update_autothrottle_gvars engaged speed now_ms c).0) {
          last_autothrottle_engaged = engaged;
          last_target_speed_cms = speed;
        } in
        Each-append (debug-AllGuarded now_ms fc self t end c.config target alt heading) (
          Each-append (throttle-AllGuarded now_ms fc self t end engaged speed c) (
            command g (
              Each-append
                (one-AllGuarded now_ms fc self t end (not (heading == 0) && fc.heading_hold_active)
                  (send_set_head heading) tt)
                (status-AllGuarded now_ms fc self t end code throttled))))

    abbrev Guarded : FollowController D × List FcCommand → Type 0
    Guarded r = AllGuarded now_ms fc self t r.0 r.1

    either-Guarded :
        (b : Bool) (r s : FollowController D × List FcCommand)
        → (b ≡ true → Guarded r)
        → (b ≡ false → Guarded s)
        → Guarded (if b then r else s)
    either-Guarded true r s f g = f refl
    either-Guarded false r s f g = g refl

    module _ (gate : fc.gcs_nav_active ≡ true) where
      emitted :
          (code : ℕ) (p : Peer) (course_deg : D) (target : FollowTarget) (alt : ℕ)
          (c : FollowController D)
          → self.valid ≡ true
          → IsLeader now_ms t c (some p)
          → offset_geometry_sane c.last_known_good c.config.min_sep_m c.config.min_vsep_m ≡ true
          → target_too_far c.config target self ≡ false
          → lt_i32 alt (floor_cm c.config) ≡ false
          → target
            ≡ slot_to_lat_lon p.lat p.lon course_deg c.last_known_good.longitudinal_m
                c.last_known_good.lateral_m
          → Guarded (emit now_ms fc code p self course_deg target alt c)
      unfolding emit update_status_gvars update_autothrottle_gvars status
      emitted code p course_deg target alt c fix leader sane near above slot =
          emit-AllGuarded code p course_deg target alt c (
            gate,
            fix,
            near,
            above,
            sane,
            (p, leader, (course_deg, slot)),
            λ later_ms seen. (_, refl, refl, refl, refl, refl, refl),
          )

      check_and_emit-Guarded :
          (code : ℕ) (p : Peer) (course_deg : D) (target : FollowTarget) (alt : ℕ)
          (c : FollowController D)
          → self.valid ≡ true
          → IsLeader now_ms t c (some p)
          → lt_i32 alt (floor_cm c.config) ≡ false
          → target
            ≡ slot_to_lat_lon p.lat p.lon course_deg c.last_known_good.longitudinal_m
                c.last_known_good.lateral_m
          → Guarded (check_and_emit now_ms fc code p self course_deg target alt c)
      unfolding check_and_emit
      check_and_emit-Guarded code p course_deg target alt c fix leader above slot =
          let far = target_too_far c.config target self in
          let too_far = bail (raise_condition condition_target_too_far code) now_ms c in
          let out = emit now_ms fc code p self course_deg target alt c in
          let off =
            not (offset_geometry_sane c.last_known_good c.config.min_sep_m c.config.min_vsep_m) in
          either-Guarded off (bail code now_ms c) (if far then too_far else out)
            (λ _. bail-AllGuarded now_ms fc self t (bail code now_ms c).0 code c)
            λ e.
              either-Guarded far too_far out
                (λ _.
                  bail-AllGuarded now_ms fc self t too_far.0
                    (raise_condition condition_target_too_far code) c)
                λ near.
                  emitted code p course_deg target alt c fix leader (true_of_not _ e) near above
                    slot

      steer-Guarded :
          (p : Peer) (c : FollowController D)
          → self.valid ≡ true
          → IsLeader now_ms t c (some p)
          → Guarded (steer now_ms fc p self c)
      unfolding steer resolve_course_deg
      steer-Guarded p c fix leader =
          let held = resolve_offset fc c in
          let along = resolve_course_deg p held in
          check_and_emit-Guarded _ p along.1 _ _ along.0 fix (unfold resolve_offset in leader)
            (not_below_floor c.config held.last_known_good p) refl

      follow_leader-Guarded :
          (o : Option Peer) (c : FollowController D)
          → IsLeader now_ms t c o
          → Guarded (follow_leader now_ms fc self o c)
      unfolding follow_leader
      follow_leader-Guarded none c leader = bail-AllGuarded now_ms fc self t (bail 0 now_ms c).0 0 c
      follow_leader-Guarded (some p) c leader =
          either-Guarded (not self.valid) (bail 0 now_ms c) (steer now_ms fc p self c)
            (λ _. bail-AllGuarded now_ms fc self t (bail 0 now_ms c).0 0 c)
            λ e. steer-Guarded p c (true_of_not _ e) leader

    run_cycle-Guarded :
        (self_at_lock : NodeLocation) (c : FollowController D)
        → Guarded (run_cycle now_ms fc self_at_lock self t c)
    unfolding run_cycle stand_down
    run_cycle-Guarded self_at_lock c =
        let r = resolve_lock self_at_lock now_ms t c in
        either-Guarded (not fc.gcs_nav_active) (stand_down now_ms c)
          (follow_leader now_ms fc self r.1 r.0)
          (λ _. bail-AllGuarded now_ms fc self t (stand_down now_ms c).0 _ _)
          λ e.
            follow_leader-Guarded (true_of_not _ e) r.1 r.0
              (resolve_lock-IsLeader self_at_lock now_ms t c)

  -- Whatever the flight controller answers and the table holds: a waypoint that a cycle sends goes
  -- out only while the gate is open and the node has a fix. There is a peer in the table that is
  -- locked on, with a fix and a position that is not older than the timeout, and the waypoint is its
  -- slot: the offset that the controller keeps, which has the separation that is asked for, along
  -- some course. The slot is not too far from the node, and the altitude not below the floor. Until the
  -- next cycle the snapshot shows this waypoint, its offset and its age.
  pub service-AllGuarded :
      (now_ms : ℕ) (fc : FcView) (self_at_lock self : NodeLocation) (t : PeerTable)
      (c : FollowController D)
      → AllGuarded now_ms fc self t
          (service now_ms fc self_at_lock self t c).0
          (service now_ms fc self_at_lock self t c).1
  unfolding service
  service-AllGuarded now_ms fc self_at_lock self t c =
      either-Guarded now_ms fc self t (cycle_is_due now_ms c) (r.0, needs ∷ r.1) (c, [])
        (λ _. command tt (run_cycle-Guarded now_ms fc self t self_at_lock (pre_arm_check fc begun)))
        (λ _. nothing)
    where
      begun : FollowController D
      begun = record c { started = true; next_run_ms = add32 now_ms (1000 / c.config.emit_hz) }

      needs : FcCommand
      needs = set_telemetry_needs fc.gcs_nav_active (
          any_rc_channel_assigned c.config
          || not (lt_i16 c.config.autothrottle_enable_rc_channel 1))

      r : FollowController D × List FcCommand
      r = run_cycle now_ms fc self_at_lock self t (pre_arm_check fc begun)
