-- ===== src/Follow/Conditions.antt =====
-- lib/ff_core/follow.cpp: the conditions of a cycle, and what it does when there is nothing to follow.
use formation_flight.Prelude.{
  ℕ, Bool, false, not, ◌&&◌, ltb, if◌then◌else◌, List, ◌++◌, none, lt_i32, sub32,
}
use formation_flight.PeerTable.{terminate}
use formation_flight.Follow.Gvars.{update_status_gvars, update_autothrottle_gvars}
use formation_flight.Follow.State.{FollowController, FcView, FcCommand, idle}

-- FollowConditionCode.
abbrev pub condition_none : ℕ
condition_none = 0

abbrev pub condition_floor_clamped : ℕ
condition_floor_clamped = 1

abbrev pub condition_target_too_far : ℕ
condition_target_too_far = 2

abbrev pub condition_rc_invalid_gap_settings : ℕ
condition_rc_invalid_gap_settings = 3

abbrev pub raise_condition : ℕ → ℕ → ℕ
raise_condition candidate code = if ltb code candidate then candidate else code

-- The commanded altitude, and whether the floor held it up.
pub record Altitude : Type 0 where
  pub alt_cm : ℕ
  pub floor_clamped : Bool
  pub floor_attributable_to_rc : Bool

abbrev pub floor_condition : Altitude → ℕ
floor_condition a =
    if a.floor_clamped
    then raise_condition
        (if a.floor_attributable_to_rc
          then condition_rc_invalid_gap_settings
          else condition_floor_clamped)
        condition_none
    else condition_none

-- The gate is open: FOLLOW_TRIGGER_MODE is FOLLOW_TRIGGER_GCSNAV.
abbrev pub follow_switch_active : FcView → Bool
follow_switch_active fc = fc.gcs_nav_active

module _ {D : Type 0} where
  -- `bail`, which every early exit calls.
  unfoldable pub bail : ℕ → ℕ → FollowController D → FollowController D × List FcCommand
  bail code now_ms c =
      let (c1, first) = update_status_gvars code now_ms c in
      let (c2, second) = update_autothrottle_gvars false 0 now_ms c1 in (c2, first ++ second)

  abbrev pub cycle_is_due : ℕ → FollowController D → Bool
  cycle_is_due now_ms c = not (c.started && lt_i32 (sub32 now_ms c.next_run_ms) 0)

  -- The gate is shut.
  unfoldable pub stand_down : ℕ → FollowController D → FollowController D × List FcCommand
  unfolding bail
  stand_down now_ms c =
      bail (if c.rc_pre_arm_check_failed then condition_rc_invalid_gap_settings else condition_none)
        now_ms
        (record c {
          lock_state = idle;
          locked_uid = 0;
          locked_name = terminate c.locked_name;
          last_valid_course_deg = none;
        })
