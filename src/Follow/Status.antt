-- ===== src/Follow/Status.antt =====
-- lib/ff_core/follow.h and follow.cpp: the snapshot of the controller for the status page.
--
-- What the page shows only if a flag is set is an option here, `none` while it is not.
use Prim.Native.String.{String}
use formation_flight.Prelude.{
  ℕ, Bool, not, ◌&&◌, ◌==◌, List, Option, none, some, if◌then◌else◌, lt_i16, sub32,
}
use formation_flight.Follow.Conditions.{follow_switch_active}
use formation_flight.Follow.Offset.{FollowOffset}
use formation_flight.Follow.State.{
  FollowController, FollowTarget, FcView, LastTarget, LockState, idle, acquiring, locked,
  locked_holding, SentGvar, never_sent, padded_name,
}
use formation_flight.Follow.Target.{autothrottle_armed}

unfoldable pub lock_state_name : LockState → String
lock_state_name idle = "IDLE"
lock_state_name acquiring = "ACQUIRING"
lock_state_name locked = "LOCKED"
lock_state_name locked_holding = "LOCKED_HOLDING"

-- The fields that go with `haveLastTarget`.
pub record ShownTarget (D : Type 0) : Type 0 where
  pub target : FollowTarget
  pub alt_cm : ℕ
  pub heading_deg : ℕ
  pub age_ms : ℕ
  pub target_speed_cms : ℕ
  pub autothrottle_engaged : Bool
  pub live_offset : FollowOffset D
  pub rc_slot_frozen : Bool

pub record FollowStatus (D : Type 0) : Type 0 where
  pub lock_state : LockState
  pub gate_active : Bool
  pub locked_uid : ℕ
  pub locked_name : List ℕ
  pub last_target : Option (ShownTarget D)
  pub status_gvar_value : Option ℕ
  pub condition_flags_gvar_value : Option ℕ
  pub platform_type : ℕ
  pub is_armed_for_throttle : Bool
  pub pre_arm_candidate_offset : Option (FollowOffset D)
  pub rc_pre_arm_check_failed : Bool

-- The value of a GVAR that has an index and was sent.
unfoldable pub shown_gvar : ℕ → SentGvar → Option ℕ
shown_gvar index gvar =
    if not (lt_i16 index 0) && not (gvar.last_sent == never_sent) then some gvar.last_sent else none

module _ {D : Type 0} where
  abbrev pub shown_target : ℕ → FollowController D → Option (LastTarget D) → Option (ShownTarget D)
  shown_target now_ms c none = none
  shown_target now_ms c (some t) = some (record {
    target = t.target;
    alt_cm = t.alt_cm;
    heading_deg = t.heading_deg;
    age_ms = sub32 now_ms t.sent_ms;
    target_speed_cms = c.last_target_speed_cms;
    autothrottle_engaged = c.last_autothrottle_engaged;
    live_offset = t.live_offset;
    rc_slot_frozen = c.rc_slot_frozen;
  })

  unfoldable pub status : ℕ → FcView → FollowController D → FollowStatus D
  unfolding shown_gvar
  status now_ms fc c = record {
    lock_state = c.lock_state;
    gate_active = follow_switch_active fc;
    locked_uid = c.locked_uid;
    locked_name = padded_name 15 c.locked_name;
    last_target = shown_target now_ms c c.last_target;
    status_gvar_value = shown_gvar c.config.status_gvar_index c.status_gvar;
    condition_flags_gvar_value =
        shown_gvar c.config.condition_flags_gvar_index c.condition_flags_gvar;
    platform_type = fc.platform_type;
    is_armed_for_throttle = autothrottle_armed fc c.config;
    pre_arm_candidate_offset = c.pre_arm_candidate_offset;
    rc_pre_arm_check_failed = c.rc_pre_arm_check_failed;
  }
