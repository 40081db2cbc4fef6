-- ===== src/Follow/State.antt =====
-- lib/ff_core/follow.h and follow.cpp: what the controller keeps, what it reads of the flight
-- controller, and what it sends.
use formation_flight.Prelude.{
  ℕ, Bool, false, List, [], ◌∷◌, Option, none, some, ◌==◌, if◌then◌else◌, zero, suc, replicate,
}
use formation_flight.Maths.{Maths}
use formation_flight.RateControl.{Double}
use formation_flight.Follow.Config.{
  HeadingMode, FollowConfig, FollowError, disabled, static_offset, follow_validate_config,
}
use formation_flight.Follow.Offset.{FollowOffset}
use formation_flight.PeerTable.{terminate}

pub data LockState : Type 0 where
  idle acquiring locked locked_holding : LockState

pub record FollowTarget : Type 0 where
  pub lat_1e7 : ℕ
  pub lon_1e7 : ℕ

-- IFollowFc: the answers of one cycle. A channel that cannot be read is `none`.
pub record FcView : Type 0 where
  pub armed : Bool
  pub gcs_nav_active : Bool
  pub heading_hold_active : Bool
  pub rc_channel_us : ℕ → Option ℕ
  pub local_altitude_cm : ℕ
  pub platform_type : ℕ

-- IFollowFc: the calls that write.
pub data FcCommand : Type 0 where
  set_telemetry_needs : Bool → Bool → FcCommand
  send_gvar : ℕ → ℕ → FcCommand
  send_follow_waypoint : FollowTarget → ℕ → ℕ → FcCommand
  send_set_head : ℕ → FcCommand

-- FcPlatform::Airplane.
abbrev pub airplane : ℕ
airplane = 1

-- INT32_MIN, for a GVAR that was never sent.
abbrev pub never_sent : ℕ
never_sent = 2147483648

-- A GVAR that is sent on a change and at intervals: its last value and the time of it.
pub record SentGvar : Type 0 where
  pub last_sent : ℕ
  pub last_send_ms : ℕ

abbrev pub unsent : SentGvar
unsent = record { last_sent = never_sent; last_send_ms = 0 }

-- The fields of the last target are together; `none` is `haveLastTarget_` unset.
pub record LastTarget (D : Type 0) : Type 0 where
  pub target : FollowTarget
  pub alt_cm : ℕ
  pub heading_deg : ℕ
  pub sent_ms : ℕ
  pub live_offset : FollowOffset D

-- `last_valid_course_deg` is `none` while `haveValidCourse_` is unset, and
-- `pre_arm_candidate_offset` while `havePreArmCandidateOffset_` is.
pub record FollowController (D : Type 0) : Type 0 where
  pub config : FollowConfig D
  pub started : Bool
  pub next_run_ms : ℕ
  pub lock_state : LockState
  pub locked_uid : ℕ
  pub locked_name : List ℕ
  pub last_valid_course_deg : Option D
  pub last_target : Option (LastTarget D)
  pub status_gvar : SentGvar
  pub condition_flags_gvar : SentGvar
  pub engage_gvar : SentGvar
  pub last_target_speed_cms : ℕ
  pub last_autothrottle_engaged : Bool
  pub last_known_good : FollowOffset D
  pub rc_slot_frozen : Bool
  pub rc_pre_arm_check_failed : Bool
  pub pre_arm_candidate_offset : Option (FollowOffset D)

abbrev pub no_name : List ℕ
no_name = replicate 16 0

-- `std::strncpy` of a C string into a name, with the terminator behind it: the rest is zeros.
unfoldable pub padded_name : ℕ → List ℕ → List ℕ
padded_name zero src = 0 ∷ []
padded_name (suc n) [] = 0 ∷ padded_name n []
padded_name (suc n) (c ∷ src) = c ∷ padded_name n (if c == 0 then [] else src)

module _ {D : Type 0} ⦃d : Double D⦄ ⦃m : Maths D⦄ where
  open d use {of_nat, half, div}
  open m use {neg}

  -- FollowConfig with the defaults that are compiled in.
  abbrev pub default_config : FollowConfig D
  default_config = record {
    ofs_long_m = neg (of_nat 15);
    ofs_lat_m = of_nat 0;
    ofs_vert_m = of_nat 10;
    target_uid = 0;
    emit_hz = 4;
    peer_timeout_ms = 1500;
    min_sep_m = of_nat 8;
    min_vsep_m = of_nat 13;
    max_target_dist_m = of_nat 50;
    min_alt_m = of_nat 3;
    min_course_speed = of_nat 2;
    heading_mode = HeadingMode.point_leader;
    heading_deg = of_nat 0;
    status_gvar_index = disabled;
    condition_flags_gvar_index = disabled;
    rc_long_channel = disabled;
    rc_lat_channel = disabled;
    rc_vert_channel = disabled;
    target_speed_gvar_index = disabled;
    autothrottle_engage_gvar_index = disabled;
    autothrottle_enable_rc_channel = disabled;
    autothrottle_enable_min_threshold_us = 1700;
    autothrottle_enable_max_threshold_us = 2100;
    speed_correction_accel_cms2 = 0;
    min_target_speed_mps = of_nat 0;
    max_target_speed_mps = of_nat 0;
    debug = false;
  }

  -- The constructor.
  abbrev pub new_controller : FollowController D
  new_controller = record {
    config = default_config;
    started = false;
    next_run_ms = 0;
    lock_state = idle;
    locked_uid = 0;
    locked_name = no_name;
    last_valid_course_deg = none;
    last_target = none;
    status_gvar = unsent;
    condition_flags_gvar = unsent;
    engage_gvar = unsent;
    last_target_speed_cms = 0;
    last_autothrottle_engaged = false;
    last_known_good = static_offset default_config;
    rc_slot_frozen = false;
    rc_pre_arm_check_failed = false;
    pre_arm_candidate_offset = none;
  }

-- Back to looking for a leader.
module _ {D : Type 0} where
  unfoldable pub force_reacquire : FollowController D → FollowController D
  force_reacquire c = record c {
    lock_state = acquiring;
    locked_uid = 0;
    locked_name = terminate c.locked_name;
  }

module _ {D : Type 0} ⦃d : Double D⦄ ⦃m : Maths D⦄ where
  -- What `applyConfig` does once the configuration is accepted.
  unfoldable pub adopt : FollowConfig D → FollowController D → FollowController D
  unfolding force_reacquire
  adopt cfg c =
      let next = record c { config = cfg; last_known_good = static_offset cfg } in
      if cfg.target_uid == c.config.target_uid then next else force_reacquire next

  abbrev pub answer_config :
      Option FollowError
      → FollowConfig D
      → FollowController D
      → FollowController D × Option FollowError
  answer_config (some e) cfg c = (c, some e)
  answer_config none cfg c = (adopt cfg c, none)

  -- The error is `none` if the configuration was taken.
  unfoldable pub apply_config :
      FollowConfig D → FollowController D → FollowController D × Option FollowError
  apply_config cfg c = answer_config (follow_validate_config cfg) cfg c
