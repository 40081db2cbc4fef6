-- ===== src/Follow/Config.antt =====
-- lib/ff_core/follow.h and follow.cpp: the configuration of the controller, and its rules.
--
-- Channels, GVAR indices and thresholds are bit patterns of int16_t, and -1 is `disabled`.
pub mod Roles
pub mod Apart
use formation_flight.Prelude.{
  ℕ, ◌+◌, Bool, true, false, not, ◌&&◌, ◌||◌, ltb, ◌==◌, if◌then◌else◌, List, [], ◌∷◌, Option, none,
  some, lt_i16, first_error, IsWord16,
}
use formation_flight.Maths.{Maths}
use formation_flight.RateControl.{Double}
use formation_flight.Follow.Offset.{FollowOffset, OffsetError, offset_geometry}

pub data HeadingMode : Type 0 where
  heading_off course point_leader fixed course_relative : HeadingMode

abbrev pub disabled : ℕ
disabled = 65535

abbrev pub max_rc_channels : ℕ
max_rc_channels = 16

pub record FollowConfig (D : Type 0) : Type 0 where
  pub ofs_long_m : D
  pub ofs_lat_m : D
  pub ofs_vert_m : D
  pub target_uid : ℕ
  pub emit_hz : ℕ
  pub peer_timeout_ms : ℕ
  pub min_sep_m : D
  pub min_vsep_m : D
  pub max_target_dist_m : D
  pub min_alt_m : D
  pub min_course_speed : D
  pub heading_mode : HeadingMode
  pub heading_deg : D
  pub status_gvar_index : ℕ
  pub condition_flags_gvar_index : ℕ
  pub rc_long_channel : ℕ
  pub rc_lat_channel : ℕ
  pub rc_vert_channel : ℕ
  pub target_speed_gvar_index : ℕ
  pub autothrottle_engage_gvar_index : ℕ
  pub autothrottle_enable_rc_channel : ℕ
  pub autothrottle_enable_min_threshold_us : ℕ
  pub autothrottle_enable_max_threshold_us : ℕ
  pub speed_correction_accel_cms2 : ℕ
  pub min_target_speed_mps : D
  pub max_target_speed_mps : D
  pub debug : Bool

-- The messages, one for each, by the setting that they are about.
pub data FollowError : Type 0 where
  bad_emit_hz bad_peer_timeout bad_minimum bad_max_target_dist bad_min_course_speed : FollowError
  bad_status_gvar bad_condition_flags_gvar bad_target_speed_gvar bad_engage_gvar : FollowError
  bad_rc_long bad_rc_lat bad_rc_vert bad_enable_channel : FollowError
  gvars_not_unique channels_not_unique enable_channel_not_unique : FollowError
  bad_thresholds bad_target_speeds bad_accel : FollowError
  bad_offset : OffsetError → FollowError

-- `x < -1 || x > 7`.
abbrev pub bad_gvar : ℕ → Bool
bad_gvar x = lt_i16 x disabled || lt_i16 7 x

-- `x != -1 && (x < 1 || x > maxCh)`.
abbrev pub bad_channel : ℕ → Bool
bad_channel x = not (x == disabled) && (lt_i16 x 1 || lt_i16 max_rc_channels x)

-- `x != -1 && x == y`.
abbrev pub clash : ℕ → ℕ → Bool
clash x y = not (x == disabled) && x == y

-- The rule on the offset comes last.
abbrev pub or_offset : Option FollowError → Option OffsetError → Option FollowError
or_offset (some e) o = some e
or_offset none none = none
or_offset none (some e) = some (bad_offset e)

module _ {D : Type 0} ⦃d : Double D⦄ ⦃m : Maths D⦄ where
  open d use {of_nat, sub, div, lt, le}
  open m use {fabs}

  abbrev pub static_offset : FollowConfig D → FollowOffset D
  static_offset c = record {
    longitudinal_m = c.ofs_long_m;
    lateral_m = c.ofs_lat_m;
    vertical_m = c.ofs_vert_m;
  }

  -- The rules before the one on the offset.
  unfoldable pub field_checks : FollowConfig D → List (Bool × FollowError)
  field_checks c =
      (c.emit_hz == 0, bad_emit_hz)
      ∷ (c.peer_timeout_ms == 0, bad_peer_timeout)
      ∷ (
        lt c.min_sep_m (of_nat 0) || (lt c.min_vsep_m (of_nat 0) || lt c.min_alt_m (of_nat 0)),
        bad_minimum,
      )
      ∷ (le c.max_target_dist_m (of_nat 0), bad_max_target_dist)
      ∷ (lt c.min_course_speed (of_nat 0), bad_min_course_speed)
      ∷ (bad_gvar c.status_gvar_index, bad_status_gvar)
      ∷ (bad_gvar c.condition_flags_gvar_index, bad_condition_flags_gvar)
      ∷ (bad_channel c.rc_long_channel, bad_rc_long)
      ∷ (bad_channel c.rc_lat_channel, bad_rc_lat)
      ∷ (bad_channel c.rc_vert_channel, bad_rc_vert)
      ∷ (bad_gvar c.target_speed_gvar_index, bad_target_speed_gvar)
      ∷ (bad_gvar c.autothrottle_engage_gvar_index, bad_engage_gvar)
      ∷ (bad_channel c.autothrottle_enable_rc_channel, bad_enable_channel)
      ∷ (
        clash c.status_gvar_index c.condition_flags_gvar_index
            || (clash c.status_gvar_index c.target_speed_gvar_index
                || (clash c.status_gvar_index c.autothrottle_engage_gvar_index
                    || (clash c.condition_flags_gvar_index c.target_speed_gvar_index
                        || (clash c.condition_flags_gvar_index c.autothrottle_engage_gvar_index
                            || clash c.target_speed_gvar_index c.autothrottle_engage_gvar_index)))),
        gvars_not_unique,
      )
      ∷ (
        clash c.rc_long_channel c.rc_lat_channel
            || (clash c.rc_long_channel c.rc_vert_channel
                || clash c.rc_lat_channel c.rc_vert_channel),
        channels_not_unique,
      )
      ∷ (
        not (c.autothrottle_enable_rc_channel == disabled)
            && (c.autothrottle_enable_rc_channel == c.rc_long_channel
                || (c.autothrottle_enable_rc_channel == c.rc_lat_channel
                    || c.autothrottle_enable_rc_channel == c.rc_vert_channel)),
        enable_channel_not_unique,
      )
      ∷ (
        not (lt_i16 c.autothrottle_enable_min_threshold_us c.autothrottle_enable_max_threshold_us),
        bad_thresholds,
      )
      ∷ (
        not (c.autothrottle_enable_rc_channel == disabled)
            && (le c.min_target_speed_mps (of_nat 0)
                || le c.max_target_speed_mps c.min_target_speed_mps),
        bad_target_speeds,
      )
      ∷ (lt_i16 c.speed_correction_accel_cms2 0, bad_accel)
      ∷ []

  -- `none` if the configuration is accepted.
  unfoldable pub follow_validate_config : FollowConfig D → Option FollowError
  follow_validate_config c =
      or_offset (first_error (field_checks c))
        (offset_geometry (static_offset c) c.min_sep_m c.min_vsep_m)

  -- kFollowPrearmMatchEpsilonM, 0.05.
  abbrev pub prearm_match_epsilon_m : D
  prearm_match_epsilon_m = div (of_nat 1) (of_nat 20)

  abbrev pub axis_differs : ℕ → D → D → Bool
  axis_differs channel candidate configured =
      not (channel == disabled) && lt prearm_match_epsilon_m (fabs (sub candidate configured))

  unfoldable pub rc_candidate_matches_static_default : FollowOffset D → FollowConfig D → Bool
  rc_candidate_matches_static_default o c =
      if axis_differs c.rc_long_channel o.longitudinal_m c.ofs_long_m
      then false
      else if axis_differs c.rc_lat_channel o.lateral_m c.ofs_lat_m
      then false
      else not (axis_differs c.rc_vert_channel o.vertical_m c.ofs_vert_m)
