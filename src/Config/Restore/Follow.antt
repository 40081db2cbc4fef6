-- ===== src/Config/Restore/Follow.antt =====
-- lib/ff_core/config.cpp: the follow controller's settings, printed and merged again.
use formation_flight.Prelude.{◌≡◌, refl, ap, ◌∙◌, some, IsWord16, IsWord32}
use formation_flight.Maths.{Maths}
use formation_flight.Follow.Config.{
  FollowConfig, HeadingMode, heading_off, course, point_leader, fixed, course_relative,
}
use formation_flight.Config.Merge.{merge_val, merge_follow, section, on_member, read_uid}
use formation_flight.Config.Json.{Json, read_mode, mode_named}
use formation_flight.Config.Print.{
  JsonOut, nat, i16, flag, double, text, follow_to_json, heading_mode_name, hex_digits,
}
use formation_flight.Config.Document.{
  JsonLaws, object, member-object, merge_val-object, strtoul_hex-hex_digits,
}

-- The widths of the types.
pub record IsFollow {D : Type 0} (f : FollowConfig D) : Type 0 where
  pub target_uid : IsWord32 f.target_uid
  pub emit_hz : IsWord16 f.emit_hz
  pub peer_timeout_ms : IsWord32 f.peer_timeout_ms
  pub status_gvar_index : IsWord16 f.status_gvar_index
  pub condition_flags_gvar_index : IsWord16 f.condition_flags_gvar_index
  pub rc_long_channel : IsWord16 f.rc_long_channel
  pub rc_lat_channel : IsWord16 f.rc_lat_channel
  pub rc_vert_channel : IsWord16 f.rc_vert_channel
  pub target_speed_gvar_index : IsWord16 f.target_speed_gvar_index
  pub autothrottle_engage_gvar_index : IsWord16 f.autothrottle_engage_gvar_index
  pub autothrottle_enable_rc_channel : IsWord16 f.autothrottle_enable_rc_channel
  pub autothrottle_enable_min_threshold_us : IsWord16 f.autothrottle_enable_min_threshold_us
  pub autothrottle_enable_max_threshold_us : IsWord16 f.autothrottle_enable_max_threshold_us
  pub speed_correction_accel_cms2 : IsWord16 f.speed_correction_accel_cms2

read_mode-heading_mode_name :
    (mode old : HeadingMode) → read_mode (some (heading_mode_name mode)) old ≡ mode
unfolding heading_mode_name mode_named
read_mode-heading_mode_name heading_off old = refl
read_mode-heading_mode_name course old = refl
read_mode-heading_mode_name point_leader old = refl
read_mode-heading_mode_name fixed old = refl
read_mode-heading_mode_name course_relative old = refl

module _ {O J D : Type 0} {out : JsonOut O D} {j : Json J D} {m : Maths D}
    (laws : JsonLaws out j m) where
  pub merge_follow-object :
      (f old : FollowConfig D)
      → IsFollow f
      → merge_follow j (object laws (follow_to_json f)) old ≡ f
  unfolding merge_follow follow_to_json
  merge_follow-object f old w = λ i. record {
    ofs_long_m =
        merge_val-object laws j.as_double (follow_to_json f) "ofsLongM" (double f.ofs_long_m)
          f.ofs_long_m old.ofs_long_m refl (laws.double_of f.ofs_long_m) i;
    ofs_lat_m =
        merge_val-object laws j.as_double (follow_to_json f) "ofsLatM" (double f.ofs_lat_m)
          f.ofs_lat_m old.ofs_lat_m refl (laws.double_of f.ofs_lat_m) i;
    ofs_vert_m =
        merge_val-object laws j.as_double (follow_to_json f) "ofsVertM" (double f.ofs_vert_m)
          f.ofs_vert_m old.ofs_vert_m refl (laws.double_of f.ofs_vert_m) i;
    target_uid = target_uid_restored i;
    emit_hz =
        merge_val-object laws j.as_u16 (follow_to_json f) "emitHz" (nat f.emit_hz) f.emit_hz
          old.emit_hz refl (laws.u16_of f.emit_hz w.emit_hz) i;
    peer_timeout_ms =
        merge_val-object laws j.as_u32 (follow_to_json f) "peerTimeoutMs" (nat f.peer_timeout_ms)
          f.peer_timeout_ms old.peer_timeout_ms refl
          (laws.u32_of f.peer_timeout_ms w.peer_timeout_ms) i;
    min_sep_m =
        merge_val-object laws j.as_double (follow_to_json f) "minSepM" (double f.min_sep_m)
          f.min_sep_m old.min_sep_m refl (laws.double_of f.min_sep_m) i;
    min_vsep_m =
        merge_val-object laws j.as_double (follow_to_json f) "minVSepM" (double f.min_vsep_m)
          f.min_vsep_m old.min_vsep_m refl (laws.double_of f.min_vsep_m) i;
    max_target_dist_m =
        merge_val-object laws j.as_double (follow_to_json f) "maxTargetDistM"
          (double f.max_target_dist_m) f.max_target_dist_m old.max_target_dist_m refl
          (laws.double_of f.max_target_dist_m) i;
    min_alt_m =
        merge_val-object laws j.as_double (follow_to_json f) "minAltM" (double f.min_alt_m)
          f.min_alt_m old.min_alt_m refl (laws.double_of f.min_alt_m) i;
    min_course_speed =
        merge_val-object laws j.as_double (follow_to_json f) "minCourseSpeed"
          (double f.min_course_speed) f.min_course_speed old.min_course_speed refl
          (laws.double_of f.min_course_speed) i;
    heading_mode = heading_mode_restored i;
    heading_deg =
        merge_val-object laws j.as_double (follow_to_json f) "headingDeg" (double f.heading_deg)
          f.heading_deg old.heading_deg refl (laws.double_of f.heading_deg) i;
    status_gvar_index =
        merge_val-object laws j.as_i16 (follow_to_json f) "statusGvarIndex"
          (i16 f.status_gvar_index) f.status_gvar_index old.status_gvar_index refl
          (laws.i16_of f.status_gvar_index w.status_gvar_index) i;
    condition_flags_gvar_index =
        merge_val-object laws j.as_i16 (follow_to_json f) "conditionFlagsGvarIndex"
          (i16 f.condition_flags_gvar_index) f.condition_flags_gvar_index
          old.condition_flags_gvar_index refl
          (laws.i16_of f.condition_flags_gvar_index w.condition_flags_gvar_index) i;
    rc_long_channel =
        merge_val-object laws j.as_i16 (follow_to_json f) "rcLongChannel" (i16 f.rc_long_channel)
          f.rc_long_channel old.rc_long_channel refl
          (laws.i16_of f.rc_long_channel w.rc_long_channel) i;
    rc_lat_channel =
        merge_val-object laws j.as_i16 (follow_to_json f) "rcLatChannel" (i16 f.rc_lat_channel)
          f.rc_lat_channel old.rc_lat_channel refl (laws.i16_of f.rc_lat_channel w.rc_lat_channel)
          i;
    rc_vert_channel =
        merge_val-object laws j.as_i16 (follow_to_json f) "rcVertChannel" (i16 f.rc_vert_channel)
          f.rc_vert_channel old.rc_vert_channel refl
          (laws.i16_of f.rc_vert_channel w.rc_vert_channel) i;
    target_speed_gvar_index =
        merge_val-object laws j.as_i16 (follow_to_json f) "targetSpeedGvarIndex"
          (i16 f.target_speed_gvar_index) f.target_speed_gvar_index old.target_speed_gvar_index refl
          (laws.i16_of f.target_speed_gvar_index w.target_speed_gvar_index) i;
    autothrottle_engage_gvar_index =
        merge_val-object laws j.as_i16 (follow_to_json f) "autothrottleEngageGvarIndex"
          (i16 f.autothrottle_engage_gvar_index) f.autothrottle_engage_gvar_index
          old.autothrottle_engage_gvar_index refl
          (laws.i16_of f.autothrottle_engage_gvar_index w.autothrottle_engage_gvar_index) i;
    autothrottle_enable_rc_channel =
        merge_val-object laws j.as_i16 (follow_to_json f) "autothrottleEnableRcChannel"
          (i16 f.autothrottle_enable_rc_channel) f.autothrottle_enable_rc_channel
          old.autothrottle_enable_rc_channel refl
          (laws.i16_of f.autothrottle_enable_rc_channel w.autothrottle_enable_rc_channel) i;
    autothrottle_enable_min_threshold_us =
        merge_val-object laws j.as_i16 (follow_to_json f) "autothrottleEnableMinThresholdUs"
          (i16 f.autothrottle_enable_min_threshold_us) f.autothrottle_enable_min_threshold_us
          old.autothrottle_enable_min_threshold_us refl
          (laws.i16_of f.autothrottle_enable_min_threshold_us
            w.autothrottle_enable_min_threshold_us)
          i;
    autothrottle_enable_max_threshold_us =
        merge_val-object laws j.as_i16 (follow_to_json f) "autothrottleEnableMaxThresholdUs"
          (i16 f.autothrottle_enable_max_threshold_us) f.autothrottle_enable_max_threshold_us
          old.autothrottle_enable_max_threshold_us refl
          (laws.i16_of f.autothrottle_enable_max_threshold_us
            w.autothrottle_enable_max_threshold_us)
          i;
    speed_correction_accel_cms2 =
        merge_val-object laws j.as_i16 (follow_to_json f) "speedCorrectionAccelCmS2"
          (i16 f.speed_correction_accel_cms2) f.speed_correction_accel_cms2
          old.speed_correction_accel_cms2 refl
          (laws.i16_of f.speed_correction_accel_cms2 w.speed_correction_accel_cms2) i;
    min_target_speed_mps =
        merge_val-object laws j.as_double (follow_to_json f) "minTargetSpeedMps"
          (double f.min_target_speed_mps) f.min_target_speed_mps old.min_target_speed_mps refl
          (laws.double_of f.min_target_speed_mps) i;
    max_target_speed_mps =
        merge_val-object laws j.as_double (follow_to_json f) "maxTargetSpeedMps"
          (double f.max_target_speed_mps) f.max_target_speed_mps old.max_target_speed_mps refl
          (laws.double_of f.max_target_speed_mps) i;
    debug =
        merge_val-object laws j.as_bool (follow_to_json f) "debug" (flag f.debug) f.debug old.debug
          refl (laws.bool_of f.debug) i;
  }
    where
      target_uid_restored :
          merge_val j
            (λ t. read_uid j t (j.text t))
            (object laws (follow_to_json f))
            "targetUid"
            old.target_uid
          ≡ f.target_uid
      target_uid_restored =
          merge_val-object laws (λ t. read_uid j t (j.text t)) (follow_to_json f) "targetUid"
            (text (hex_digits 8 f.target_uid)) f.target_uid old.target_uid refl
            (ap (λ t. read_uid j (laws.value (text (hex_digits 8 f.target_uid))) t) (laws.text_of _)
              ∙ strtoul_hex-hex_digits laws f.target_uid w.target_uid)

      heading_mode_restored :
          section j
            (object laws (follow_to_json f))
            "headingMode"
            (λ t mode. read_mode (j.text t) mode)
            old.heading_mode
          ≡ f.heading_mode
      heading_mode_restored =
          ap (λ o. on_member j (λ t mode. read_mode (j.text t) mode) o old.heading_mode)
            (member-object laws (follow_to_json f) "headingMode"
              (text (heading_mode_name f.heading_mode)) refl)
          ∙ ap (λ t. read_mode t old.heading_mode) (laws.text_of (heading_mode_name f.heading_mode))
          ∙ read_mode-heading_mode_name f.heading_mode old.heading_mode
