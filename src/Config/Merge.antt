-- ===== src/Config/Merge.antt =====
-- lib/ff_core/config.cpp: settings out of a JSON document, on top of those there are.
use Prim.Native.String.{String}
use formation_flight.Prelude.{ℕ, if◌then◌else◌, List, Option, none, some}
use formation_flight.Maths.{Maths}
use formation_flight.Protocol.{max_name_len}
use formation_flight.RateControl.{Double, RateConfig}
use formation_flight.Follow.Config.{FollowConfig}
use formation_flight.Follow.State.{padded_name}
use formation_flight.Config.{
  Settings, NodeSettings, SecuritySettings, RadioSettings, WifiSettings, SimSettings, ConfigError,
  config_validate, max_passphrase_len, max_ssid_len, max_psk_len,
}
use formation_flight.Config.Json.{Json, same_text, redacted_secret, read_mode}

module _ {J D : Type 0} (j : Json J D) where
  open j use {
    member, text, as_bool, as_u8, as_u16, as_u32, as_i16, as_float, as_double, strtoul_hex,
  }

  -- The value of a key, or what there was.
  abbrev pub merge_val : {A : Type 0} → (J → A) → J → String → A → A
  merge_val as_type obj key old = elim (member obj key) [ none ↦ old | some v ↦ as_type v ]

  unfoldable pub store_text : Option (List ℕ) → List ℕ → ℕ → List ℕ
  store_text none dst room = dst
  store_text (some s) dst room = if same_text s redacted_secret then dst else padded_name room s

  abbrev pub store_member : Option J → List ℕ → ℕ → List ℕ
  store_member none dst room = dst
  store_member (some v) dst room = store_text (text v) dst room

  -- `copyStr` of a member into an array of `room` bytes and a terminator.
  unfoldable pub copy_str : J → String → List ℕ → ℕ → List ℕ
  copy_str obj key dst room = store_member (member obj key) dst room

  abbrev pub on_member : {A : Type 0} → (J → A → A) → Option J → A → A
  on_member merge none old = old
  on_member merge (some v) old = merge v old

  -- What a section makes of a part of the settings, if the document has it.
  abbrev pub section : {A : Type 0} → J → String → (J → A → A) → A → A
  section obj key merge old = on_member merge (member obj key) old

  abbrev pub read_uid : J → Option (List ℕ) → ℕ
  read_uid v none = as_u32 v
  read_uid v (some t) = strtoul_hex t

  unfoldable pub merge_follow : J → FollowConfig D → FollowConfig D
  merge_follow v f = record {
    ofs_long_m = merge_val as_double v "ofsLongM" f.ofs_long_m;
    ofs_lat_m = merge_val as_double v "ofsLatM" f.ofs_lat_m;
    ofs_vert_m = merge_val as_double v "ofsVertM" f.ofs_vert_m;
    target_uid = merge_val (λ t. read_uid t (text t)) v "targetUid" f.target_uid;
    emit_hz = merge_val as_u16 v "emitHz" f.emit_hz;
    peer_timeout_ms = merge_val as_u32 v "peerTimeoutMs" f.peer_timeout_ms;
    min_sep_m = merge_val as_double v "minSepM" f.min_sep_m;
    min_vsep_m = merge_val as_double v "minVSepM" f.min_vsep_m;
    max_target_dist_m = merge_val as_double v "maxTargetDistM" f.max_target_dist_m;
    min_alt_m = merge_val as_double v "minAltM" f.min_alt_m;
    min_course_speed = merge_val as_double v "minCourseSpeed" f.min_course_speed;
    heading_mode = section v "headingMode" (λ t old. read_mode (text t) old) f.heading_mode;
    heading_deg = merge_val as_double v "headingDeg" f.heading_deg;
    status_gvar_index = merge_val as_i16 v "statusGvarIndex" f.status_gvar_index;
    condition_flags_gvar_index =
        merge_val as_i16 v "conditionFlagsGvarIndex" f.condition_flags_gvar_index;
    rc_long_channel = merge_val as_i16 v "rcLongChannel" f.rc_long_channel;
    rc_lat_channel = merge_val as_i16 v "rcLatChannel" f.rc_lat_channel;
    rc_vert_channel = merge_val as_i16 v "rcVertChannel" f.rc_vert_channel;
    target_speed_gvar_index = merge_val as_i16 v "targetSpeedGvarIndex" f.target_speed_gvar_index;
    autothrottle_engage_gvar_index =
        merge_val as_i16 v "autothrottleEngageGvarIndex" f.autothrottle_engage_gvar_index;
    autothrottle_enable_rc_channel =
        merge_val as_i16 v "autothrottleEnableRcChannel" f.autothrottle_enable_rc_channel;
    autothrottle_enable_min_threshold_us =
        merge_val as_i16 v "autothrottleEnableMinThresholdUs"
          f.autothrottle_enable_min_threshold_us;
    autothrottle_enable_max_threshold_us =
        merge_val as_i16 v "autothrottleEnableMaxThresholdUs"
          f.autothrottle_enable_max_threshold_us;
    speed_correction_accel_cms2 =
        merge_val as_i16 v "speedCorrectionAccelCmS2" f.speed_correction_accel_cms2;
    min_target_speed_mps = merge_val as_double v "minTargetSpeedMps" f.min_target_speed_mps;
    max_target_speed_mps = merge_val as_double v "maxTargetSpeedMps" f.max_target_speed_mps;
    debug = merge_val as_bool v "debug" f.debug;
  }

  unfoldable pub merge_node : J → NodeSettings → NodeSettings
  unfolding copy_str
  merge_node v n = record {
    name = copy_str v "name" n.name max_name_len;
    listen_only = merge_val as_bool v "listen_only" n.listen_only;
  }

  unfoldable pub merge_security : J → SecuritySettings → SecuritySettings
  unfolding copy_str
  merge_security v s = record {
    passphrase = copy_str v "passphrase" s.passphrase max_passphrase_len;
  }

  unfoldable pub merge_rate : J → RateConfig D → RateConfig D
  merge_rate v r = record {
    target_load = merge_val as_float v "target_load" r.target_load;
    min_interval_ms = merge_val as_u32 v "min_interval_ms" r.min_interval_ms;
    max_interval_ms = merge_val as_u32 v "max_interval_ms" r.max_interval_ms;
    jitter_frac = merge_val as_float v "jitter_frac" r.jitter_frac;
    duty_cycle_pct = merge_val as_u8 v "duty_cycle_pct" r.duty_cycle_pct;
  }

  unfoldable pub merge_radios : J → RadioSettings → RadioSettings
  merge_radios v r = record {
    espnow_enabled = merge_val as_bool v "espnow_enabled" r.espnow_enabled;
    lora_enabled = merge_val as_bool v "lora_enabled" r.lora_enabled;
    lora_power_dbm = merge_val as_i16 v "lora_power_dbm" r.lora_power_dbm;
    lora_band = merge_val as_u16 v "lora_band" r.lora_band;
  }

  unfoldable pub merge_wifi : J → WifiSettings → WifiSettings
  unfolding copy_str
  merge_wifi v w = record {
    ap = merge_val as_bool v "ap" w.ap;
    ssid = copy_str v "ssid" w.ssid max_ssid_len;
    psk = copy_str v "psk" w.psk max_psk_len;
    ap_psk = copy_str v "ap_psk" w.ap_psk max_psk_len;
    channel = merge_val as_u8 v "channel" w.channel;
  }

  unfoldable pub merge_sim : J → SimSettings → SimSettings
  merge_sim v s = record { enabled = merge_val as_bool v "enabled" s.enabled }

  -- The settings with what the document mentions, before they are validated.
  unfoldable pub merged : J → Settings D → Settings D
  merged doc c = record {
    version = c.version;
    node = section doc "node" merge_node c.node;
    security = section doc "security" merge_security c.security;
    rate = section doc "rate" merge_rate c.rate;
    peer_timeout_ms =
        section doc "peers" (λ v old. merge_val as_u32 v "timeout_ms" old) c.peer_timeout_ms;
    announce_interval_ms =
        section doc "peers" (λ v old. merge_val as_u32 v "announce_interval_ms" old)
          c.announce_interval_ms;
    msp_radar_interval_ms =
        section doc "msp" (λ v old. merge_val as_u32 v "radar_interval_ms" old)
          c.msp_radar_interval_ms;
    gnss_rate_hz = section doc "gnss" (λ v old. merge_val as_u16 v "rate_hz" old) c.gnss_rate_hz;
    radios = section doc "radios" merge_radios c.radios;
    wifi = section doc "wifi" merge_wifi c.wifi;
    follow = section doc "follow" merge_follow c.follow;
    sim = section doc "sim" merge_sim c.sim;
  }

module _ {D : Type 0} where
  -- The settings are replaced only if the new ones are accepted.
  abbrev pub commit : Option ConfigError → Settings D → Settings D → Settings D × Option ConfigError
  commit none next c = (next, none)
  commit (some e) next c = (c, some e)

module _ {J D : Type 0} ⦃d : Double D⦄ ⦃m : Maths D⦄ where
  unfoldable pub config_merge_json : Json J D → J → Settings D → Settings D × Option ConfigError
  config_merge_json j doc c = commit (config_validate (merged j doc c)) (merged j doc c) c
