-- ===== src/Config/Print.antt =====
-- lib/ff_core/config.cpp: settings as a JSON document.
use Prim.Native.String.{String}
use formation_flight.Prelude.{
  ℕ, zero, suc, ◌+◌, ◌/◌, ◌%◌, ◌==◌, Bool, not, ◌&&◌, ltb, if◌then◌else◌, List, [], ◌∷◌, ◌++◌,
}
use formation_flight.RateControl.{RateConfig}
use formation_flight.Follow.Config.{
  FollowConfig, HeadingMode, heading_off, course, point_leader, fixed, course_relative,
}
use formation_flight.Config.{
  Settings, NodeSettings, RadioSettings, WifiSettings, SecuritySettings, is_blank,
}
use formation_flight.Config.Json.{
  redacted_secret, off_name, course_name, point_leader_name, fixed_name, course_relative_name,
}

-- What is stored under a key: an unsigned and a signed integer, a bool, a float or a double, a text.
pub data JsonValue (D : Type 0) : Type 0 where
  nat : ℕ → JsonValue D
  i16 : ℕ → JsonValue D
  flag : Bool → JsonValue D
  double : D → JsonValue D
  text : List ℕ → JsonValue D

-- ArduinoJson, as it is written to: `obj[key] = value`, and `createNestedObject` with what is put
-- into the new object.
pub record JsonOut (O D : Type 0) : Type 0 where
  pub put : String → JsonValue D → O → O
  pub nested : String → (O → O) → O → O

-- The text of a char array: what is in front of the terminator.
unfoldable pub c_string : List ℕ → List ℕ
c_string [] = []
c_string (c ∷ cs) = if c == 0 then [] else c ∷ c_string cs

unfoldable pub heading_mode_name : HeadingMode → List ℕ
heading_mode_name heading_off = off_name
heading_mode_name course = course_name
heading_mode_name point_leader = point_leader_name
heading_mode_name fixed = fixed_name
heading_mode_name course_relative = course_relative_name

pub data TriggerMode : Type 0 where
  aux gcsnav : TriggerMode

-- FOLLOW_TRIGGER_MODE.
abbrev pub trigger_mode : TriggerMode
trigger_mode = gcsnav

unfoldable pub trigger_mode_name : TriggerMode → List ℕ
trigger_mode_name aux = b'A' ∷ b'U' ∷ b'X' ∷ []
trigger_mode_name gcsnav = b'G' ∷ b'C' ∷ b'S' ∷ b'N' ∷ b'A' ∷ b'V' ∷ []

abbrev pub hex_digit : ℕ → ℕ
hex_digit n = if ltb n 10 then n + 48 else n + 87

-- `snprintf("%08x")`: `n` hexadecimal digits.
unfoldable pub hex_digits : ℕ → ℕ → List ℕ
hex_digits zero x = []
hex_digits (suc n) x = hex_digits n (x / 16) ++ (hex_digit (x % 16) ∷ [])

-- A member: its key and its value.
abbrev pub Member : Type 0 → Type 0
Member D = String × JsonValue D

module _ {D : Type 0} where
  unfoldable pub put_secret : String → List ℕ → Bool → Member D
  put_secret key value redact =
      (key, text (if redact && not (is_blank value) then redacted_secret else c_string value))

  unfoldable pub follow_to_json : FollowConfig D → List (Member D)
  unfolding hex_digits heading_mode_name trigger_mode_name
  follow_to_json f =
      ("targetUid", nat f.target_uid)
      ∷ ("emitHz", nat f.emit_hz)
      ∷ ("peerTimeoutMs", nat f.peer_timeout_ms)
      ∷ ("statusGvarIndex", i16 f.status_gvar_index)
      ∷ ("conditionFlagsGvarIndex", i16 f.condition_flags_gvar_index)
      ∷ ("rcLongChannel", i16 f.rc_long_channel)
      ∷ ("rcLatChannel", i16 f.rc_lat_channel)
      ∷ ("rcVertChannel", i16 f.rc_vert_channel)
      ∷ ("targetSpeedGvarIndex", i16 f.target_speed_gvar_index)
      ∷ ("autothrottleEngageGvarIndex", i16 f.autothrottle_engage_gvar_index)
      ∷ ("autothrottleEnableRcChannel", i16 f.autothrottle_enable_rc_channel)
      ∷ ("autothrottleEnableMinThresholdUs", i16 f.autothrottle_enable_min_threshold_us)
      ∷ ("autothrottleEnableMaxThresholdUs", i16 f.autothrottle_enable_max_threshold_us)
      ∷ ("speedCorrectionAccelCmS2", i16 f.speed_correction_accel_cms2)
      ∷ ("ofsLongM", double f.ofs_long_m)
      ∷ ("ofsLatM", double f.ofs_lat_m)
      ∷ ("ofsVertM", double f.ofs_vert_m)
      ∷ ("minSepM", double f.min_sep_m)
      ∷ ("minVSepM", double f.min_vsep_m)
      ∷ ("maxTargetDistM", double f.max_target_dist_m)
      ∷ ("minAltM", double f.min_alt_m)
      ∷ ("minCourseSpeed", double f.min_course_speed)
      ∷ ("headingDeg", double f.heading_deg)
      ∷ ("minTargetSpeedMps", double f.min_target_speed_mps)
      ∷ ("maxTargetSpeedMps", double f.max_target_speed_mps)
      ∷ ("targetUid", text (hex_digits 8 f.target_uid))
      ∷ ("headingMode", text (heading_mode_name f.heading_mode))
      ∷ ("triggerMode", text (trigger_mode_name trigger_mode))
      ∷ ("debug", flag f.debug)
      ∷ []

  unfoldable pub node_to_json : NodeSettings → List (Member D)
  unfolding c_string
  node_to_json n = ("name", text (c_string n.name)) ∷ ("listen_only", flag n.listen_only) ∷ []

  unfoldable pub security_to_json : SecuritySettings → Bool → List (Member D)
  unfolding put_secret
  security_to_json s redact_secrets = put_secret "passphrase" s.passphrase redact_secrets ∷ []

  unfoldable pub rate_to_json : RateConfig D → List (Member D)
  rate_to_json r =
      ("target_load", double r.target_load)
      ∷ ("min_interval_ms", nat r.min_interval_ms)
      ∷ ("max_interval_ms", nat r.max_interval_ms)
      ∷ ("jitter_frac", double r.jitter_frac)
      ∷ ("duty_cycle_pct", nat r.duty_cycle_pct)
      ∷ []

  unfoldable pub peers_to_json : Settings D → List (Member D)
  peers_to_json c =
      ("timeout_ms", nat c.peer_timeout_ms)
      ∷ ("announce_interval_ms", nat c.announce_interval_ms)
      ∷ []

  unfoldable pub radios_to_json : RadioSettings → List (Member D)
  radios_to_json r =
      ("espnow_enabled", flag r.espnow_enabled)
      ∷ ("lora_enabled", flag r.lora_enabled)
      ∷ ("lora_power_dbm", i16 r.lora_power_dbm)
      ∷ ("lora_band", nat r.lora_band)
      ∷ []

  unfoldable pub wifi_to_json : WifiSettings → Bool → List (Member D)
  unfolding put_secret c_string
  wifi_to_json w redact_secrets =
      ("ap", flag w.ap)
      ∷ ("ssid", text (c_string w.ssid))
      ∷ put_secret "psk" w.psk redact_secrets
      ∷ put_secret "ap_psk" w.ap_psk redact_secrets
      ∷ ("channel", nat w.channel)
      ∷ []

  -- The nested objects, in their order.
  unfoldable pub sections_to_json : Settings D → Bool → List (String × List (Member D))
  unfolding node_to_json security_to_json rate_to_json peers_to_json radios_to_json wifi_to_json
      follow_to_json
  sections_to_json c redact_secrets =
      ("node", node_to_json c.node)
      ∷ ("security", security_to_json c.security redact_secrets)
      ∷ ("rate", rate_to_json c.rate)
      ∷ ("peers", peers_to_json c)
      ∷ ("msp", ("radar_interval_ms", nat c.msp_radar_interval_ms) ∷ [])
      ∷ ("gnss", ("rate_hz", nat c.gnss_rate_hz) ∷ [])
      ∷ ("radios", radios_to_json c.radios)
      ∷ ("wifi", wifi_to_json c.wifi redact_secrets)
      ∷ ("sim", ("enabled", flag c.sim.enabled) ∷ [])
      ∷ ("follow", follow_to_json c.follow)
      ∷ []

module _ {O D : Type 0} (out : JsonOut O D) where
  -- The members are put one after another: a key that comes again has the later value.
  unfoldable pub put_members : List (Member D) → O → O
  put_members [] obj = obj
  put_members ((key, value) ∷ members) obj = put_members members (out.put key value obj)

  unfoldable pub put_sections : List (String × List (Member D)) → O → O
  unfolding put_members
  put_sections [] obj = obj
  put_sections ((key, members) ∷ sections) obj =
      put_sections sections (out.nested key (put_members members) obj)

  unfoldable pub config_to_json : Settings D → Bool → O → O
  unfolding put_members put_sections sections_to_json
  config_to_json c redact_secrets obj =
      put_sections (sections_to_json c redact_secrets) (out.put "version" (nat c.version) obj)
