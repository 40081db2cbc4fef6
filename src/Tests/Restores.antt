-- ===== src/Tests/Restores.antt =====
-- lib/ff_core/config.cpp: settings written to a small JSON and read back.
use formation_flight.Prelude.{
  ℕ, ◌+◌, ◌-◌, ◌*◌, ◌<◌, ◌≡◌, refl, ap, ◌∙◌, true, false, Bool, if◌then◌else◌, ltb, List, [], ◌∷◌,
  ◌++◌, none, arith,
}
use formation_flight.Follow.Config.{field_checks, follow_validate_config}
use formation_flight.Follow.Offset.{offset_geometry}
use formation_flight.Follow.State.{padded_name}
use formation_flight.Config.{Settings, strlen, known_band, setting_checks, config_validate}
use formation_flight.Config.Merge.{config_merge_json}
use formation_flight.Config.Json.{same_text}
use formation_flight.Config.Print.{
  JsonOut, JsonValue, nat, i16, flag, double, text, c_string, config_to_json, hex_digit, hex_digits,
}
use formation_flight.Config.Document.{JsonLaws}
use formation_flight.Config.Restore.{config_merge_json-config_to_json}
use formation_flight.Config.Restore.Sections.{IsSettings}
use formation_flight.Config.Restore.Follow.{IsFollow}
use formation_flight.Tests.Configs.{
  Value, number, words, empty, entry, value_of, values, field_node, hex_from,
}
use formation_flight.Tests.Follows.{wholes, flat, pair}

abbrev written : JsonValue ℕ → Value
written (nat n) = number n
written (i16 n) = number n
written (flag b) = number (if b then 1 else 0)
written (double v) = number v
written (text t) = words t

-- The entry in front is the later one.
abbrev entries : JsonOut Value ℕ
entries = record {
  put = λ key v obj. entry key (written v) obj;
  nested = λ key fill obj. entry key (fill empty) obj;
}

hex_from-append :
    (n : ℕ) (cs : List ℕ) (c : ℕ)
    → hex_from n (cs ++ (c ∷ [])) ≡ hex_from n cs * 16 + (if ltb c 58 then c - 48 else c - 87)
hex_from-append n [] c = refl
hex_from-append n (x ∷ cs) c = hex_from-append (n * 16 + (if ltb x 58 then x - 48 else x - 87)) cs c

digit_value :
    (d : ℕ) → d < 16 → (if ltb (hex_digit d) 58 then hex_digit d - 48 else hex_digit d - 87) ≡ d
digit_value d h = ground arith

another_digit :
    (n x d : ℕ)
    → n < 8
    → d < 16
    → hex_from 0 (hex_digits n x ++ (hex_digit d ∷ [])) ≡ hex_from 0 (hex_digits n x) * 16 + d
another_digit n x d h k =
    hex_from-append 0 (hex_digits n x) (hex_digit d)
    ∙ ap (λ v. hex_from 0 (hex_digits n x) * 16 + v) (digit_value d k)

flag_value : (b : Bool) → values.as_bool (written (flag b)) ≡ b
flag_value true = refl
flag_value false = refl

entries_laws : JsonLaws entries values flat
unfolding value_of
entries_laws = record {
  blank = empty;
  read = λ o. o;
  value = written;
  member_blank = λ k. refl;
  member_put = λ key k v o. refl;
  member_nested = λ key k fill o. refl;
  u8_of = λ n h. refl;
  u16_of = λ n h. refl;
  u32_of = λ n h. refl;
  i16_of = λ n h. refl;
  bool_of = flag_value;
  double_of = λ v. refl;
  float_of = λ v. refl;
  text_of = λ t. refl;
  strtoul_empty = refl;
  strtoul_digit = another_digit;
}

-- The settings with arrays of their whole length.
abbrev saved : Settings ℕ
saved = record field_node {
  node = record (field_node.node) { name = padded_name 15 (65 ∷ []) };
  security = record { passphrase = padded_name 32 (66 ∷ 67 ∷ []) };
  wifi = record (field_node.wifi) {
    ssid = padded_name 32 [];
    psk = padded_name 63 [];
    ap_psk = padded_name 63 [];
  };
}

pair-IsFollow : IsFollow pair
pair-IsFollow = record {
  target_uid = omega arith;
  emit_hz = omega arith;
  peer_timeout_ms = omega arith;
  status_gvar_index = omega arith;
  condition_flags_gvar_index = omega arith;
  rc_long_channel = omega arith;
  rc_lat_channel = omega arith;
  rc_vert_channel = omega arith;
  target_speed_gvar_index = omega arith;
  autothrottle_engage_gvar_index = omega arith;
  autothrottle_enable_rc_channel = omega arith;
  autothrottle_enable_min_threshold_us = omega arith;
  autothrottle_enable_max_threshold_us = omega arith;
  speed_correction_accel_cms2 = omega arith;
}

saved-IsSettings : IsSettings flat saved
unfolding c_string padded_name same_text
saved-IsSettings = record {
  name = record { padded = refl; shown = refl };
  passphrase = record { padded = refl; shown = refl };
  target_load = refl;
  min_interval_ms = omega arith;
  max_interval_ms = omega arith;
  jitter_frac = refl;
  duty_cycle_pct = omega arith;
  peer_timeout_ms = omega arith;
  announce_interval_ms = omega arith;
  msp_radar_interval_ms = omega arith;
  gnss_rate_hz = omega arith;
  lora_power_dbm = omega arith;
  lora_band = omega arith;
  ssid = record { padded = refl; shown = refl };
  psk = record { padded = refl; shown = refl };
  ap_psk = record { padded = refl; shown = refl };
  channel = omega arith;
  follow = pair-IsFollow;
}

saved_accepted : config_validate saved ≡ none
unfolding config_validate setting_checks strlen known_band follow_validate_config field_checks
    offset_geometry padded_name
saved_accepted = refl

-- The settings before a document changes the channel of the access point.
abbrev before : Settings ℕ
before = record saved { wifi = record (saved.wifi) { channel = 11 } }

config_merge_json-config_to_json_example :
    config_merge_json values
      (entries_laws.read (config_to_json entries saved true entries_laws.blank))
      before
    ≡ (saved, none)
unfolding entries_laws
config_merge_json-config_to_json_example =
    config_merge_json-config_to_json entries_laws true saved before saved-IsSettings
      (λ e. record { passphrase = refl; psk = refl; ap_psk = refl }) saved_accepted
