-- ===== src/Tests/Configs.antt =====
-- lib/ff_core/config.cpp, with a small JSON of objects, texts and numbers.
use Prim.Native.String.{String}
use text.Mathlib.Text.{◌==◌ as str_eq}
use formation_flight.Prelude.{
  ap, sym, ◌==◌, ◌*◌, ◌+◌, ◌-◌, ltb, ℕ, ◌≡◌, ◌≢◌, ◌⊎◌, inl, inr, refl, true, false, if◌then◌else◌,
  List, [], ◌∷◌, ◌++◌, Option, none, some,
}
use formation_flight.Follow.Config.{field_checks, follow_validate_config}
use formation_flight.Follow.Offset.{offset_geometry}
use formation_flight.Config.{
  Settings, strlen, known_band, setting_checks, config_validate, bad_channel,
}
use formation_flight.Config.Merge.{
  store_text, copy_str, merge_wifi, merge_security, merged, config_merge_json,
}
use formation_flight.Config.Json.{Json, redacted_secret, same_text}
use formation_flight.Config.Partial.{
  IsWithheld, config_merge_json-withheld, config_merge_json-partial,
}
use formation_flight.Config.Print.{JsonOut, JsonValue, nat, i16, flag, double, config_to_json}
use formation_flight.Config.Secrets.{config_to_json-redacted}
use formation_flight.Tests.Follows.{wholes, flat, pair}

pub data Value : Type 0 where
  number : ℕ → Value
  words : List ℕ → Value
  empty : Value
  entry : String → Value → Value → Value

unfoldable pub value_of : Value → String → Option Value
value_of (number n) key = none
value_of (words t) key = none
value_of empty key = none
value_of (entry k v rest) key =
    let later = value_of rest key in if str_eq k key then some v else later

abbrev pub text_of : Value → Option (List ℕ)
text_of (number n) = none
text_of (words t) = some t
text_of empty = none
text_of (entry k v rest) = none

abbrev pub number_of : Value → ℕ
number_of (number n) = n
number_of (words t) = 0
number_of empty = 0
number_of (entry k v rest) = 0

-- The number that hexadecimal digits go on to, after `n`.
abbrev pub hex_from : ℕ → List ℕ → ℕ
hex_from n [] = n
hex_from n (c ∷ cs) = hex_from (n * 16 + (if ltb c 58 then c - 48 else c - 87)) cs

abbrev pub values : Json Value ℕ
values = record {
  member = value_of;
  text = text_of;
  as_bool = λ v. number_of v == 1;
  as_u8 = number_of;
  as_u16 = number_of;
  as_u32 = number_of;
  as_i16 = number_of;
  as_float = number_of;
  as_double = number_of;
  strtoul_hex = hex_from 0;
}

abbrev pub field_node : Settings ℕ
field_node = record {
  version = 1;
  node = record { name = 65 ∷ 0 ∷ []; listen_only = false };
  security = record { passphrase = 66 ∷ 67 ∷ 0 ∷ [] };
  rate = record {
    target_load = 1;
    min_interval_ms = 100;
    max_interval_ms = 1000;
    jitter_frac = 0;
    duty_cycle_pct = 0;
  };
  peer_timeout_ms = 6000;
  announce_interval_ms = 2000;
  msp_radar_interval_ms = 100;
  gnss_rate_hz = 10;
  radios = record {
    espnow_enabled = true;
    lora_enabled = true;
    lora_power_dbm = 0;
    lora_band = 868;
  };
  wifi = record { ap = true; ssid = 0 ∷ []; psk = 0 ∷ []; ap_psk = 0 ∷ []; channel = 1 };
  follow = pair;
  sim = record { enabled = false };
}

-- The passphrase is given back as it was shown, and there is a channel.
abbrev posted : ℕ → Value
posted channel =
    entry "security" (entry "passphrase" (words redacted_secret) empty)
      (entry "wifi" (entry "channel" (number channel) empty) empty)

merge_runs :
    (config_merge_json values (posted 6) field_node
      ≡ (record field_node { wifi = record (field_node.wifi) { channel = 6 } }, none))
    × (config_merge_json values (posted 14) field_node ≡ (field_node, some bad_channel))
unfolding config_merge_json config_validate setting_checks strlen known_band follow_validate_config
    field_checks offset_geometry merged merge_wifi merge_security copy_str store_text same_text
    value_of
merge_runs = (refl, refl)

abbrev found : Option Value → Value
found none = empty
found (some v) = v

posted-IsWithheld :
    (v : Value) → value_of (posted 6) "security" ≡ some v → IsWithheld values v "passphrase"
unfolding value_of
posted-IsWithheld v e = rw (sym (ap found e)) (inr (words redacted_secret, refl, refl))

no_password :
    (key : String)
    → value_of (entry "channel" (number 6) empty) key ≡ none
    → (v : Value) → value_of (posted 6) "wifi" ≡ some v
    → IsWithheld values v key
unfolding value_of
no_password key absent v e = rw (sym (ap found e)) (inl absent)

config_merge_json-withheld_example :
    ((config_merge_json values (posted 6) field_node).0.security.passphrase ≡ 66 ∷ 67 ∷ 0 ∷ [])
    × ((config_merge_json values (posted 6) field_node).0.wifi.psk ≡ 0 ∷ [])
    × ((config_merge_json values (posted 6) field_node).0.wifi.ap_psk ≡ 0 ∷ [])
unfolding value_of
config_merge_json-withheld_example =
    config_merge_json-withheld values (posted 6) field_node posted-IsWithheld
      (λ v e. (no_password "psk" refl v e, no_password "ap_psk" refl v e))

config_merge_json-partial_example :
    (((config_merge_json values (posted 14) field_node).1 ≡ none)
        × (config_validate (config_merge_json values (posted 14) field_node).0 ≡ none)
      ⊎ (((config_merge_json values (posted 14) field_node).1 ≢ none)
          × ((config_merge_json values (posted 14) field_node).0 ≡ field_node)))
    × (values.member (posted 14) "node" ≡ none
        → (config_merge_json values (posted 14) field_node).0.node ≡ field_node.node)
    × (values.member (posted 14) "security" ≡ none
        → (config_merge_json values (posted 14) field_node).0.security ≡ field_node.security)
    × (values.member (posted 14) "rate" ≡ none
        → (config_merge_json values (posted 14) field_node).0.rate ≡ field_node.rate)
    × (values.member (posted 14) "radios" ≡ none
        → (config_merge_json values (posted 14) field_node).0.radios ≡ field_node.radios)
    × (values.member (posted 14) "wifi" ≡ none
        → (config_merge_json values (posted 14) field_node).0.wifi ≡ field_node.wifi)
    × (values.member (posted 14) "follow" ≡ none
        → (config_merge_json values (posted 14) field_node).0.follow ≡ field_node.follow)
    × (values.member (posted 14) "sim" ≡ none
        → (config_merge_json values (posted 14) field_node).0.sim ≡ field_node.sim)
config_merge_json-partial_example = config_merge_json-partial values (posted 14) field_node

-- What is printed is the list of the texts in the document.
abbrev text_in : JsonValue ℕ → List (List ℕ)
text_in (nat n) = []
text_in (i16 n) = []
text_in (flag b) = []
text_in (double v) = []
text_in (JsonValue.text t) = t ∷ []

abbrev texts : JsonOut (List (List ℕ)) ℕ
texts = record { put = λ key v obj. text_in v ++ obj; nested = λ key fill obj. fill [] ++ obj }

config_to_json-redacted_example :
    config_to_json texts field_node true []
    ≡ config_to_json texts
        (record field_node {
          security = record { passphrase = 70 ∷ 0 ∷ [] };
          wifi = record (field_node.wifi) { psk = 0 ∷ []; ap_psk = 0 ∷ [] };
        })
        true
        []
config_to_json-redacted_example =
    config_to_json-redacted texts field_node (70 ∷ 0 ∷ []) (0 ∷ []) (0 ∷ []) [] (refl, λ e. cc)
      (refl, λ e. refl) (refl, λ e. refl)
