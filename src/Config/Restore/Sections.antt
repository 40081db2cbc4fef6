-- ===== src/Config/Restore/Sections.antt =====
-- lib/ff_core/config.cpp: the sections of the settings, printed and merged again.
use Prim.Native.String.{String}
use formation_flight.Prelude.{
  ℕ, ◌≡◌, refl, ap, sym, ◌∙◌, Bool, true, false, not, ◌&&◌, List, some, if◌then◌else◌, IsByte,
  IsWord16, IsWord32,
}
use formation_flight.Maths.{Maths}
use formation_flight.RateControl.{RateConfig}
use formation_flight.Protocol.{max_name_len}
use formation_flight.Follow.State.{padded_name}
use formation_flight.Config.{
  Settings, NodeSettings, SecuritySettings, RadioSettings, WifiSettings, max_passphrase_len,
  max_psk_len, max_ssid_len, is_blank,
}
use formation_flight.Config.Merge.{
  copy_str, store_text, store_member, merge_node, merge_security, merge_rate, merge_radios,
  merge_wifi,
}
use formation_flight.Config.Json.{Json, same_text, redacted_secret}
use formation_flight.Config.Print.{
  JsonOut, Member, nat, i16, flag, double, text, c_string, put_secret, node_to_json,
  security_to_json, rate_to_json, radios_to_json, wifi_to_json,
}
use formation_flight.Config.Document.{JsonLaws, object, member-object, merge_val-object, last_of}
use formation_flight.Config.Restore.Follow.{IsFollow}

-- An array that holds a text and zeros behind it, and not the placeholder for a secret.
pub record IsText (room : ℕ) (t : List ℕ) : Type 0 where
  pub padded : padded_name room (c_string t) ≡ t
  pub shown : same_text (c_string t) redacted_secret ≡ false

-- The widths of the types; a float is the value of one.
pub record IsSettings {D : Type 0} (m : Maths D) (c : Settings D) : Type 0 where
  pub name : IsText max_name_len c.node.name
  pub passphrase : IsText max_passphrase_len c.security.passphrase
  pub target_load : m.to_float c.rate.target_load ≡ c.rate.target_load
  pub min_interval_ms : IsWord32 c.rate.min_interval_ms
  pub max_interval_ms : IsWord32 c.rate.max_interval_ms
  pub jitter_frac : m.to_float c.rate.jitter_frac ≡ c.rate.jitter_frac
  pub duty_cycle_pct : IsByte c.rate.duty_cycle_pct
  pub peer_timeout_ms : IsWord32 c.peer_timeout_ms
  pub announce_interval_ms : IsWord32 c.announce_interval_ms
  pub msp_radar_interval_ms : IsWord32 c.msp_radar_interval_ms
  pub gnss_rate_hz : IsWord16 c.gnss_rate_hz
  pub lora_power_dbm : IsWord16 c.radios.lora_power_dbm
  pub lora_band : IsWord16 c.radios.lora_band
  pub ssid : IsText max_ssid_len c.wifi.ssid
  pub psk : IsText max_psk_len c.wifi.psk
  pub ap_psk : IsText max_psk_len c.wifi.ap_psk
  pub channel : IsByte c.wifi.channel
  pub follow : IsFollow c.follow

-- Settings with the same secrets.
pub record SameSecrets {D : Type 0} (c old : Settings D) : Type 0 where
  pub passphrase : c.security.passphrase ≡ old.security.passphrase
  pub psk : c.wifi.psk ≡ old.wifi.psk
  pub ap_psk : c.wifi.ap_psk ≡ old.wifi.ap_psk

redacts : (redact shown : Bool) → redact && shown ≡ true → redact ≡ true
redacts true shown e = refl
redacts false shown e = e

module _ {O J D : Type 0} {out : JsonOut O D} {j : Json J D} {m : Maths D}
    (laws : JsonLaws out j m) where
  copy_str-object :
      (members : List (Member D)) (k : String) (t old : List ℕ) (room : ℕ)
      → last_of k members ≡ some (text (c_string t))
      → IsText room t
      → copy_str j (object laws members) k old room ≡ t
  unfolding copy_str store_text
  copy_str-object members k t old room e w =
      ap (λ o. store_member j o old room) (member-object laws members k (text (c_string t)) e)
      ∙ ap (λ o. store_text j o old room) (laws.text_of (c_string t))
      ∙ ap (λ b. if b then old else padded_name room (c_string t)) w.shown
      ∙ w.padded

  -- The placeholder leaves the text that there is.
  copy_str-secret :
      (hidden : Bool) (members : List (Member D)) (k : String) (t old : List ℕ) (room : ℕ)
      → last_of k members ≡ some (text (if hidden then redacted_secret else c_string t))
      → IsText room t
      → (hidden ≡ true → t ≡ old)
      → copy_str j (object laws members) k old room ≡ t
  unfolding copy_str store_text same_text
  copy_str-secret false members k t old room e w same = copy_str-object members k t old room e w
  copy_str-secret true members k t old room e w same =
      ap (λ o. store_member j o old room) (member-object laws members k (text redacted_secret) e)
      ∙ ap (λ o. store_text j o old room) (laws.text_of redacted_secret)
      ∙ sym (same refl)

  pub merge_node-object :
      (n old : NodeSettings)
      → IsText max_name_len n.name
      → merge_node j (object laws (node_to_json n)) old ≡ n
  unfolding merge_node node_to_json
  merge_node-object n old w = λ i. record {
    name = copy_str-object (node_to_json n) "name" n.name old.name max_name_len refl w i;
    listen_only =
        merge_val-object laws j.as_bool (node_to_json n) "listen_only" (flag n.listen_only)
          n.listen_only old.listen_only refl (laws.bool_of n.listen_only) i;
  }

  pub merge_security-object :
      (redact : Bool) (s old : SecuritySettings)
      → IsText max_passphrase_len s.passphrase
      → (redact ≡ true → s.passphrase ≡ old.passphrase)
      → merge_security j (object laws (security_to_json s redact)) old ≡ s
  unfolding merge_security security_to_json put_secret
  merge_security-object redact s old w same = λ i. record {
    passphrase =
        copy_str-secret (redact && not (is_blank s.passphrase)) (security_to_json s redact)
          "passphrase" s.passphrase old.passphrase max_passphrase_len refl w
          (λ e. same (redacts redact (not (is_blank s.passphrase)) e)) i;
  }

  pub merge_rate-object :
      (c : Settings D) (old : RateConfig D)
      → IsSettings m c
      → merge_rate j (object laws (rate_to_json c.rate)) old ≡ c.rate
  unfolding merge_rate rate_to_json
  merge_rate-object c old w = λ i. record {
    target_load =
        merge_val-object laws j.as_float (rate_to_json c.rate) "target_load"
          (double c.rate.target_load) c.rate.target_load old.target_load refl
          (laws.float_of c.rate.target_load ∙ w.target_load) i;
    min_interval_ms =
        merge_val-object laws j.as_u32 (rate_to_json c.rate) "min_interval_ms"
          (nat c.rate.min_interval_ms) c.rate.min_interval_ms old.min_interval_ms refl
          (laws.u32_of c.rate.min_interval_ms w.min_interval_ms) i;
    max_interval_ms =
        merge_val-object laws j.as_u32 (rate_to_json c.rate) "max_interval_ms"
          (nat c.rate.max_interval_ms) c.rate.max_interval_ms old.max_interval_ms refl
          (laws.u32_of c.rate.max_interval_ms w.max_interval_ms) i;
    jitter_frac =
        merge_val-object laws j.as_float (rate_to_json c.rate) "jitter_frac"
          (double c.rate.jitter_frac) c.rate.jitter_frac old.jitter_frac refl
          (laws.float_of c.rate.jitter_frac ∙ w.jitter_frac) i;
    duty_cycle_pct =
        merge_val-object laws j.as_u8 (rate_to_json c.rate) "duty_cycle_pct"
          (nat c.rate.duty_cycle_pct) c.rate.duty_cycle_pct old.duty_cycle_pct refl
          (laws.u8_of c.rate.duty_cycle_pct w.duty_cycle_pct) i;
  }

  pub merge_radios-object :
      (c : Settings D) (old : RadioSettings)
      → IsSettings m c
      → merge_radios j (object laws (radios_to_json c.radios)) old ≡ c.radios
  unfolding merge_radios radios_to_json
  merge_radios-object c old w = λ i. record {
    espnow_enabled =
        merge_val-object laws j.as_bool (radios_to_json c.radios) "espnow_enabled"
          (flag c.radios.espnow_enabled) c.radios.espnow_enabled old.espnow_enabled refl
          (laws.bool_of c.radios.espnow_enabled) i;
    lora_enabled =
        merge_val-object laws j.as_bool (radios_to_json c.radios) "lora_enabled"
          (flag c.radios.lora_enabled) c.radios.lora_enabled old.lora_enabled refl
          (laws.bool_of c.radios.lora_enabled) i;
    lora_power_dbm =
        merge_val-object laws j.as_i16 (radios_to_json c.radios) "lora_power_dbm"
          (i16 c.radios.lora_power_dbm) c.radios.lora_power_dbm old.lora_power_dbm refl
          (laws.i16_of c.radios.lora_power_dbm w.lora_power_dbm) i;
    lora_band =
        merge_val-object laws j.as_u16 (radios_to_json c.radios) "lora_band"
          (nat c.radios.lora_band) c.radios.lora_band old.lora_band refl
          (laws.u16_of c.radios.lora_band w.lora_band) i;
  }

  pub merge_wifi-object :
      (redact : Bool) (c : Settings D) (old : WifiSettings)
      → IsSettings m c
      → (redact ≡ true → c.wifi.psk ≡ old.psk)
      → (redact ≡ true → c.wifi.ap_psk ≡ old.ap_psk)
      → merge_wifi j (object laws (wifi_to_json c.wifi redact)) old ≡ c.wifi
  unfolding merge_wifi wifi_to_json put_secret
  merge_wifi-object redact c old w psk ap_psk = λ i. record {
    ap =
        merge_val-object laws j.as_bool (wifi_to_json c.wifi redact) "ap" (flag c.wifi.ap) c.wifi.ap
          old.ap refl (laws.bool_of c.wifi.ap) i;
    ssid =
        copy_str-object (wifi_to_json c.wifi redact) "ssid" c.wifi.ssid old.ssid max_ssid_len refl
          w.ssid i;
    psk =
        copy_str-secret (redact && not (is_blank c.wifi.psk)) (wifi_to_json c.wifi redact) "psk"
          c.wifi.psk old.psk max_psk_len refl w.psk
          (λ e. psk (redacts redact (not (is_blank c.wifi.psk)) e)) i;
    ap_psk =
        copy_str-secret (redact && not (is_blank c.wifi.ap_psk)) (wifi_to_json c.wifi redact)
          "ap_psk" c.wifi.ap_psk old.ap_psk max_psk_len refl w.ap_psk
          (λ e. ap_psk (redacts redact (not (is_blank c.wifi.ap_psk)) e)) i;
    channel =
        merge_val-object laws j.as_u8 (wifi_to_json c.wifi redact) "channel" (nat c.wifi.channel)
          c.wifi.channel old.channel refl (laws.u8_of c.wifi.channel w.channel) i;
  }
