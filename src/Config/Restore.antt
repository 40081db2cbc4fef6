-- ===== src/Config/Restore.antt =====
-- lib/ff_core/config.cpp: settings that are printed and merged again.
pub mod Follow
pub mod Sections
use Prim.Native.String.{String}
use formation_flight.Prelude.{
  ℕ, ◌≡◌, refl, ap, ◌∙◌, Bool, true, false, List, [], ◌∷◌, Option, none, some, if◌then◌else◌,
  IsByte, IsWord16, IsWord32,
}
use formation_flight.Maths.{Maths}
use formation_flight.RateControl.{Double, RateConfig}
use formation_flight.Protocol.{max_name_len}
use formation_flight.Follow.State.{padded_name}
use formation_flight.Config.{
  Settings, NodeSettings, SecuritySettings, RadioSettings, WifiSettings, SimSettings, ConfigError,
  config_validate, setting_checks, max_passphrase_len, max_psk_len, max_ssid_len,
}
use formation_flight.Config.Merge.{
  copy_str, store_text, store_member, on_member, section, merge_val, merge_node, merge_security,
  merge_rate, merge_radios, merge_wifi, merge_sim, merge_follow, merged, commit, config_merge_json,
}
use formation_flight.Config.Json.{Json, same_text, redacted_secret}
use formation_flight.Config.Print.{
  JsonOut, Member, nat, i16, flag, double, text, c_string, put_secret, follow_to_json, node_to_json,
  security_to_json, rate_to_json, peers_to_json, radios_to_json, wifi_to_json, sections_to_json,
  config_to_json,
}
use formation_flight.Config.Document.{
  JsonLaws, object, member-object, merge_val-object, member-put_sections, last_of, or_before,
  map_some,
}
use formation_flight.Config.Restore.Follow.{IsFollow, merge_follow-object}
use formation_flight.Config.Restore.Sections.{
  IsSettings, SameSecrets, merge_node-object, merge_security-object, merge_rate-object,
  merge_radios-object, merge_wifi-object,
}

module _ {O J D : Type 0} {out : JsonOut O D} {j : Json J D} {m : Maths D}
    (laws : JsonLaws out j m) where
  -- A section of the document is merged as the object of its members.
  section-config_to_json :
      {A : Type 0} (redact : Bool) (c : Settings D) (k : String) (merge : J → A → A)
      (members : List (Member D)) (old result : A)
      → last_of k (sections_to_json c redact) ≡ some members
      → merge (object laws members) old ≡ result
      → section j (laws.read (config_to_json out c redact laws.blank)) k merge old ≡ result
  unfolding config_to_json
  section-config_to_json redact c k merge members old result e r =
      ap (λ o. on_member j merge o old)
        (member-put_sections laws (sections_to_json c redact) k
            (out.put "version" (nat c.version) laws.blank)
          ∙ ap
              (λ t.
                or_before (map_some (object laws) t)
                  (j.member (laws.read (out.put "version" (nat c.version) laws.blank)) k))
              e)
      ∙ r

  merged-config_to_json :
      (redact : Bool) (c old : Settings D)
      → IsSettings m c
      → (redact ≡ true → SameSecrets c old)
      → merged j (laws.read (config_to_json out c redact laws.blank)) old
        ≡ record c { version = old.version }
  unfolding merged sections_to_json peers_to_json merge_sim
  merged-config_to_json redact c old w same = λ i. record {
    version = old.version;
    node =
        section-config_to_json redact c "node" (merge_node j) (node_to_json c.node) old.node c.node
          refl (merge_node-object laws c.node old.node w.name) i;
    security =
        section-config_to_json redact c "security" (merge_security j)
          (security_to_json c.security redact) old.security c.security refl
          (merge_security-object laws redact c.security old.security w.passphrase
            (λ e. (same e).passphrase))
          i;
    rate =
        section-config_to_json redact c "rate" (merge_rate j) (rate_to_json c.rate) old.rate c.rate
          refl (merge_rate-object laws c old.rate w) i;
    peer_timeout_ms =
        section-config_to_json redact c "peers" (λ v x. merge_val j j.as_u32 v "timeout_ms" x)
          (peers_to_json c) old.peer_timeout_ms c.peer_timeout_ms refl
          (merge_val-object laws j.as_u32 (peers_to_json c) "timeout_ms" (nat c.peer_timeout_ms)
            c.peer_timeout_ms old.peer_timeout_ms refl
            (laws.u32_of c.peer_timeout_ms w.peer_timeout_ms))
          i;
    announce_interval_ms =
        section-config_to_json redact c "peers"
          (λ v x. merge_val j j.as_u32 v "announce_interval_ms" x) (peers_to_json c)
          old.announce_interval_ms c.announce_interval_ms refl
          (merge_val-object laws j.as_u32 (peers_to_json c) "announce_interval_ms"
            (nat c.announce_interval_ms) c.announce_interval_ms old.announce_interval_ms refl
            (laws.u32_of c.announce_interval_ms w.announce_interval_ms))
          i;
    msp_radar_interval_ms =
        section-config_to_json redact c "msp" (λ v x. merge_val j j.as_u32 v "radar_interval_ms" x)
          (("radar_interval_ms", nat c.msp_radar_interval_ms) ∷ []) old.msp_radar_interval_ms
          c.msp_radar_interval_ms refl
          (merge_val-object laws j.as_u32 (("radar_interval_ms", nat c.msp_radar_interval_ms) ∷ [])
            "radar_interval_ms" (nat c.msp_radar_interval_ms) c.msp_radar_interval_ms
            old.msp_radar_interval_ms refl
            (laws.u32_of c.msp_radar_interval_ms w.msp_radar_interval_ms))
          i;
    gnss_rate_hz =
        section-config_to_json redact c "gnss" (λ v x. merge_val j j.as_u16 v "rate_hz" x)
          (("rate_hz", nat c.gnss_rate_hz) ∷ []) old.gnss_rate_hz c.gnss_rate_hz refl
          (merge_val-object laws j.as_u16 (("rate_hz", nat c.gnss_rate_hz) ∷ []) "rate_hz"
            (nat c.gnss_rate_hz) c.gnss_rate_hz old.gnss_rate_hz refl
            (laws.u16_of c.gnss_rate_hz w.gnss_rate_hz))
          i;
    radios =
        section-config_to_json redact c "radios" (merge_radios j) (radios_to_json c.radios)
          old.radios c.radios refl (merge_radios-object laws c old.radios w) i;
    wifi =
        section-config_to_json redact c "wifi" (merge_wifi j) (wifi_to_json c.wifi redact) old.wifi
          c.wifi refl
          (merge_wifi-object laws redact c old.wifi w (λ e. (same e).psk) (λ e. (same e).ap_psk)) i;
    follow =
        section-config_to_json redact c "follow" (merge_follow j) (follow_to_json c.follow)
          old.follow c.follow refl (merge_follow-object laws c.follow old.follow w.follow) i;
    sim =
        section-config_to_json redact c "sim" (merge_sim j) (("enabled", flag c.sim.enabled) ∷ [])
          old.sim c.sim refl
          (λ k. record {
            enabled =
                merge_val-object laws j.as_bool (("enabled", flag c.sim.enabled) ∷ []) "enabled"
                  (flag c.sim.enabled) c.sim.enabled old.sim.enabled refl
                  (laws.bool_of c.sim.enabled) k;
          })
          i;
  }

module _ {O J D : Type 0} {out : JsonOut O D} {j : Json J D} ⦃d : Double D⦄ ⦃m : Maths D⦄
    (laws : JsonLaws out j m) where
  -- Settings that are accepted, with numbers of their widths and no secret that is the placeholder:
  -- the document that they are printed as is merged without an error into any settings and makes them
  -- the printed ones, the switch of the debug output included, but for the version, which a merge
  -- leaves alone. A redacted document does so for settings with the same secrets.
  pub config_merge_json-config_to_json :
      (redact : Bool) (c old : Settings D)
      → IsSettings m c
      → (redact ≡ true → SameSecrets c old)
      → config_validate c ≡ none
      → config_merge_json j (laws.read (config_to_json out c redact laws.blank)) old
        ≡ (record c { version = old.version }, none)
  unfolding config_merge_json
  config_merge_json-config_to_json redact c old w same accepted =
      ap (λ s. commit (config_validate s) s old) (merged-config_to_json laws redact c old w same)
      ∙ ap (λ o. commit o (record c { version = old.version }) old)
          (version_free c old.version ∙ accepted)
    where
      version_free :
          (s : Settings D) (v : ℕ) → config_validate (record s { version = v }) ≡ config_validate s
      version_free s v = unfold config_validate setting_checks in refl
