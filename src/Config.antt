-- ===== src/Config.antt =====
-- lib/ff_core/config.h and config.cpp: the settings of a node, and their rules.
--
-- Config/Merge reads them from JSON, and Config/Print writes them. The JSON library is an interface.
-- A char array is the list of its bytes, with the terminator.
pub mod Document
pub mod Merge
pub mod Partial
pub mod Print
pub mod Restore
pub mod Secrets
pub mod Seed
pub mod Json
use formation_flight.Prelude.{
  ℕ, zero, suc, Bool, true, false, not, ◌&&◌, ◌||◌, ltb, ◌==◌, if◌then◌else◌, List, [], ◌∷◌, Option,
  none, some, lt_i16, first_error,
}
use formation_flight.Maths.{Maths}
use formation_flight.RateControl.{Double, RateConfig}
use formation_flight.LoraBand.{lora_bands}
use formation_flight.Follow.Config.{FollowConfig, FollowError, follow_validate_config}

pub record NodeSettings : Type 0 where
  pub name : List ℕ
  pub listen_only : Bool

pub record SecuritySettings : Type 0 where
  pub passphrase : List ℕ

pub record RadioSettings : Type 0 where
  pub espnow_enabled : Bool
  pub lora_enabled : Bool
  pub lora_power_dbm : ℕ
  pub lora_band : ℕ

pub record WifiSettings : Type 0 where
  pub ap : Bool
  pub ssid : List ℕ
  pub psk : List ℕ
  pub ap_psk : List ℕ
  pub channel : ℕ

pub record SimSettings : Type 0 where
  pub enabled : Bool

pub record Settings (D : Type 0) : Type 0 where
  pub version : ℕ
  pub node : NodeSettings
  pub security : SecuritySettings
  pub rate : RateConfig D
  pub peer_timeout_ms : ℕ
  pub announce_interval_ms : ℕ
  pub msp_radar_interval_ms : ℕ
  pub gnss_rate_hz : ℕ
  pub radios : RadioSettings
  pub wifi : WifiSettings
  pub follow : FollowConfig D
  pub sim : SimSettings

-- The messages, by the setting that they are about.
pub data ConfigError : Type 0 where
  bad_target_load bad_jitter_frac bad_min_interval bad_max_interval bad_duty_cycle : ConfigError
  bad_timeout bad_announce_interval bad_radar_interval bad_gnss_rate no_radio_enabled : ConfigError
  bad_lora_power bad_lora_band bad_channel no_ssid short_ap_psk : ConfigError
  bad_follow : FollowError → ConfigError

abbrev pub max_passphrase_len : ℕ
max_passphrase_len = 32

abbrev pub max_ssid_len : ℕ
max_ssid_len = 32

abbrev pub max_psk_len : ℕ
max_psk_len = 63

-- `std::strlen`.
unfoldable pub strlen : List ℕ → ℕ
strlen [] = 0
strlen (c ∷ cs) = if c == 0 then 0 else suc (strlen cs)

-- `s[0] == '\0'`.
abbrev pub is_blank : List ℕ → Bool
is_blank [] = true
is_blank (c ∷ cs) = c == 0

unfoldable pub known_band : ℕ → List ℕ → Bool
known_band band [] = false
known_band band (b ∷ bs) = band == b || known_band band bs

abbrev pub follow_error : Option FollowError → Option ConfigError
follow_error none = none
follow_error (some e) = some (bad_follow e)

abbrev pub or_follow : Option ConfigError → Option FollowError → Option ConfigError
or_follow (some e) f = some e
or_follow none f = follow_error f

module _ {D : Type 0} ⦃d : Double D⦄ ⦃m : Maths D⦄ where
  open d use {of_nat, lt, le}

  -- The rules before those of the follow controller.
  unfoldable pub setting_checks : Settings D → List (Bool × ConfigError)
  unfolding strlen known_band
  setting_checks c =
      (le c.rate.target_load (of_nat 0) || lt (of_nat 1) c.rate.target_load, bad_target_load)
      ∷ (lt c.rate.jitter_frac (of_nat 0) || le (of_nat 1) c.rate.jitter_frac, bad_jitter_frac)
      ∷ (c.rate.min_interval_ms == 0, bad_min_interval)
      ∷ (ltb c.rate.max_interval_ms c.rate.min_interval_ms, bad_max_interval)
      ∷ (ltb 100 c.rate.duty_cycle_pct, bad_duty_cycle)
      ∷ (c.peer_timeout_ms == 0, bad_timeout)
      ∷ (c.announce_interval_ms == 0, bad_announce_interval)
      ∷ (c.msp_radar_interval_ms == 0, bad_radar_interval)
      ∷ (c.gnss_rate_hz == 0 || ltb 25 c.gnss_rate_hz, bad_gnss_rate)
      ∷ (
        not c.radios.espnow_enabled && (not c.radios.lora_enabled && not c.sim.enabled),
        no_radio_enabled,
      )
      ∷ (lt_i16 c.radios.lora_power_dbm 0 || lt_i16 30 c.radios.lora_power_dbm, bad_lora_power)
      ∷ (not (c.radios.lora_band == 0 || known_band c.radios.lora_band lora_bands), bad_lora_band)
      ∷ (ltb c.wifi.channel 1 || ltb 13 c.wifi.channel, bad_channel)
      ∷ (not c.wifi.ap && is_blank c.wifi.ssid, no_ssid)
      ∷ (not (is_blank c.wifi.ap_psk) && ltb (strlen c.wifi.ap_psk) 8, short_ap_psk)
      ∷ []

  -- `none` if the settings are accepted.
  unfoldable pub config_validate : Settings D → Option ConfigError
  config_validate c = or_follow (first_error (setting_checks c)) (follow_validate_config c.follow)
