-- ===== src/LoraBand.antt =====
-- lib/ff_core/lora_band.h and lora_band.cpp: the LoRa channels, and which of them a node runs on.
pub mod Presets
pub mod Resolved
use formation_flight.Prelude.{
  ℕ, ◌+◌, Bool, true, false, not, ◌&&◌, ◌||◌, ltb, ◌==◌, if◌then◌else◌, List, [], ◌∷◌, Option, none,
  some, u32,
}
use formation_flight.HwLayout.{LoraChip, sx127x, sx128x, lr1121}
use formation_flight.Airtime.{LoraParams}
use formation_flight.Maths.{Maths}
use formation_flight.RateControl.{Double}

pub record LoraBand (D : Type 0) : Type 0 where
  pub band : ℕ
  pub frequency_hz : ℕ
  pub bandwidth_khz : D
  pub spreading_factor : ℕ
  pub coding_rate : ℕ
  pub long_interleaving : Bool
  pub preamble_symbols : ℕ
  pub sync_word : ℕ
  pub duty_cycle_pct : ℕ
  pub max_dbm : ℕ

pub data BandError : Type 0 where
  unknown_band below_band above_band too_narrow : BandError

abbrev pub lora_bands : List ℕ
lora_bands = 433 ∷ 868 ∷ 915 ∷ 2400 ∷ []

abbrev pub below_1_ghz : ℕ → Bool
below_1_ghz band = band == 433 || (band == 868 || band == 915)

unfoldable pub chip_supports_band : LoraChip → ℕ → Bool
chip_supports_band sx127x band = below_1_ghz band
chip_supports_band sx128x band = band == 2400
chip_supports_band lr1121 band = below_1_ghz band || band == 2400

unfoldable pub board_supports_band : LoraChip → Bool → ℕ → Bool
unfolding chip_supports_band
board_supports_band chip elrs_hardware band =
    if elrs_hardware && band == 433 then false else chip_supports_band chip band

-- The loop over the bands, with the only one so far.
unfoldable pub only_band : (ℕ → Bool) → List ℕ → ℕ → ℕ
only_band supports [] only = only
only_band supports (band ∷ bands) only =
    let rest = only_band supports bands (if supports band then band else only) in
    if supports band && not (only == 0) then 0 else rest

unfoldable pub resolve_lora_band : LoraChip → Bool → ℕ → ℕ → ℕ
unfolding only_band
resolve_lora_band chip elrs_hardware configured flashed_default =
    let supports = board_supports_band chip elrs_hardware in
    if not (configured == 0) && supports configured
    then configured
    else if not (flashed_default == 0) && supports flashed_default
    then flashed_default
    else only_band supports lora_bands 0

unfoldable pub stricter_duty_cycle : ℕ → ℕ → ℕ
stricter_duty_cycle a b = if a == 0 then b else if b == 0 then a else if ltb a b then a else b

module _ {D : Type 0} ⦃d : Double D⦄ where
  open d use {of_nat, add, sub, mul, div, lt}

  -- `LoraBand b; b.band = band;`.
  unfoldable pub blank_band : ℕ → LoraBand D
  blank_band band = record {
    band = band;
    frequency_hz = 0;
    bandwidth_khz = of_nat 0;
    spreading_factor = 0;
    coding_rate = 0;
    long_interleaving = false;
    preamble_symbols = 8;
    sync_word = 23;
    duty_cycle_pct = 0;
    max_dbm = 30;
  }

  unfoldable pub lora_band_preset : ℕ → Option (LoraBand D)
  unfolding blank_band
  lora_band_preset band =
      if band == 433
      then some (record (blank_band band) {
        frequency_hz = 434400000;
        bandwidth_khz = of_nat 250;
        spreading_factor = 7;
        coding_rate = 5;
        duty_cycle_pct = 10;
        max_dbm = 10;
      })
      else if band == 868
      then some (record (blank_band band) {
        frequency_hz = 869525000;
        bandwidth_khz = of_nat 125;
        spreading_factor = 7;
        coding_rate = 5;
        duty_cycle_pct = 10;
        max_dbm = 27;
      })
      else if band == 915
      then some (record (blank_band band) {
        frequency_hz = 920000000;
        bandwidth_khz = of_nat 500;
        spreading_factor = 8;
        coding_rate = 7;
        max_dbm = 30;
      })
      else if band == 2400
      then some (record (blank_band band) {
        frequency_hz = 2476000000;
        bandwidth_khz = div (of_nat 1625) (of_nat 2);
        spreading_factor = 8;
        coding_rate = 8;
        long_interleaving = true;
        preamble_symbols = 12;
        max_dbm = 30;
      })
      else none

  -- The lowest and the highest frequency. The literals, such as 433.05e6, are whole numbers.
  unfoldable pub lora_band_edges : ℕ → Option (D × D)
  lora_band_edges band =
      if band == 433
      then some (of_nat 433050000, of_nat 434790000)
      else if band == 868
      then some (of_nat 869400000, of_nat 869650000)
      else if band == 915
      then some (of_nat 902000000, of_nat 928000000)
      else if band == 2400
      then some (of_nat 2400000000, of_nat 2483500000)
      else none

  abbrev pub within_edges : ℕ → ℕ → D → Option (D × D) → Option BandError
  within_edges band frequency_hz bandwidth_khz none = some unknown_band
  within_edges band frequency_hz bandwidth_khz (some (low, high)) =
      let half_bw = div (mul bandwidth_khz (of_nat 1000)) (of_nat 2) in
      if lt (sub (of_nat frequency_hz) half_bw) low
      then some below_band
      else if lt high (add (of_nat frequency_hz) half_bw)
      then some above_band
      else if band == 2400 && lt bandwidth_khz (of_nat 500)
      then some too_narrow
      else none

  -- `none` if the channel is valid.
  unfoldable pub lora_band_valid : LoraBand D → Option BandError
  unfolding lora_band_edges
  lora_band_valid b = within_edges b.band b.frequency_hz b.bandwidth_khz (lora_band_edges b.band)

module _ {D : Type 0} ⦃d : Double D⦄ ⦃m : Maths D⦄ where
  open d use {of_nat, mul, to_u32}

  -- The product is one of floats.
  unfoldable pub lora_airtime_params : LoraBand D → LoraParams
  lora_airtime_params b = record {
    spreading_factor = b.spreading_factor;
    bandwidth_hz = to_u32 (m.to_float (mul b.bandwidth_khz (of_nat 1000)));
    coding_rate_denom = b.coding_rate;
    preamble_symbols = b.preamble_symbols;
    explicit_header = true;
    crc_on = true;
    low_data_rate_optimize = false;
  }
