-- ===== src/HwLayout.antt =====
-- lib/ff_core/hw_layout.h and hw_layout.cpp: what a board has, and the power that it transmits at.
--
-- An int is the bit pattern of an int32_t, an int8_t and an int16_t are those of 8 and 16 bits.
pub mod Choice
pub mod Decibels
pub mod Parse
pub mod Power
pub mod Tables
use formation_flight.Prelude.{
  ℕ, zero, suc, ◌+◌, ◌-◌, ◌%◌, Bool, true, false, not, ◌&&◌, ◌||◌, ltb, ◌==◌, if◌then◌else◌, List,
  [], ◌∷◌, Option, none, some, lt_i32, get_or, replicate, length, u8,
}

pub data LoraChip : Type 0 where
  sx127x sx128x lr1121 : LoraChip

pub data LayoutSource : Type 0 where
  no_layout compiled trailer file : LayoutSource

abbrev pub pin_none : ℕ
pin_none = 4294967295

abbrev pub power_levels : ℕ
power_levels = 8

abbrev pub level_dbm : List ℕ
level_dbm = 10 ∷ 14 ∷ 17 ∷ 20 ∷ 24 ∷ 27 ∷ 30 ∷ 33 ∷ []

abbrev pub level_mw : List ℕ
level_mw = 10 ∷ 25 ∷ 50 ∷ 100 ∷ 250 ∷ 500 ∷ 1000 ∷ 2000 ∷ []

abbrev pub clamp_int : ℕ → ℕ → ℕ → ℕ
clamp_int v lo hi = if lt_i32 v lo then lo else if lt_i32 hi v then hi else v

unfoldable pub power_level_dbm : ℕ → ℕ
power_level_dbm level = get_or level_dbm (clamp_int level 0 7) 0

unfoldable pub power_level_mw : ℕ → ℕ
power_level_mw level = get_or level_mw (clamp_int level 0 7) 0

pub record RadioPins : Type 0 where
  pub nss : ℕ
  pub rst : ℕ
  pub dio0 : ℕ
  pub dio1 : ℕ
  pub busy : ℕ
  pub rxen : ℕ
  pub txen : ℕ

abbrev pub no_radio : RadioPins
no_radio = record {
  nss = pin_none;
  rst = pin_none;
  dio0 = pin_none;
  dio1 = pin_none;
  busy = pin_none;
  rxen = pin_none;
  txen = pin_none;
}

pub record HardwareLayout : Type 0 where
  pub source : LayoutSource
  pub product_name : List ℕ
  pub device_name : List ℕ
  pub serial_rx : ℕ
  pub serial_tx : ℕ
  pub radio_sck : ℕ
  pub radio_miso : ℕ
  pub radio_mosi : ℕ
  pub radio0 : RadioPins
  pub radio1 : RadioPins
  pub radio_rfo_hf : Bool
  pub radio_dcdc : Bool
  pub radio_tcxo : ℕ
  pub radio_rfsw_ctrl : List ℕ
  pub power_enable : ℕ
  pub ant_ctrl : ℕ
  pub power_lna_gain : ℕ
  pub has_power_table : Bool
  pub power_min : ℕ
  pub power_max : ℕ
  pub power_default : ℕ
  pub power_values : List ℕ
  pub power_values_dual : List ℕ
  pub has_power : Bool
  pub power_dbm : ℕ
  pub led : ℕ
  pub button : ℕ
  pub default_band : ℕ
  pub flashed_name : List ℕ
  pub flashed_passphrase : List ℕ

abbrev pub elrs_hardware : HardwareLayout → Bool
elrs_hardware hw = elim (hw.source) [
  | LayoutSource.trailer ↦ true
  | LayoutSource.file ↦ true
  | _ ↦ false
]

abbrev pub absent : ℕ → Bool
absent pin = pin == pin_none

abbrev pub irq_wired : LoraChip → RadioPins → Bool
irq_wired sx127x r = not (absent r.dio0)
irq_wired sx128x r = not (absent r.dio1) && not (absent r.busy)
irq_wired lr1121 r = not (absent r.dio1) && not (absent r.busy)

unfoldable pub has_radio : HardwareLayout → LoraChip → Bool → Bool
has_radio hw chip second =
    let r = if second then hw.radio1 else hw.radio0 in
    if absent r.nss || (not second && absent r.rst) then false else irq_wired chip r

unfoldable pub radio_count : HardwareLayout → LoraChip → ℕ
unfolding has_radio
radio_count hw chip =
    if not (has_radio hw chip false) then 0 else if has_radio hw chip true then 2 else 1

-- The value of a power table as an int8_t.
unfoldable pub elrs_power_to_dbm : LoraChip → ℕ → Bool → ℕ
elrs_power_to_dbm sx127x value rfo_hf = u8 (if rfo_hf then value % 16 else 2 + value % 16)
elrs_power_to_dbm sx128x value rfo_hf = u8 value
elrs_power_to_dbm lr1121 value rfo_hf = u8 value

abbrev pub default_lora_dbm : ℕ
default_lora_dbm = 10

pub record PowerChoice : Type 0 where
  pub chip_dbm : ℕ
  pub output_dbm : ℕ
  pub level : ℕ

-- -n as an int.
abbrev pub minus : ℕ → ℕ
minus n = 4294967296 - n

-- The lowest and the highest power that a chip takes.
unfoldable pub chip_range : LoraChip → Bool → Bool → ℕ × ℕ
chip_range sx127x high_band rfo_hf = if rfo_hf then (0, 15) else (2, 17)
chip_range sx128x high_band rfo_hf = (minus 18, 13)
chip_range lr1121 high_band rfo_hf =
    if high_band then (minus 18, 13) else if rfo_hf then (minus 17, 14) else (minus 9, 22)

-- The loop over the levels from `l` on, `n` of them, with the level so far.
unfoldable pub level_for : ℕ → ℕ → ℕ → ℕ → ℕ
level_for zero l target level = level
level_for (suc n) l target level =
    level_for n (l + 1) target (if lt_i32 target (power_level_dbm l) then level else l)

-- The loop that goes down to the ceiling of the band: `n` levels above the least one.
unfoldable pub lower_to : ℕ → ℕ → ℕ → ℕ
lower_to zero least ceiling = least
lower_to (suc n) least ceiling = elim (lt_i32 ceiling (power_level_dbm (least + suc n))) [
  | true ↦ lower_to n least ceiling
  | false ↦ least + suc n
]

-- An int8_t as an int.
abbrev pub widen8 : ℕ → ℕ
widen8 x = if ltb x 128 then x else x + 4294967040

-- The power without a table.
unfoldable pub raw_power : HardwareLayout → LoraChip → Bool → ℕ → ℕ → PowerChoice
unfolding chip_range
raw_power hw chip high_band requested_dbm ceiling_dbm =
    let (lo, hi) = chip_range chip high_band hw.radio_rfo_hf in
    let wanted =
      if not (requested_dbm == 0)
      then requested_dbm
      else if hw.has_power
      then widen8 hw.power_dbm
      else default_lora_dbm in
    let dbm = if lt_i32 ceiling_dbm wanted then ceiling_dbm else wanted in
    let chip_dbm = u8 (clamp_int dbm lo hi) in
    record { chip_dbm = chip_dbm; output_dbm = chip_dbm; level = 255 }

-- The level from a table of `count` values, one at least.
unfoldable pub table_level : HardwareLayout → ℕ → ℕ → ℕ → ℕ
unfolding level_for lower_to
table_level hw count requested_dbm ceiling_dbm =
    let least = hw.power_min in
    let top = clamp_int hw.power_max least (least + count - 1) in
    let target = if not (requested_dbm == 0) then requested_dbm else default_lora_dbm in
    let level = level_for (top + 1 - least) least target least in
    lower_to (level - least) least ceiling_dbm

unfoldable pub table_power : HardwareLayout → LoraChip → List ℕ → ℕ → ℕ → PowerChoice
unfolding table_level
table_power hw chip values requested_dbm ceiling_dbm =
    let level = table_level hw (length values) requested_dbm ceiling_dbm in
    record {
      chip_dbm = elrs_power_to_dbm chip (get_or values (level - hw.power_min) 0) hw.radio_rfo_hf;
      output_dbm = power_level_dbm level;
      level = u8 level;
    }

-- The table for the band.
abbrev pub power_table : HardwareLayout → LoraChip → Bool → List ℕ
power_table hw sx127x high_band = hw.power_values
power_table hw sx128x high_band = hw.power_values
power_table hw lr1121 high_band =
    if high_band && ltb 0 (length hw.power_values_dual)
    then hw.power_values_dual
    else hw.power_values

unfoldable pub choose_power : HardwareLayout → LoraChip → Bool → ℕ → ℕ → PowerChoice
unfolding raw_power table_power
choose_power hw chip high_band requested_dbm ceiling_dbm =
    let values = power_table hw chip high_band in
    if not hw.has_power_table || length values == 0
    then raw_power hw chip high_band requested_dbm ceiling_dbm
    else table_power hw chip values requested_dbm ceiling_dbm
