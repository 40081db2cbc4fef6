-- ===== src/Tests/Bands.antt =====
-- lib/ff_core/lora_band.cpp and hw_layout.cpp, with numbers that are counted in halves for doubles.
use Prim.Native.String.{String}
use text.Mathlib.Text.{◌==◌ as str_eq}
use formation_flight.Prelude.{
  if◌then◌else◌, some, none, replicate, IsWord32, ℕ, ◌*◌, ◌/◌, ◌≡◌, refl, [], ◌∷◌, true, false,
  arith,
}
use formation_flight.HwLayout.{
  HardwareLayout, no_radio, pin_none, sx127x, sx128x, lr1121, table_level, power_level_dbm,
  choose_power, elrs_power_to_dbm, power_table, table_power, level_for, lower_to, LayoutSource,
}
use formation_flight.HwLayout.Choice.{IsChoice, choose_power-parsed}
use formation_flight.HwLayout.Parse.{
  LayoutJson, parse_layout_json, checked_layout, read_layout, with_table, read_board, read_table,
}
use formation_flight.HwLayout.Tables.{IsTabled}
use formation_flight.LoraBand.{resolve_lora_band, board_supports_band}
use formation_flight.LoraBand.Presets.{IsExact}
use formation_flight.Tests.Nodes.{halves}

doubled : (a b : ℕ) → a * 2 * (b * 2) / 2 ≡ a * b * 2
doubled a b = grind arith

quartered : (a b : ℕ) → a * 2 * 2 / 4 * (2 * b * 2) / 2 ≡ a * b * 2
quartered a b = let whole : a * 2 * 2 / 4 ≡ a = omega arith in rw whole (grind arith)

halves-IsExact : IsExact halves
unfolding halves
halves-IsExact = record {
  add_nat = λ a b h. omega arith;
  sub_nat = λ a b h k. omega arith;
  mul_nat = λ a b h. doubled a b;
  half_nat = λ a h. ground arith;
  mul_half = λ a b h. quartered a b;
  lt_nat = λ a b h k. ground arith;
  lt_half = λ a b h k. ground arith;
}

bands :
    (resolve_lora_band lr1121 true 433 915 ≡ 915)
    × (resolve_lora_band sx127x false 0 0 ≡ 0)
    × (resolve_lora_band sx128x true 868 0 ≡ 2400)
unfolding resolve_lora_band board_supports_band
bands = (refl, refl, refl)

abbrev receiver : HardwareLayout
receiver = record {
  source = LayoutSource.trailer;
  serial_rx = 3;
  serial_tx = 1;
  radio_sck = 14;
  radio_miso = 12;
  radio_mosi = 13;
  radio0 = record no_radio { nss = 15; rst = 2; dio1 = 4; busy = 5 };
  radio1 = no_radio;
  radio_rfo_hf = false;
  radio_dcdc = true;
  radio_tcxo = pin_none;
  radio_rfsw_ctrl = [];
  power_enable = pin_none;
  ant_ctrl = pin_none;
  power_lna_gain = 0;
  has_power_table = true;
  power_min = 1;
  power_max = 5;
  power_default = 2;
  power_values = 250 ∷ 253 ∷ 0 ∷ 3 ∷ 6 ∷ [];
  power_values_dual = [];
  has_power = false;
  power_dbm = 0;
  led = pin_none;
  button = pin_none;
  default_band = 2400;
  flashed_name = [];
  product_name = replicate 129 0;
  device_name = replicate 17 0;
  flashed_passphrase = [];
}

-- 20 dBm are asked for, and the band has a ceiling of 18.
chosen :
    choose_power receiver sx128x true 20 18 ≡ record { chip_dbm = 253; output_dbm = 17; level = 2 }
unfolding choose_power power_level_dbm elrs_power_to_dbm
chosen = refl

-- A document with a table and its greatest level.
abbrev layouts : LayoutJson ℕ
layouts = record {
  deserialize = λ keys room json. some 0;
  filter_overflowed = λ keys. false;
  overflowed = λ doc. false;
  is_object = λ doc. true;
  int_at = λ doc key. if str_eq key "power_max" then some 4 else none;
  bool_at = λ doc key. none;
  items_at = λ doc key. if str_eq key "power_values" then some (250 ∷ 253 ∷ 0 ∷ 3 ∷ []) else none;
  text_at = λ doc key. none;
}

layouts-IsWord32 : (doc : ℕ) (key : String) (v : ℕ) → layouts.int_at doc key ≡ some v → IsWord32 v
layouts-IsWord32 doc key v e = ground arith

receiver-IsTabled : IsTabled receiver
receiver-IsTabled = record {
  least = omega arith;
  most = omega arith;
  default_least = omega arith;
  default_most = omega arith;
  room = omega arith;
  dual_room = omega arith;
  filled = λ e. omega arith;
}

choose_power-parsed_example :
    IsChoice
      (parse_layout_json layouts [] receiver).0
      sx128x
      (power_table (parse_layout_json layouts [] receiver).0 sx128x true)
      20
      18
      (choose_power (parse_layout_json layouts [] receiver).0 sx128x true 20 18)
unfolding parse_layout_json checked_layout read_layout with_table
choose_power-parsed_example =
    choose_power-parsed layouts layouts-IsWord32 [] receiver sx128x true 20 18 receiver-IsTabled
      refl (omega arith)

parsed_levels :
    ((parse_layout_json layouts [] receiver).0.power_max ≡ 4)
    × ((choose_power (parse_layout_json layouts [] receiver).0 sx128x true 20 18).level ≡ 2)
unfolding parse_layout_json checked_layout read_layout read_board read_table with_table choose_power
    table_power table_level level_for lower_to power_level_dbm elrs_power_to_dbm
parsed_levels = (refl, refl)
