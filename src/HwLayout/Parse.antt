-- ===== src/HwLayout/Parse.antt =====
-- lib/ff_core/hw_layout.cpp: a board layout, and its options, out of a JSON document.
--
-- The JSON library is an interface: a filter is the keys that it keeps.
use Prim.Native.String.{String}
use formation_flight.Prelude.{
  ℕ, ◌-◌, Bool, true, false, not, ◌||◌, if◌then◌else◌, List, [], ◌∷◌, Option, none, some, u8, u16,
  take,
}
use formation_flight.Follow.State.{padded_name}
use formation_flight.HwLayout.{HardwareLayout, LayoutSource, RadioPins, clamp_int, power_levels}

-- ArduinoJson. An int is a bit pattern, and the items of an array are what they are as ints.
pub record LayoutJson (J : Type 0) : Type 0 where
  -- A document of at most so many bytes, or the library's error.
  pub deserialize : List String → ℕ → List ℕ → Option J
  pub filter_overflowed : List String → Bool
  pub overflowed : J → Bool
  pub is_object : J → Bool
  pub int_at : J → String → Option ℕ
  pub bool_at : J → String → Option Bool
  pub items_at : J → String → Option (List ℕ)
  pub text_at : J → String → Option (List ℕ)

pub data LayoutError : Type 0 where
  not_parsed too_large not_object : LayoutError

unfoldable pub layout_source_name : LayoutSource → String
layout_source_name LayoutSource.no_layout = "none"
layout_source_name LayoutSource.compiled = "compiled"
layout_source_name LayoutSource.trailer = "firmware"
layout_source_name LayoutSource.file = "hardware.json"

abbrev pub layout_keys : List String
layout_keys =
    "serial_rx" ∷ "serial_tx" ∷ "radio_sck" ∷ "radio_miso" ∷ "radio_mosi" ∷ "radio_nss"
    ∷ "radio_rst" ∷ "radio_dio0" ∷ "radio_dio1" ∷ "radio_busy" ∷ "radio_nss_2" ∷ "radio_rst_2"
    ∷ "radio_dio0_2" ∷ "radio_dio1_2" ∷ "radio_busy_2" ∷ "radio_rfo_hf" ∷ "radio_dcdc"
    ∷ "radio_tcxo" ∷ "radio_rfsw_ctrl" ∷ "power_enable" ∷ "power_rxen" ∷ "power_txen"
    ∷ "power_rxen_2" ∷ "power_txen_2" ∷ "power_lna_gain" ∷ "ant_ctrl" ∷ "led" ∷ "button"
    ∷ "power_min" ∷ "power_max" ∷ "power_default" ∷ "power_values" ∷ "power_values_dual" ∷ []

abbrev pub option_keys : List String
option_keys = "lora-band" ∷ "name" ∷ "group-passphrase" ∷ []

-- The value, or what there was.
abbrev pub or_else : {A : Type 0} → Option A → A → A
or_else none old = old
or_else (some v) old = v

abbrev pub map_all : (ℕ → ℕ) → List ℕ → List ℕ
map_all f [] = []
map_all f (x ∷ xs) = f x ∷ map_all f xs

abbrev pub narrowed : (ℕ → ℕ) → Option ℕ → ℕ → ℕ
narrowed cast none old = old
narrowed cast (some v) old = cast v

-- With zeros behind the text, where snprintf leaves bytes that are never read.
abbrev pub stored_text : ℕ → Option (List ℕ) → List ℕ → List ℕ
stored_text room none old = old
stored_text room (some t) old = padded_name room t

module _ {J : Type 0} (j : LayoutJson J) where
  open j use {
    deserialize, filter_overflowed, overflowed, is_object, int_at, bool_at, items_at, text_at,
  }

  abbrev pub read_pin : J → String → ℕ → ℕ
  read_pin doc key out = or_else (int_at doc key) out

  abbrev pub read_items : ℕ → (ℕ → ℕ) → Option (List ℕ) → List ℕ → List ℕ
  read_items capacity cast none old = old
  read_items capacity cast (some items) old = map_all cast (take capacity items)

  -- Empty if there is no such array.
  unfoldable pub read_table : J → String → ℕ → List ℕ
  read_table doc key capacity = read_items capacity u16 (items_at doc key) []

  unfoldable pub read_radio : J → RadioPins → RadioPins
  read_radio doc r = record {
    nss = read_pin doc "radio_nss" r.nss;
    rst = read_pin doc "radio_rst" r.rst;
    dio0 = read_pin doc "radio_dio0" r.dio0;
    dio1 = read_pin doc "radio_dio1" r.dio1;
    busy = read_pin doc "radio_busy" r.busy;
    rxen = read_pin doc "power_rxen" r.rxen;
    txen = read_pin doc "power_txen" r.txen;
  }

  unfoldable pub read_second_radio : J → RadioPins → RadioPins
  read_second_radio doc r = record {
    nss = read_pin doc "radio_nss_2" r.nss;
    rst = read_pin doc "radio_rst_2" r.rst;
    dio0 = read_pin doc "radio_dio0_2" r.dio0;
    dio1 = read_pin doc "radio_dio1_2" r.dio1;
    busy = read_pin doc "radio_busy_2" r.busy;
    rxen = read_pin doc "power_rxen_2" r.rxen;
    txen = read_pin doc "power_txen_2" r.txen;
  }

  -- Everything but the power table.
  unfoldable pub read_board : J → HardwareLayout → HardwareLayout
  unfolding read_radio read_second_radio
  read_board doc out = record out {
    serial_rx = read_pin doc "serial_rx" out.serial_rx;
    serial_tx = read_pin doc "serial_tx" out.serial_tx;
    radio_sck = read_pin doc "radio_sck" out.radio_sck;
    radio_miso = read_pin doc "radio_miso" out.radio_miso;
    radio_mosi = read_pin doc "radio_mosi" out.radio_mosi;
    radio0 = read_radio doc out.radio0;
    radio1 = read_second_radio doc out.radio1;
    power_enable = read_pin doc "power_enable" out.power_enable;
    ant_ctrl = read_pin doc "ant_ctrl" out.ant_ctrl;
    radio_tcxo = read_pin doc "radio_tcxo" out.radio_tcxo;
    led = read_pin doc "led" out.led;
    button = read_pin doc "button" out.button;
    radio_rfo_hf = or_else (bool_at doc "radio_rfo_hf") out.radio_rfo_hf;
    radio_dcdc = or_else (bool_at doc "radio_dcdc") false;
    power_lna_gain = narrowed u8 (int_at doc "power_lna_gain") out.power_lna_gain;
    radio_rfsw_ctrl = read_items 8 u8 (items_at doc "radio_rfsw_ctrl") out.radio_rfsw_ctrl;
  }

  -- The power table, of which there are levels, and its range.
  unfoldable pub with_table : J → List ℕ → HardwareLayout → HardwareLayout
  unfolding read_table
  with_table doc values out =
      let least = u8 (clamp_int (or_else (int_at doc "power_min") 0) 0 (power_levels - 1)) in
      let most = u8 (clamp_int (or_else (int_at doc "power_max") least) least (power_levels - 1)) in
      record out {
        power_values = values;
        power_values_dual = read_table doc "power_values_dual" power_levels;
        power_min = least;
        power_max = most;
        power_default = u8 (clamp_int (or_else (int_at doc "power_default") least) least most);
        has_power_table = true;
      }

  abbrev pub read_power : J → List ℕ → HardwareLayout → HardwareLayout
  read_power doc [] out = out
  read_power doc (v ∷ vs) out = with_table doc (v ∷ vs) out

  unfoldable pub read_layout : J → HardwareLayout → HardwareLayout
  unfolding read_board read_table with_table
  read_layout doc out =
      read_power doc (read_table doc "power_values" power_levels) (read_board doc out)

  unfoldable pub checked_layout : Option J → HardwareLayout → HardwareLayout × Option LayoutError
  unfolding read_layout
  checked_layout none out = (out, some not_parsed)
  checked_layout (some doc) out =
      if filter_overflowed layout_keys || overflowed doc
      then (out, some too_large)
      else if not (is_object doc)
      then (out, some not_object)
      else (read_layout doc out, none)

  unfoldable pub parse_layout_json : List ℕ → HardwareLayout → HardwareLayout × Option LayoutError
  parse_layout_json json out = checked_layout (deserialize layout_keys 3072 json) out

  unfoldable pub read_options : Option J → HardwareLayout → HardwareLayout
  read_options none out = out
  read_options (some doc) out = record out {
    default_band = narrowed u16 (int_at doc "lora-band") out.default_band;
    flashed_name = stored_text 15 (text_at doc "name") out.flashed_name;
    flashed_passphrase = stored_text 32 (text_at doc "group-passphrase") out.flashed_passphrase;
  }

  unfoldable pub parse_options_json : List ℕ → HardwareLayout → HardwareLayout
  unfolding read_options
  parse_options_json json out = read_options (deserialize option_keys 512 json) out
