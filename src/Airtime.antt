-- ===== src/Airtime.antt =====
-- lib/ff_core/airtime.h and airtime.cpp: how long a LoRa frame is on the air.
use formation_flight.Prelude.{ℕ, Bool, if◌then◌else◌, add32, sub32}
use formation_flight.Maths.{Maths}
use formation_flight.RateControl.{Double}

pub record LoraParams : Type 0 where
  pub spreading_factor : ℕ
  pub bandwidth_hz : ℕ
  pub coding_rate_denom : ℕ
  pub preamble_symbols : ℕ
  pub explicit_header : Bool
  pub crc_on : Bool
  pub low_data_rate_optimize : Bool

module _ {D : Type 0} ⦃d : Double D⦄ ⦃m : Maths D⦄ where
  open d use {of_nat, add, sub, mul, div, lt}
  open m use {of_i32, pow, ceil}

  -- Seconds.
  unfoldable pub symbol_time : LoraParams → D
  symbol_time p = div (pow (of_nat 2) (of_nat p.spreading_factor)) (of_nat p.bandwidth_hz)

  unfoldable pub preamble_time : LoraParams → D
  unfolding symbol_time
  preamble_time p =
      mul (add (of_nat p.preamble_symbols) (div (of_nat 17) (of_nat 4))) (symbol_time p)

  -- The bits of the payload and what goes with it, in the formula of the vendor.
  unfoldable pub payload_numerator : LoraParams → ℕ → D
  payload_numerator p payload_bytes =
      let crc = if p.crc_on then 1 else 0 in
      let ih = if p.explicit_header then 0 else 1 in
      sub
        (add
          (add
            (sub (mul (of_nat 8) (of_nat payload_bytes))
              (mul (of_nat 4) (of_nat p.spreading_factor)))
            (of_nat 28))
          (mul (of_nat 16) (of_nat crc)))
        (mul (of_nat 20) (of_nat ih))

  unfoldable pub payload_denominator : LoraParams → D
  payload_denominator p =
      let de = if p.low_data_rate_optimize then 1 else 0 in
      mul (of_nat 4) (sub (of_nat p.spreading_factor) (mul (of_nat 2) (of_nat de)))

  unfoldable pub payload_symbols : LoraParams → ℕ → D
  unfolding payload_numerator payload_denominator
  payload_symbols p payload_bytes =
      let cr = sub32 p.coding_rate_denom 4 in
      let symbols =
        mul (ceil (div (payload_numerator p payload_bytes) (payload_denominator p)))
          (of_i32 (add32 cr 4)) in
      add (if lt symbols (of_nat 0) then of_nat 0 else symbols) (of_nat 8)

  -- Milliseconds.
  unfoldable pub lora_airtime_ms : LoraParams → ℕ → D
  unfolding symbol_time preamble_time payload_symbols
  lora_airtime_ms p payload_bytes =
      let t_payload = mul (payload_symbols p payload_bytes) (symbol_time p) in
      mul (add (preamble_time p) t_payload) (of_nat 1000)
