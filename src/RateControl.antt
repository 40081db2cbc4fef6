-- ===== src/RateControl.antt =====
-- lib/ff_core/rate_control.h and rate_control.cpp: how often a radio beacons.
--
-- The arithmetic on `double` is that of the processor: its operations are an interface. A `float`
-- is its value as a double.
pub mod Interval
use formation_flight.Prelude.{ℕ, Bool, true, false, ◌||◌, ltb, ◌==◌, if◌then◌else◌}

pub record Double (D : Type 0) : Type 0 where
  pub of_nat : ℕ → D
  pub add : D → D → D
  pub sub : D → D → D
  pub mul : D → D → D
  pub div : D → D → D
  pub lt : D → D → Bool
  pub le : D → D → Bool
  pub eq : D → D → Bool
  pub half : D
  pub default_load : D
  -- The conversion to uint32_t, which drops the fraction.
  pub to_u32 : D → ℕ

pub record RateConfig (D : Type 0) : Type 0 where
  pub target_load : D
  pub min_interval_ms : ℕ
  pub max_interval_ms : ℕ
  pub jitter_frac : D
  pub duty_cycle_pct : ℕ

module _ {D : Type 0} ⦃d : Double D⦄ where
  open d use {of_nat, add, sub, mul, div, lt, le, half, default_load, to_u32}

  unfoldable pub clamp_u32 : D → ℕ → ℕ → ℕ
  clamp_u32 v lo hi =
      if lt v (of_nat lo) then lo else if lt (of_nat hi) v then hi else to_u32 (add v half)

  unfoldable pub duty_floor_ms : RateConfig D → D → ℕ
  duty_floor_ms cfg airtime_ms =
      let floor_ms = div (mul airtime_ms (of_nat 100)) (of_nat cfg.duty_cycle_pct) in
      if cfg.duty_cycle_pct == 0 || le airtime_ms (of_nat 0) then 0 else to_u32 (add floor_ms half)

  -- What `baseIntervalMs` clamps: the interval for the load that is aimed at.
  unfoldable pub wanted_interval : RateConfig D → ℕ → D → D
  wanted_interval cfg active_peers airtime_ms =
      let n_total = add (of_nat active_peers) (of_nat 1) in
      let load = if lt (of_nat 0) cfg.target_load then cfg.target_load else default_load in
      div (mul n_total airtime_ms) load

  unfoldable pub base_interval_ms : RateConfig D → ℕ → D → ℕ
  unfolding clamp_u32 duty_floor_ms wanted_interval
  base_interval_ms cfg active_peers airtime_ms =
      let duty_floor = duty_floor_ms cfg airtime_ms in
      let clamped =
        clamp_u32 (wanted_interval cfg active_peers airtime_ms) cfg.min_interval_ms
          cfg.max_interval_ms in
      if ltb duty_floor clamped then clamped else duty_floor

  unfoldable pub next_delay_ms : RateConfig D → ℕ → D → D → ℕ
  unfolding base_interval_ms
  next_delay_ms cfg active_peers rand01 airtime_ms =
      let base = base_interval_ms cfg active_peers airtime_ms in
      let spread = mul (sub (mul rand01 (of_nat 2)) (of_nat 1)) cfg.jitter_frac in
      let factor = add (of_nat 1) spread in
      let delay = mul (of_nat base) factor in
      let delay' = if lt delay (of_nat 0) then of_nat 0 else delay in to_u32 (add delay' half)

-- `airtime_ms_` is the airtime that was set for a beacon.
pub record RateController (D : Type 0) : Type 0 where
  pub cfg : RateConfig D
  pub airtime_ms : D

module _ {D : Type 0} ⦃d : Double D⦄ where
  open d use {of_nat, lt}

  unfoldable pub new_rate_controller : RateConfig D → RateController D
  new_rate_controller cfg = record { cfg = cfg; airtime_ms = of_nat 10 }

  unfoldable pub set_airtime_ms : D → RateController D → RateController D
  set_airtime_ms airtime_ms c =
      if lt (of_nat 0) airtime_ms then record c { airtime_ms = airtime_ms } else c

  -- The two overloads that take the airtime that was set.
  unfoldable pub base_interval_ms_at_airtime : RateController D → ℕ → ℕ
  unfolding base_interval_ms
  base_interval_ms_at_airtime c active_peers = base_interval_ms c.cfg active_peers c.airtime_ms

  unfoldable pub next_delay_ms_at_airtime : RateController D → ℕ → D → ℕ
  unfolding next_delay_ms
  next_delay_ms_at_airtime c active_peers rand01 =
      next_delay_ms c.cfg active_peers rand01 c.airtime_ms
