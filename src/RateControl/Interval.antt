-- ===== src/RateControl/Interval.antt =====
-- lib/ff_core/rate_control.cpp: the bounds of the beacon interval.
use formation_flight.Prelude.{
  ℕ, IsWord32, ◌≤◌, ◌≡◌, true, false, max, ltb, if◌then◌else◌, arith, inl, inr, Bool-cases,
}
use formation_flight.RateControl.{
  Double, RateConfig, clamp_u32, duty_floor_ms, wanted_interval, base_interval_ms,
}

-- What the code relies on: a double that is a number and lies between two integers of 32 bits is
-- rounded to an integer between them.
unfoldable pub IsRounding : {D : Type 0} → Double D → Type 0
IsRounding {D} d =
    (v : D) (lo hi : ℕ)
    → IsWord32 hi
    → d.eq v v ≡ true
    → d.lt v (d.of_nat lo) ≡ false
    → d.lt (d.of_nat hi) v ≡ false
    → (lo ≤ d.to_u32 (d.add v d.half)) × (d.to_u32 (d.add v d.half) ≤ hi)

module _ {D : Type 0} ⦃d : Double D⦄ where
  clamp_u32-bounds :
      (v : D) (lo hi : ℕ)
      → IsRounding d
      → d.eq v v ≡ true
      → lo ≤ hi
      → IsWord32 hi
      → (lo ≤ clamp_u32 v lo hi) × (clamp_u32 v lo hi ≤ hi)
  unfolding clamp_u32 IsRounding
  clamp_u32-bounds v lo hi r n h w = elim (Bool-cases (d.lt v (d.of_nat lo))) [
    | inl low ↦ ground arith
    | inr high ↦ elim (Bool-cases (d.lt (d.of_nat hi) v)) [
      | inl top ↦ ground arith
      | inr inside ↦ let b = r v lo hi w n high inside in ground arith
    ]
  ]

  -- If the interval that the load asks for is a number, doubles are rounded between integers of 32
  -- bits, and the configured minimum is at most the maximum, which has 32 bits: the base interval is never below the duty-cycle floor nor below the configured minimum, and
  -- above the configured maximum only as far as the floor.
  pub base_interval_ms-bounds :
      (cfg : RateConfig D) (active_peers : ℕ) (airtime_ms : D)
      → IsRounding d
      → d.eq
          (wanted_interval cfg active_peers airtime_ms)
          (wanted_interval cfg active_peers airtime_ms)
        ≡ true
      → cfg.min_interval_ms ≤ cfg.max_interval_ms
      → IsWord32 cfg.max_interval_ms
      → (duty_floor_ms cfg airtime_ms ≤ base_interval_ms cfg active_peers airtime_ms)
        × (cfg.min_interval_ms ≤ base_interval_ms cfg active_peers airtime_ms)
        × (base_interval_ms cfg active_peers airtime_ms
            ≤ max cfg.max_interval_ms (duty_floor_ms cfg airtime_ms))
  unfolding base_interval_ms
  base_interval_ms-bounds cfg active_peers airtime_ms r n h w =
      let b =
        clamp_u32-bounds (wanted_interval cfg active_peers airtime_ms) cfg.min_interval_ms
          cfg.max_interval_ms r n h w in
      let floor = duty_floor_ms cfg airtime_ms in
      let clamped =
        clamp_u32 (wanted_interval cfg active_peers airtime_ms) cfg.min_interval_ms
          cfg.max_interval_ms in
      larger floor clamped cfg.min_interval_ms cfg.max_interval_ms b.0 b.1
    where
      larger :
          (f c lo hi : ℕ)
          → lo ≤ c
          → c ≤ hi
          → (f ≤ (if ltb f c then c else f))
            × (lo ≤ (if ltb f c then c else f))
            × ((if ltb f c then c else f) ≤ max hi f)
      larger f c lo hi p q = ground arith
