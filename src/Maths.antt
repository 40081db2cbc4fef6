-- ===== src/Maths.antt =====
-- What the code takes of <cmath> and of the processor's conversions, beside RateControl.Double.
--
-- An int16_t and an int32_t are bit patterns. A float is its value as a double, and `to_float`
-- rounds to it.
use formation_flight.Prelude.{ℕ}

pub record Maths (D : Type 0) : Type 0 where
  pub of_i16 : ℕ → D
  pub of_i32 : ℕ → D
  -- `static_cast<int32_t>(std::lround(v))`.
  pub round_i32 : D → ℕ
  pub to_float : D → D
  pub neg : D → D
  pub fabs : D → D
  pub copysign : D → D → D
  pub sqrt : D → D
  pub sin : D → D
  pub cos : D → D
  pub asin : D → D
  pub atan2 : D → D → D
  pub pow : D → D → D
  pub fmod : D → D → D
  pub ceil : D → D
  -- The literal of `kPi`.
  pub pi : D
