-- ===== src/LoopStats.antt =====
-- lib/ff_core/loop_stats.h and loop_stats.cpp: how long the iterations of the main loop take.
pub mod Mean
use formation_flight.Prelude.{
  ℕ, ◌+◌, ◌-◌, ◌/◌, ◌^◌, ◌%◌, Bool, not, ◌&&◌, ◌||◌, ltb, leb, ◌==◌, if◌then◌else◌, u32,
}

pub record LoopStats : Type 0 where
  pub last_us : ℕ
  pub min_us : ℕ
  pub max_us : ℕ
  pub samples : ℕ
  pub total_us : ℕ
  pub excluded_us : ℕ
  pub overrun_us : ℕ
  pub overruns : ℕ

abbrev pub no_samples : LoopStats
no_samples = record {
  last_us = 0;
  min_us = 0;
  max_us = 0;
  samples = 0;
  total_us = 0;
  excluded_us = 0;
  overrun_us = 1500000;
  overruns = 0;
}

-- The part of a sample that counts: subtraction stops at 0, as the test in the source makes it do.
unfoldable pub counted_us : ℕ → ℕ → ℕ
counted_us duration_us excluded_us =
    if excluded_us == 0
    then duration_us
    else if ltb excluded_us duration_us
    then duration_us - excluded_us
    else 0

unfoldable pub add_sample : ℕ → ℕ → LoopStats → LoopStats
unfolding counted_us
add_sample duration_us excluded_us s =
    let counted = counted_us duration_us excluded_us in
    let overrun = not (s.overrun_us == 0) && leb s.overrun_us counted in
    record s {
      excluded_us =
          if excluded_us == 0 then s.excluded_us else (s.excluded_us + excluded_us) % 2 ^ 64;
      last_us = counted;
      min_us = if s.samples == 0 || ltb counted s.min_us then counted else s.min_us;
      max_us = if ltb s.max_us counted then counted else s.max_us;
      samples = u32 (s.samples + 1);
      total_us = (s.total_us + counted) % 2 ^ 64;
      overruns = if overrun then u32 (s.overruns + 1) else s.overruns;
    }

unfoldable pub reset : LoopStats → LoopStats
reset s = record s { last_us = 0; min_us = 0; max_us = 0; samples = 0; total_us = 0 }

unfoldable pub shortest_us : LoopStats → ℕ
shortest_us s = if s.samples == 0 then 0 else s.min_us

unfoldable pub mean_us : LoopStats → ℕ
mean_us s = if s.samples == 0 then 0 else u32 (s.total_us / s.samples)

unfoldable pub rate_hz : LoopStats → ℕ
unfolding mean_us
rate_hz s = let mean = mean_us s in if mean == 0 then 0 else 1000000 / mean
