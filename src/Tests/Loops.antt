-- ===== src/Tests/Loops.antt =====
-- lib/ff_core/loop_stats.cpp on a few iterations.
use formation_flight.Prelude.{◌≡◌, refl}
use formation_flight.LoopStats.{
  LoopStats, no_samples, add_sample, reset, shortest_us, mean_us, rate_hz,
}

abbrev three : LoopStats
three = add_sample 1600000 0 (add_sample 500 900 (add_sample 2000 400 no_samples))

figures :
    (three.samples ≡ 3)
    × (three.max_us ≡ 1600000)
    × (three.overruns ≡ 1)
    × (three.excluded_us ≡ 1300)
unfolding add_sample
figures = (refl, refl, refl, refl)

averages :
    (shortest_us three ≡ 0)
    × (mean_us three ≡ 533866)
    × (rate_hz three ≡ 1)
    × (mean_us (reset three) ≡ 0)
unfolding add_sample shortest_us mean_us rate_hz reset
averages = (refl, refl, refl, refl)
