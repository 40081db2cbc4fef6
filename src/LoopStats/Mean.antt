-- ===== src/LoopStats/Mean.antt =====
-- lib/ff_core/loop_stats.cpp: the mean against the shortest and the longest sample.
use native.Mathlib.Nat.{mul_comm, mul-le-mul_left, mul-le-mul, le-div_iff_mul-le, div-le_of_le-mul}
use mathlib.Core.Path.{subst}
use formation_flight.Prelude.{
  ℕ, zero, suc, ◌+◌, ◌*◌, ◌/◌, ◌%◌, ◌<◌, ◌≤◌, ◌≡◌, ◌≢◌, sym, ◌||◌, ltb, ◌==◌, if◌then◌else◌, u32,
  arith, IsWord32,
}
use formation_flight.LoopStats.{LoopStats, counted_us, add_sample, shortest_us, mean_us}

-- No wrap has happened, and every sample lies between the bounds.
pub record InBounds (s : LoopStats) : Type 0 where
  pub few : IsWord32 s.samples
  pub short : IsWord32 s.max_us
  pub above : s.samples * s.min_us ≤ s.total_us
  pub below : s.total_us ≤ s.samples * s.max_us

counted_us-le : (duration_us excluded_us : ℕ) → counted_us duration_us excluded_us ≤ duration_us
unfolding counted_us
counted_us-le duration_us excluded_us = ground arith

product_fits : (n m : ℕ) → IsWord32 n → IsWord32 m → n * m < 18446744073709551616
product_fits n m p q =
    let b : n * m ≤ 4294967295 * 4294967295 =
      mul-le-mul {n₂ = 4294967295} {m₂ = 4294967295} (omega arith) (omega arith) in
    omega (arith, b)

lower :
    (n low low' total c : ℕ)
    → n * low ≤ total
    → (n ≢ 0 → low' ≤ low)
    → low' ≤ c
    → (n + 1) * low' ≤ total + c
lower zero low low' total c h le lc = omega arith
lower (suc n) low low' total c h le lc =
    let b : suc n * low' ≤ suc n * low = mul-le-mul_left (suc n) (le (λ e. ground (arith, e))) in
    omega (arith, b)

upper :
    (n high high' total c : ℕ)
    → total ≤ n * high
    → high ≤ high'
    → c ≤ high'
    → total + c ≤ (n + 1) * high'
upper n high high' total c h le lc =
    let b : n * high ≤ n * high' = mul-le-mul_left n le in omega (arith, b)

-- A sample of 32 bits keeps the statistics in bounds, while there are fewer than 2 ^ 32 - 1 of them.
pub add_sample-InBounds :
    (duration_us excluded_us : ℕ) (s : LoopStats)
    → IsWord32 duration_us
    → s.samples + 1 < 4294967296
    → InBounds s
    → InBounds (add_sample duration_us excluded_us s)
unfolding add_sample
add_sample-InBounds duration_us excluded_us s w room i = record {
  few = omega arith;
  short = longest_fits;
  above =
      subst (λ t. u32 (s.samples + 1) * shortest ≤ t) (sym whole)
        (subst (λ n. n * shortest ≤ s.total_us + counted) (sym one_more)
          (lower s.samples s.min_us shortest s.total_us counted i.above (ground arith)
            (ground arith)));
  below =
      subst (λ t. t ≤ u32 (s.samples + 1) * longest) (sym whole)
        (subst (λ n. s.total_us + counted ≤ n * longest) (sym one_more) at_most);
}
  where
    counted : ℕ
    counted = counted_us duration_us excluded_us

    fits : counted < 4294967296
    fits = omega (arith, counted_us-le duration_us excluded_us, w)

    shortest : ℕ
    shortest = if s.samples == 0 || ltb counted s.min_us then counted else s.min_us

    longest : ℕ
    longest = if ltb s.max_us counted then counted else s.max_us

    longest_fits : longest < 4294967296
    longest_fits = ground (arith, fits, i.short)

    one_more : u32 (s.samples + 1) ≡ s.samples + 1
    one_more = omega arith

    at_most : s.total_us + counted ≤ (s.samples + 1) * longest
    at_most =
        upper s.samples s.max_us longest s.total_us counted i.below (ground arith) (ground arith)

    whole : (s.total_us + counted) % 18446744073709551616 ≡ s.total_us + counted
    whole = omega (arith, at_most, product_fits (s.samples + 1) longest room longest_fits)

-- Of statistics in bounds with at least one sample, the mean lies between the shortest and the
-- longest.
pub mean_us_between :
    (s : LoopStats)
    → InBounds s
    → 0 < s.samples
    → (shortest_us s ≤ mean_us s) × (mean_us s ≤ s.max_us)
unfolding shortest_us mean_us
mean_us_between s i some_samples =
    let above : s.min_us ≤ s.total_us / s.samples =
      (le-div_iff_mul-le some_samples).1 (omega (arith, i.above, mul_comm s.min_us s.samples)) in
    let below : s.total_us / s.samples ≤ s.max_us = div-le_of_le-mul s.samples i.below in
    (
      ground (arith, above, below, i.short, some_samples),
      ground (arith, below, i.short, some_samples),
    )
