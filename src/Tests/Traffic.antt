-- ===== src/Tests/Traffic.antt =====
-- lib/ff_core/sim_traffic.cpp, log.cpp and airtime.cpp, with whole numbers for doubles.
use formation_flight.Prelude.{ℕ, ◌≡◌, refl, List, [], ◌∷◌, true, false, some}
use formation_flight.Airtime.{
  LoraParams, lora_airtime_ms, payload_symbols, payload_numerator, payload_denominator,
  preamble_time, symbol_time,
}
use formation_flight.LogRing.{
  LogEntry, LogRing, LogLevel, new_ring, add_line, store_line, line_at, level_rank, ff_log,
}
use formation_flight.SimTraffic.{
  SimPeerConfig, static, sim_peer_at, on_path, parked, course_to_ddeg, wrapped,
}
use formation_flight.Tests.Follows.{wholes, flat}

abbrev parked_peer : SimPeerConfig ℕ
parked_peer = record {
  uid = 77;
  name = [];
  mode = static;
  lat = 47;
  lon = 8;
  alt_m = 900;
  speed_ms = 15;
  course_deg = 450;
  radius_m = 100;
}

-- 450 degrees are 90.
course_wraps : (sim_peer_at parked_peer 1000).course_ddeg ≡ 900
unfolding sim_peer_at on_path parked course_to_ddeg wrapped
course_wraps = refl

abbrev echoed : LogRing (List LogEntry)
echoed = record new_ring { sink = some (λ e seen. e ∷ seen) }

abbrev warning : LogEntry
warning = record { ms = 0; level = LogLevel.warn; text = 72 ∷ 105 ∷ [] }

one_warning :
    ((ff_log LogLevel.debug (72 ∷ []) (echoed, [])).1 ≡ [])
    × ((ff_log LogLevel.warn (72 ∷ 105 ∷ []) (echoed, [])).1 ≡ warning ∷ [])
    × (line_at (ff_log LogLevel.warn (72 ∷ 105 ∷ []) (echoed, [])).0 0 ≡ warning)
    × ((ff_log LogLevel.warn (72 ∷ 105 ∷ []) (echoed, [])).0.warnings ≡ 1)
unfolding ff_log add_line level_rank store_line line_at
one_warning = (refl, refl, refl, refl)

-- A symbol takes 2, as a power is its base here; 12 are in the preamble and 13 in the payload.
abbrev slow : LoraParams
slow = record {
  spreading_factor = 5;
  bandwidth_hz = 1;
  coding_rate_denom = 5;
  preamble_symbols = 8;
  explicit_header = true;
  crc_on = false;
  low_data_rate_optimize = false;
}

on_air : lora_airtime_ms {D = ℕ} slow 1 ≡ 50000
unfolding lora_airtime_ms payload_symbols payload_numerator payload_denominator preamble_time
    symbol_time
on_air = refl
