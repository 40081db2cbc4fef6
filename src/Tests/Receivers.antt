-- ===== src/Tests/Receivers.antt =====
-- lib/ff_core/ubx.cpp: configuration messages read back, and small navigation messages.
use formation_flight.Prelude.{some, ℕ, ◌≡◌, refl, List, [], ◌∷◌, ◌++◌, true, false, replicate}
use formation_flight.Ubx.{UbxParser, sync1, build_cfg_rate, build_legacy_nav_config}
use formation_flight.Ubx.Parts.{Message, messages}
use formation_flight.Ubx.Stream.{stream, ubx_messages-stream}
use formation_flight.Ubx.Messages.{
  UbxFix, UbxVelNed, UbxSol, decode_nav_pvt, decode_nav_velned, decode_nav_sol,
  normalise_course_ddeg,
}

-- A parser with a stale buffer.
abbrev parser : UbxParser
parser = record {
  state = sync1;
  cls = 9;
  id = 9;
  len = 3;
  idx = 3;
  ck_a = 1;
  ck_b = 2;
  rx_ck_a = 3;
  oversize = true;
  payload = replicate 128 7;
}

rate_bytes :
    build_cfg_rate 100 64 ≡ 181 ∷ 98 ∷ 6 ∷ 8 ∷ 6 ∷ 0 ∷ 100 ∷ 0 ∷ 1 ∷ 0 ∷ 1 ∷ 0 ∷ 122 ∷ 18 ∷ []
unfolding build_cfg_rate
rate_bytes = refl

no_room : build_legacy_nav_config 43 ≡ []
unfolding build_legacy_nav_config
no_room = refl

west : normalise_course_ddeg 4294966396 ≡ 2700
unfolding normalise_course_ddeg
west = refl

abbrev requests : List Message
requests =
    record { cls = 6; id = 8; payload = 100 ∷ 0 ∷ 1 ∷ 0 ∷ 1 ∷ 0 ∷ [] }
    ∷ record { cls = 5; id = 1; payload = [] }
    ∷ record { cls = 6; id = 1; payload = 1 ∷ 7 ∷ 1 ∷ [] }
    ∷ []

ubx_messages-stream_example : (messages parser (stream requests)).0 ≡ requests
ubx_messages-stream_example = ubx_messages-stream parser requests refl refl refl

abbrev pvt : List ℕ
pvt = replicate 20 0 ++ (3 ∷ 1 ∷ replicate 42 0) ++ (192 ∷ 240 ∷ 255 ∷ 255 ∷ replicate 24 0)

abbrev pvt_fix : UbxFix
pvt_fix = record {
  valid = true;
  fix_type = 3;
  num_sat = 0;
  lat = 0;
  lon = 0;
  alt_m = 0;
  speed_cms = 0;
  course_ddeg = 0;
}

abbrev still : UbxVelNed
still = record { speed_cms = 0; course_ddeg = 0 }

abbrev no_fix : UbxSol
no_fix = record { valid = false; fix_type = 0; num_sat = 0 }

navigation :
    (decode_nav_pvt pvt ≡ some pvt_fix)
    × (decode_nav_velned (replicate 36 0) ≡ some still)
    × (decode_nav_sol (replicate 52 0) ≡ some no_fix)
unfolding decode_nav_pvt decode_nav_velned decode_nav_sol
navigation = (refl, refl, refl)
