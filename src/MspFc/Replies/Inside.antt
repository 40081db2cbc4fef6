-- ===== src/MspFc/Replies/Inside.antt =====
-- lib/ff_core/msp_fc.cpp: how far the decoders of replies read.
use formation_flight.Prelude.{
  ℕ, zero, suc, ◌+◌, ◌*◌, ◌/◌, ◌≤◌, ◌≢◌, List, [], ◌∷◌, arith, length, length-drop, drop, ltb,
  if◌then◌else◌,
}
use formation_flight.Wire.{Reader, get_u8, get_u16, get_u32, get_i16, get_i32}
use formation_flight.Wire.Takes.{
  Takes, pure-Takes, get_u8-Takes, >>=-Takes, get_u16-Takes, get_u32-Takes, get_i16-Takes,
  get_i32-Takes,
}
use formation_flight.MspFc.Replies.{
  overrun, run, raw_gps_fields, decode_raw_gps, decode_altitude_cm, read_channels, decode_rc,
  version_fields, decode_fc_version, copy_chars, variant_chars, decode_fc_variant,
  decode_mixer_platform, armed_flag, inav_status_armed,
}

raw_gps_fields-Takes : Takes 18 raw_gps_fields
unfolding raw_gps_fields
raw_gps_fields-Takes = >>=-Takes 1 17 get_u8 _ get_u8-Takes λ fix_type.
    >>=-Takes 1 16 get_u8 _ get_u8-Takes λ num_sat. >>=-Takes 4 12 get_i32 _ get_i32-Takes λ lat.
      >>=-Takes 4 8 get_i32 _ get_i32-Takes λ lon. >>=-Takes 2 6 get_i16 _ get_i16-Takes λ alt_m.
        >>=-Takes 2 4 get_i16 _ get_i16-Takes λ speed_cms.
          >>=-Takes 2 2 get_i16 _ get_i16-Takes
            λ course_ddeg. >>=-Takes 2 0 get_u16 _ get_u16-Takes λ hdop. pure-Takes _

version_fields-Takes : Takes 3 version_fields
unfolding version_fields
version_fields-Takes = >>=-Takes 1 2 get_u8 _ get_u8-Takes λ major.
    >>=-Takes 1 1 get_u8 _ get_u8-Takes
      λ minor. >>=-Takes 1 0 get_u8 _ get_u8-Takes λ patch. pure-Takes _

copy_chars-Takes : (n : ℕ) → Takes n (copy_chars n)
unfolding copy_chars
copy_chars-Takes zero bs h = pure-Takes [] bs (omega arith)
copy_chars-Takes (suc n) bs h =
    let (cs, rest, e, l) =
      >>=-Takes 1 (n + 0) get_u8 _ get_u8-Takes
        (λ c. >>=-Takes n 0 (copy_chars n) _ (copy_chars-Takes n) λ cs. pure-Takes (c ∷ cs)) bs
        (omega arith) in
    (cs, rest, e, omega arith)

variant_chars-Takes : Takes 4 variant_chars
unfolding variant_chars
variant_chars-Takes = >>=-Takes 4 0 (copy_chars 4) _ (copy_chars-Takes 4) λ chars. pure-Takes _

armed_flag-Takes : Takes 4 armed_flag
unfolding armed_flag
armed_flag-Takes = >>=-Takes 4 0 get_u32 _ get_u32-Takes λ arming_flags. pure-Takes _

read_channels-Takes : (n : ℕ) → Takes (n * 2) (read_channels n)
unfolding read_channels
read_channels-Takes zero bs h = pure-Takes [] bs (omega arith)
read_channels-Takes (suc n) bs h =
    let (cs, rest, e, l) =
      >>=-Takes 2 (n * 2 + 0) get_u16 _ get_u16-Takes
        (λ c.
          >>=-Takes (n * 2) 0 (read_channels n) _ (read_channels-Takes n) λ cs. pure-Takes (c ∷ cs))
        bs (omega arith) in
    (cs, rest, e, omega arith)

run-ne-overrun :
    {A : Type 0} (n : ℕ) (r : Reader A) (p : List ℕ) → Takes n r → n ≤ length p → run r p ≢ overrun
run-ne-overrun n r p t h = let (a, rest, e, l) = t p h in rw (e, run) (λ eq. cc)

-- Whatever payload arrives, and for every room for channels, none of the decoders that read values
-- reads outside of the payload.
pub decoders_stay_inside :
    (p : List ℕ) (cap : ℕ)
    → (decode_raw_gps p ≢ overrun)
      × (decode_altitude_cm p ≢ overrun)
      × (decode_rc p cap ≢ overrun)
      × (decode_fc_version p ≢ overrun)
      × (decode_fc_variant p ≢ overrun)
      × (decode_mixer_platform p ≢ overrun)
      × (inav_status_armed p ≢ overrun)
unfolding decode_raw_gps decode_altitude_cm decode_rc decode_fc_version decode_fc_variant
    decode_mixer_platform inav_status_armed
decoders_stay_inside p cap = (
  ground (arith, run-ne-overrun 18 raw_gps_fields p raw_gps_fields-Takes),
  ground (arith, run-ne-overrun 4 get_i32 p get_i32-Takes),
  run-ne-overrun (channels * 2) (read_channels channels) p (read_channels-Takes channels)
      (ground arith),
  ground (arith, run-ne-overrun 3 version_fields p version_fields-Takes),
  ground (arith, run-ne-overrun 4 variant_chars p variant_chars-Takes),
  ground (arith, length-drop 3 p, run-ne-overrun 1 get_u8 (drop 3 p) get_u8-Takes),
  ground (arith, length-drop 9 p, run-ne-overrun 4 armed_flag (drop 9 p) armed_flag-Takes),
)
  where
    channels : ℕ
    channels = if ltb cap (length p / 2) then cap else length p / 2
