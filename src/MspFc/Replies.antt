-- ===== src/MspFc/Replies.antt =====
-- lib/ff_core/msp_fc.h and msp_fc.cpp: the decoders of the flight controller's replies.
pub mod Inside
use formation_flight.Prelude.{
  ℕ, zero, suc, ◌+◌, ◌-◌, ◌/◌, List, [], ◌∷◌, ◌++◌, Option, none, some, Bool, true, false, not, ltb,
  ◌==◌, ◌&&◌, if◌then◌else◌, bit_and, length, take, drop, shl,
}
use formation_flight.Wire.{Reader, ◌>>=◌, pure, get_u8, get_u16, get_u32, get_i16, get_i32}

-- A decoder's result: its output, `false`, or a read outside of the payload.
pub data Answer {ℓ} (A : Type ℓ) : Type ℓ where
  answer : A → Answer A
  refused : Answer A
  overrun : Answer A

-- A reader run on a payload.
abbrev pub run : {A : Type 0} → Reader A → List ℕ → Answer A
run r p = elim (r p) [ none ↦ overrun | some (a, rest) ↦ answer a ]

pub record FcRawGps : Type 0 where
  pub fix_type : ℕ
  pub num_sat : ℕ
  pub lat : ℕ
  pub lon : ℕ
  pub alt_m : ℕ
  pub speed_cms : ℕ
  pub course_ddeg : ℕ
  pub hdop : ℕ

unfoldable pub raw_gps_fields : Reader FcRawGps
raw_gps_fields = do
  fix_type ← get_u8
  num_sat ← get_u8
  lat ← get_i32
  lon ← get_i32
  alt_m ← get_i16
  speed_cms ← get_i16
  course_ddeg ← get_i16
  hdop ← get_u16
  pure (record {
    fix_type = fix_type;
    num_sat = num_sat;
    lat = lat;
    lon = lon;
    alt_m = alt_m;
    speed_cms = speed_cms;
    course_ddeg = course_ddeg;
    hdop = hdop;
  })

unfoldable pub decode_raw_gps : List ℕ → Answer FcRawGps
unfolding raw_gps_fields
decode_raw_gps p = if ltb (length p) 18 then refused else run raw_gps_fields p

unfoldable pub decode_altitude_cm : List ℕ → Answer ℕ
unfolding get_i32
decode_altitude_cm p = if ltb (length p) 4 then refused else run get_i32 p

-- The loop that reads `n` channels.
unfoldable pub read_channels : ℕ → Reader (List ℕ)
unfolding get_u16
read_channels zero = pure []
read_channels (suc n) = do c ← get_u16; rest ← read_channels n; pure (c ∷ rest)

-- The channels; their number is what the function returns.
unfoldable pub decode_rc : List ℕ → ℕ → Answer (List ℕ)
unfolding read_channels
decode_rc p cap = let n = length p / 2 in run (read_channels (if ltb cap n then cap else n)) p

pub record FcVersion : Type 0 where
  pub major : ℕ
  pub minor : ℕ
  pub patch : ℕ

unfoldable pub version_fields : Reader FcVersion
version_fields = do
  major ← get_u8
  minor ← get_u8
  patch ← get_u8
  pure (record { major = major; minor = minor; patch = patch })

unfoldable pub decode_fc_version : List ℕ → Answer FcVersion
unfolding version_fields
decode_fc_version p = if ltb (length p) 3 then refused else run version_fields p

-- The loop that copies `n` characters.
unfoldable pub copy_chars : ℕ → Reader (List ℕ)
unfolding get_u8
copy_chars zero = pure []
copy_chars (suc n) = do c ← get_u8; rest ← copy_chars n; pure (c ∷ rest)

unfoldable pub variant_chars : Reader (List ℕ)
unfolding copy_chars
variant_chars = do chars ← copy_chars 4; pure (chars ++ (0 ∷ []))

unfoldable pub decode_fc_variant : List ℕ → Answer (List ℕ)
unfolding variant_chars
decode_fc_variant p = if ltb (length p) 4 then refused else run variant_chars p

-- The byte of the platform; every byte is an FcPlatform.
unfoldable pub decode_mixer_platform : List ℕ → Answer ℕ
unfolding get_u8
decode_mixer_platform p = if ltb (length p) 4 then refused else run get_u8 (drop 3 p)

-- The mode flags within a status reply.
unfoldable pub status_mode_flags : List ℕ → Answer (List ℕ)
status_mode_flags p = if ltb (length p) 10 then refused else answer (take 4 (drop 6 p))

unfoldable pub inav_status_mode_flags : List ℕ → Answer (List ℕ)
inav_status_mode_flags p = if ltb (length p) 13 then refused else answer (drop 13 p)

unfoldable pub armed_flag : Reader Bool
armed_flag = do arming_flags ← get_u32; pure (not (bit_and arming_flags (shl 1 2) == 0))

unfoldable pub inav_status_armed : List ℕ → Answer Bool
unfolding armed_flag
inav_status_armed p = if ltb (length p) 13 then refused else run armed_flag (drop 9 p)
