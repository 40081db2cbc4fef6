-- ===== src/Ubx/Messages.antt =====
-- lib/ff_core/ubx.cpp: the decoders of the receiver's messages.
--
-- They read at offsets inside of the length that they check; outside of it `read_i32` and the others
-- are 0, which the checks keep from mattering.
pub mod Course
use formation_flight.Prelude.{
  ℕ, ◌+◌, ◌-◌, ◌/◌, ◌%◌, List, Option, none, some, Bool, not, ◌&&◌, ◌||◌, ltb, leb, ◌==◌,
  if◌then◌else◌, true, false, bit_and, length, drop, get_or, u16, u32,
}
use formation_flight.Wire.{get_u16, get_i32}

unfoldable pub read_i32 : List ℕ → ℕ → ℕ
unfolding get_i32
read_i32 p off = elim (get_i32 (drop off p)) [ none ↦ 0 | some (v, _) ↦ v ]

abbrev pub read_u8 : List ℕ → ℕ → ℕ
read_u8 p off = get_or p off 0

unfoldable pub read_u16 : List ℕ → ℕ → ℕ
unfolding get_u16
read_u16 p off = elim (get_u16 (drop off p)) [ none ↦ 0 | some (v, _) ↦ v ]

-- Division and remainder of an int32_t, as its bit pattern, by a positive number: both go towards 0.
abbrev pub div_i32 : ℕ → ℕ → ℕ
div_i32 v k = if ltb v 2147483648 then v / k else u32 (4294967296 - (4294967296 - v) / k)

abbrev pub mod_i32 : ℕ → ℕ → ℕ
mod_i32 v k = if ltb v 2147483648 then v % k else u32 (4294967296 - (4294967296 - v) % k)

unfoldable pub normalise_course_ddeg : ℕ → ℕ
normalise_course_ddeg v =
    let ddeg = mod_i32 v 3600 in u16 (if leb 2147483648 ddeg then u32 (ddeg + 3600) else ddeg)

pub record UbxFix : Type 0 where
  pub valid : Bool
  pub fix_type : ℕ
  pub num_sat : ℕ
  pub lat : ℕ
  pub lon : ℕ
  pub alt_m : ℕ
  pub speed_cms : ℕ
  pub course_ddeg : ℕ

pub record UbxPosLlh : Type 0 where
  pub lat : ℕ
  pub lon : ℕ
  pub alt_m : ℕ

pub record UbxSol : Type 0 where
  pub valid : Bool
  pub fix_type : ℕ
  pub num_sat : ℕ

pub record UbxVelNed : Type 0 where
  pub speed_cms : ℕ
  pub course_ddeg : ℕ

unfoldable pub decode_nav_pvt : List ℕ → Option UbxFix
unfolding read_i32 normalise_course_ddeg
decode_nav_pvt p =
    let fix_type = read_u8 p 20 in
    let gnss_ok = not (bit_and (read_u8 p 21) 1 == 0) in
    let fix : UbxFix = record {
      valid = gnss_ok && (fix_type == 2 || fix_type == 3);
      fix_type = if gnss_ok then fix_type else 0;
      num_sat = read_u8 p 23;
      lon = read_i32 p 24;
      lat = read_i32 p 28;
      alt_m = u16 (div_i32 (read_i32 p 36) 1000);
      speed_cms = u16 (div_i32 (read_i32 p 60) 10);
      course_ddeg = normalise_course_ddeg (div_i32 (read_i32 p 64) 10000);
    } in
    if ltb (length p) 92 then none else some fix

unfoldable pub decode_nav_posllh : List ℕ → Option UbxPosLlh
unfolding read_i32
decode_nav_posllh p =
    let position : UbxPosLlh = record {
      lon = read_i32 p 4;
      lat = read_i32 p 8;
      alt_m = u16 (div_i32 (read_i32 p 16) 1000);
    } in
    if ltb (length p) 28 then none else some position

unfoldable pub decode_nav_sol : List ℕ → Option UbxSol
decode_nav_sol p =
    let fix_type = read_u8 p 10 in
    let fix_ok = not (bit_and (read_u8 p 11) 1 == 0) in
    let sol : UbxSol = record {
      valid = fix_ok && (fix_type == 2 || fix_type == 3);
      fix_type = if fix_ok then fix_type else 0;
      num_sat = read_u8 p 47;
    } in
    if ltb (length p) 52 then none else some sol

unfoldable pub decode_nav_velned : List ℕ → Option UbxVelNed
unfolding read_i32 normalise_course_ddeg
decode_nav_velned p =
    let gspeed = read_i32 p 20 in
    let motion : UbxVelNed = record {
      speed_cms = u16 (if leb 2147483648 gspeed then 0 else gspeed);
      course_ddeg = normalise_course_ddeg (div_i32 (read_i32 p 24) 10000);
    } in
    if ltb (length p) 36 then none else some motion

unfoldable pub decode_nav_dop : List ℕ → Option ℕ
unfolding read_u16
decode_nav_dop p = if ltb (length p) 18 then none else some (read_u16 p 12)

-- The class and the id.
unfoldable pub decode_ack : List ℕ → Option (ℕ × ℕ)
decode_ack p = if ltb (length p) 2 then none else some (read_u8 p 0, read_u8 p 1)
