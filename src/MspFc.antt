-- ===== src/MspFc.antt =====
-- lib/ff_core/msp_fc.h and msp_fc.cpp: what a node says to its flight controller over MSP.
--
-- A builder yields the bytes that it writes, and the empty list where it returns 0.
pub mod Replies
pub mod Modes
pub mod Frames
use formation_flight.Prelude.{
  ℕ, ◌+◌, List, [], ◌∷◌, ◌++◌, ◌||◌, ltb, if◌then◌else◌, bit_xor, length, u8, u16, shr, true, false,
}
use formation_flight.Wire.{put_u8, put_u16, put_i16, put_i32}
use formation_flight.Msp.{msp_crc8_dvb_s2}

abbrev pub msp_v1_overhead : ℕ
msp_v1_overhead = 6

abbrev pub msp_v2_overhead : ℕ
msp_v2_overhead = 9

-- The loop over the payload, with the checksum so far, and the checksum behind it.
unfoldable pub put_payload : (ℕ → ℕ → ℕ) → List ℕ → ℕ → List ℕ
put_payload step [] crc = put_u8 crc
put_payload step (b ∷ payload) crc = put_u8 b ++ put_payload step payload (step crc b)

unfoldable pub build_msp_v1 : ℕ → List ℕ → ℕ → List ℕ
unfolding put_u8 put_payload
build_msp_v1 id payload cap =
    let len = length payload in
    let crc = bit_xor (u8 len) id in
    let frame =
      put_u8 b'$'
      ++ (put_u8 b'M'
          ++ (put_u8 b'<'
              ++ (put_u8 (u8 len) ++ (put_u8 id ++ put_payload bit_xor payload crc)))) in
    if ltb 255 len || ltb cap (msp_v1_overhead + len) then [] else frame

-- The checksum over the header of version 2: flag, id and length.
unfoldable pub crc_of_header : ℕ → ℕ → ℕ
crc_of_header id len =
    let crc0 = msp_crc8_dvb_s2 0 0 in
    let crc1 = msp_crc8_dvb_s2 crc0 (u8 id) in
    let crc2 = msp_crc8_dvb_s2 crc1 (u8 (shr id 8)) in
    let crc3 = msp_crc8_dvb_s2 crc2 (u8 len) in msp_crc8_dvb_s2 crc3 (u8 (shr len 8))

unfoldable pub build_msp_v2 : ℕ → List ℕ → ℕ → List ℕ
unfolding put_u8 put_u16 put_payload crc_of_header
build_msp_v2 id payload cap =
    let len = length payload in
    let frame =
      put_u8 b'$'
      ++ (put_u8 b'X'
          ++ (put_u8 b'<'
              ++ (put_u8 0
                  ++ (put_u16 id
                      ++ (put_u16 (u16 len)
                          ++ put_payload msp_crc8_dvb_s2 payload (crc_of_header id len)))))) in
    if ltb 65535 len || ltb cap (msp_v2_overhead + len) then [] else frame

abbrev pub set_wp_payload_size : ℕ
set_wp_payload_size = 21

abbrev pub set_head_payload_size : ℕ
set_head_payload_size = 2

abbrev pub set_gvar_payload_size : ℕ
set_gvar_payload_size = 5

-- The arguments of `encodeSetWp`.
pub record Waypoint : Type 0 where
  pub wp_number : ℕ
  pub action : ℕ
  pub lat : ℕ
  pub lon : ℕ
  pub alt_cm : ℕ
  pub p1 : ℕ
  pub p2 : ℕ
  pub p3 : ℕ
  pub flag : ℕ

unfoldable pub encode_set_wp : Waypoint → ℕ → List ℕ
unfolding put_u8 put_i32 put_i16
encode_set_wp w cap =
    let payload =
      put_u8 w.wp_number
      ++ (put_u8 w.action
          ++ (put_i32 w.lat
              ++ (put_i32 w.lon
                  ++ (put_i32 w.alt_cm
                      ++ (put_i16 w.p1 ++ (put_i16 w.p2 ++ (put_i16 w.p3 ++ put_u8 w.flag))))))) in
    if ltb cap set_wp_payload_size then [] else payload

unfoldable pub encode_set_head : ℕ → ℕ → List ℕ
unfolding put_i16
encode_set_head heading_deg cap = if ltb cap set_head_payload_size then [] else put_i16 heading_deg

unfoldable pub encode_set_gvar : ℕ → ℕ → ℕ → List ℕ
unfolding put_u8 put_i32
encode_set_gvar index value cap =
    if ltb cap set_gvar_payload_size then [] else put_u8 index ++ put_i32 value
