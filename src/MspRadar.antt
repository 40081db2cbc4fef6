-- ===== src/MspRadar.antt =====
-- lib/ff_core/msp_radar.h and msp_radar.cpp: a peer's position as an MSP2 frame.
pub mod Frame
use formation_flight.Prelude.{
  ℕ, ◌+◌, ◌-◌, ◌*◌, ◌/◌, List, [], ◌++◌, ltb, leb, ◌==◌, if◌then◌else◌, bit_and, length, u8, u16,
  u32, shr, sub32,
}
use formation_flight.Wire.{put_u8, put_u16, put_i32}
use formation_flight.PeerTable.{Peer}
use formation_flight.Msp.{msp_crc8_dvb_s2}
use formation_flight.MspFc.{put_payload}
use formation_flight.Node.Send.{position_flag_armed}

abbrev pub msp_set_radar_pos : ℕ
msp_set_radar_pos = 4107

abbrev pub radar_frame_size : ℕ
radar_frame_size = 28

abbrev pub payload_len : ℕ
payload_len = 19

unfoldable pub estimate_radar_lq : Peer → ℕ → ℕ → ℕ
estimate_radar_lq peer now_ms timeout_ms =
    let age = sub32 now_ms peer.last_update_ms in
    let bucket = u32 (age * 4) / timeout_ms in
    if timeout_ms == 0
    then 0
    else if leb timeout_ms age
    then 0
    else u8 (4 - (if ltb 3 bucket then 3 else bucket))

-- The product of an int16_t, as its bit pattern, with 100, as the bit pattern of an int32_t.
abbrev pub metres_to_cm : ℕ → ℕ
metres_to_cm alt_m =
    if ltb alt_m 32768 then alt_m * 100 else u32 (4294967296 - (65536 - alt_m) * 100)

unfoldable pub radar_payload : ℕ → Peer → ℕ → ℕ → List ℕ
unfolding put_u8 put_u16 put_i32 estimate_radar_lq
radar_payload slot_id peer now_ms timeout_ms =
    put_u8 slot_id
    ++ (put_u8 (if bit_and peer.flags position_flag_armed == 0 then 0 else 1)
        ++ (put_i32 peer.lat
            ++ (put_i32 peer.lon
                ++ (put_i32 (metres_to_cm peer.alt_m)
                    ++ (put_u16 (u16 (peer.course_ddeg / 10))
                        ++ (put_u16 peer.speed_cms
                            ++ put_u8 (estimate_radar_lq peer now_ms timeout_ms)))))))

-- The checksum over the header.
unfoldable pub crc_of_radar_header : ℕ
crc_of_radar_header =
    let crc0 = msp_crc8_dvb_s2 0 0 in
    let crc1 = msp_crc8_dvb_s2 crc0 (u8 msp_set_radar_pos) in
    let crc2 = msp_crc8_dvb_s2 crc1 (u8 (shr msp_set_radar_pos 8)) in
    let crc3 = msp_crc8_dvb_s2 crc2 (u8 payload_len) in
    msp_crc8_dvb_s2 crc3 (u8 (shr payload_len 8))

unfoldable pub build_msp_set_radar_pos : ℕ → Peer → ℕ → ℕ → ℕ → List ℕ
unfolding put_u8 put_u16 put_payload radar_payload crc_of_radar_header
build_msp_set_radar_pos slot_id peer now_ms timeout_ms cap =
    let payload = radar_payload slot_id peer now_ms timeout_ms in
    let frame =
      put_u8 b'$'
      ++ (put_u8 b'X'
          ++ (put_u8 b'<'
              ++ (put_u8 0
                  ++ (put_u16 msp_set_radar_pos
                      ++ (put_u16 payload_len
                          ++ put_payload msp_crc8_dvb_s2 payload crc_of_radar_header))))) in
    if ltb cap radar_frame_size then [] else frame
