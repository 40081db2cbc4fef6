-- ===== src/MspRadar/Frame.antt =====
-- lib/ff_core/msp_radar.cpp: the frame and the link quality in it.
use formation_flight.Prelude.{ℕ, ◌≤◌, ◌≡◌, ◌↔◌, refl, sub32, arith}
use formation_flight.Wire.{put_u8, put_u16, put_u32, put_i32}
use formation_flight.PeerTable.{Peer}
use formation_flight.MspFc.{build_msp_v2, crc_of_header}
use formation_flight.MspRadar.{
  estimate_radar_lq, radar_payload, crc_of_radar_header, build_msp_set_radar_pos,
}

same_frame :
    (slot_id : ℕ) (peer : Peer) (now_ms timeout_ms cap : ℕ)
    → build_msp_set_radar_pos slot_id peer now_ms timeout_ms cap
      ≡ build_msp_v2 4107 (radar_payload slot_id peer now_ms timeout_ms) cap
unfolding build_msp_set_radar_pos build_msp_v2 radar_payload crc_of_radar_header crc_of_header
    put_u8 put_u16 put_u32 put_i32
same_frame slot_id peer now_ms timeout_ms cap = refl

quality_bound : (peer : Peer) (now_ms timeout_ms : ℕ) → estimate_radar_lq peer now_ms timeout_ms ≤ 4
unfolding estimate_radar_lq
quality_bound peer now_ms timeout_ms = ground arith

quality_zero :
    (peer : Peer) (now_ms timeout_ms : ℕ)
    → (estimate_radar_lq peer now_ms timeout_ms ≡ 0)
      ↔ (timeout_ms ≤ sub32 now_ms peer.last_update_ms)
unfolding estimate_radar_lq
quality_zero peer now_ms timeout_ms = (ground arith, ground arith)

-- The frame of a peer's position, for every buffer, is what the builder of the flight controller's
-- requests makes of message 0x100B with the payload; its link quality is at most 4, and 0 exactly if
-- the peer was last heard a timeout ago or longer.
pub build_msp_set_radar_pos-build_msp_v2 :
    (slot_id : ℕ) (peer : Peer) (now_ms timeout_ms cap : ℕ)
    → (build_msp_set_radar_pos slot_id peer now_ms timeout_ms cap
        ≡ build_msp_v2 4107 (radar_payload slot_id peer now_ms timeout_ms) cap)
      × (estimate_radar_lq peer now_ms timeout_ms ≤ 4)
      × ((estimate_radar_lq peer now_ms timeout_ms ≡ 0)
          ↔ (timeout_ms ≤ sub32 now_ms peer.last_update_ms))
build_msp_set_radar_pos-build_msp_v2 slot_id peer now_ms timeout_ms cap = (
  same_frame slot_id peer now_ms timeout_ms cap,
  quality_bound peer now_ms timeout_ms,
  quality_zero peer now_ms timeout_ms,
)
