-- ===== src/Tests/Requests.antt =====
-- lib/ff_core/msp_fc.cpp and msp_radar.cpp on small messages.
use formation_flight.Prelude.{ℕ, ◌≡◌, ◌↔◌, refl, List, [], ◌∷◌, some, true, get_elem?, arith}
use formation_flight.Prelude.Bits.{bit}
use formation_flight.PeerTable.{Peer, blank_peer}
use formation_flight.Msp.Reply.{reply_v1, reply_v2, reply_frame}
use formation_flight.MspFc.{build_msp_v1, build_msp_v2}
use formation_flight.MspFc.Frames.{turned_round, build-reply_frame}
use formation_flight.MspFc.Modes.{fc_box_permanent_ids, decode_active_modes, mode_active}
use formation_flight.MspFc.Modes.Active.{decode_active_modes_iff}
use formation_flight.MspFc.Modes.Digits.{IsOn}
use formation_flight.MspFc.Replies.{answer, decode_rc}
use formation_flight.MspRadar.{estimate_radar_lq, build_msp_set_radar_pos}

request_bytes : build_msp_v1 211 (90 ∷ 0 ∷ []) 64 ≡ 36 ∷ 77 ∷ 60 ∷ 2 ∷ 211 ∷ 90 ∷ 0 ∷ 139 ∷ []
unfolding build_msp_v1
request_bytes = refl

build-reply_frame_example :
    (turned_round (build_msp_v1 211 (90 ∷ 0 ∷ []) 64) ≡ reply_frame (reply_v1 211 (90 ∷ 0 ∷ [])))
    × (turned_round (build_msp_v2 8724 (90 ∷ 0 ∷ []) 64)
        ≡ reply_frame (reply_v2 0 8724 (90 ∷ 0 ∷ [])))
build-reply_frame_example =
    build-reply_frame 211 8724 (90 ∷ 0 ∷ []) 64 (omega arith) (omega arith) (omega arith)

abbrev boxes : List ℕ
boxes = 0 ∷ 28 ∷ 1 ∷ 11 ∷ 27 ∷ []

modes : decode_active_modes (9 ∷ []) boxes ≡ 513
unfolding decode_active_modes
modes = refl

hold_is_on : mode_active 513 9 ≡ true
unfolding mode_active
hold_is_on = refl

decode_active_modes_iff_example : (bit 9 (decode_active_modes (9 ∷ []) boxes) ≡ 1) ↔ (
    (i : ℕ) × (id : ℕ) × IsOn (9 ∷ []) i
    × (get_elem? boxes i ≡ some id)
    × (get_elem? fc_box_permanent_ids 9 ≡ some id))
decode_active_modes_iff_example = decode_active_modes_iff (9 ∷ []) boxes 9

channels : decode_rc (220 ∷ 5 ∷ 232 ∷ 3 ∷ 7 ∷ []) 16 ≡ answer (1500 ∷ 1000 ∷ [])
unfolding decode_rc
channels = refl

abbrev peer : Peer
peer = record blank_peer { uid = 77; flags = 3; alt_m = 65535; last_update_ms = 4294967000 }

fresh : estimate_radar_lq peer 704 6000 ≡ 4
unfolding estimate_radar_lq
fresh = refl

no_room_for_peer : build_msp_set_radar_pos 3 peer 704 6000 27 ≡ []
unfolding build_msp_set_radar_pos
no_room_for_peer = refl
