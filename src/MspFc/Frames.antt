-- ===== src/MspFc/Frames.antt =====
-- lib/ff_core/msp_fc.cpp: the frames of requests against those of replies.
use formation_flight.Prelude.{
  ℕ, ◌+◌, ◌<◌, ◌≤◌, ◌≡◌, refl, ap, ap₂, ◌∙◌, List, [], ◌∷◌, ◌++◌, ◌||◌, ltb, bit_xor, length, set,
  u8, u16, shr, arith, false,
}
use formation_flight.Wire.{put_u8, put_u16}
use formation_flight.Msp.{msp_crc8_dvb_s2}
use formation_flight.Msp.Reply.{reply_v1, reply_v2, reply_frame, fold_crc}
use formation_flight.MspFc.{put_payload, build_msp_v1, build_msp_v2, crc_of_header}

-- A frame with its direction byte turned to the one of replies.
abbrev pub turned_round : List ℕ → List ℕ
turned_round frame = set frame 2 b'>'

put_payload-fold_crc :
    (step : ℕ → ℕ → ℕ) (payload : List ℕ) (crc : ℕ)
    → put_payload step payload crc ≡ payload ++ (fold_crc step crc payload ∷ [])
unfolding put_payload fold_crc put_u8
put_payload-fold_crc step [] crc = refl
put_payload-fold_crc step (b ∷ payload) crc =
    ap (λ bs. b ∷ bs) (put_payload-fold_crc step payload (step crc b))

build_msp_v1_fits :
    (id : ℕ) (payload : List ℕ) (cap : ℕ)
    → (ltb 255 (length payload) || ltb cap (6 + length payload)) ≡ false
    → build_msp_v1 id payload cap
      ≡ 36
        ∷ 77
        ∷ 60
        ∷ u8 (length payload)
        ∷ id
        ∷ put_payload bit_xor payload (bit_xor (u8 (length payload)) id)
unfolding build_msp_v1
build_msp_v1_fits id payload cap fits = rw fits refl

build_msp_v2_fits :
    (id : ℕ) (payload : List ℕ) (cap : ℕ)
    → (ltb 65535 (length payload) || ltb cap (9 + length payload)) ≡ false
    → build_msp_v2 id payload cap
      ≡ 36
        ∷ 88
        ∷ 60
        ∷ 0
        ∷ u8 id
        ∷ u8 (shr id 8)
        ∷ u8 (u16 (length payload))
        ∷ u8 (shr (u16 (length payload)) 8)
        ∷ put_payload msp_crc8_dvb_s2 payload (crc_of_header id (length payload))
unfolding build_msp_v2 put_u16
build_msp_v2_fits id payload cap fits = rw fits refl

-- A request of either version, for a payload of at most 255 bytes and a buffer with room for it,
-- and with an id of 16 bits in version 2, is the frame of a reply with the same id and payload but
-- for its direction byte: the header and the checksum are those that the parser checks.
pub build-reply_frame :
    (id id2 : ℕ) (payload : List ℕ) (cap : ℕ)
    → length payload < 256
    → length payload + 9 ≤ cap
    → id2 < 65536
    → (turned_round (build_msp_v1 id payload cap) ≡ reply_frame (reply_v1 id payload))
      × (turned_round (build_msp_v2 id2 payload cap) ≡ reply_frame (reply_v2 0 id2 payload))
unfolding reply_frame fold_crc crc_of_header
build-reply_frame id id2 payload cap short room w = (
  ap turned_round (build_msp_v1_fits id payload cap (ground arith))
      ∙ ap₂ (λ n bs. 36 ∷ 77 ∷ 62 ∷ n ∷ id ∷ bs) len
          (put_payload-fold_crc bit_xor payload _
            ∙ ap (λ n. payload ++ (fold_crc bit_xor (bit_xor n id) payload ∷ [])) len),
  ap turned_round (build_msp_v2_fits id2 payload cap (ground arith))
      ∙ (ap
            (λ n.
              36
              ∷ 88
              ∷ 62
              ∷ 0
              ∷ u8 id2
              ∷ u8 (shr id2 8)
              ∷ u8 n
              ∷ u8 (shr n 8)
              ∷ put_payload msp_crc8_dvb_s2 payload (crc_of_header id2 (length payload)))
            (omega arith)
          ∙ (ap₂
                (λ m n.
                  36
                  ∷ 88
                  ∷ 62
                  ∷ 0
                  ∷ u8 id2
                  ∷ m
                  ∷ u8 (length payload)
                  ∷ n
                  ∷ put_payload msp_crc8_dvb_s2 payload (crc_of_header id2 (length payload)))
                high_id high_len
              ∙ ap
                  (λ bs.
                    36
                    ∷ 88
                    ∷ 62
                    ∷ 0
                    ∷ u8 id2
                    ∷ shr id2 8
                    ∷ u8 (length payload)
                    ∷ shr (length payload) 8
                    ∷ bs)
                  (put_payload-fold_crc msp_crc8_dvb_s2 payload _
                    ∙ ap₂
                        (λ m n.
                          payload
                          ++ (fold_crc msp_crc8_dvb_s2
                                (msp_crc8_dvb_s2
                                  (msp_crc8_dvb_s2
                                    (msp_crc8_dvb_s2
                                      (msp_crc8_dvb_s2 (msp_crc8_dvb_s2 0 0) (u8 id2)) m)
                                    (u8 (length payload)))
                                  n)
                                payload
                              ∷ []))
                        high_id high_len))),
)
  where
    len : u8 (length payload) ≡ length payload
    len = omega arith

    high_id : u8 (shr id2 8) ≡ shr id2 8
    high_id = omega arith

    high_len : u8 (shr (length payload) 8) ≡ shr (length payload) 8
    high_len = omega arith
