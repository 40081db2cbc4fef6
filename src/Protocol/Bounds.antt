-- ===== src/Protocol/Bounds.antt =====
-- lib/ff_core/protocol.cpp: how far the decoders read.
use formation_flight.Prelude.{
  ℕ, zero, suc, ◌+◌, ◌≤◌, ◌≢◌, refl, List, [], ◌∷◌, arith, length, length-drop, drop, ltb, not,
}
use formation_flight.Wire.{Reader, get_u8, get_u16, get_u32, get_i16, get_i32}
use formation_flight.Wire.Takes.{
  Takes, pure-Takes, get_u8-Takes, >>=-Takes, get_u16-Takes, get_u32-Takes, get_i16-Takes,
  get_i32-Takes,
}
use formation_flight.Protocol.{
  ok, overrun, refused, Header, Decoded, bad_type, too_short, length_mismatch, header_fields,
  position_fields, name_bytes, announce_fields, peek_header, decode_position, decode_announce, run,
  refuse_if, ◌>>◌, ◌>>=◌, is_position, position_packet_size, header_size, max_name_len,
}

header_fields-Takes : Takes 6 header_fields
unfolding header_fields
header_fields-Takes = >>=-Takes 1 5 get_u8 _ get_u8-Takes λ version.
    >>=-Takes 1 4 get_u8 _ get_u8-Takes
      λ uid. >>=-Takes 4 0 get_u32 _ get_u32-Takes λ uid. pure-Takes _

position_fields-Takes : (uid : ℕ) → Takes 15 (position_fields uid)
unfolding position_fields
position_fields-Takes uid = >>=-Takes 4 11 get_i32 _ get_i32-Takes λ lat.
    >>=-Takes 4 7 get_i32 _ get_i32-Takes λ lon. >>=-Takes 2 5 get_i16 _ get_i16-Takes λ alt_m.
      >>=-Takes 2 3 get_u16 _ get_u16-Takes λ speed_cms.
        >>=-Takes 2 1 get_u16 _ get_u16-Takes
          λ course_ddeg. >>=-Takes 1 0 get_u8 _ get_u8-Takes λ flags. pure-Takes _

name_bytes-Takes : (n : ℕ) → Takes n (name_bytes n)
unfolding name_bytes
name_bytes-Takes zero bs h = pure-Takes [] bs h
name_bytes-Takes (suc n) bs h =
    let (name, rest, e, l) =
      >>=-Takes 1 (n + 0) get_u8 _ get_u8-Takes
        (λ c. >>=-Takes n 0 (name_bytes n) _ (name_bytes-Takes n) λ cs. pure-Takes (c ∷ cs)) bs
        (omega arith) in
    (name, rest, e, omega arith)

announce_fields-Takes : (uid n : ℕ) → Takes (n + 4) (announce_fields uid n)
unfolding announce_fields
announce_fields-Takes uid n =
    >>=-Takes n 4 (name_bytes n) _ (name_bytes-Takes n)
      λ name. >>=-Takes 4 0 get_u32 _ get_u32-Takes λ capabilities. pure-Takes _

-- A reader that finds its bytes does not overrun.
run-ne-overrun :
    {A : Type 0} (n : ℕ) (r : Reader A) (bs : List ℕ)
    → Takes n r
    → n ≤ length bs
    → run r bs ≢ overrun
run-ne-overrun n r bs t h = let (a, rest, e, l) = t bs h in rw (e, run) (λ eq. cc)

>>=-ne-overrun :
    {A B : Type 0} (m : Decoded A) (f : A → Decoded B)
    → m ≢ overrun
    → ((a : A) → f a ≢ overrun)
    → (m >>= f) ≢ overrun
>>=-ne-overrun (ok a) f hm hf = hf a
>>=-ne-overrun (refused e) f hm hf = λ eq. cc
>>=-ne-overrun overrun f hm hf = absurd (hm refl)

pub peek_header-ne-overrun : (buf : List ℕ) → peek_header buf ≢ overrun
unfolding peek_header
peek_header-ne-overrun buf = ground (arith, run-ne-overrun 6 header_fields buf header_fields-Takes)

-- Behind the header's check a position packet has its fifteen bytes.
position_part :
    (hdr : Header) (buf : List ℕ)
    → (refuse_if (not (is_position hdr.type)) bad_type
        >> (refuse_if (ltb (length buf) position_packet_size) too_short
            >> run (position_fields hdr.uid) (drop header_size buf)))
      ≢ overrun
position_part hdr buf = ground (
  arith,
  length-drop 6 buf,
  run-ne-overrun 15 (position_fields hdr.uid) (drop 6 buf) (position_fields-Takes hdr.uid),
)

decode_position-ne-overrun : (buf : List ℕ) → decode_position buf ≢ overrun
unfolding decode_position
decode_position-ne-overrun buf =
    >>=-ne-overrun (peek_header buf) _ (peek_header-ne-overrun buf) λ hdr. position_part hdr buf

name_part :
    (uid n : ℕ) (buf : List ℕ)
    → (refuse_if (ltb max_name_len n) length_mismatch
        >> (refuse_if (ltb (length buf) (header_size + 1 + n + 4)) too_short
            >> run (announce_fields uid n) (drop (header_size + 1) buf)))
      ≢ overrun
name_part uid n buf = ground (
  arith,
  length-drop 7 buf,
  run-ne-overrun (n + 4) (announce_fields uid n) (drop 7 buf) (announce_fields-Takes uid n),
)

announce_part :
    (hdr : Header) (buf : List ℕ)
    → (refuse_if (is_position hdr.type) bad_type
        >> (refuse_if (ltb (length buf) (header_size + 1)) too_short
            >> (run get_u8 (drop header_size buf) >>= λ n.
                (refuse_if (ltb max_name_len n) length_mismatch
                  >> (refuse_if (ltb (length buf) (header_size + 1 + n + 4)) too_short
                      >> run (announce_fields hdr.uid n) (drop (header_size + 1) buf))))))
      ≢ overrun
announce_part hdr buf = grind (
  arith,
  length-drop 6 buf,
  run-ne-overrun 1 get_u8 (drop 6 buf) get_u8-Takes,
  λ (n : ℕ). name_part hdr.uid n buf,
)

decode_announce-ne-overrun : (buf : List ℕ) → decode_announce buf ≢ overrun
unfolding decode_announce
decode_announce-ne-overrun buf =
    >>=-ne-overrun (peek_header buf) _ (peek_header-ne-overrun buf) λ hdr. announce_part hdr buf

-- Whatever bytes arrive, the decoders of the header and of both kinds of packets read inside of
-- them only.
pub decoders_stay_in_packet :
    (buf : List ℕ)
    → (peek_header buf ≢ overrun)
      × (decode_position buf ≢ overrun)
      × (decode_announce buf ≢ overrun)
decoders_stay_in_packet buf =
    (peek_header-ne-overrun buf, decode_position-ne-overrun buf, decode_announce-ne-overrun buf)
