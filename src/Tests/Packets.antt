-- ===== src/Tests/Packets.antt =====
-- lib/ff_core/protocol.cpp on packets with values at the edges of their widths.
use formation_flight.Prelude.{◌≡◌, refl, [], ◌∷◌, ◌++◌, arith}
use formation_flight.Wire.{put_u8, put_u32, put_i32, put_i16, get_u8, get_u32}
use formation_flight.Protocol.{
  PositionPacket, AnnouncePacket, ok, refused, too_short, bad_version, bad_type, length_mismatch,
  write_header, position_payload, peek_header, header_fields, bounded_len, encode_position,
  encode_announce, decode_position, decode_announce,
}
use formation_flight.Protocol.Roundtrip.{decode_position-encode_position}
use formation_flight.Protocol.Announce.{decode_announce-encode_announce}

abbrev south_west : PositionPacket
south_west = record {
  uid = 0xdeadbeef;
  lat = 0xfeb12345;
  lon = 0x80000000;
  alt_m = 0xffff;
  speed_cms = 1500;
  course_ddeg = 3599;
  flags = 3;
}

abbrev wing : AnnouncePacket
wing = record { uid = 7; name = b'w' ∷ b'i' ∷ b'n' ∷ b'g' ∷ 0 ∷ 9 ∷ []; capabilities = 0x80000003 }

encode_position_bytes :
    encode_position south_west 64
    ≡ 2 ∷ 1 ∷ 0xef ∷ 0xbe ∷ 0xad ∷ 0xde ∷ 0x45 ∷ 0x23 ∷ 0xb1 ∷ 0xfe ∷ 0 ∷ 0 ∷ 0 ∷ 0x80 ∷ 0xff ∷ 0xff
      ∷ 0xdc ∷ 5 ∷ 0x0f ∷ 0x0e ∷ 3 ∷ []
unfolding encode_position write_header put_u8 put_u32 position_payload put_i32 put_i16
encode_position_bytes = refl

no_room : encode_position south_west 20 ≡ []
unfolding encode_position
no_room = refl

refusals :
    (decode_position (2 ∷ 1 ∷ 0 ∷ []) ≡ refused too_short)
    × (decode_position (1 ∷ 1 ∷ 0 ∷ 0 ∷ 0 ∷ 0 ∷ []) ≡ refused bad_version)
    × (decode_position (2 ∷ 2 ∷ 0 ∷ 0 ∷ 0 ∷ 0 ∷ []) ≡ refused bad_type)
    × (decode_announce (2 ∷ 2 ∷ 0 ∷ 0 ∷ 0 ∷ 0 ∷ 16 ∷ []) ≡ refused length_mismatch)
unfolding decode_position decode_announce peek_header header_fields get_u8 get_u32
refusals = (refl, refl, refl, refl)

decode_position-encode_position_example :
    decode_position (encode_position south_west 64 ++ (1 ∷ 2 ∷ [])) ≡ ok south_west
decode_position-encode_position_example =
    decode_position-encode_position south_west 64 (1 ∷ 2 ∷ []) (omega arith) (omega arith)

decode_announce-encode_announce_example :
    decode_announce (encode_announce wing 64 ++ [])
    ≡ ok (record wing { name = b'w' ∷ b'i' ∷ b'n' ∷ b'g' ∷ 0 ∷ [] })
unfolding bounded_len
decode_announce-encode_announce_example =
    decode_announce-encode_announce wing 64 [] (omega arith) (omega arith) (omega arith)
