-- ===== src/Protocol/Roundtrip.antt =====
-- lib/ff_core/protocol.cpp: position packets, encoded and decoded.
use formation_flight.Prelude.{
  ℕ, ◌≤◌, ◌≡◌, refl, List, ◌++◌, some, arith, length, length-append, drop, append_assoc, IsByte,
  IsWord16, IsWord32,
}
use formation_flight.Wire.{
  >>=-eq_of_some, put_u8, put_u16, put_u32, put_i16, put_i32, get_u8, get_u16, get_u32, get_i16,
  get_i32,
}
use formation_flight.Wire.Roundtrip.{
  get_u8-put_u8, get_u16-put_u16, get_u32-put_u32, get_i16-put_i16, get_i32-put_i32,
}
use formation_flight.Protocol.{
  PacketType, position, announce, PositionPacket, ok, position_packet_size, protocol_version,
  type_code, write_header, position_payload, header_fields, position_fields, encode_position,
  peek_header, decode_position,
}

-- The fields fit the widths that the struct gives them.
pub record IsPosition (p : PositionPacket) : Type 0 where
  pub uid : IsWord32 p.uid
  pub lat : IsWord32 p.lat
  pub lon : IsWord32 p.lon
  pub alt_m : IsWord16 p.alt_m
  pub speed_cms : IsWord16 p.speed_cms
  pub course_ddeg : IsWord16 p.course_ddeg
  pub flags : IsByte p.flags

position_fields-payload :
    (p : PositionPacket) (rest : List ℕ)
    → IsPosition p
    → position_fields p.uid (position_payload p ++ rest) ≡ some (p, rest)
unfolding position_fields position_payload
position_fields-payload p rest v = simp append_assoc (
    >>=-eq_of_some get_i32 _ (get_i32-put_i32 p.lat _ v.lat) (
      >>=-eq_of_some get_i32 _ (get_i32-put_i32 p.lon _ v.lon) (
        >>=-eq_of_some get_i16 _ (get_i16-put_i16 p.alt_m _ v.alt_m) (
          >>=-eq_of_some get_u16 _ (get_u16-put_u16 p.speed_cms _ v.speed_cms) (
            >>=-eq_of_some get_u16 _ (get_u16-put_u16 p.course_ddeg _ v.course_ddeg)
              (>>=-eq_of_some get_u8 _ (get_u8-put_u8 p.flags rest) refl))))))

header_fields-write_header :
    (type : PacketType) (uid : ℕ) (rest : List ℕ)
    → IsWord32 uid
    → header_fields (write_header type uid ++ rest)
      ≡ some ((protocol_version, type_code type, uid), rest)
unfolding header_fields write_header
header_fields-write_header type uid rest h = simp append_assoc (
    >>=-eq_of_some get_u8 _ (get_u8-put_u8 _ _) (
      >>=-eq_of_some get_u8 _ (get_u8-put_u8 _ _)
        (>>=-eq_of_some get_u32 _ (get_u32-put_u32 uid rest h) refl)))

pub length-write_header : (type : PacketType) (uid : ℕ) → length (write_header type uid) ≡ 6
unfolding write_header put_u8 put_u32
length-write_header type uid = refl

pub drop-write_header :
    (type : PacketType) (uid : ℕ) (rest : List ℕ) → drop 6 (write_header type uid ++ rest) ≡ rest
unfolding write_header put_u8 put_u32
drop-write_header type uid rest = refl

pub length-position_payload : (p : PositionPacket) → length (position_payload p) ≡ 15
unfolding position_payload put_u8 put_u16 put_i16 put_i32
length-position_payload p = refl

pub peek_header-write_header :
    (type : PacketType) (uid : ℕ) (rest : List ℕ)
    → IsWord32 uid
    → peek_header (write_header type uid ++ rest)
      ≡ ok (record { version = protocol_version; type = type; uid = uid })
unfolding peek_header
peek_header-write_header position uid rest h = ground (
  arith,
  length-append (write_header position uid) rest,
  length-write_header position uid,
  header_fields-write_header position uid rest h,
)
peek_header-write_header announce uid rest h = ground (
  arith,
  length-append (write_header announce uid) rest,
  length-write_header announce uid,
  header_fields-write_header announce uid rest h,
)

-- A position packet that is encoded into a buffer with room for it is decoded to itself, whatever
-- stands behind it.
pub decode_position-encode_position :
    (p : PositionPacket) (buf_len : ℕ) (rest : List ℕ)
    → IsPosition p
    → position_packet_size ≤ buf_len
    → decode_position (encode_position p buf_len ++ rest) ≡ ok p
unfolding decode_position encode_position
decode_position-encode_position p buf_len rest v room =
    let body = position_payload p ++ rest in
    ground (
      arith,
      append_assoc (write_header position p.uid) (position_payload p) rest,
      peek_header-write_header position p.uid body v.uid,
      length-append (write_header position p.uid) body,
      length-append (position_payload p) rest,
      length-write_header position p.uid,
      length-position_payload p,
      drop-write_header position p.uid body,
      position_fields-payload p rest v,
    )
