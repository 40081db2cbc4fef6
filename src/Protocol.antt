-- ===== src/Protocol.antt =====
-- lib/ff_core/protocol.h and protocol.cpp: the packets that nodes exchange in the clear.
--
-- A pointer with its length is the list of those bytes. An encoder yields the bytes that it writes,
-- and the empty list where it returns 0. A decoder yields the packet, the reason for refusing it,
-- or `overrun` where it would read outside of the buffer. A `char` array is the list of its bytes.
mod Packet
pub mod Announce
pub mod Bounds
pub mod Roundtrip
unfoldable pub use Packet.*
use formation_flight.Prelude.{
  ℕ, zero, suc, ◌+◌, List, [], ◌∷◌, ◌++◌, none, some, Bool, true, false, not, ◌&&◌, ltb, ◌==◌,
  if◌then◌else◌, length, take, drop, u8,
}
use formation_flight.Wire.{Reader, put_u8, put_u16, put_u32, put_i16, put_i32, get_u8}

abbrev pub protocol_version : ℕ
protocol_version = 2

abbrev pub header_size : ℕ
header_size = 6

abbrev pub position_packet_size : ℕ
position_packet_size = 21

abbrev pub max_name_len : ℕ
max_name_len = 15

-- The enumerators' values, and the cast back, which the source makes only for these two.
abbrev pub type_code : PacketType → ℕ
type_code position = 1
type_code announce = 2

abbrev pub type_of_code : ℕ → PacketType
type_of_code c = if c == 1 then position else announce

abbrev pub is_position : PacketType → Bool
is_position position = true
is_position announce = false

pub data DecodeError : Type 0 where
  too_short bad_version bad_type length_mismatch : DecodeError

pub data Decoded {ℓ} (A : Type ℓ) : Type ℓ where
  ok : A → Decoded A
  refused : DecodeError → Decoded A
  overrun : Decoded A

infixl 5 ◌>>=◌ ◌>>◌
abbrev pub ◌>>=◌ {ℓ κ} : {A : Type ℓ} {B : Type κ} → Decoded A → (A → Decoded B) → Decoded B
ok a >>= f = f a
refused e >>= f = refused e
overrun >>= f = overrun

abbrev pub ◌>>◌ {ℓ} : {B : Type ℓ} → Decoded (Unit {0}) → Decoded B → Decoded B
m >> k = m >>= λ _. k

abbrev pub refuse_if : Bool → DecodeError → Decoded (Unit {0})
refuse_if true e = refused e
refuse_if false e = ok tt

-- A run of a reader at a cursor, whose rest is not looked at.
abbrev pub run : {A : Type 0} → Reader A → List ℕ → Decoded A
run r bs = elim (r bs) [ none ↦ overrun | some (a, rest) ↦ ok a ]

unfoldable pub write_header : PacketType → ℕ → List ℕ
write_header type uid = put_u8 protocol_version ++ (put_u8 (type_code type) ++ put_u32 uid)

-- Counting stops at the terminator, or after `max_len` bytes.
unfoldable pub bounded_len : List ℕ → ℕ → ℕ
bounded_len [] max_len = 0
bounded_len (c ∷ s) zero = 0
bounded_len (c ∷ s) (suc max_len) = if c == 0 then 0 else suc (bounded_len s max_len)

-- The bytes of a position packet behind its header.
unfoldable pub position_payload : PositionPacket → List ℕ
position_payload p =
    put_i32 p.lat
    ++ (put_i32 p.lon
        ++ (put_i16 p.alt_m ++ (put_u16 p.speed_cms ++ (put_u16 p.course_ddeg ++ put_u8 p.flags))))

unfoldable pub encode_position : PositionPacket → ℕ → List ℕ
encode_position p buf_len =
    if ltb buf_len position_packet_size
    then []
    else write_header position p.uid ++ position_payload p

unfoldable pub encode_announce : AnnouncePacket → ℕ → List ℕ
encode_announce a buf_len =
    let name_len = bounded_len a.name max_name_len in
    if ltb buf_len (header_size + 1 + name_len + 4)
    then []
    else write_header announce a.uid
      ++ (put_u8 (u8 name_len) ++ (take name_len a.name ++ put_u32 a.capabilities))

unfoldable pub peek_header : List ℕ → Decoded Header
peek_header buf = do
  refuse_if (ltb (length buf) header_size) too_short
  fields ← run header_fields buf
  refuse_if (not (fields.0 == protocol_version)) bad_version
  refuse_if (not (fields.1 == 1) && not (fields.1 == 2)) bad_type
  ok (record { version = fields.0; type = type_of_code fields.1; uid = fields.2 })

unfoldable pub decode_position : List ℕ → Decoded PositionPacket
decode_position buf = do
  hdr ← peek_header buf
  refuse_if (not (is_position hdr.type)) bad_type
  refuse_if (ltb (length buf) position_packet_size) too_short
  run (position_fields hdr.uid) (drop header_size buf)

unfoldable pub decode_announce : List ℕ → Decoded AnnouncePacket
decode_announce buf = do
  hdr ← peek_header buf
  refuse_if (is_position hdr.type) bad_type
  refuse_if (ltb (length buf) (header_size + 1)) too_short
  name_len ← run get_u8 (drop header_size buf)
  refuse_if (ltb max_name_len name_len) length_mismatch
  refuse_if (ltb (length buf) (header_size + 1 + name_len + 4)) too_short
  run (announce_fields hdr.uid name_len) (drop (header_size + 1) buf)
