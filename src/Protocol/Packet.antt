-- ===== src/Protocol/Packet.antt =====
-- lib/ff_core/protocol.h: the packets' fields, and the readers of protocol.cpp for them.
use formation_flight.Prelude.{ℕ, zero, suc, List, [], ◌∷◌, ◌++◌}
use formation_flight.Wire.{Reader, ◌>>=◌, pure, get_u8, get_u16, get_u32, get_i16, get_i32}

pub data PacketType : Type 0 where
  position announce : PacketType

pub record Header : Type 0 where
  pub version : ℕ
  pub type : PacketType
  pub uid : ℕ

pub record PositionPacket : Type 0 where
  pub uid : ℕ
  pub lat : ℕ
  pub lon : ℕ
  pub alt_m : ℕ
  pub speed_cms : ℕ
  pub course_ddeg : ℕ
  pub flags : ℕ

pub record AnnouncePacket : Type 0 where
  pub uid : ℕ
  pub name : List ℕ
  pub capabilities : ℕ

-- The first three reads of `peekHeader`: version, type, uid.
unfoldable pub header_fields : Reader (ℕ × ℕ × ℕ)
header_fields = do version ← get_u8; type ← get_u8; uid ← get_u32; pure (version, type, uid)

-- The reads of `decodePosition` behind the header.
unfoldable pub position_fields : ℕ → Reader PositionPacket
position_fields uid = do
  lat ← get_i32
  lon ← get_i32
  alt_m ← get_i16
  speed_cms ← get_u16
  course_ddeg ← get_u16
  flags ← get_u8
  pure (record {
    uid = uid;
    lat = lat;
    lon = lon;
    alt_m = alt_m;
    speed_cms = speed_cms;
    course_ddeg = course_ddeg;
    flags = flags;
  })

-- The loop of `decodeAnnounce` that reads `n` bytes of the name.
unfoldable pub name_bytes : ℕ → Reader (List ℕ)
name_bytes zero = pure []
name_bytes (suc n) = do c ← get_u8; rest ← name_bytes n; pure (c ∷ rest)

-- The reads of `decodeAnnounce` behind the name's length. Of the array `name`, the part that is
-- written: the bytes and their terminator.
unfoldable pub announce_fields : ℕ → ℕ → Reader AnnouncePacket
unfolding name_bytes
announce_fields uid name_len = do
  name ← name_bytes name_len
  capabilities ← get_u32
  pure (record { uid = uid; name = name ++ (0 ∷ []); capabilities = capabilities })
