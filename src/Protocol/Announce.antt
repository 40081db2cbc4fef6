-- ===== src/Protocol/Announce.antt =====
-- lib/ff_core/protocol.cpp: the round trip of an announce packet.
use formation_flight.Prelude.{
  ℕ, zero, suc, ◌+◌, ◌≤◌, ◌≡◌, refl, List, [], ◌∷◌, ◌++◌, some, arith, length, length-append,
  length-take, append_assoc, take, drop, IsWord32,
}
use formation_flight.Wire.{>>=-eq_of_some, put_u8, put_u32, get_u8, get_u32}
use formation_flight.Wire.Roundtrip.{get_u32-put_u32}
use formation_flight.Protocol.{
  announce, AnnouncePacket, ok, max_name_len, header_size, write_header, bounded_len, name_bytes,
  announce_fields, encode_announce, decode_announce,
}
use formation_flight.Protocol.Roundtrip.{
  peek_header-write_header, length-write_header, drop-write_header,
}

-- The C string in an array: the bytes before the terminator, cut at the longest name.
abbrev pub c_string : List ℕ → List ℕ
c_string s = take (bounded_len s max_name_len) s

pub bounded_len-le : (s : List ℕ) (n : ℕ) → bounded_len s n ≤ n
unfolding bounded_len
bounded_len-le [] n = omega arith
bounded_len-le (c ∷ s) zero = omega arith
bounded_len-le (c ∷ s) (suc n) = ground (arith, bounded_len-le s n)

pub bounded_len-le_length : (s : List ℕ) (n : ℕ) → bounded_len s n ≤ length s
unfolding bounded_len
bounded_len-le_length [] n = omega arith
bounded_len-le_length (c ∷ s) zero = omega arith
bounded_len-le_length (c ∷ s) (suc n) = ground (arith, bounded_len-le_length s n)

name_bytes-append :
    (name rest : List ℕ) → name_bytes (length name) (name ++ rest) ≡ some (name, rest)
unfolding name_bytes get_u8
name_bytes-append [] rest = refl
name_bytes-append (c ∷ name) rest =
    >>=-eq_of_some (name_bytes (length name)) _ (name_bytes-append name rest) refl

length-c_string : (s : List ℕ) → length (c_string s) ≡ bounded_len s max_name_len
length-c_string s =
    omega (arith, length-take (bounded_len s max_name_len) s, bounded_len-le_length s max_name_len)

announce_fields-name :
    (uid capabilities : ℕ) (name rest : List ℕ)
    → IsWord32 capabilities
    → announce_fields uid (length name) (name ++ (put_u32 capabilities ++ rest))
      ≡ some (record { uid = uid; name = name ++ (0 ∷ []); capabilities = capabilities }, rest)
unfolding announce_fields
announce_fields-name uid capabilities name rest h =
    >>=-eq_of_some (name_bytes (length name)) _ (name_bytes-append name _)
      (>>=-eq_of_some get_u32 _ (get_u32-put_u32 capabilities rest h) refl)

length-put_u32 : (v : ℕ) → length (put_u32 v) ≡ 4
unfolding put_u32
length-put_u32 v = refl

drop_header_and_length :
    (uid n : ℕ) (rest : List ℕ) → drop 7 (write_header announce uid ++ (n ∷ rest)) ≡ rest
unfolding write_header put_u8 put_u32
drop_header_and_length uid n rest = refl

decode_announce_bytes :
    (uid capabilities : ℕ) (name rest : List ℕ)
    → IsWord32 uid
    → IsWord32 capabilities
    → length name ≤ max_name_len
    → decode_announce
        (write_header announce uid ++ (length name ∷ (name ++ (put_u32 capabilities ++ rest))))
      ≡ ok (record { uid = uid; name = name ++ (0 ∷ []); capabilities = capabilities })
unfolding decode_announce get_u8
decode_announce_bytes uid capabilities name rest hu hc fits =
    let tail = name ++ (put_u32 capabilities ++ rest) in
    ground (
      arith,
      peek_header-write_header announce uid (length name ∷ tail) hu,
      length-append (write_header announce uid) (length name ∷ tail),
      length-append name (put_u32 capabilities ++ rest),
      length-append (put_u32 capabilities) rest,
      length-put_u32 capabilities,
      length-write_header announce uid,
      drop-write_header announce uid (length name ∷ tail),
      drop_header_and_length uid (length name) tail,
      announce_fields-name uid capabilities name rest hc,
    )

encode_announce_bytes :
    (a : AnnouncePacket) (buf_len : ℕ) (rest : List ℕ)
    → header_size + 1 + bounded_len a.name max_name_len + 4 ≤ buf_len
    → encode_announce a buf_len ++ rest
      ≡ write_header announce a.uid
        ++ (length (c_string a.name) ∷ (c_string a.name ++ (put_u32 a.capabilities ++ rest)))
unfolding encode_announce put_u8
encode_announce_bytes a buf_len rest room = ground (
  arith,
  length-c_string a.name,
  bounded_len-le a.name max_name_len,
  append_assoc (write_header announce a.uid)
      (length (c_string a.name) ∷ (c_string a.name ++ put_u32 a.capabilities)) rest,
  append_assoc (c_string a.name) (put_u32 a.capabilities) rest,
)

-- An announce packet that fits its buffer is decoded to the sender's uid, its name as a terminated
-- string of at most fifteen bytes, and its capabilities, whatever stands behind it.
pub decode_announce-encode_announce :
    (a : AnnouncePacket) (buf_len : ℕ) (rest : List ℕ)
    → IsWord32 a.uid
    → IsWord32 a.capabilities
    → header_size + 1 + bounded_len a.name max_name_len + 4 ≤ buf_len
    → decode_announce (encode_announce a buf_len ++ rest)
      ≡ ok (record a { name = c_string a.name ++ (0 ∷ []) })
decode_announce-encode_announce a buf_len rest hu hc room =
    rw (encode_announce_bytes a buf_len rest room) (
      decode_announce_bytes a.uid a.capabilities (c_string a.name) rest hu hc
        (omega (arith, length-c_string a.name, bounded_len-le a.name max_name_len)))
