-- ===== src/Msp/Reply.antt =====
-- lib/ff_core/msp_parser.h: the frames of MSP replies and the reading of a stream.
use formation_flight.Prelude.{
  ℕ, ◌≡◌, ap, List, [], ◌∷◌, ◌++◌, Bool, true, false, ◌&&◌, ltb, leb, if◌then◌else◌, bit_xor, take,
  length, u8, shr,
}
use formation_flight.Msp.{MspParser, msp_crc8_dvb_s2, feed}

-- What a caller reads when `feed` returns true.
pub record Message : Type 0 where
  pub version : ℕ
  pub flag : ℕ
  pub id : ℕ
  pub payload : List ℕ

abbrev pub read_out : MspParser → Message
read_out p = record {
  version = p.version;
  flag = p.flag;
  id = p.id;
  payload = take p.size p.payload;
}

-- The messages that a stream of bytes yields, and the parser behind it.
unfoldable pub messages : MspParser → List ℕ → List Message × MspParser
messages p [] = ([], p)
messages p (b ∷ bs) =
    let (done, p') = feed p b in
    let (rest, last) = messages p' bs in (if done then read_out p' ∷ rest else rest, last)

-- A checksum over a list of bytes.
unfoldable pub fold_crc : (ℕ → ℕ → ℕ) → ℕ → List ℕ → ℕ
fold_crc step crc [] = crc
fold_crc step crc (b ∷ bs) = fold_crc step (step crc b) bs

-- Replies of both versions, the messages they are read as, and their frames: `$M>`, size, id,
-- payload and the exclusive or of those; `$X>`, flag, id and size in little-endian order, payload
-- and CRC-8/DVB-S2 of those.
pub data Reply : Type 0 where
  reply_v1 : ℕ → List ℕ → Reply
  reply_v2 : ℕ → ℕ → List ℕ → Reply

unfoldable pub message_of : Reply → Message
message_of (reply_v1 id payload) = record { version = 1; flag = 0; id = id; payload = payload }
message_of (reply_v2 flag id payload) = record {
  version = 2;
  flag = flag;
  id = id;
  payload = payload;
}

unfoldable pub reply_frame : Reply → List ℕ
unfolding fold_crc
reply_frame (reply_v1 id payload) =
    36
    ∷ 77
    ∷ 62
    ∷ length payload
    ∷ id
    ∷ (payload ++ (fold_crc bit_xor (bit_xor (length payload) id) payload ∷ []))
reply_frame (reply_v2 flag id payload) =
    let n = length payload in
    let header = flag ∷ u8 id ∷ shr id 8 ∷ u8 n ∷ shr n 8 ∷ [] in
    36
    ∷ 88
    ∷ 62
    ∷ (header
        ++ (payload ++ (fold_crc msp_crc8_dvb_s2 (fold_crc msp_crc8_dvb_s2 0 header) payload ∷ [])))

-- The payload fits the parser's buffer, and the id its 16 bits.
unfoldable pub fits : Reply → Bool
fits (reply_v1 id payload) = leb (length payload) 128
fits (reply_v2 flag id payload) = leb (length payload) 128 && ltb id 65536

-- A byte that completes no frame is passed over.
pub messages_skip :
    (p p' : MspParser) (b : ℕ) (bs : List ℕ)
    → feed p b ≡ (false, p')
    → messages p (b ∷ bs) ≡ messages p' bs
unfolding messages
messages_skip p p' b bs e =
    ap
      (λ (r : Bool × MspParser).
        let rest = messages r.1 bs in (if r.0 then read_out r.1 ∷ rest.0 else rest.0, rest.1))
      e

pub messages_done :
    (p p' : MspParser) (b : ℕ) (bs : List ℕ)
    → feed p b ≡ (true, p')
    → messages p (b ∷ bs) ≡ (read_out p' ∷ (messages p' bs).0, (messages p' bs).1)
unfolding messages
messages_done p p' b bs e =
    ap
      (λ (r : Bool × MspParser).
        let rest = messages r.1 bs in (if r.0 then read_out r.1 ∷ rest.0 else rest.0, rest.1))
      e
