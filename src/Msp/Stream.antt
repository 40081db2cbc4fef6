-- ===== src/Msp/Stream.antt =====
-- lib/ff_core/msp_parser.cpp: the parser on a stream of valid frames.
use formation_flight.Prelude.{
  ℕ, ◌*◌, ◌^◌, ◌<◌, ◌≤◌, ◌≡◌, refl, ap, ap₂, ◌∙◌, List, [], ◌∷◌, ◌++◌, map, append_assoc, Bool,
  true, false, ◌&&◌, ltb, ◌==◌, if◌then◌else◌, bit_or, length, shl, u8, u16, shr, arith,
}
use formation_flight.Prelude.Bits.{bit_or-disjoint}
use formation_flight.Msp.{
  State, idle, v2_payload, v2_crc, MspParser, msp_crc8_dvb_s2, store_byte, feed_in, feed,
}
use formation_flight.Msp.Reply.{
  Reply, reply_v1, reply_v2, messages, fold_crc, message_of, reply_frame, fits,
}
use formation_flight.Prelude.Writes.{write_all, length-write_all, take-written}
use formation_flight.Msp.Payload.{nonempty_state, filling, payload_end}
use formation_flight.Msp.Yields.{both, Yields, crc_end, Yields-reply_v1}

-- Two bytes in little-endian order give their word back.
word_of_bytes : (w : ℕ) → w < 65536 → bit_or (u8 w) (u16 (shl (shr w 8) 8)) ≡ w
word_of_bytes w h = rw high (bit_or-disjoint 8 (u8 w) (shr w 8) (omega arith) ∙ omega arith)
  where
    high : u16 (shl (shr w 8) 8) ≡ shr w 8 * 2 ^ 8
    high = omega arith

v2_header :
    (p : MspParser) (n id flag : ℕ) (xs : List ℕ)
    → n ≤ 128
    → id < 65536
    → messages
        (record p { state = idle })
        (36 ∷ 88 ∷ 62 ∷ flag ∷ u8 id ∷ shr id 8 ∷ u8 n ∷ shr n 8 ∷ xs)
      ≡ messages
          (filling
            (if n == 0 then v2_crc else v2_payload)
            2
            n
            id
            flag
            0
            (fold_crc msp_crc8_dvb_s2 0 (flag ∷ u8 id ∷ shr id 8 ∷ u8 n ∷ shr n 8 ∷ []))
            p.payload)
          xs
unfolding messages feed feed_in fold_crc
v2_header p n id flag xs h k =
    ap₂
      (λ (size : ℕ) (i : ℕ).
        messages
          (record {
            state = if size == 0 then v2_crc else v2_payload;
            version = 2;
            size = size;
            id = i;
            flag = flag;
            idx = 0;
            crc = fold_crc msp_crc8_dvb_s2 0 (flag ∷ u8 id ∷ shr id 8 ∷ u8 n ∷ shr n 8 ∷ []);
            oversize = ltb 128 size;
            payload = p.payload;
          })
          xs)
      (word_of_bytes n (omega arith)) (word_of_bytes id k)
    ∙ ap
        (λ (o : Bool).
          messages
            (record {
              state = if n == 0 then v2_crc else v2_payload;
              version = 2;
              size = n;
              id = id;
              flag = flag;
              idx = 0;
              crc = fold_crc msp_crc8_dvb_s2 0 (flag ∷ u8 id ∷ shr id 8 ∷ u8 n ∷ shr n 8 ∷ []);
              oversize = o;
              payload = p.payload;
            })
            xs)
        small
  where
    small : ltb 128 n ≡ false
    small = ground arith

inside_v2 :
    (v size id flag idx crc b : ℕ) (ys : List ℕ)
    → feed (filling v2_payload v size id flag idx crc ys) b ≡ (
      false,
      store_byte v2_crc (msp_crc8_dvb_s2 crc b) (filling v2_payload v size id flag idx crc ys) b,
    )
unfolding feed feed_in
inside_v2 v size id flag idx crc b ys = refl

Yields-reply_v2 :
    (p : MspParser) (flag id : ℕ) (payload rest : List ℕ)
    → length p.payload ≡ 128
    → length payload ≤ 128
    → id < 65536
    → Yields
        (record p { state = idle })
        (reply_frame (reply_v2 flag id payload))
        rest
        (message_of (reply_v2 flag id payload))
unfolding reply_frame message_of feed feed_in
Yields-reply_v2 p flag id [] rest room h k =
    let crc = fold_crc msp_crc8_dvb_s2 0 (flag ∷ u8 id ∷ shr id 8 ∷ u8 0 ∷ shr 0 8 ∷ []) in
    crc_end v2_crc 2 0 id flag crc p.payload [] rest (λ q b. refl) room refl _ _
      (v2_header p 0 id flag (crc ∷ rest) h k)
Yields-reply_v2 p flag id (b ∷ bs) rest room h k =
    let n = length (b ∷ bs) in
    let start = fold_crc msp_crc8_dvb_s2 0 (flag ∷ u8 id ∷ shr id 8 ∷ u8 n ∷ shr n 8 ∷ []) in
    let crc = fold_crc msp_crc8_dvb_s2 start (b ∷ bs) in
    crc_end v2_crc 2 n id flag crc (write_all p.payload 0 (b ∷ bs)) (b ∷ bs) rest (λ q c. refl)
      (length-write_all p.payload 0 (b ∷ bs) ∙ room) (take-written p.payload (b ∷ bs) (omega arith))
      _ _
      (v2_header p n id flag _ h k
        ∙ ap₂ (λ st xs. messages (filling st 2 n id flag 0 start p.payload) xs)
            (nonempty_state n v2_crc v2_payload (omega arith))
            (append_assoc (b ∷ bs) (crc ∷ []) rest)
        ∙ payload_end v2_payload v2_crc msp_crc8_dvb_s2 inside_v2 2 n id flag 0 start b bs
            (crc ∷ rest) p.payload (omega arith) (omega arith))

Yields-reply_frame :
    (p : MspParser) (r : Reply) (rest : List ℕ)
    → length p.payload ≡ 128
    → fits r ≡ true
    → Yields (record p { state = idle }) (reply_frame r) rest (message_of r)
unfolding fits
Yields-reply_frame p (reply_v1 id payload) rest room h =
    Yields-reply_v1 p id payload rest room (ground arith)
Yields-reply_frame p (reply_v2 flag id payload) rest room h =
    Yields-reply_v2 p flag id payload rest room (ground arith) (ground arith)

unfoldable pub all_fit : List Reply → Bool
all_fit [] = true
all_fit (r ∷ rs) = let others = all_fit rs in fits r && others

unfoldable pub stream : List Reply → List ℕ
stream [] = []
stream (r ∷ rs) = reply_frame r ++ stream rs

-- From any idle parser with its buffer of 128 bytes, a stream of replies of either version, whose
-- payloads fit the buffer and whose ids are 16-bit words, is read as these messages: each once, in
-- order, and no other.
pub messages-stream :
    (p : MspParser) (rs : List Reply)
    → p.state ≡ idle
    → length p.payload ≡ 128
    → all_fit rs ≡ true
    → (messages p (stream rs)).0 ≡ map message_of rs
unfolding messages all_fit stream
messages-stream p [] i room h = refl
messages-stream p (r ∷ rs) i room h =
    let (one, others) = both (fits r) (all_fit rs) h in
    let y = Yields-reply_frame p r (stream rs) room one in
    ap (λ (st : State). (messages (record p { state = st }) (reply_frame r ++ stream rs)).0) i
    ∙ ap (λ t. t.0) y.result
    ∙ ap (λ ms. message_of r ∷ ms) (messages-stream y.after rs y.idles y.room others)
