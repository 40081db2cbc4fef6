-- ===== src/Ubx/Parts.antt =====
-- lib/ff_core/ubx.cpp: the parser on the parts of a frame.
use formation_flight.Prelude.{
  ℕ, ◌+◌, ◌<◌, ◌≤◌, ◌≡◌, refl, ap, ap₂, ◌∙◌, List, [], ◌∷◌, ◌++◌, Bool, true, false, ◌&&◌, ltb, leb,
  ◌==◌, if◌then◌else◌, bit_or, set, take, length, u8, u16, shl, shr, arith,
}
use formation_flight.Prelude.Bits.{bit_or-disjoint}
use formation_flight.Prelude.Writes.{write_all}
use formation_flight.Ubx.{
  State, sync1, payload_bytes, ck_a_byte, ck_b_byte, UbxParser, checksum_from, store_byte, sum_byte,
  feed_in, feed,
}

-- What a caller reads when `feed` returns true.
pub record Message : Type 0 where
  pub cls : ℕ
  pub id : ℕ
  pub payload : List ℕ

abbrev pub read_out : UbxParser → Message
read_out p = record { cls = p.cls; id = p.id; payload = take p.len p.payload }

-- The messages that a stream of bytes yields, and the parser behind it.
unfoldable pub messages : UbxParser → List ℕ → List Message × UbxParser
messages p [] = ([], p)
messages p (b ∷ bs) =
    let (done, p') = feed p b in
    let (rest, last) = messages p' bs in (if done then read_out p' ∷ rest else rest, last)

messages_step :
    (p p' : UbxParser) (done : Bool) (b : ℕ) (bs : List ℕ)
    → feed p b ≡ (done, p')
    → messages p (b ∷ bs)
      ≡ (if done then read_out p' ∷ (messages p' bs).0 else (messages p' bs).0, (messages p' bs).1)
unfolding messages
messages_step p p' done b bs e =
    ap
      (λ (r : Bool × UbxParser).
        let rest = messages r.1 bs in (if r.0 then read_out r.1 ∷ rest.0 else rest.0, rest.1))
      e

-- The parser behind a header of a payload that fits, with `idx` of its bytes stored.
abbrev pub filling : State → ℕ → ℕ → ℕ → ℕ → ℕ × ℕ → ℕ → List ℕ → UbxParser
filling state cls id len idx sums rx_ck_a payload = record {
  state = state;
  cls = cls;
  id = id;
  len = len;
  idx = idx;
  ck_a = sums.0;
  ck_b = sums.1;
  rx_ck_a = rx_ck_a;
  oversize = false;
  payload = payload;
}

pub header_read :
    (p : UbxParser) (cls id n : ℕ) (xs : List ℕ)
    → n ≤ 128
    → messages (record p { state = sync1 }) (181 ∷ 98 ∷ cls ∷ id ∷ u8 n ∷ u8 (shr n 8) ∷ xs)
      ≡ messages
          (filling
            (if n == 0 then ck_a_byte else payload_bytes)
            cls
            id
            n
            0
            (checksum_from cls cls (id ∷ u8 n ∷ u8 (shr n 8) ∷ []))
            p.rx_ck_a
            p.payload)
          xs
unfolding messages feed feed_in checksum_from sum_byte
header_read p cls id n xs h =
    ap
      (λ (len : ℕ).
        messages
          (record {
            state = if len == 0 then ck_a_byte else payload_bytes;
            cls = cls;
            id = id;
            len = len;
            idx = 0;
            ck_a = (checksum_from cls cls (id ∷ u8 n ∷ u8 (shr n 8) ∷ [])).0;
            ck_b = (checksum_from cls cls (id ∷ u8 n ∷ u8 (shr n 8) ∷ [])).1;
            rx_ck_a = p.rx_ck_a;
            oversize = ltb 128 len;
            payload = p.payload;
          })
          xs)
      whole
    ∙ ap
        (λ (o : Bool).
          messages
            (record (filling (if n == 0 then ck_a_byte else payload_bytes) cls id n 0
              (checksum_from cls cls (id ∷ u8 n ∷ u8 (shr n 8) ∷ [])) p.rx_ck_a p.payload) {
                oversize = o;
              })
            xs)
        small
  where
    high : u8 (shr n 8) ≡ 0
    high = omega arith

    low : u8 n ≡ n
    low = omega arith

    whole : bit_or (u8 n) (u16 (shl (u8 (shr n 8)) 8)) ≡ n
    whole =
        ap₂ (λ lo hi. bit_or lo (u16 (shl hi 8))) low high
        ∙ (bit_or-disjoint 8 n 0 (omega arith) ∙ omega arith)

    small : ltb 128 n ≡ false
    small = ground arith

module _ (cls id len rx_ck_a : ℕ) where
  store_last :
      (idx b : ℕ) (sums : ℕ × ℕ) (ys : List ℕ)
      → len ≡ idx + 1
      → len < 65536
      → feed (filling payload_bytes cls id len idx sums rx_ck_a ys) b ≡ (
        false,
        filling ck_a_byte cls id len len
            (checksum_from sums.0 sums.1 (b ∷ []))
            rx_ck_a
            (set ys idx b),
      )
  unfolding feed feed_in store_byte sum_byte checksum_from
  store_last idx b sums ys e lt =
      ap₂
        (λ (st : State) (i : ℕ). (
          false,
          filling st cls id len i (checksum_from sums.0 sums.1 (b ∷ [])) rx_ck_a (set ys idx b),
        ))
        closes (omega arith)
    where
      closes : (if leb len (u16 (idx + 1)) then ck_a_byte else payload_bytes) ≡ ck_a_byte
      closes = ground arith

  store_more :
      (idx b : ℕ) (sums : ℕ × ℕ) (ys : List ℕ)
      → idx + 1 < len
      → len < 65536
      → feed (filling payload_bytes cls id len idx sums rx_ck_a ys) b ≡ (
        false,
        filling payload_bytes cls id len
            (idx + 1)
            (checksum_from sums.0 sums.1 (b ∷ []))
            rx_ck_a
            (set ys idx b),
      )
  unfolding feed feed_in store_byte sum_byte checksum_from
  store_more idx b sums ys e lt =
      ap₂
        (λ (st : State) (i : ℕ). (
          false,
          filling st cls id len i (checksum_from sums.0 sums.1 (b ∷ [])) rx_ck_a (set ys idx b),
        ))
        stays (omega arith)
    where
      stays : (if leb len (u16 (idx + 1)) then ck_a_byte else payload_bytes) ≡ payload_bytes
      stays = ground arith

  pub payload_read :
      (idx b : ℕ) (sums : ℕ × ℕ) (bs rest ys : List ℕ)
      → len ≡ idx + length (b ∷ bs)
      → len < 65536
      → messages (filling payload_bytes cls id len idx sums rx_ck_a ys) ((b ∷ bs) ++ rest)
        ≡ messages
            (filling ck_a_byte cls id len len
              (checksum_from sums.0 sums.1 (b ∷ bs))
              rx_ck_a
              (write_all ys idx (b ∷ bs)))
            rest
  unfolding write_all checksum_from
  payload_read idx b sums [] rest ys e lt =
      messages_step _ _ false b rest (store_last idx b sums ys e lt)
  payload_read idx b sums (c ∷ bs) rest ys e lt =
      messages_step _ _ false b ((c ∷ bs) ++ rest) (store_more idx b sums ys (omega arith) lt)
      ∙ payload_read (idx + 1) c (checksum_from sums.0 sums.1 (b ∷ [])) bs rest (set ys idx b)
          (omega arith) lt

-- The two sums complete the frame.
pub sums_read :
    (cls id len idx rx_ck_a : ℕ) (sums : ℕ × ℕ) (ys rest : List ℕ)
    → messages (filling ck_a_byte cls id len idx sums rx_ck_a ys) (sums.0 ∷ sums.1 ∷ rest) ≡ (
      record { cls = cls; id = id; payload = take len ys }
          ∷ (messages (filling sync1 cls id len idx sums sums.0 ys) rest).0,
      (messages (filling sync1 cls id len idx sums sums.0 ys) rest).1,
    )
unfolding feed feed_in
sums_read cls id len idx rx_ck_a sums ys rest =
    messages_step _ (filling ck_b_byte cls id len idx sums sums.0 ys) false sums.0 (sums.1 ∷ rest)
      refl
    ∙ messages_step _ (filling sync1 cls id len idx sums sums.0 ys) true sums.1 rest (
        ap (λ (done : Bool). (done, filling sync1 cls id len idx sums sums.0 ys))
          (same sums.0 sums.1))
  where
    same : (a b : ℕ) → (a == a && (b == b && true)) ≡ true
    same a b = ground arith
