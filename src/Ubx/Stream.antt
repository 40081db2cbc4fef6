-- ===== src/Ubx/Stream.antt =====
-- lib/ff_core/ubx.cpp: streams of built frames.
use formation_flight.Prelude.{
  ℕ, ◌<◌, ◌≤◌, ◌≡◌, refl, sym, ap, ap₂, ◌∙◌, List, [], ◌∷◌, ◌++◌, append_assoc, Bool, true, ◌&&◌,
  ltb, leb, ◌==◌, if◌then◌else◌, length, u8, shr, arith,
}
use mathlib.Core.Path.{subst}
use formation_flight.Prelude.Writes.{write_all, length-write_all, take-written}
use formation_flight.Ubx.{sync1, payload_bytes, ck_a_byte, UbxParser, checksum_from, finish_frame}
use formation_flight.Ubx.Parts.{Message, messages, filling, header_read, payload_read, sums_read}

-- The frames of some messages, as they are built.
unfoldable pub stream : List Message → List ℕ
unfolding finish_frame
stream [] = []
stream (m ∷ ms) = finish_frame m.cls m.id m.payload ++ stream ms

-- Messages of a class of one byte, with payloads that the parser's buffer holds.
abbrev pub all_fit : List Message → Bool
all_fit [] = true
all_fit (m ∷ ms) = (ltb m.cls 256 && leb (length m.payload) 128) && all_fit ms

-- What a frame leaves: its message, and a parser with its buffer that waits for the next one.
record Yields (p : UbxParser) (bytes rest : List ℕ) (m : Message) : Type 0 where
  after : UbxParser
  room : length after.payload ≡ 128
  result : messages p (bytes ++ rest) ≡ (
    m ∷ (messages (record after { state = sync1 }) rest).0,
    (messages (record after { state = sync1 }) rest).1,
  )

-- The sums that the parser has behind a payload.
abbrev sums_of : ℕ → ℕ → ℕ → List ℕ → ℕ × ℕ
sums_of cls id n payload = checksum_from cls cls (id ∷ u8 n ∷ u8 (shr n 8) ∷ payload)

body_read :
    (p : UbxParser) (cls id : ℕ) (payload rest : List ℕ)
    → length p.payload ≡ 128
    → length payload ≤ 128
    → let n = length payload in
      let sums = sums_of cls id n payload in
      Yields
        (record p { state = sync1 })
        (181 ∷ 98 ∷ cls ∷ id ∷ u8 n ∷ u8 (shr n 8) ∷ (payload ++ (sums.0 ∷ sums.1 ∷ [])))
        rest
        (record { cls = cls; id = id; payload = payload })
unfolding checksum_from
body_read p cls id [] rest room h = record {
  after = filling sync1 cls id 0 0 (sums_of cls id 0 []) (sums_of cls id 0 []).0 p.payload;
  room = room;
  result =
      header_read p cls id 0 _ h
      ∙ sums_read cls id 0 0 p.rx_ck_a (sums_of cls id 0 []) p.payload rest;
}
body_read p cls id (b ∷ bs) rest room h =
    let payload = b ∷ bs in
    let n = length payload in
    let sums = sums_of cls id n payload in
    let stored = write_all p.payload 0 payload in
    record {
      after = filling sync1 cls id n n sums sums.0 stored;
      room = length-write_all p.payload 0 payload ∙ room;
      result =
          header_read p cls id n _ h
          ∙ ap
              (λ st.
                messages (filling st cls id n 0 (sums_of cls id n []) p.rx_ck_a p.payload)
                  ((payload ++ (sums.0 ∷ sums.1 ∷ [])) ++ rest))
              (filled n (omega arith))
          ∙ ap
              (messages
                (filling payload_bytes cls id n 0 (sums_of cls id n []) p.rx_ck_a p.payload))
              (append_assoc payload (sums.0 ∷ sums.1 ∷ []) rest)
          ∙ payload_read cls id n p.rx_ck_a 0 b (sums_of cls id n []) bs (sums.0 ∷ sums.1 ∷ rest)
              p.payload (omega arith) (omega arith)
          ∙ sums_read cls id n n p.rx_ck_a sums stored rest
          ∙ ap
              (λ xs. (
                record { cls = cls; id = id; payload = xs }
                    ∷ (messages (filling sync1 cls id n n sums sums.0 stored) rest).0,
                (messages (filling sync1 cls id n n sums sums.0 stored) rest).1,
              ))
              (take-written p.payload payload (omega arith));
    }
  where
    filled : (n : ℕ) → 0 < n → (if n == 0 then ck_a_byte else payload_bytes) ≡ payload_bytes
    filled n h = ground arith

-- A class of one byte enters the sums as it is.
finish_frame-sums_of :
    (cls id : ℕ) (payload : List ℕ)
    → cls < 256
    → let sums = sums_of cls id (length payload) payload in
      finish_frame cls id payload
      ≡ 181
        ∷ 98
        ∷ cls
        ∷ id
        ∷ u8 (length payload)
        ∷ u8 (shr (length payload) 8)
        ∷ (payload ++ (sums.0 ∷ sums.1 ∷ []))
unfolding finish_frame checksum_from
finish_frame-sums_of cls id payload h =
    ap₂
      (λ (a b : ℕ).
        let sums =
          checksum_from a b (id ∷ u8 (length payload) ∷ u8 (shr (length payload) 8) ∷ payload) in
        181
        ∷ 98
        ∷ cls
        ∷ id
        ∷ u8 (length payload)
        ∷ u8 (shr (length payload) 8)
        ∷ (payload ++ (sums.0 ∷ sums.1 ∷ [])))
      (omega arith) (omega arith)

Yields-finish_frame :
    (p : UbxParser) (m : Message) (rest : List ℕ)
    → length p.payload ≡ 128
    → m.cls < 256
    → length m.payload ≤ 128
    → Yields (record p { state = sync1 }) (finish_frame m.cls m.id m.payload) rest m
Yields-finish_frame p m rest room c h =
    subst (λ bytes. Yields (record p { state = sync1 }) bytes rest m)
      (sym (finish_frame-sums_of m.cls m.id m.payload c))
      (body_read p m.cls m.id m.payload rest room h)

both : (a b : Bool) → a && b ≡ true → (a ≡ true) × (b ≡ true)
both a b h = ground arith

read_all :
    (p : UbxParser) (ms : List Message)
    → length p.payload ≡ 128
    → all_fit ms ≡ true
    → (messages (record p { state = sync1 }) (stream ms)).0 ≡ ms
unfolding messages stream
read_all p [] room fit = refl
read_all p (m ∷ ms) room fit =
    let (mine, others) = both (ltb m.cls 256 && leb (length m.payload) 128) (all_fit ms) fit in
    let (cls_fits, payload_fits) = both (ltb m.cls 256) (leb (length m.payload) 128) mine in
    let y =
      Yields-finish_frame p m (stream ms) room (ground (arith, cls_fits))
        (ground (arith, payload_fits)) in
    ap (λ (r : List Message × UbxParser). r.0) y.result
    ∙ ap (λ rest. m ∷ rest) (read_all y.after ms y.room others)

-- From a parser that waits for a frame, with its buffer of 128 bytes and whatever is in it: the
-- frames of any messages whose class is a byte and whose payload has at most 128 bytes, one after
-- another as the builders finish them, are read as just these messages.
pub ubx_messages-stream :
    (p : UbxParser) (ms : List Message)
    → length p.payload ≡ 128
    → p.state ≡ sync1
    → all_fit ms ≡ true
    → (messages p (stream ms)).0 ≡ ms
ubx_messages-stream p ms room waits fit =
    ap (λ st. (messages (record p { state = st }) (stream ms)).0) waits ∙ read_all p ms room fit
