-- ===== src/Msp/Yields.antt =====
-- lib/ff_core/msp_parser.cpp: the parser on a reply of version 1.
use formation_flight.Prelude.{
  ℕ, ◌≤◌, ◌≡◌, refl, ap, ap₂, ◌∙◌, List, [], ◌∷◌, ◌++◌, append_assoc, Bool, true, false, not, ◌&&◌,
  ltb, ◌==◌, if◌then◌else◌, bit_xor, take, length, arith,
}
use formation_flight.Msp.{State, idle, v1_payload, v1_crc, MspParser, store_byte, feed_in, feed}
use formation_flight.Msp.Reply.{
  Message, reply_v1, messages, fold_crc, message_of, reply_frame, messages_done,
}
use formation_flight.Prelude.Writes.{write_all, length-write_all, take-written}
use formation_flight.Msp.Payload.{nonempty_state, filling, payload_end}

pub both : (a b : Bool) → a && b ≡ true → (a ≡ true) × (b ≡ true)
both a b h = ground arith

-- What a frame leaves: its message, and an idle parser with its buffer for the bytes that follow.
pub record Yields (p : MspParser) (bytes rest : List ℕ) (m : Message) : Type 0 where
  pub after : MspParser
  pub idles : after.state ≡ idle
  pub room : length after.payload ≡ 128
  pub result : messages p (bytes ++ rest) ≡ (m ∷ (messages after rest).0, (messages after rest).1)

v1_header :
    (p : MspParser) (n id : ℕ) (xs : List ℕ)
    → n ≤ 128
    → messages (record p { state = idle }) (36 ∷ 77 ∷ 62 ∷ n ∷ id ∷ xs)
      ≡ messages
          (filling (if n == 0 then v1_crc else v1_payload) 1 n id 0 0 (bit_xor n id) p.payload)
          xs
unfolding messages feed feed_in
v1_header p n id xs h =
    ap
      (λ (o : Bool).
        messages
          (record {
            state = if n == 0 then v1_crc else v1_payload;
            version = 1;
            size = n;
            id = id;
            flag = 0;
            idx = 0;
            crc = bit_xor n id;
            oversize = o;
            payload = p.payload;
          })
          xs)
      small
  where
    small : ltb 128 n ≡ false
    small = ground arith

same_byte : (b : ℕ) → (b == b && true) ≡ true
same_byte b = ground arith

-- The checksum completes the frame, and the stored bytes are the payload.
pub crc_end :
    (here : State) (v size id flag crc : ℕ) (ys payload rest : List ℕ)
    → ((q : MspParser) (b : ℕ)
        → feed (record q { state = here }) b
          ≡ (b == q.crc && not q.oversize, record q { state = idle }))
    → length ys ≡ 128
    → take size ys ≡ payload
    → (p : MspParser) (bytes : List ℕ)
    → messages p (bytes ++ rest) ≡ messages (filling here v size id flag size crc ys) (crc ∷ rest)
    → Yields p bytes rest (record { version = v; flag = flag; id = id; payload = payload })
crc_end here v size id flag crc ys payload rest h room stored p bytes led =
    let after = filling idle v size id flag size crc ys in
    let before = filling here v size id flag size crc ys in
    let completes : feed before crc ≡ (true, after) =
      h before crc ∙ ap (λ (r : Bool). (r, after)) (same_byte crc) in
    record {
      after = after;
      idles = refl;
      room = room;
      result =
          led
          ∙ messages_done before after crc rest completes
          ∙ ap
              (λ xs. (
                record { version = v; flag = flag; id = id; payload = xs }
                    ∷ (messages after rest).0,
                (messages after rest).1,
              ))
              stored;
    }

inside_v1 :
    (v size id flag idx crc b : ℕ) (ys : List ℕ)
    → feed (filling v1_payload v size id flag idx crc ys) b
      ≡ (false, store_byte v1_crc (bit_xor crc b) (filling v1_payload v size id flag idx crc ys) b)
unfolding feed feed_in
inside_v1 v size id flag idx crc b ys = refl

pub Yields-reply_v1 :
    (p : MspParser) (id : ℕ) (payload rest : List ℕ)
    → length p.payload ≡ 128
    → length payload ≤ 128
    → Yields
        (record p { state = idle })
        (reply_frame (reply_v1 id payload))
        rest
        (message_of (reply_v1 id payload))
unfolding reply_frame message_of fold_crc feed feed_in
Yields-reply_v1 p id [] rest room h =
    crc_end v1_crc 1 0 id 0 (bit_xor 0 id) p.payload [] rest (λ q b. refl) room refl _ _
      (v1_header p 0 id _ h)
Yields-reply_v1 p id (b ∷ bs) rest room h =
    let n = length (b ∷ bs) in
    let crc = fold_crc bit_xor (bit_xor n id) (b ∷ bs) in
    crc_end v1_crc 1 n id 0 crc (write_all p.payload 0 (b ∷ bs)) (b ∷ bs) rest (λ q c. refl)
      (length-write_all p.payload 0 (b ∷ bs) ∙ room) (take-written p.payload (b ∷ bs) (omega arith))
      _ _
      (v1_header p n id _ h
        ∙ ap₂ (λ st xs. messages (filling st 1 n id 0 0 (bit_xor n id) p.payload) xs)
            (nonempty_state n v1_crc v1_payload (omega arith))
            (append_assoc (b ∷ bs) (crc ∷ []) rest)
        ∙ payload_end v1_payload v1_crc bit_xor inside_v1 1 n id 0 0 (bit_xor n id) b bs
            (crc ∷ rest) p.payload (omega arith) (omega arith))
