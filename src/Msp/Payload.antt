-- ===== src/Msp/Payload.antt =====
-- lib/ff_core/msp_parser.cpp: the bytes of a payload, stored one after another.
use formation_flight.Prelude.{
  ℕ, ◌+◌, ◌<◌, ◌≡◌, ap, ap₂, ◌∙◌, List, [], ◌∷◌, ◌++◌, false, leb, ◌==◌, if◌then◌else◌, set, length,
  u16, arith,
}
use formation_flight.Prelude.Writes.{write_all}
use formation_flight.Msp.{State, MspParser, store_byte, feed}
use formation_flight.Msp.Reply.{messages, fold_crc, messages_skip}

pub nonempty_state :
    (n : ℕ) (empty filled : State) → 0 < n → (if n == 0 then empty else filled) ≡ filled
nonempty_state n empty filled h = ground arith

-- The parser with a payload that fits.
abbrev pub filling : State → ℕ → ℕ → ℕ → ℕ → ℕ → ℕ → List ℕ → MspParser
filling state version size id flag idx crc payload = record {
  state = state;
  version = version;
  size = size;
  id = id;
  flag = flag;
  idx = idx;
  crc = crc;
  oversize = false;
  payload = payload;
}

module _ (here last : State) (step : ℕ → ℕ → ℕ)
    (inside : (v size id flag idx crc b : ℕ) (ys : List ℕ)
      → feed (filling here v size id flag idx crc ys) b
        ≡ (false, store_byte last (step crc b) (filling here v size id flag idx crc ys) b))
    (v size id flag : ℕ) where
  store_last :
      (idx crc crc' b : ℕ) (ys : List ℕ)
      → size ≡ idx + 1
      → size < 65536
      → store_byte last crc' (filling here v size id flag idx crc ys) b
        ≡ filling last v size id flag size crc' (set ys idx b)
  unfolding store_byte
  store_last idx crc crc' b ys e lt =
      ap₂ (λ (st : State) (i : ℕ). filling st v size id flag i crc' (set ys idx b)) closes
        (omega arith)
    where
      closes : (if leb size (u16 (idx + 1)) then last else here) ≡ last
      closes = ground arith

  store_more :
      (idx crc crc' b : ℕ) (ys : List ℕ)
      → idx + 1 < size
      → size < 65536
      → store_byte last crc' (filling here v size id flag idx crc ys) b
        ≡ filling here v size id flag (idx + 1) crc' (set ys idx b)
  unfolding store_byte
  store_more idx crc crc' b ys e lt =
      ap₂ (λ (st : State) (i : ℕ). filling st v size id flag i crc' (set ys idx b)) stays
        (omega arith)
    where
      stays : (if leb size (u16 (idx + 1)) then last else here) ≡ here
      stays = ground arith

  pub payload_end :
      (idx crc b : ℕ) (bs rest ys : List ℕ)
      → size ≡ idx + length (b ∷ bs)
      → size < 65536
      → messages (filling here v size id flag idx crc ys) ((b ∷ bs) ++ rest)
        ≡ messages
            (filling last v size id flag size
              (fold_crc step crc (b ∷ bs))
              (write_all ys idx (b ∷ bs)))
            rest
  unfolding fold_crc write_all
  payload_end idx crc b [] rest ys e lt =
      messages_skip _ _ b rest (inside v size id flag idx crc b ys)
      ∙ ap (λ p. messages p rest) (store_last idx crc (step crc b) b ys e lt)
  payload_end idx crc b (c ∷ bs) rest ys e lt =
      messages_skip _ _ b ((c ∷ bs) ++ rest) (inside v size id flag idx crc b ys)
      ∙ ap (λ p. messages p ((c ∷ bs) ++ rest))
          (store_more idx crc (step crc b) b ys (omega arith) lt)
      ∙ payload_end (idx + 1) (step crc b) c bs rest (set ys idx b) (omega arith) lt
