-- ===== src/Msp.antt =====
-- lib/ff_core/msp_parser.h, msp_parser.cpp and msp_crc.h: MSP frames out of a stream of bytes.
pub mod Bounds
pub mod Payload
pub mod Reply
pub mod Stream
pub mod Yields
use formation_flight.Prelude.{
  ℕ, zero, suc, ◌+◌, List, [], ◌∷◌, Bool, true, false, not, ◌&&◌, ltb, leb, ◌==◌, if◌then◌else◌,
  bit_and, bit_or, bit_xor, replicate, set, shl, u8, u16,
}

-- The rounds of `mspCrc8DvbS2`.
unfoldable pub crc_rounds : ℕ → ℕ → ℕ
crc_rounds zero crc = crc
crc_rounds (suc n) crc =
    crc_rounds n (if bit_and crc 128 == 0 then u8 (shl crc 1) else u8 (bit_xor (shl crc 1) 213))

unfoldable pub msp_crc8_dvb_s2 : ℕ → ℕ → ℕ
unfolding crc_rounds
msp_crc8_dvb_s2 crc a = crc_rounds 8 (bit_xor crc a)

abbrev pub msp_max_payload : ℕ
msp_max_payload = 128

pub data State : Type 0 where
  idle : State
  hdr_m : State
  v1_dir : State
  v1_size : State
  v1_id : State
  v1_payload : State
  v1_crc : State
  v2_dir : State
  v2_flag : State
  v2_id_lo : State
  v2_id_hi : State
  v2_size_lo : State
  v2_size_hi : State
  v2_payload : State
  v2_crc : State

pub record MspParser : Type 0 where
  pub state : State
  pub version : ℕ
  pub size : ℕ
  pub id : ℕ
  pub flag : ℕ
  pub idx : ℕ
  pub crc : ℕ
  pub oversize : Bool
  pub payload : List ℕ

-- `reset` keeps the bytes of the payload.
unfoldable pub reset : MspParser → MspParser
reset p = record {
  state = idle;
  version = 0;
  size = 0;
  id = 0;
  flag = 0;
  idx = 0;
  crc = 0;
  oversize = false;
  payload = p.payload;
}

-- A byte of the payload, with the checksum after it and the state behind the last byte.
unfoldable pub store_byte : State → ℕ → MspParser → ℕ → MspParser
store_byte last crc p b =
    let idx = u16 (p.idx + 1) in
    record p {
      crc = crc;
      payload = if not p.oversize then set p.payload p.idx b else p.payload;
      idx = idx;
      state = if leb p.size idx then last else p.state;
    }

-- '$' is 36, 'M' 77, 'X' 88 and '>' 62.
abbrev pub resync : ℕ → State
resync b = if b == 36 then hdr_m else idle

-- Whether the byte completes a valid frame, and the parser after it.
unfoldable pub feed_in : State → MspParser → ℕ → Bool × MspParser
unfolding store_byte msp_crc8_dvb_s2
feed_in idle p b = (false, if b == 36 then record p { state = hdr_m } else p)
feed_in hdr_m p b =
    (false, record p { state = if b == 77 then v1_dir else if b == 88 then v2_dir else resync b })
feed_in v1_dir p b = (false, record p { state = if b == 62 then v1_size else resync b })
feed_in v1_size p b = (
  false,
  record p {
    version = 1;
    flag = 0;
    size = b;
    crc = b;
    idx = 0;
    oversize = ltb msp_max_payload b;
    state = v1_id;
  },
)
feed_in v1_id p b = (
  false,
  record p { id = b; crc = bit_xor p.crc b; state = if p.size == 0 then v1_crc else v1_payload },
)
feed_in v1_payload p b = (false, store_byte v1_crc (bit_xor p.crc b) p b)
feed_in v1_crc p b = (b == p.crc && not p.oversize, record p { state = idle })
feed_in v2_dir p b = (false, record p { state = if b == 62 then v2_flag else resync b })
feed_in v2_flag p b =
    (false, record p { version = 2; flag = b; crc = msp_crc8_dvb_s2 0 b; state = v2_id_lo })
feed_in v2_id_lo p b = (false, record p { id = b; crc = msp_crc8_dvb_s2 p.crc b; state = v2_id_hi })
feed_in v2_id_hi p b = (
  false,
  record p { id = bit_or p.id (u16 (shl b 8)); crc = msp_crc8_dvb_s2 p.crc b; state = v2_size_lo },
)
feed_in v2_size_lo p b =
    (false, record p { size = b; crc = msp_crc8_dvb_s2 p.crc b; state = v2_size_hi })
feed_in v2_size_hi p b =
    let size = bit_or p.size (u16 (shl b 8)) in
    (
      false,
      record p {
        size = size;
        crc = msp_crc8_dvb_s2 p.crc b;
        idx = 0;
        oversize = ltb msp_max_payload size;
        state = if size == 0 then v2_crc else v2_payload;
      },
    )
feed_in v2_payload p b = (false, store_byte v2_crc (msp_crc8_dvb_s2 p.crc b) p b)
feed_in v2_crc p b = (b == p.crc && not p.oversize, record p { state = idle })

unfoldable pub feed : MspParser → ℕ → Bool × MspParser
unfolding feed_in
feed p b = feed_in p.state p b
