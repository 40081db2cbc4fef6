-- ===== src/Ubx.antt =====
-- lib/ff_core/ubx.h and ubx.cpp: the frames of a u-blox receiver, read and built.
pub mod Messages
pub mod Parts
pub mod Stream
use formation_flight.Prelude.{
  ℕ, ◌+◌, ◌-◌, List, [], ◌∷◌, ◌++◌, Bool, true, false, not, ◌&&◌, ltb, leb, ◌==◌, if◌then◌else◌,
  bit_or, length, set, u8, u16, shl, shr,
}

abbrev pub ubx_max_payload : ℕ
ubx_max_payload = 128

-- The loop of `ubxChecksum`, from the sums `a` and `b` on.
unfoldable pub checksum_from : ℕ → ℕ → List ℕ → ℕ × ℕ
checksum_from a b [] = (a, b)
checksum_from a b (x ∷ xs) = checksum_from (u8 (a + x)) (u8 (b + u8 (a + x))) xs

unfoldable pub ubx_checksum : List ℕ → ℕ × ℕ
unfolding checksum_from
ubx_checksum bytes = checksum_from 0 0 bytes

-- The frame around a payload that stands in the buffer.
unfoldable pub finish_frame : ℕ → ℕ → List ℕ → List ℕ
unfolding ubx_checksum
finish_frame cls id payload =
    let body = cls ∷ id ∷ u8 (length payload) ∷ u8 (shr (length payload) 8) ∷ payload in
    let (ck_a, ck_b) = ubx_checksum body in 181 ∷ 98 ∷ (body ++ (ck_a ∷ ck_b ∷ []))

pub data State : Type 0 where
  sync1 : State
  sync2 : State
  class_byte : State
  id_byte : State
  len_lo : State
  len_hi : State
  payload_bytes : State
  ck_a_byte : State
  ck_b_byte : State

pub record UbxParser : Type 0 where
  pub state : State
  pub cls : ℕ
  pub id : ℕ
  pub len : ℕ
  pub idx : ℕ
  pub ck_a : ℕ
  pub ck_b : ℕ
  pub rx_ck_a : ℕ
  pub oversize : Bool
  pub payload : List ℕ

unfoldable pub reset : UbxParser → UbxParser
reset p = record p { state = sync1; idx = 0; oversize = false }

-- A byte added to the sums.
unfoldable pub sum_byte : UbxParser → ℕ → UbxParser
sum_byte p b = record p { ck_a = u8 (p.ck_a + b); ck_b = u8 (p.ck_b + u8 (p.ck_a + b)) }

unfoldable pub store_byte : UbxParser → ℕ → UbxParser
unfolding sum_byte
store_byte p b =
    let idx = u16 (p.idx + 1) in
    record (sum_byte p b) {
      payload = if not p.oversize then set p.payload p.idx b else p.payload;
      idx = idx;
      state = if leb p.len idx then ck_a_byte else p.state;
    }

-- Whether the byte completes a valid frame, and the parser after it.
unfoldable pub feed_in : State → UbxParser → ℕ → Bool × UbxParser
unfolding sum_byte store_byte
feed_in sync1 p b = (false, record p { state = if b == 181 then sync2 else p.state })
feed_in sync2 p b =
    (false, record p { state = if b == 98 then class_byte else if b == 181 then sync2 else sync1 })
feed_in class_byte p b = (false, record p { cls = b; ck_a = b; ck_b = b; state = id_byte })
feed_in id_byte p b = (false, record (sum_byte p b) { id = b; state = len_lo })
feed_in len_lo p b = (false, record (sum_byte p b) { len = b; state = len_hi })
feed_in len_hi p b =
    let len = bit_or p.len (u16 (shl b 8)) in
    (
      false,
      record (sum_byte p b) {
        len = len;
        idx = 0;
        oversize = ltb ubx_max_payload len;
        state = if len == 0 then ck_a_byte else payload_bytes;
      },
    )
feed_in payload_bytes p b = (false, store_byte p b)
feed_in ck_a_byte p b = (false, record p { rx_ck_a = b; state = ck_b_byte })
feed_in ck_b_byte p b =
    (p.rx_ck_a == p.ck_a && (b == p.ck_b && not p.oversize), record p { state = sync1 })

unfoldable pub feed : UbxParser → ℕ → Bool × UbxParser
unfolding feed_in
feed p b = feed_in p.state p b

-- The builders, which leave the buffer alone (here: the empty list) where it has no room.
unfoldable pub build_cfg_rate : ℕ → ℕ → List ℕ
unfolding finish_frame
build_cfg_rate meas_ms cap =
    if ltb cap 14
    then []
    else finish_frame 6 8 (u8 meas_ms ∷ u8 (shr meas_ms 8) ∷ 1 ∷ 0 ∷ 1 ∷ 0 ∷ [])

unfoldable pub build_cfg_prt_uart : ℕ → ℕ → List ℕ
unfolding finish_frame
build_cfg_prt_uart baud cap =
    if ltb cap 28
    then []
    else finish_frame 6 0 (
        1
        ∷ 0
        ∷ 0
        ∷ 0
        ∷ 208
        ∷ 8
        ∷ 0
        ∷ 0
        ∷ u8 baud
        ∷ u8 (shr baud 8)
        ∷ u8 (shr baud 16)
        ∷ u8 (shr baud 24)
        ∷ 3
        ∷ 0
        ∷ 1
        ∷ 0
        ∷ 0
        ∷ 0
        ∷ 0
        ∷ 0
        ∷ [])

unfoldable pub build_cfg_msg : ℕ → ℕ → ℕ → ℕ → List ℕ
unfolding finish_frame
build_cfg_msg msg_class msg_id rate cap =
    if ltb cap 11 then [] else finish_frame 6 1 (msg_class ∷ msg_id ∷ rate ∷ [])

-- The loop over the ids of `buildLegacyNavConfig`, with what was written so far.
unfoldable pub legacy_from : List ℕ → List ℕ → ℕ → List ℕ
unfolding build_cfg_msg
legacy_from [] written cap = written
legacy_from (id ∷ ids) written cap =
    let frame = build_cfg_msg 1 id 1 (cap - length written) in
    let rest = legacy_from ids (written ++ frame) cap in if length frame == 0 then [] else rest

unfoldable pub build_legacy_nav_config : ℕ → List ℕ
unfolding legacy_from
build_legacy_nav_config cap = legacy_from (2 ∷ 6 ∷ 18 ∷ 4 ∷ []) [] cap
