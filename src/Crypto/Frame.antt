-- ===== src/Crypto/Frame.antt =====
-- lib/ff_core/crypto.cpp, CcmCrypto: how packets become authenticated frames and come back.
--
-- A frame is the packet with the sender's counter behind its header, the payload encrypted and a
-- tag at the end. `encrypt_block` takes a key and a block: `Aes128` after `setKey`.
pub mod Fits
pub mod Once
pub mod Verdict
pub mod Roundtrip
pub mod Splits
use formation_flight.Prelude.{
  ℕ, ◌-◌, ◌+◌, List, ◌++◌, Option, none, some, Bool, true, false, ◌||◌, ltb, if◌then◌else◌,
  replicate, take, drop, length, u32,
}
use formation_flight.Wire.{put_u32, get_u32}
use formation_flight.Protocol.{header_size}
use formation_flight.PeerTable.{max_peers}
use formation_flight.Crypto.Ccm.{ccm_encrypt, ccm_decrypt}
use formation_flight.Crypto.Replay.{ReplaySlot, blank_slot, accept_frame}

abbrev pub frame_header_len : ℕ
frame_header_len = 10

abbrev pub frame_counter_offset : ℕ
frame_counter_offset = 6

abbrev pub frame_tag_len : ℕ
frame_tag_len = 6

abbrev pub frame_overhead : ℕ
frame_overhead = 4 + frame_tag_len

pub record CcmCrypto : Type 0 where
  pub key : List ℕ
  pub uid : ℕ
  pub counter : ℕ
  pub bad_tag : ℕ
  pub replay : ℕ
  pub last_reject_replay : Bool
  pub replay_slots : List ReplaySlot

unfoldable pub build_nonce : ℕ → ℕ → List ℕ
unfolding put_u32
build_nonce uid counter = put_u32 uid ++ put_u32 counter ++ replicate 5 0

unfoldable pub begin : CcmCrypto → ℕ → List ℕ → ℕ → CcmCrypto
begin node uid key initial_counter = record node {
  uid = uid;
  counter = initial_counter;
  key = key;
  replay_slots = replicate max_peers blank_slot;
}

unfoldable pub set_key : CcmCrypto → List ℕ → CcmCrypto
set_key node key = record node { key = key }

-- What the uint32_t at an offset of the buffer reads as. Callers have checked the length.
unfoldable pub word_at : ℕ → List ℕ → ℕ
unfolding get_u32
word_at offset buf = elim (get_u32 (drop offset buf)) [ none ↦ 0 | some (v, _) ↦ v ]

-- The part of `decrypt` behind the authentication.
unfoldable pub deliver_frame : CcmCrypto → ℕ → ℕ → ℕ → List ℕ → CcmCrypto × Option (List ℕ)
unfolding accept_frame
deliver_frame node uid counter now_ms packet =
    let (accepted, slots) = accept_frame uid counter now_ms node.replay_slots in
    if accepted then (record node { replay_slots = slots }, some packet) else (
      record node {
        replay = u32 (node.replay + 1);
        last_reject_replay = true;
        replay_slots = slots;
      },
      none,
    )

-- The pieces of a frame that `decrypt` points into: the clear header with the words that it reads
-- there, the ciphertext and the tag.
pub record Parts : Type 0 where
  pub uid : ℕ
  pub counter : ℕ
  pub header : List ℕ
  pub ciphertext : List ℕ
  pub tag : List ℕ

unfoldable pub split_frame : List ℕ → Parts
unfolding word_at
split_frame buf =
    let payload_len = length buf - frame_header_len - frame_tag_len in
    let body = drop frame_header_len buf in
    record {
      uid = word_at 2 buf;
      counter = word_at frame_counter_offset buf;
      header = take frame_header_len buf;
      ciphertext = take payload_len body;
      tag = take frame_tag_len (drop payload_len body);
    }

module _ (encrypt_block : List ℕ → List ℕ → List ℕ) where
  -- The frame, or `none` where the function returns 0.
  unfoldable pub encrypt_as : CcmCrypto → ℕ → ℕ → List ℕ → ℕ → Option (List ℕ)
  unfolding put_u32 build_nonce ccm_encrypt
  encrypt_as node uid counter buf cap =
      let len = length buf in
      let header = take header_size buf ++ put_u32 counter in
      let sealed =
        ccm_encrypt (encrypt_block node.key) (build_nonce uid counter) header (drop header_size buf)
          frame_tag_len in
      if ltb len header_size || ltb cap (len + frame_overhead)
      then none
      else elim sealed [ none ↦ none | some (payload, tag) ↦ some (header ++ (payload ++ tag)) ]

  unfoldable pub encrypt : CcmCrypto → List ℕ → ℕ → CcmCrypto × Option (List ℕ)
  unfolding encrypt_as
  encrypt node buf cap =
      let counter = u32 (node.counter + 1) in
      (record node { counter = counter }, encrypt_as node node.uid counter buf cap)

  -- The part of `decrypt` behind the length check.
  unfoldable pub open_parts : CcmCrypto → Parts → ℕ → CcmCrypto × Option (List ℕ)
  unfolding build_nonce ccm_decrypt deliver_frame
  open_parts node parts now_ms =
      let (authentic, payload) =
        ccm_decrypt (encrypt_block node.key) (build_nonce parts.uid parts.counter) parts.header
          parts.ciphertext parts.tag in
      let delivery =
        deliver_frame node parts.uid parts.counter now_ms
          (take header_size parts.header ++ payload) in
      if authentic then delivery else (record node { bad_tag = u32 (node.bad_tag + 1) }, none)

  -- The state after a frame, and the packet if it is delivered.
  unfoldable pub decrypt : CcmCrypto → List ℕ → ℕ → CcmCrypto × Option (List ℕ)
  unfolding split_frame open_parts
  decrypt node buf now_ms =
      let cleared : CcmCrypto = record node { last_reject_replay = false } in
      let opened = open_parts cleared (split_frame buf) now_ms in
      if ltb (length buf) (frame_header_len + frame_tag_len)
      then (record cleared { bad_tag = u32 (node.bad_tag + 1) }, none)
      else opened
