-- ===== src/Crypto/Ccm.antt =====
-- lib/ff_core/ccm.h and ccm.cpp: AES-CCM (RFC 3610) over any block cipher.
--
-- The cipher is a parameter: `encrypt_block` is `Aes128::encryptBlock` under a fixed key. A buffer
-- and its length are a list, and what a function stores in place is its result.
pub mod Mac
pub mod Seal
pub mod Stream
pub mod Tag
pub mod Xor
use formation_flight.Prelude.{
  ℕ, zero, suc, ◌-◌, ◌+◌, ◌*◌, ◌/◌, ◌%◌, ◌^◌, List, [], ◌∷◌, ◌++◌, Option, none, some, Bool, true,
  false, not, ◌&&◌, ◌||◌, bit_and, bit_or, bit_xor, ltb, leb, ◌==◌, if◌then◌else◌, set, get_or,
  replicate, take, drop, length, u8, u32, shl, shr,
}

abbrev pub block_size : ℕ
block_size = 16

abbrev pub max_aad_len : ℕ
max_aad_len = 65280

-- With a nonce of 7 to 13 bytes the length field has 2 to 8 bytes.
unfoldable pub params_valid : ℕ → ℕ → ℕ → ℕ → Bool
params_valid nonce_len data_len aad_len tag_len =
    let l = 15 - nonce_len in
    if ltb nonce_len 7 || ltb 13 nonce_len
    then false
    else if ltb tag_len 4 || ltb 16 tag_len || not (tag_len % 2 == 0)
    then false
    else if leb max_aad_len aad_len
    then false
    else if ltb l 8 && leb (2 ^ (8 * l)) data_len
    then false
    else true

-- `xs[i] ^= ks[i]` for the first bytes of `xs`, up to the end of the shorter one.
unfoldable pub xor_bytes : List ℕ → List ℕ → List ℕ
xor_bytes [] ks = []
xor_bytes (x ∷ xs) [] = x ∷ xs
xor_bytes (x ∷ xs) (k ∷ ks) = bit_xor x k ∷ xor_bytes xs ks

-- The last `n` bytes of a block, which hold `v` with the low byte at the end. A shift by more than
-- the width of `v` gives 0 here.
unfoldable pub be_bytes : ℕ → ℕ → List ℕ
be_bytes zero v = []
be_bytes (suc n) v = u8 (shr v (8 * n)) ∷ be_bytes n v

-- `buildCtrBlock`.
unfoldable pub ctr_block : List ℕ → ℕ → List ℕ
unfolding be_bytes
ctr_block nonce counter = let l = 15 - length nonce in u8 (l - 1) ∷ (nonce ++ be_bytes l counter)

-- The block B0, which `computeMac` builds from the lengths of the associated data, of the tag and
-- of the payload.
unfoldable pub first_block : List ℕ → ℕ → ℕ → ℕ → List ℕ
unfolding be_bytes
first_block nonce aad_len tag_len data_len =
    let l = 15 - length nonce in
    let aad_flag = if ltb 0 aad_len then 64 else 0 in
    u8 (bit_or (bit_or aad_flag (shl ((tag_len - 2) / 2) 3)) (l - 1))
    ∷ (nonce ++ be_bytes l data_len)

-- The running CBC-MAC.
pub record CbcMac : Type 0 where
  pub x : List ℕ
  pub fill : ℕ

module _ (encrypt_block : List ℕ → List ℕ) where
  unfoldable pub feed_byte : CbcMac → ℕ → CbcMac
  feed_byte mac b =
      let x = set mac.x mac.fill (bit_xor (get_or mac.x mac.fill 0) b) in
      let fill = mac.fill + 1 in
      if fill == block_size
      then record { x = encrypt_block x; fill = 0 }
      else record { x = x; fill = fill }

  unfoldable pub feed : CbcMac → List ℕ → CbcMac
  feed mac [] = mac
  feed mac (b ∷ bs) = feed (feed_byte mac b) bs

  unfoldable pub flush_block : CbcMac → CbcMac
  flush_block mac =
      if not (mac.fill == 0) then record { x = encrypt_block mac.x; fill = 0 } else mac

  unfoldable pub feed_aad : CbcMac → List ℕ → CbcMac
  unfolding feed flush_block
  feed_aad mac aad =
      let len_be = u8 (shr (length aad) 8) ∷ bit_and (length aad) 255 ∷ [] in
      if ltb 0 (length aad) then flush_block (feed (feed mac len_be) aad) else mac

  unfoldable pub compute_mac : List ℕ → List ℕ → List ℕ → ℕ → List ℕ
  unfolding first_block feed feed_aad flush_block
  compute_mac nonce aad plaintext tag_len =
      let b0 = first_block nonce (length aad) tag_len (length plaintext) in
      let mac = feed (record { x = replicate block_size 0; fill = 0 }) b0 in
      (flush_block (feed (feed_aad mac aad) plaintext)).x

  -- The loop of `ctrCrypt` on the bytes from `offset` on, for at most so many rounds.
  unfoldable pub ctr_from : ℕ → List ℕ → ℕ → List ℕ → List ℕ
  unfolding ctr_block xor_bytes
  ctr_from zero nonce counter bytes = bytes
  ctr_from (suc n) nonce counter [] = []
  ctr_from (suc n) nonce counter (b ∷ bs) =
      let ks = encrypt_block (ctr_block nonce counter) in
      let bytes = b ∷ bs in
      xor_bytes (take block_size bytes) ks
      ++ ctr_from n nonce (u32 (counter + 1)) (drop block_size bytes)

  -- A round takes at least one byte, so the number of bytes is enough rounds.
  unfoldable pub ctr_crypt : List ℕ → List ℕ → List ℕ
  unfolding ctr_from
  ctr_crypt nonce bytes = ctr_from (length bytes) nonce 1 bytes

  unfoldable pub mask_tag : List ℕ → List ℕ → ℕ → List ℕ
  unfolding ctr_block xor_bytes
  mask_tag nonce mac tag_len =
      let s0 = encrypt_block (ctr_block nonce 0) in
      xor_bytes (take tag_len mac) s0 ++ drop tag_len mac

  -- The ciphertext and the tag.
  unfoldable pub ccm_encrypt : List ℕ → List ℕ → List ℕ → ℕ → Option (List ℕ × List ℕ)
  unfolding params_valid compute_mac mask_tag ctr_crypt
  ccm_encrypt nonce aad bytes tag_len =
      let mac = compute_mac nonce aad bytes tag_len in
      let masked = mask_tag nonce mac tag_len in
      if not (params_valid (length nonce) (length bytes) (length aad) tag_len)
      then none
      else some (ctr_crypt nonce bytes, take tag_len masked)

-- The loop that gathers the differences of two tags.
unfoldable pub tag_diff : List ℕ → List ℕ → ℕ → ℕ
tag_diff (m ∷ ms) (t ∷ ts) diff = tag_diff ms ts (bit_or diff (u8 (bit_xor m t)))
tag_diff _ _ diff = diff

module _ (encrypt_block : List ℕ → List ℕ) where
  -- What it returns, and the data after it.
  unfoldable pub ccm_decrypt : List ℕ → List ℕ → List ℕ → List ℕ → Bool × List ℕ
  unfolding params_valid compute_mac mask_tag ctr_crypt tag_diff
  ccm_decrypt nonce aad bytes tag =
      let tag_len = length tag in
      let plaintext = ctr_crypt encrypt_block nonce bytes in
      let mac = compute_mac encrypt_block nonce aad plaintext tag_len in
      let masked = mask_tag encrypt_block nonce mac tag_len in
      if not (params_valid (length nonce) (length bytes) (length aad) tag_len)
      then (false, bytes)
      else (tag_diff (take tag_len masked) tag 0 == 0, plaintext)
