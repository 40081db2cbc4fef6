-- ===== src/Crypto/Ccm/Mac.antt =====
-- lib/ff_core/ccm.cpp: the shape of the running MAC.
use formation_flight.Prelude.{
  ℕ, zero, suc, ◌-◌, ◌+◌, ◌<◌, ◌≤◌, ◌≡◌, refl, ap, ◌∙◌, List, [], ◌∷◌, bit_xor, arith, get_or,
  length, length-append, length-set, length-replicate, take, u8, inl, inr, Bool-cases, ◌==◌, set,
  replicate, ltb, shr, bit_and,
}
use formation_flight.Prelude.Bits.{bit_xor-lt}
use formation_flight.Crypto.Ccm.{
  CbcMac, xor_bytes, be_bytes, ctr_block, first_block, feed_byte, feed, flush_block, feed_aad,
  compute_mac,
}

-- What is needed of the cipher: it maps a block to a block of bytes.
pub record IsBlockCipher (encrypt_block : List ℕ → List ℕ) : Type 0 where
  pub size : (b : List ℕ) → length b ≡ 16 → length (encrypt_block b) ≡ 16
  pub bytes : (b : List ℕ) (j : ℕ) → length b ≡ 16 → get_or (encrypt_block b) j 0 < 256

-- What the MAC's state keeps: a block, of bytes whenever no block is open.
record IsMac (mac : CbcMac) : Type 0 where
  size : length mac.x ≡ 16
  bytes : mac.fill ≡ 0 → (j : ℕ) → get_or mac.x j 0 < 256

replicate_zero-bytes : (n j : ℕ) → get_or (replicate n 0) j 0 < 256
replicate_zero-bytes zero j = omega arith
replicate_zero-bytes (suc n) zero = omega arith
replicate_zero-bytes (suc n) (suc j) = replicate_zero-bytes n j

pub xor_bytes-byte :
    (xs ks : List ℕ) (j : ℕ)
    → ((i : ℕ) → get_or xs i 0 < 256)
    → ((i : ℕ) → get_or ks i 0 < 256)
    → get_or (xor_bytes xs ks) j 0 < 256
unfolding xor_bytes
xor_bytes-byte [] ks j p q = omega arith
xor_bytes-byte (x ∷ xs) [] j p q = p j
xor_bytes-byte (x ∷ xs) (k ∷ ks) zero p q = bit_xor-lt 8 x k (p 0) (q 0)
xor_bytes-byte (x ∷ xs) (k ∷ ks) (suc j) p q =
    xor_bytes-byte xs ks j (λ i. p (suc i)) (λ i. q (suc i))

pub take-byte :
    (n : ℕ) (xs : List ℕ) (j : ℕ) → ((i : ℕ) → get_or xs i 0 < 256) → get_or (take n xs) j 0 < 256
take-byte zero xs j p = omega arith
take-byte (suc n) [] j p = omega arith
take-byte (suc n) (x ∷ xs) zero p = p 0
take-byte (suc n) (x ∷ xs) (suc j) p = take-byte n xs j (λ i. p (suc i))

length-be_bytes : (n v : ℕ) → length (be_bytes n v) ≡ n
unfolding be_bytes
length-be_bytes zero v = refl
length-be_bytes (suc n) v = ap suc (length-be_bytes n v)

pub length-ctr_block :
    (nonce : List ℕ) (counter : ℕ) → length nonce ≤ 15 → length (ctr_block nonce counter) ≡ 16
unfolding ctr_block
length-ctr_block nonce counter h =
    let l = 15 - length nonce in
    omega (arith, length-append nonce (be_bytes l counter), length-be_bytes l counter)

module _ {encrypt_block : List ℕ → List ℕ} (cipher : IsBlockCipher encrypt_block) where
  feed_byte-IsMac : (mac : CbcMac) (b : ℕ) → IsMac mac → IsMac (feed_byte encrypt_block mac b)
  unfolding feed_byte
  feed_byte-IsMac mac b m =
      let x = set mac.x mac.fill (bit_xor (get_or mac.x mac.fill 0) b) in
      let whole : length x ≡ 16 = length-set mac.x mac.fill _ ∙ m.size in
      let next = mac.fill + 1 in
      elim (Bool-cases (next == 16)) [
        | inl h ↦
            rw h (record { size = cipher.size x whole; bytes = λ e j. cipher.bytes x j whole })
        | inr h ↦ rw h (record { size = whole; bytes = λ e j. absurd (omega arith) })
      ]

  feed-IsMac : (mac : CbcMac) (bs : List ℕ) → IsMac mac → IsMac (feed encrypt_block mac bs)
  unfolding feed
  feed-IsMac mac [] m = m
  feed-IsMac mac (b ∷ bs) m =
      feed-IsMac (feed_byte encrypt_block mac b) bs (feed_byte-IsMac mac b m)

  flush_block-IsMac : (mac : CbcMac) → IsMac mac → IsMac (flush_block encrypt_block mac)
  unfolding flush_block
  flush_block-IsMac mac m = elim (Bool-cases (mac.fill == 0)) [
    | inl h ↦ rw h m
    | inr h ↦
        rw h
          (record { size = cipher.size mac.x m.size; bytes = λ e j. cipher.bytes mac.x j m.size })
  ]

  flush_block-fill : (mac : CbcMac) → (flush_block encrypt_block mac).fill ≡ 0
  unfolding flush_block
  flush_block-fill mac = ground arith

  feed_aad-IsMac :
      (mac : CbcMac) (aad : List ℕ) → IsMac mac → IsMac (feed_aad encrypt_block mac aad)
  unfolding feed_aad
  feed_aad-IsMac mac aad m = elim (Bool-cases (ltb 0 (length aad))) [
    | inl h ↦ rw h (
        flush_block-IsMac _ (
          feed-IsMac _ aad
            (feed-IsMac mac (u8 (shr (length aad) 8) ∷ bit_and (length aad) 255 ∷ []) m)))
    | inr h ↦ rw h m
  ]

  pub compute_mac-IsMac :
      (nonce aad plaintext : List ℕ) (tag_len : ℕ)
      → (length (compute_mac encrypt_block nonce aad plaintext tag_len) ≡ 16)
        × ((j : ℕ) → get_or (compute_mac encrypt_block nonce aad plaintext tag_len) j 0 < 256)
  unfolding compute_mac
  compute_mac-IsMac nonce aad plaintext tag_len =
      let start : CbcMac = record { x = replicate 16 0; fill = 0 } in
      let b0 = first_block nonce (length aad) tag_len (length plaintext) in
      let m0 : IsMac start = record {
        size = length-replicate {A = ℕ} 16 0;
        bytes = λ e j. replicate_zero-bytes 16 j;
      } in
      let m1 = feed-IsMac start b0 m0 in
      let m2 = feed_aad-IsMac (feed encrypt_block start b0) aad m1 in
      let mac =
        feed encrypt_block (feed_aad encrypt_block (feed encrypt_block start b0) aad) plaintext in
      let m3 = flush_block-IsMac mac (feed-IsMac _ plaintext m2) in
      (m3.size, m3.bytes (flush_block-fill mac))
