-- ===== src/Crypto/Frame/Fits.antt =====
-- lib/ff_core/crypto.cpp: which packets can be sent.
use formation_flight.Prelude.{
  ℕ, ◌-◌, ◌+◌, ◌<◌, ◌≤◌, ◌≡◌, refl, ap₂, ◌∙◌, List, ◌++◌, Option, none, some, Bool, true, false,
  not, ◌||◌, ltb, if◌then◌else◌, arith, take, drop, length, length-append, length-take, length-drop,
}
use formation_flight.Wire.{put_u32}
use formation_flight.Crypto.Ccm.{ccm_encrypt, params_valid, ctr_crypt, compute_mac, mask_tag}
use formation_flight.Crypto.Ccm.Mac.{IsBlockCipher}
use formation_flight.Crypto.Ccm.Stream.{length-ctr_crypt}
use formation_flight.Crypto.Ccm.Seal.{length-tag}
use formation_flight.Crypto.Frame.{CcmCrypto, build_nonce, encrypt_as}

-- The parameters of a frame are valid: a nonce of 13 bytes, a header of 10, a tag of 6.
params_valid_frame : (n : ℕ) → n < 65536 → params_valid 13 n 10 6 ≡ true
unfolding params_valid
params_valid_frame n h = ground arith

length-put_u32 : (v : ℕ) → length (put_u32 v) ≡ 4
unfolding put_u32
length-put_u32 v = refl

length-build_nonce : (uid counter : ℕ) → length (build_nonce uid counter) ≡ 13
unfolding build_nonce put_u32
length-build_nonce uid counter = refl

sealed_frame :
    (bad : Bool) (header c t : List ℕ) {sealed : Option (List ℕ × List ℕ)}
    → bad ≡ false
    → sealed ≡ some (c, t)
    → (if bad
        then none
        else elim sealed [ none ↦ none | some (payload, tag) ↦ some (header ++ (payload ++ tag)) ])
      ≡ some (header ++ (c ++ t))
sealed_frame bad header c t h e = rw (h, e) refl

guard_ok : {A : Type 0} (ok : Bool) (a : A) → ok ≡ true → (if not ok then none else some a) ≡ some a
guard_ok ok a h = rw h refl

module _ (encrypt_block : List ℕ → List ℕ → List ℕ) where
  ccm_encrypt-some :
      (key nonce aad plaintext : List ℕ)
      → params_valid (length nonce) (length plaintext) (length aad) 6 ≡ true
      → (tag : List ℕ) × (ccm_encrypt (encrypt_block key) nonce aad plaintext 6
          ≡ some (ctr_crypt (encrypt_block key) nonce plaintext, tag))
  unfolding ccm_encrypt
  ccm_encrypt-some key nonce aad plaintext h =
      let cipher = encrypt_block key in
      let tag = take 6 (mask_tag cipher nonce (compute_mac cipher nonce aad plaintext 6) 6) in
      (tag, guard_ok _ (ctr_crypt cipher nonce plaintext, tag) h)

  -- With a block cipher, a packet of at least six and fewer than 65542 bytes, for which the buffer
  -- has ten bytes more, becomes a frame that is ten bytes longer.
  pub encrypt_as_total :
      (node : CcmCrypto) (uid counter cap : ℕ) (buf : List ℕ)
      → IsBlockCipher (encrypt_block node.key)
      → 6 ≤ length buf
      → length buf < 65542
      → length buf + 10 ≤ cap
      → (frame : List ℕ) × (encrypt_as encrypt_block node uid counter buf cap ≡ some frame)
        × (length frame ≡ length buf + 10)
  unfolding encrypt_as
  encrypt_as_total node uid counter cap buf cipher h small room =
      let nonce = build_nonce uid counter in
      let header = take 6 buf ++ put_u32 counter in
      let payload = drop 6 buf in
      let header_length : length header ≡ 10 = omega (
        arith,
        length-append (take 6 buf) (put_u32 counter),
        length-take 6 buf,
        length-put_u32 counter,
      ) in
      let payload_length : length payload ≡ length buf - 6 = length-drop 6 buf in
      let ok : params_valid (length nonce) (length payload) (length header) 6 ≡ true =
        ap₂ (λ n a. params_valid n (length payload) a 6) (length-build_nonce uid counter)
          header_length
        ∙ params_valid_frame (length payload) (omega arith) in
      let (tag, sealed) = ccm_encrypt-some node.key nonce header payload ok in
      let c = ctr_crypt (encrypt_block node.key) nonce payload in
      let tag_length = length-tag cipher nonce header payload c tag 6 sealed in
      let enough : (ltb (length buf) 6 || ltb cap (length buf + 10)) ≡ false = ground arith in
      (
        header ++ (c ++ tag),
        sealed_frame _ header c tag enough sealed,
        omega (
          arith,
          length-append header (c ++ tag),
          length-append c tag,
          length-ctr_crypt (encrypt_block node.key) nonce payload,
          tag_length,
          header_length,
          payload_length,
        ),
      )
