-- ===== src/Crypto/Ccm/Seal.antt =====
-- lib/ff_core/ccm.cpp: ccmEncrypt against ccmDecrypt.
use formation_flight.Prelude.{
  ℕ, ◌<◌, ◌≤◌, ◌≡◌, refl, sym, ap, ap₂, ◌∙◌, List, none, some, Bool, true, false, arith, get_or,
  length, length-take, length-drop, take, drop, ◌==◌, if◌then◌else◌, if◌then◌else◌, not,
}
use mathlib.Core.Bool.{true≢false}
use formation_flight.Crypto.Ccm.{
  xor_bytes, ctr_block, compute_mac, ctr_crypt, mask_tag, params_valid, tag_diff, ccm_encrypt,
  ccm_decrypt,
}
use formation_flight.Crypto.Ccm.Mac.{
  IsBlockCipher, compute_mac-IsMac, length-ctr_block, xor_bytes-byte, take-byte,
}
use formation_flight.Crypto.Ccm.Tag.{tag_diff_self, tag_diff_eq}
use formation_flight.Crypto.Ccm.Stream.{ctr_crypt-ctr_crypt, length-ctr_crypt}
use formation_flight.Crypto.Ccm.Xor.{length-xor_bytes, take-append}

-- The parameters that are accepted have a nonce and a tag that fit in a block.
pub params_valid-le : (n d a t : ℕ) → params_valid n d a t ≡ true → (n ≤ 13) × (t ≤ 16)
unfolding params_valid
params_valid-le n d a t h = ground arith

equal→zero : (d : ℕ) → (d == 0) ≡ true → d ≡ 0
equal→zero d h = ground arith

-- The shapes of the two functions' results.
guard-some :
    {A : Type 0} (ok : Bool) (a c : A)
    → (if not ok then none else some a) ≡ some c
    → (ok ≡ true) × (a ≡ c)
guard-some true a c h = (refl, cc)
guard-some false a c h = absurd cc

guard-accepted :
    {A : Type 0} (ok : Bool) (rejected r accepted : Bool × A)
    → rejected.0 ≡ false
    → accepted.0 ≡ true
    → (if not ok then rejected else r) ≡ accepted
    → (ok ≡ true) × (r ≡ accepted)
guard-accepted true rejected r accepted p q h = (refl, h)
guard-accepted false rejected r accepted p q h =
    absurd (true≢false (sym q ∙ ap (λ t. t.0) (sym h) ∙ p))

guard-pass :
    {A : Type 0} (ok : Bool) (rejected : A) {r r' : A}
    → ok ≡ true
    → r ≡ r'
    → (if not ok then rejected else r) ≡ r'
guard-pass ok rejected h e = rw h e

module _ {encrypt_block : List ℕ → List ℕ} (cipher : IsBlockCipher encrypt_block) where
  -- The tag of a plaintext.
  expected : List ℕ → List ℕ → List ℕ → ℕ → List ℕ
  expected nonce aad plaintext tag_len =
      take tag_len (
        mask_tag encrypt_block nonce (compute_mac encrypt_block nonce aad plaintext tag_len)
          tag_len)

  -- Within 16 bytes, the MAC masked by the keystream of counter block 0.
  expected-masked :
      (nonce aad plaintext : List ℕ) (tag_len : ℕ)
      → tag_len ≤ 16
      → expected nonce aad plaintext tag_len
        ≡ xor_bytes
            (take tag_len (compute_mac encrypt_block nonce aad plaintext tag_len))
            (encrypt_block (ctr_block nonce 0))
  unfolding expected mask_tag
  expected-masked nonce aad plaintext tag_len h =
      let mac = compute_mac encrypt_block nonce aad plaintext tag_len in
      let s0 = encrypt_block (ctr_block nonce 0) in
      let whole : length mac ≡ 16 = (compute_mac-IsMac cipher nonce aad plaintext tag_len).0 in
      take-append tag_len 16 (xor_bytes (take tag_len mac) s0) (drop tag_len mac)
        (omega (arith, length-xor_bytes (take tag_len mac) s0, length-take tag_len mac))
        (omega (arith, length-drop tag_len mac))

  length-expected :
      (nonce aad plaintext : List ℕ) (tag_len : ℕ)
      → tag_len ≤ 16
      → length (expected nonce aad plaintext tag_len) ≡ tag_len
  length-expected nonce aad plaintext tag_len h =
      let mac = compute_mac encrypt_block nonce aad plaintext tag_len in
      ap length (expected-masked nonce aad plaintext tag_len h)
      ∙ omega (
        arith,
        length-xor_bytes (take tag_len mac) (encrypt_block (ctr_block nonce 0)),
        length-take tag_len mac,
        (compute_mac-IsMac cipher nonce aad plaintext tag_len).0,
      )

  expected-bytes :
      (nonce aad plaintext : List ℕ) (tag_len j : ℕ)
      → length nonce ≤ 15
      → tag_len ≤ 16
      → get_or (expected nonce aad plaintext tag_len) j 0 < 256
  expected-bytes nonce aad plaintext tag_len j short h =
      let mac = compute_mac encrypt_block nonce aad plaintext tag_len in
      rw (expected-masked nonce aad plaintext tag_len h) (
        xor_bytes-byte (take tag_len mac) (encrypt_block (ctr_block nonce 0)) j
          (λ i. take-byte tag_len mac i (compute_mac-IsMac cipher nonce aad plaintext tag_len).1)
          (λ i. cipher.bytes (ctr_block nonce 0) i (length-ctr_block nonce 0 short)))

  -- What is sealed is opened, with any block cipher: with the same nonce and associated data,
  -- `ccmDecrypt` accepts the ciphertext and the tag that `ccmEncrypt` made and restores the
  -- plaintext.
  pub ccm_decrypt-ccm_encrypt :
      (nonce aad plaintext ciphertext tag : List ℕ) (tag_len : ℕ)
      → ccm_encrypt encrypt_block nonce aad plaintext tag_len ≡ some (ciphertext, tag)
      → ccm_decrypt encrypt_block nonce aad ciphertext tag ≡ (true, plaintext)
  unfolding ccm_encrypt ccm_decrypt expected
  ccm_decrypt-ccm_encrypt nonce aad plaintext ciphertext tag tag_len h =
      let (ok, made) = guard-some _ _ _ h in
      let back : ctr_crypt encrypt_block nonce ciphertext ≡ plaintext =
        ap (ctr_crypt encrypt_block nonce) (ap (λ p. p.0) (sym made))
        ∙ ctr_crypt-ctr_crypt encrypt_block nonce plaintext in
      let fits = (params_valid-le (length nonce) (length plaintext) (length aad) tag_len ok).1 in
      let tag_fits : length tag ≡ tag_len =
        ap length (ap (λ p. p.1) (sym made)) ∙ length-expected nonce aad plaintext tag_len fits in
      let as_long : length ciphertext ≡ length plaintext =
        ap length (ap (λ p. p.0) (sym made)) ∙ length-ctr_crypt encrypt_block nonce plaintext in
      let still_ok : params_valid (length nonce) (length ciphertext) (length aad) (length tag)
          ≡ true =
        ap₂ (λ d t. params_valid (length nonce) d (length aad) t) as_long tag_fits ∙ ok in
      let same_tag : expected nonce aad (ctr_crypt encrypt_block nonce ciphertext) (length tag)
          ≡ tag =
        ap₂ (expected nonce aad) back tag_fits ∙ ap (λ p. p.1) made in
      let no_diff = ap (λ t. tag_diff t tag 0) same_tag ∙ tag_diff_self tag in
      guard-pass _ _ still_ok (ap₂ (λ d p. (d == 0, p)) no_diff back)

  pub length-tag :
      (nonce aad plaintext ciphertext tag : List ℕ) (tag_len : ℕ)
      → ccm_encrypt encrypt_block nonce aad plaintext tag_len ≡ some (ciphertext, tag)
      → length tag ≡ tag_len
  unfolding ccm_encrypt expected
  length-tag nonce aad plaintext ciphertext tag tag_len h =
      let (ok, made) = guard-some _ _ _ h in
      let fits = (params_valid-le (length nonce) (length plaintext) (length aad) tag_len ok).1 in
      ap length (ap (λ p. p.1) (sym made)) ∙ length-expected nonce aad plaintext tag_len fits

  -- Nothing else is accepted, with any block cipher: a ciphertext and a tag of bytes that
  -- `ccmDecrypt` accepts are those that `ccmEncrypt` makes of the plaintext it returns.
  pub ccm_encrypt-ccm_decrypt :
      (nonce aad plaintext ciphertext tag : List ℕ)
      → ((j : ℕ) → get_or tag j 0 < 256)
      → ccm_decrypt encrypt_block nonce aad ciphertext tag ≡ (true, plaintext)
      → ccm_encrypt encrypt_block nonce aad plaintext (length tag) ≡ some (ciphertext, tag)
  unfolding ccm_encrypt ccm_decrypt expected
  ccm_encrypt-ccm_decrypt nonce aad plaintext ciphertext tag octets h =
      let (ok, opened) = guard-accepted _ _ _ _ refl refl h in
      let back : ctr_crypt encrypt_block nonce ciphertext ≡ plaintext = ap (λ p. p.1) opened in
      let agree = equal→zero _ (ap (λ p. p.0) opened) in
      let fits = params_valid-le (length nonce) (length ciphertext) (length aad) (length tag) ok in
      let same_tag : expected nonce aad (ctr_crypt encrypt_block nonce ciphertext) (length tag)
          ≡ tag =
        tag_diff_eq _ tag
          (length-expected nonce aad (ctr_crypt encrypt_block nonce ciphertext) (length tag) fits.1)
          (λ j.
            expected-bytes nonce aad (ctr_crypt encrypt_block nonce ciphertext) (length tag) j
              (omega arith) fits.1)
          octets agree in
      let sealed_again : ctr_crypt encrypt_block nonce plaintext ≡ ciphertext =
        ap (ctr_crypt encrypt_block nonce) (sym back)
        ∙ ctr_crypt-ctr_crypt encrypt_block nonce ciphertext in
      let as_long : length plaintext ≡ length ciphertext =
        ap length (sym back) ∙ length-ctr_crypt encrypt_block nonce ciphertext in
      guard-pass _ _
        (ap (λ d. params_valid (length nonce) d (length aad) (length tag)) as_long ∙ ok)
        (ap₂ (λ c t. some (c, t)) sealed_again
          (ap (λ p. expected nonce aad p (length tag)) (sym back) ∙ same_tag))
