-- ===== src/Crypto/Ccm/Stream.antt =====
-- lib/ff_core/ccm.cpp, ctrCrypt: the keystream.
use formation_flight.Prelude.{
  ℕ, zero, suc, ◌-◌, ◌+◌, ◌/◌, ◌%◌, ◌<◌, ◌≤◌, ◌≡◌, refl, sym, ap, ap₂, ◌∙◌, List, [], ◌∷◌, ◌++◌,
  bit_xor, min, arith, get_or, inl, inr, length, length-append, length-take, length-drop, take,
  drop, take-append-drop, u32,
}
use formation_flight.Crypto.Ccm.{xor_bytes, ctr_block, ctr_from, ctr_crypt}
use formation_flight.Crypto.Ccm.Xor.{
  length-xor_bytes, xor_bytes-xor_bytes, get_or-xor_bytes, take-append, drop-append,
  get_or-append_left, get_or-append_right, lt_or_ge, get_or-take, get_or-drop,
}

module _ (encrypt_block : List ℕ → List ℕ) where
  pub length-ctr_from :
      (n : ℕ) (nonce : List ℕ) (counter : ℕ) (bytes : List ℕ)
      → length (ctr_from encrypt_block n nonce counter bytes) ≡ length bytes
  unfolding ctr_from
  length-ctr_from zero nonce counter bytes = refl
  length-ctr_from (suc n) nonce counter [] = refl
  length-ctr_from (suc n) nonce counter (b ∷ bs) =
      let ks = encrypt_block (ctr_block nonce counter) in
      let now = take 16 (b ∷ bs) in
      let later = drop 16 (b ∷ bs) in
      let rest = ctr_from encrypt_block n nonce (u32 (counter + 1)) later in
      omega (
        arith,
        length-append (xor_bytes now ks) rest,
        length-xor_bytes now ks,
        length-take 16 (b ∷ bs),
        length-drop 16 (b ∷ bs),
        length-ctr_from n nonce (u32 (counter + 1)) later,
      )

  ctr_from-nil :
      (n : ℕ) (nonce : List ℕ) (counter : ℕ) → ctr_from encrypt_block n nonce counter [] ≡ []
  unfolding ctr_from
  ctr_from-nil zero nonce counter = refl
  ctr_from-nil (suc n) nonce counter = refl

  -- A round, whether bytes are left or not.
  ctr_from-suc :
      (n : ℕ) (nonce : List ℕ) (counter : ℕ) (bytes : List ℕ)
      → ctr_from encrypt_block (suc n) nonce counter bytes
        ≡ xor_bytes (take 16 bytes) (encrypt_block (ctr_block nonce counter))
          ++ ctr_from encrypt_block n nonce (u32 (counter + 1)) (drop 16 bytes)
  unfolding ctr_from xor_bytes
  ctr_from-suc n nonce counter [] = sym (ctr_from-nil n nonce (u32 (counter + 1)))
  ctr_from-suc n nonce counter (b ∷ bs) = refl

  pub ctr_from-ctr_from :
      (n : ℕ) (nonce : List ℕ) (counter : ℕ) (bytes : List ℕ)
      → ctr_from encrypt_block n nonce counter (ctr_from encrypt_block n nonce counter bytes)
        ≡ bytes
  unfolding ctr_from
  ctr_from-ctr_from zero nonce counter bytes = refl
  ctr_from-ctr_from (suc n) nonce counter bytes =
      let ks = encrypt_block (ctr_block nonce counter) in
      let now = take 16 bytes in
      let later = drop 16 bytes in
      let next = u32 (counter + 1) in
      let rest = ctr_from encrypt_block n nonce next later in
      let now_length : length (xor_bytes now ks) ≡ min 16 (length bytes) =
        omega (arith, length-xor_bytes now ks, length-take 16 bytes) in
      let rest_length : length rest ≡ length bytes - 16 =
        omega (arith, length-ctr_from n nonce next later, length-drop 16 bytes) in
      let back =
        ap₂ (λ a b. xor_bytes a ks ++ ctr_from encrypt_block n nonce next b)
          (take-append 16 (length bytes) (xor_bytes now ks) rest now_length rest_length)
          (drop-append 16 (length bytes) (xor_bytes now ks) rest now_length rest_length) in
      ap (ctr_from encrypt_block (suc n) nonce counter) (ctr_from-suc n nonce counter bytes)
      ∙ ctr_from-suc n nonce counter (xor_bytes now ks ++ rest)
      ∙ back
      ∙ ap₂ ◌++◌ (xor_bytes-xor_bytes now ks) (ctr_from-ctr_from n nonce next later)
      ∙ take-append-drop 16 bytes

  -- The byte at each place is XORed with the byte of the keystream there.
  ctr_from-at :
      (n : ℕ) (nonce : List ℕ) (counter : ℕ) (bytes : List ℕ) (j : ℕ)
      → counter < 4294967296
      → length bytes ≤ n
      → j < length bytes
      → get_or (ctr_from encrypt_block n nonce counter bytes) j 0
        ≡ bit_xor
            (get_or bytes j 0)
            (get_or (encrypt_block (ctr_block nonce (u32 (counter + j / 16)))) (j % 16) 0)
  ctr_from-at zero nonce counter bytes j word enough inside = absurd (omega arith)
  ctr_from-at (suc n) nonce counter bytes j word enough inside =
      let ks = encrypt_block (ctr_block nonce counter) in
      let now = take 16 bytes in
      let later = drop 16 bytes in
      let next = u32 (counter + 1) in
      let rest = ctr_from encrypt_block n nonce next later in
      let now_length : length (xor_bytes now ks) ≡ min 16 (length bytes) =
        omega (arith, length-xor_bytes now ks, length-take 16 bytes) in
      ap (λ t. get_or t j 0) (ctr_from-suc n nonce counter bytes) ∙ elim (lt_or_ge j 16) [
        | inl h ↦
            get_or-append_left (xor_bytes now ks) rest j (omega arith)
            ∙ get_or-xor_bytes now ks j (omega (arith, length-take 16 bytes))
            ∙ ap₂ bit_xor (get_or-take 16 bytes j h) (
                ap₂ (λ c i. get_or (encrypt_block (ctr_block nonce c)) i 0) (omega arith)
                  (omega arith))
        | inr h ↦
            get_or-append_right (xor_bytes now ks) rest j (omega arith)
            ∙ ap (λ i. get_or rest i 0) (omega arith)
            ∙ ctr_from-at n nonce next later (j - 16) (omega arith)
                (omega (arith, length-drop 16 bytes)) (omega (arith, length-drop 16 bytes))
            ∙ ap₂ bit_xor (get_or-drop 16 bytes j h) (
                ap₂ (λ c i. get_or (encrypt_block (ctr_block nonce c)) i 0) (omega arith)
                  (omega arith))
      ]

  -- The byte at place `j` is XORed with byte `j % 16` of the cipher's output on counter block
  -- 1 + j / 16, so every byte gets its keystream, in messages of up to 2 ^ 36 - 16 bytes.
  pub ctr_crypt-at :
      (nonce bytes : List ℕ) (j : ℕ)
      → j < length bytes
      → length bytes ≤ 68719476720
      → get_or (ctr_crypt encrypt_block nonce bytes) j 0
        ≡ bit_xor
            (get_or bytes j 0)
            (get_or (encrypt_block (ctr_block nonce (1 + j / 16))) (j % 16) 0)
  unfolding ctr_crypt
  ctr_crypt-at nonce bytes j inside fits =
      ctr_from-at (length bytes) nonce 1 bytes j (omega arith) (omega arith) inside
      ∙ ap (λ c. bit_xor (get_or bytes j 0) (get_or (encrypt_block (ctr_block nonce c)) (j % 16) 0))
          (omega arith)

  pub ctr_crypt-ctr_crypt :
      (nonce bytes : List ℕ)
      → ctr_crypt encrypt_block nonce (ctr_crypt encrypt_block nonce bytes) ≡ bytes
  unfolding ctr_crypt
  ctr_crypt-ctr_crypt nonce bytes =
      ap
        (λ n.
          ctr_from encrypt_block n nonce 1 (ctr_from encrypt_block (length bytes) nonce 1 bytes))
        (length-ctr_from (length bytes) nonce 1 bytes)
      ∙ ctr_from-ctr_from (length bytes) nonce 1 bytes

  pub length-ctr_crypt :
      (nonce bytes : List ℕ) → length (ctr_crypt encrypt_block nonce bytes) ≡ length bytes
  unfolding ctr_crypt
  length-ctr_crypt nonce bytes = length-ctr_from (length bytes) nonce 1 bytes
