-- ===== src/Tests/Blocks.antt =====
-- lib/ff_core/aes.cpp: the example vector of FIPS 197, appendix C.1.
use formation_flight.Prelude.{ℕ, ◌≡◌, refl, List, [], ◌∷◌}
use formation_flight.Crypto.Aes.{encrypt_block}

abbrev key : List ℕ
key = 0 ∷ 1 ∷ 2 ∷ 3 ∷ 4 ∷ 5 ∷ 6 ∷ 7 ∷ 8 ∷ 9 ∷ 10 ∷ 11 ∷ 12 ∷ 13 ∷ 14 ∷ 15 ∷ []

abbrev plaintext : List ℕ
plaintext =
    0 ∷ 17 ∷ 34 ∷ 51 ∷ 68 ∷ 85 ∷ 102 ∷ 119 ∷ 136 ∷ 153 ∷ 170 ∷ 187 ∷ 204 ∷ 221 ∷ 238 ∷ 255 ∷ []

encrypt_block_vector :
    encrypt_block key plaintext
    ≡ 105 ∷ 196 ∷ 224 ∷ 216 ∷ 106 ∷ 123 ∷ 4 ∷ 48 ∷ 216 ∷ 205 ∷ 183 ∷ 128 ∷ 112 ∷ 180 ∷ 197 ∷ 90 ∷ []
unfolding encrypt_block
encrypt_block_vector = refl
