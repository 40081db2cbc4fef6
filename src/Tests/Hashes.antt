-- ===== src/Tests/Hashes.antt =====
-- lib/ff_core/sha256.cpp: the example of FIPS 180-4 for the message "abc".
use formation_flight.Prelude.{◌≡◌, refl, [], ◌∷◌}
use formation_flight.Crypto.Sha.{Sha256, reset, sha256, derive_group_key}

sha256_vector :
    sha256 (97 ∷ 98 ∷ 99 ∷ [])
    ≡ 186 ∷ 120 ∷ 22 ∷ 191 ∷ 143 ∷ 1 ∷ 207 ∷ 234 ∷ 65 ∷ 65 ∷ 64 ∷ 222 ∷ 93 ∷ 174 ∷ 34 ∷ 35 ∷ 176 ∷ 3
      ∷ 97 ∷ 163 ∷ 150 ∷ 23 ∷ 122 ∷ 156 ∷ 180 ∷ 16 ∷ 255 ∷ 97 ∷ 242 ∷ 0 ∷ 21 ∷ 173 ∷ []
unfolding sha256 reset
sha256_vector = refl

derive_group_key_vector :
    derive_group_key (97 ∷ 98 ∷ 99 ∷ 0 ∷ 7 ∷ [])
    ≡ 186 ∷ 120 ∷ 22 ∷ 191 ∷ 143 ∷ 1 ∷ 207 ∷ 234 ∷ 65 ∷ 65 ∷ 64 ∷ 222 ∷ 93 ∷ 174 ∷ 34 ∷ 35 ∷ []
unfolding derive_group_key reset
derive_group_key_vector = refl

abbrev begun : Sha256
begun = record { h = []; buf = 1 ∷ 2 ∷ 3 ∷ []; total_bits = 24 }
