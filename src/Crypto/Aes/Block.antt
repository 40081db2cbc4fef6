-- ===== src/Crypto/Aes/Block.antt =====
-- lib/ff_core/aes.cpp: AES-128 as the cipher of AES-CCM.
use formation_flight.Prelude.{
  ℕ, zero, suc, ◌+◌, ◌*◌, ◌<◌, ◌≡◌, refl, ◌∙◌, List, [], ◌∷◌, map, get_or, take, drop, length,
  length-map, u8, arith, Bool, true, false, ◌==◌, if◌then◌else◌,
}
use formation_flight.Crypto.Ccm.{xor_bytes}
use formation_flight.Crypto.Ccm.Mac.{IsBlockCipher}
use formation_flight.Crypto.Ccm.Xor.{length-xor_bytes}
use formation_flight.Crypto.Aes.{
  substitute, add_round_key, shift_rows, mix_column, mix_columns, rounds, set_round_keys,
  encrypt_block,
}

map-u8-byte : (xs : List ℕ) (j : ℕ) → get_or (map u8 xs) j 0 < 256
map-u8-byte [] j = omega arith
map-u8-byte (x ∷ xs) zero = omega arith
map-u8-byte (x ∷ xs) (suc j) = map-u8-byte xs j

length-add_round_key :
    (rk : List ℕ) (round : ℕ) (block : List ℕ)
    → length (add_round_key rk round block) ≡ length block
unfolding add_round_key
length-add_round_key rk round block =
    length-map (xor_bytes block (take 16 (drop (round * 16) rk))) u8
    ∙ length-xor_bytes block (take 16 (drop (round * 16) rk))

add_round_key-byte :
    (rk : List ℕ) (round : ℕ) (block : List ℕ) (j : ℕ)
    → get_or (add_round_key rk round block) j 0 < 256
unfolding add_round_key
add_round_key-byte rk round block j =
    map-u8-byte (xor_bytes block (take 16 (drop (round * 16) rk))) j

-- Before the key is added a round has a block of sixteen, whatever it started from.
length-mixed :
    (last : Bool) (block : List ℕ)
    → length (if last then shift_rows block else mix_columns (shift_rows block)) ≡ 16
unfolding shift_rows mix_columns mix_column
length-mixed true block = refl
length-mixed false block = refl

rounds_block :
    (n : ℕ) (rk : List ℕ) (round : ℕ) (block : List ℕ)
    → length block ≡ 16
    → ((j : ℕ) → get_or block j 0 < 256)
    → (length (rounds n rk round block) ≡ 16)
      × ((j : ℕ) → get_or (rounds n rk round block) j 0 < 256)
unfolding rounds
rounds_block zero rk round block h b = (h, b)
rounds_block (suc n) rk round block h b =
    let shifted = shift_rows (map substitute block) in
    let mixed = if round == 10 then shifted else mix_columns shifted in
    rounds_block n rk (round + 1) (add_round_key rk round mixed)
      (length-add_round_key rk round mixed ∙ length-mixed (round == 10) (map substitute block))
      (add_round_key-byte rk round mixed)

-- With any key, AES-128 maps a block of sixteen to sixteen bytes, which is what the theorems on
-- AES-CCM and on the frames ask of their cipher.
pub encrypt_block-IsBlockCipher : (key : List ℕ) → IsBlockCipher (encrypt_block key)
unfolding encrypt_block
encrypt_block-IsBlockCipher key = record {
  size = λ b h.
      (rounds_block 10 (set_round_keys key) 1 (add_round_key (set_round_keys key) 0 b)
        (length-add_round_key (set_round_keys key) 0 b ∙ h)
        (add_round_key-byte (set_round_keys key) 0 b)).0;
  bytes = λ b j h.
      (rounds_block 10 (set_round_keys key) 1 (add_round_key (set_round_keys key) 0 b)
          (length-add_round_key (set_round_keys key) 0 b ∙ h)
          (add_round_key-byte (set_round_keys key) 0 b)).1
        j;
}
