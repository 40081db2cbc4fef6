-- ===== src/Crypto/Aes.antt =====
-- lib/ff_core/aes.h and aes.cpp: AES-128 encryption of a block.
--
-- The round keys and a block are lists of bytes, the block column by column.
pub mod Block
use formation_flight.Prelude.{
  ℕ, zero, suc, ◌-◌, ◌+◌, ◌*◌, ◌/◌, ◌%◌, List, [], ◌∷◌, ◌++◌, Bool, true, false, bit_xor, ◌==◌,
  if◌then◌else◌, map, get_or, take, drop, shl, shr, u8,
}
use formation_flight.Crypto.Ccm.{xor_bytes}

abbrev pub sbox : List ℕ
sbox =
    99 ∷ 124 ∷ 119 ∷ 123 ∷ 242 ∷ 107 ∷ 111 ∷ 197 ∷ 48 ∷ 1 ∷ 103 ∷ 43 ∷ 254 ∷ 215 ∷ 171 ∷ 118 ∷ 202
    ∷ 130 ∷ 201 ∷ 125 ∷ 250 ∷ 89 ∷ 71 ∷ 240 ∷ 173 ∷ 212 ∷ 162 ∷ 175 ∷ 156 ∷ 164 ∷ 114 ∷ 192 ∷ 183
    ∷ 253 ∷ 147 ∷ 38 ∷ 54 ∷ 63 ∷ 247 ∷ 204 ∷ 52 ∷ 165 ∷ 229 ∷ 241 ∷ 113 ∷ 216 ∷ 49 ∷ 21 ∷ 4 ∷ 199
    ∷ 35 ∷ 195 ∷ 24 ∷ 150 ∷ 5 ∷ 154 ∷ 7 ∷ 18 ∷ 128 ∷ 226 ∷ 235 ∷ 39 ∷ 178 ∷ 117 ∷ 9 ∷ 131 ∷ 44 ∷ 26
    ∷ 27 ∷ 110 ∷ 90 ∷ 160 ∷ 82 ∷ 59 ∷ 214 ∷ 179 ∷ 41 ∷ 227 ∷ 47 ∷ 132 ∷ 83 ∷ 209 ∷ 0 ∷ 237 ∷ 32
    ∷ 252 ∷ 177 ∷ 91 ∷ 106 ∷ 203 ∷ 190 ∷ 57 ∷ 74 ∷ 76 ∷ 88 ∷ 207 ∷ 208 ∷ 239 ∷ 170 ∷ 251 ∷ 67 ∷ 77
    ∷ 51 ∷ 133 ∷ 69 ∷ 249 ∷ 2 ∷ 127 ∷ 80 ∷ 60 ∷ 159 ∷ 168 ∷ 81 ∷ 163 ∷ 64 ∷ 143 ∷ 146 ∷ 157 ∷ 56
    ∷ 245 ∷ 188 ∷ 182 ∷ 218 ∷ 33 ∷ 16 ∷ 255 ∷ 243 ∷ 210 ∷ 205 ∷ 12 ∷ 19 ∷ 236 ∷ 95 ∷ 151 ∷ 68 ∷ 23
    ∷ 196 ∷ 167 ∷ 126 ∷ 61 ∷ 100 ∷ 93 ∷ 25 ∷ 115 ∷ 96 ∷ 129 ∷ 79 ∷ 220 ∷ 34 ∷ 42 ∷ 144 ∷ 136 ∷ 70
    ∷ 238 ∷ 184 ∷ 20 ∷ 222 ∷ 94 ∷ 11 ∷ 219 ∷ 224 ∷ 50 ∷ 58 ∷ 10 ∷ 73 ∷ 6 ∷ 36 ∷ 92 ∷ 194 ∷ 211 ∷ 172
    ∷ 98 ∷ 145 ∷ 149 ∷ 228 ∷ 121 ∷ 231 ∷ 200 ∷ 55 ∷ 109 ∷ 141 ∷ 213 ∷ 78 ∷ 169 ∷ 108 ∷ 86 ∷ 244
    ∷ 234 ∷ 101 ∷ 122 ∷ 174 ∷ 8 ∷ 186 ∷ 120 ∷ 37 ∷ 46 ∷ 28 ∷ 166 ∷ 180 ∷ 198 ∷ 232 ∷ 221 ∷ 116 ∷ 31
    ∷ 75 ∷ 189 ∷ 139 ∷ 138 ∷ 112 ∷ 62 ∷ 181 ∷ 102 ∷ 72 ∷ 3 ∷ 246 ∷ 14 ∷ 97 ∷ 53 ∷ 87 ∷ 185 ∷ 134
    ∷ 193 ∷ 29 ∷ 158 ∷ 225 ∷ 248 ∷ 152 ∷ 17 ∷ 105 ∷ 217 ∷ 142 ∷ 148 ∷ 155 ∷ 30 ∷ 135 ∷ 233 ∷ 206
    ∷ 85 ∷ 40 ∷ 223 ∷ 140 ∷ 161 ∷ 137 ∷ 13 ∷ 191 ∷ 230 ∷ 66 ∷ 104 ∷ 65 ∷ 153 ∷ 45 ∷ 15 ∷ 176 ∷ 84
    ∷ 187 ∷ 22 ∷ []

abbrev pub rcon : List ℕ
rcon = 0 ∷ 1 ∷ 2 ∷ 4 ∷ 8 ∷ 16 ∷ 32 ∷ 64 ∷ 128 ∷ 27 ∷ 54 ∷ []

abbrev pub substitute : ℕ → ℕ
substitute b = get_or sbox b 0

abbrev pub xtime : ℕ → ℕ
xtime a = u8 (bit_xor (shl a 1) (shr a 7 * 27))

-- The word at index `i` of the round keys.
abbrev pub word : List ℕ → ℕ → List ℕ
word rk i = take 4 (drop (i * 4) rk)

-- What happens to the previous word before every fourth one.
unfoldable pub rotate_substitute : ℕ → List ℕ → List ℕ
rotate_substitute i t =
    u8 (bit_xor (substitute (get_or t 1 0)) (get_or rcon (i / 4) 0))
    ∷ substitute (get_or t 2 0)
    ∷ substitute (get_or t 3 0)
    ∷ substitute (get_or t 0 0)
    ∷ []

-- The loop over the words, from word `i` with `n` words left.
unfoldable pub expand : ℕ → ℕ → List ℕ → List ℕ
unfolding rotate_substitute xor_bytes
expand zero i rk = rk
expand (suc n) i rk =
    let t = word rk (i - 1) in
    let t' = if i % 4 == 0 then rotate_substitute i t else t in
    expand n (i + 1) (rk ++ xor_bytes (word rk (i - 4)) t')

unfoldable pub set_round_keys : List ℕ → List ℕ
unfolding expand
set_round_keys key = expand 40 4 (take 16 key)

unfoldable pub add_round_key : List ℕ → ℕ → List ℕ → List ℕ
unfolding xor_bytes
add_round_key rk round block = map u8 (xor_bytes block (take 16 (drop (round * 16) rk)))

unfoldable pub shift_rows : List ℕ → List ℕ
shift_rows block =
    map (λ i. get_or block i 0)
      (0 ∷ 5 ∷ 10 ∷ 15 ∷ 4 ∷ 9 ∷ 14 ∷ 3 ∷ 8 ∷ 13 ∷ 2 ∷ 7 ∷ 12 ∷ 1 ∷ 6 ∷ 11 ∷ [])

unfoldable pub mix_column : List ℕ → ℕ → List ℕ
mix_column block c =
    let a0 = get_or block (4 * c) 0 in
    let a1 = get_or block (4 * c + 1) 0 in
    let a2 = get_or block (4 * c + 2) 0 in
    let a3 = get_or block (4 * c + 3) 0 in
    let all = bit_xor (bit_xor (bit_xor a0 a1) a2) a3 in
    bit_xor a0 (bit_xor all (xtime (bit_xor a0 a1)))
    ∷ bit_xor a1 (bit_xor all (xtime (bit_xor a1 a2)))
    ∷ bit_xor a2 (bit_xor all (xtime (bit_xor a2 a3)))
    ∷ bit_xor a3 (bit_xor all (xtime (bit_xor a3 a0)))
    ∷ []

unfoldable pub mix_columns : List ℕ → List ℕ
unfolding mix_column
mix_columns block =
    mix_column block 0 ++ (mix_column block 1 ++ (mix_column block 2 ++ mix_column block 3))

-- The loop over the rounds, from round `round` with `n` left.
unfoldable pub rounds : ℕ → List ℕ → ℕ → List ℕ → List ℕ
unfolding shift_rows mix_columns add_round_key
rounds zero rk round block = block
rounds (suc n) rk round block =
    let shifted = shift_rows (map substitute block) in
    let mixed = if round == 10 then shifted else mix_columns shifted in
    rounds n rk (round + 1) (add_round_key rk round mixed)

-- `setKey` and `encryptBlock`.
unfoldable pub encrypt_block : List ℕ → List ℕ → List ℕ
unfolding set_round_keys add_round_key rounds
encrypt_block key block = let rk = set_round_keys key in rounds 10 rk 1 (add_round_key rk 0 block)
