-- ===== src/Crypto/Sha.antt =====
-- lib/ff_core/sha256.h and sha256.cpp: SHA-256, and the group key that crypto.cpp takes from it.
--
-- The hash state is a list of eight words; `buf` has the bytes that wait for a full block, the
-- first `buf_len_` of the source's buffer. `~e` on a 32-bit word is its distance from 2 ^ 32 - 1.
pub mod Padding
pub mod Streaming
use formation_flight.Prelude.{
  ℕ, zero, suc, ◌-◌, ◌+◌, ◌*◌, ◌%◌, ◌^◌, List, [], ◌∷◌, ◌++◌, Bool, true, false, bit_and, bit_or,
  bit_xor, ◌==◌, if◌then◌else◌, get_or, take, length, shl, shr, u8, u32, add32, replicate, map,
}

abbrev pub round_constants : List ℕ
round_constants =
    1116352408 ∷ 1899447441 ∷ 3049323471 ∷ 3921009573 ∷ 961987163 ∷ 1508970993 ∷ 2453635748
    ∷ 2870763221 ∷ 3624381080 ∷ 310598401 ∷ 607225278 ∷ 1426881987 ∷ 1925078388 ∷ 2162078206
    ∷ 2614888103 ∷ 3248222580 ∷ 3835390401 ∷ 4022224774 ∷ 264347078 ∷ 604807628 ∷ 770255983
    ∷ 1249150122 ∷ 1555081692 ∷ 1996064986 ∷ 2554220882 ∷ 2821834349 ∷ 2952996808 ∷ 3210313671
    ∷ 3336571891 ∷ 3584528711 ∷ 113926993 ∷ 338241895 ∷ 666307205 ∷ 773529912 ∷ 1294757372
    ∷ 1396182291 ∷ 1695183700 ∷ 1986661051 ∷ 2177026350 ∷ 2456956037 ∷ 2730485921 ∷ 2820302411
    ∷ 3259730800 ∷ 3345764771 ∷ 3516065817 ∷ 3600352804 ∷ 4094571909 ∷ 275423344 ∷ 430227734
    ∷ 506948616 ∷ 659060556 ∷ 883997877 ∷ 958139571 ∷ 1322822218 ∷ 1537002063 ∷ 1747873779
    ∷ 1955562222 ∷ 2024104815 ∷ 2227730452 ∷ 2361852424 ∷ 2428436474 ∷ 2756734187 ∷ 3204031479
    ∷ 3329325298 ∷ []

abbrev pub initial_hash : List ℕ
initial_hash =
    1779033703 ∷ 3144134277 ∷ 1013904242 ∷ 2773480762 ∷ 1359893119 ∷ 2600822924 ∷ 528734635
    ∷ 1541459225 ∷ []

unfoldable pub rotr : ℕ → ℕ → ℕ
rotr x n = bit_or (shr x n) (u32 (shl x (32 - n)))

pub record Sha256 : Type 0 where
  pub h : List ℕ
  pub buf : List ℕ
  pub total_bits : ℕ

unfoldable pub reset : Sha256
reset = record { h = initial_hash; buf = []; total_bits = 0 }

-- The big-endian words of a block, `n` of them from word `i` on.
unfoldable pub block_words : ℕ → ℕ → List ℕ → List ℕ
block_words zero i block = []
block_words (suc n) i block =
    bit_or
      (bit_or
        (bit_or (u32 (shl (get_or block (i * 4) 0) 24)) (u32 (shl (get_or block (i * 4 + 1) 0) 16)))
        (u32 (shl (get_or block (i * 4 + 2) 0) 8)))
      (get_or block (i * 4 + 3) 0)
    ∷ block_words n (i + 1) block

-- The loop that extends the words, from word `i` with `n` left.
unfoldable pub extend : ℕ → ℕ → List ℕ → List ℕ
unfolding rotr
extend zero i w = w
extend (suc n) i w =
    let a = get_or w (i - 15) 0 in
    let b = get_or w (i - 2) 0 in
    let s0 = bit_xor (bit_xor (rotr a 7) (rotr a 18)) (shr a 3) in
    let s1 = bit_xor (bit_xor (rotr b 17) (rotr b 19)) (shr b 10) in
    extend n (i + 1) (w ++ (u32 (get_or w (i - 16) 0 + s0 + get_or w (i - 7) 0 + s1) ∷ []))

-- The eight working variables as a list, after `n` rounds from round `i` on.
unfoldable pub hash_rounds : ℕ → ℕ → List ℕ → List ℕ → List ℕ
unfolding rotr
hash_rounds zero i w v = v
hash_rounds (suc n) i w v =
    let a = get_or v 0 0 in
    let b = get_or v 1 0 in
    let c = get_or v 2 0 in
    let e = get_or v 4 0 in
    let s1 = bit_xor (bit_xor (rotr e 6) (rotr e 11)) (rotr e 25) in
    let ch = bit_xor (bit_and e (get_or v 5 0)) (bit_and (4294967295 - e) (get_or v 6 0)) in
    let t1 = u32 (get_or v 7 0 + s1 + ch + get_or round_constants i 0 + get_or w i 0) in
    let s0 = bit_xor (bit_xor (rotr a 2) (rotr a 13)) (rotr a 22) in
    let maj = bit_xor (bit_xor (bit_and a b) (bit_and a c)) (bit_and b c) in
    let t2 = u32 (s0 + maj) in
    hash_rounds n (i + 1) w
      (add32 t1 t2 ∷ a ∷ b ∷ c ∷ add32 (get_or v 3 0) t1 ∷ e ∷ get_or v 5 0 ∷ get_or v 6 0 ∷ [])

unfoldable pub add_words : List ℕ → List ℕ → List ℕ
add_words [] ys = []
add_words (x ∷ xs) [] = x ∷ xs
add_words (x ∷ xs) (y ∷ ys) = add32 x y ∷ add_words xs ys

unfoldable pub compress : List ℕ → List ℕ → List ℕ
unfolding block_words extend hash_rounds add_words
compress h block =
    let w = extend 48 16 (block_words 16 0 block) in add_words h (hash_rounds 64 0 w h)

-- `update`, byte by byte: the source copies as many bytes as fit before it looks at the length
-- again.
unfoldable pub absorb : Sha256 → List ℕ → Sha256
unfolding compress
absorb s [] = s
absorb s (b ∷ bs) =
    let buf = s.buf ++ (b ∷ []) in
    absorb
      (if length buf == 64
        then record s { h = compress s.h buf; buf = [] }
        else record s { buf = buf })
      bs

unfoldable pub update : Sha256 → List ℕ → Sha256
unfolding absorb
update s bytes = absorb (record s { total_bits = (s.total_bits + length bytes * 8) % 2 ^ 64 }) bytes

-- The loop that pads with zeros until 56 bytes wait.
unfoldable pub pad : ℕ → Sha256 → Sha256
unfolding update
pad zero s = s
pad (suc n) s = let more = pad n (update s (0 ∷ [])) in if length s.buf == 56 then s else more

unfoldable pub be_word : ℕ → List ℕ
be_word v = u8 (shr v 24) ∷ u8 (shr v 16) ∷ u8 (shr v 8) ∷ u8 v ∷ []

unfoldable pub finish : Sha256 → List ℕ
unfolding update pad compress be_word
finish s =
    let bits = s.total_bits in
    let padded = pad 64 (update s (128 ∷ [])) in
    let len_be = be_word (shr bits 32) ++ be_word (u32 bits) in
    let h = compress padded.h (padded.buf ++ len_be) in
    be_word (get_or h 0 0)
    ++ (be_word (get_or h 1 0)
        ++ (be_word (get_or h 2 0)
            ++ (be_word (get_or h 3 0)
                ++ (be_word (get_or h 4 0)
                    ++ (be_word (get_or h 5 0)
                        ++ (be_word (get_or h 6 0) ++ be_word (get_or h 7 0)))))))

unfoldable pub sha256 : List ℕ → List ℕ
unfolding update finish
sha256 bytes = finish (update reset bytes)

-- `deriveGroupKey`. The passphrase ends before its first zero byte.
unfoldable pub c_bytes : List ℕ → List ℕ
c_bytes [] = []
c_bytes (c ∷ cs) = let rest = c_bytes cs in if c == 0 then [] else c ∷ rest

unfoldable pub derive_group_key : List ℕ → List ℕ
unfolding sha256 c_bytes
derive_group_key passphrase = take 16 (sha256 (c_bytes passphrase))
