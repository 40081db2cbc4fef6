-- ===== src/Wire/Roundtrip.antt =====
-- lib/ff_core/wire_format.h: writers and the readers of their width.
use formation_flight.Prelude.{
  ℕ, ◌+◌, ◌*◌, ◌^◌, ◌<◌, ◌≡◌, refl, ap, ◌∙◌, List, ◌∷◌, ◌++◌, some, bit_or, u8, u16, u32, shl, shr,
  arith, IsByte, IsWord16, IsWord32,
}
use formation_flight.Prelude.Bits.{bit_or-disjoint}
use formation_flight.Wire.{
  put_u8, put_u16, put_u32, put_i16, put_i32, get_u8, get_u16, get_u32, get_i16, get_i32,
}

-- A byte shifted above the bytes read so far is added to them.
module _ (lo b : ℕ) (byte : IsByte b) where
  or_byte16 : lo < 2 ^ 8 → bit_or lo (u16 (shl b 8)) ≡ b * 256 + lo
  or_byte16 h = rw in_range (bit_or-disjoint 8 lo b h)
    where
      in_range : u16 (shl b 8) ≡ b * 2 ^ 8
      in_range = omega arith

  or_byte8 : lo < 2 ^ 8 → bit_or lo (u32 (shl b 8)) ≡ b * 256 + lo
  or_byte8 h = rw in_range (bit_or-disjoint 8 lo b h)
    where
      in_range : u32 (shl b 8) ≡ b * 2 ^ 8
      in_range = omega arith

  or_byte_high16 : lo < 2 ^ 16 → bit_or lo (u32 (shl b 16)) ≡ b * 65536 + lo
  or_byte_high16 h = rw in_range (bit_or-disjoint 16 lo b h)
    where
      in_range : u32 (shl b 16) ≡ b * 2 ^ 16
      in_range = omega arith

  or_byte_high24 : lo < 2 ^ 24 → bit_or lo (u32 (shl b 24)) ≡ b * 16777216 + lo
  or_byte_high24 h = rw in_range (bit_or-disjoint 24 lo b h)
    where
      in_range : u32 (shl b 24) ≡ b * 2 ^ 24
      in_range = omega arith

or_byte0 : (b : ℕ) → IsByte b → bit_or 0 (u32 (shl b 0)) ≡ b
or_byte0 b h = rw in_range (bit_or-disjoint 0 0 b (omega arith) ∙ omega arith)
  where
    in_range : u32 (shl b 0) ≡ b * 2 ^ 0
    in_range = omega arith

-- The value of two and of four bytes in little-endian order.
pub get_u16_value :
    (b0 b1 : ℕ) (rest : List ℕ)
    → IsByte b0
    → IsByte b1
    → get_u16 (b0 ∷ b1 ∷ rest) ≡ some (b1 * 256 + b0, rest)
unfolding get_u16
get_u16_value b0 b1 rest h0 h1 = rw (or_byte16 b0 b1 h1 h0) (ap (λ v. some (v, rest)) (omega arith))

pub get_u32_value :
    (b0 b1 b2 b3 : ℕ) (rest : List ℕ)
    → IsByte b0
    → IsByte b1
    → IsByte b2
    → IsByte b3
    → get_u32 (b0 ∷ b1 ∷ b2 ∷ b3 ∷ rest)
      ≡ some (b3 * 16777216 + (b2 * 65536 + (b1 * 256 + b0)), rest)
unfolding get_u32
get_u32_value b0 b1 b2 b3 rest h0 h1 h2 h3 =
    rw
      (
        or_byte0 b0 h0,
        or_byte8 b0 b1 h1 h0,
        or_byte_high16 (b1 * 256 + b0) b2 h2 (omega arith),
        or_byte_high24 (b2 * 65536 + (b1 * 256 + b0)) b3 h3 (omega arith),
      )
      refl

-- A byte is read back as it was written, and the cursor stands behind it.
pub get_u8-put_u8 : (v : ℕ) (rest : List ℕ) → get_u8 (put_u8 v ++ rest) ≡ some (v, rest)
unfolding get_u8 put_u8
get_u8-put_u8 v rest = refl

pub get_u16-put_u16 :
    (v : ℕ) (rest : List ℕ) → IsWord16 v → get_u16 (put_u16 v ++ rest) ≡ some (v, rest)
unfolding put_u16
get_u16-put_u16 v rest h =
    get_u16_value (u8 v) (u8 (shr v 8)) rest (omega arith) (omega arith)
    ∙ ap (λ v. some (v, rest)) (omega arith)

pub get_u32-put_u32 :
    (v : ℕ) (rest : List ℕ) → IsWord32 v → get_u32 (put_u32 v ++ rest) ≡ some (v, rest)
unfolding put_u32
get_u32-put_u32 v rest h =
    get_u32_value _ _ _ _ rest (omega arith) (omega arith) (omega arith) (omega arith)
    ∙ ap (λ v. some (v, rest)) (omega arith)

pub get_i16-put_i16 :
    (v : ℕ) (rest : List ℕ) → IsWord16 v → get_i16 (put_i16 v ++ rest) ≡ some (v, rest)
unfolding get_i16 put_i16
get_i16-put_i16 v rest h = rw in_range (get_u16-put_u16 v rest h)
  where
    in_range : u16 v ≡ v
    in_range = omega arith

pub get_i32-put_i32 :
    (v : ℕ) (rest : List ℕ) → IsWord32 v → get_i32 (put_i32 v ++ rest) ≡ some (v, rest)
unfolding get_i32 put_i32
get_i32-put_i32 v rest h = rw in_range (get_u32-put_u32 v rest h)
  where
    in_range : u32 v ≡ v
    in_range = omega arith

pub ruleset wire_laws =
    (get_u8-put_u8, get_u16-put_u16, get_u32-put_u32, get_i16-put_i16, get_i32-put_i32)
