-- ===== src/Wire.antt =====
-- lib/ff_core/wire_format.h: little-endian writers and readers.
--
-- A writer yields the bytes that it stores at the cursor. A reader takes the bytes from the cursor
-- to the end of the buffer, and returns its value and the bytes behind it. Reading past the end,
-- which is undefined in the source, is `none`. An int16_t or int32_t is its two's-complement bit
-- pattern, so the signed writers and readers, which only cast, are the unsigned ones.
pub mod Roundtrip
pub mod Takes
use formation_flight.Prelude.{
  ℕ, zero, suc, ◌+◌, ◌*◌, List, [], ◌∷◌, Option, none, some, bit_or, u8, u16, u32, shl, shr, ◌≡◌,
}

unfoldable pub put_u8 : ℕ → List ℕ
put_u8 v = v ∷ []

unfoldable pub put_u16 : ℕ → List ℕ
put_u16 v = u8 v ∷ u8 (shr v 8) ∷ []

-- The loop `for (i = 0; i < 4; i++)`, from its round `i` with `n` rounds left.
put_bytes : ℕ → ℕ → ℕ → List ℕ
put_bytes zero i v = []
put_bytes (suc n) i v = u8 (shr v (8 * i)) ∷ put_bytes n (i + 1) v

unfoldable pub put_u32 : ℕ → List ℕ
unfolding put_bytes
put_u32 v = put_bytes 4 0 v

unfoldable pub put_i16 : ℕ → List ℕ
unfolding put_u16
put_i16 v = put_u16 (u16 v)

unfoldable pub put_i32 : ℕ → List ℕ
unfolding put_u32
put_i32 v = put_u32 (u32 v)

abbrev pub Reader : Type 0 → Type 0
Reader A = List ℕ → Option (A × List ℕ)

infixl 5 ◌>>=◌
abbrev pub ◌>>=◌ : {A B : Type 0} → Reader A → (A → Reader B) → Reader B
◌>>=◌ m f bs = elim (m bs) [ none ↦ none | some (a, rest) ↦ f a rest ]

abbrev pub pure : {A : Type 0} → A → Reader A
pure a bs = some (a, bs)

unfoldable pub get_u8 : Reader ℕ
get_u8 [] = none
get_u8 (b ∷ bs) = some (b, bs)

unfoldable pub get_u16 : Reader ℕ
unfolding get_u8
get_u16 = do lo ← get_u8; hi ← get_u8; pure (u16 (bit_or lo (u16 (shl hi 8))))

-- The loop of `get_u32`, from its round `i` with `n` rounds left and `v` so far.
get_bytes : ℕ → ℕ → ℕ → Reader ℕ
unfolding get_u8
get_bytes zero i v = pure v
get_bytes (suc n) i v = do b ← get_u8; get_bytes n (i + 1) (bit_or v (u32 (shl b (8 * i))))

unfoldable pub get_u32 : Reader ℕ
unfolding get_bytes
get_u32 = get_bytes 4 0 0

unfoldable pub get_i16 : Reader ℕ
unfolding get_u16
get_i16 = get_u16

unfoldable pub get_i32 : Reader ℕ
unfolding get_u32
get_i32 = get_u32

-- A step that succeeds hands its value and the bytes behind it to the next step.
pub >>=-eq_of_some :
    {A B : Type 0} (m : Reader A) (f : A → Reader B) {bs rest : List ℕ} {a : A}
    {r : Option (B × List ℕ)}
    → m bs ≡ some (a, rest)
    → f a rest ≡ r
    → (m >>= f) bs ≡ r
>>=-eq_of_some m f e h = rw (e, ◌>>=◌) h
