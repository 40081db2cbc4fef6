-- ===== src/Prelude/Words.antt =====
-- Unsigned machine words as native numbers: a cast keeps the low bits, and arithmetic wraps.
use Prim.Native.Nat.{ℕ, ◌+◌, ◌-◌, ◌*◌, ◌/◌, ◌%◌, ◌^◌, ◌<◌}
use mathlib.Core.Bool.{Bool}
use formation_flight.Prelude.Tests.{ltb}

abbrev pub u8 : ℕ → ℕ
u8 n = n % 256

abbrev pub u16 : ℕ → ℕ
u16 n = n % 65536

abbrev pub u32 : ℕ → ℕ
u32 n = n % 4294967296

-- uint32_t a + b and a - b. `-` on ℕ stops at 0, so the modulus is added first.
abbrev pub add32 : ℕ → ℕ → ℕ
add32 a b = u32 (a + b)

abbrev pub sub32 : ℕ → ℕ → ℕ
sub32 a b = u32 (a + 4294967296 - b % 4294967296)

-- `x << k` before the cast, and `x >> k`.
abbrev pub shl : ℕ → ℕ → ℕ
shl x k = x * 2 ^ k

abbrev pub shr : ℕ → ℕ → ℕ
shr x k = x / 2 ^ k

-- The ranges of the fixed widths.
abbrev pub IsByte : ℕ → Type 0
IsByte n = n < 256

abbrev pub IsWord16 : ℕ → Type 0
IsWord16 n = n < 65536

abbrev pub IsWord32 : ℕ → Type 0
IsWord32 n = n < 4294967296

-- The signed orders: a pattern with its sign bit turned over stands where its value stands.
abbrev pub lt_i16 : ℕ → ℕ → Bool
lt_i16 a b = ltb ((a + 32768) % 65536) ((b + 32768) % 65536)

abbrev pub lt_i32 : ℕ → ℕ → Bool
lt_i32 a b = ltb ((a + 2147483648) % 4294967296) ((b + 2147483648) % 4294967296)
