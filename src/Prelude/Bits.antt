-- ===== src/Prelude/Bits.antt =====
-- Laws of `|`, `&` and `^` at variables, digit by digit.
mod Step
pub mod Single
use Step.{or_halves, and_halves, xor_halves}
use Prim.Native.Nat.{ℕ, zero, suc, ◌+◌, ◌*◌, ◌/◌, ◌%◌, ◌^◌, ◌<◌, min, max, bit_and, bit_or, bit_xor}
use mathlib.Core.Path.{◌≡◌, refl, ap, ◌∙◌}
use native.Mathlib.Nat.{pow-suc}
use native.Mathlib.Omega.{arith}

-- The digit of `x` with weight 2 ^ j.
pub bit : ℕ → ℕ → ℕ
bit zero x = x % 2
bit (suc j) x = bit j (x / 2)

pub bit-lt : (j x : ℕ) → bit j x < 2
unfolding bit
bit-lt zero x = omega arith
bit-lt (suc j) x = bit-lt j (x / 2)

pub bit-zero_number : (j : ℕ) → bit j 0 ≡ 0
unfolding bit
bit-zero_number zero = refl
bit-zero_number (suc j) = bit-zero_number j

pub bit-bit_or : (j a b : ℕ) → bit j (bit_or a b) ≡ max (bit j a) (bit j b)
unfolding bit
bit-bit_or zero a b = (or_halves a b).1
bit-bit_or (suc j) a b = rw (or_halves a b).0 (bit-bit_or j (a / 2) (b / 2))

pub bit-bit_and : (j a b : ℕ) → bit j (bit_and a b) ≡ min (bit j a) (bit j b)
unfolding bit
bit-bit_and zero a b = (and_halves a b).1
bit-bit_and (suc j) a b = rw (and_halves a b).0 (bit-bit_and j (a / 2) (b / 2))

pub bit-bit_xor : (j a b : ℕ) → bit j (bit_xor a b) ≡ (bit j a + bit j b) % 2
unfolding bit
bit-bit_xor zero a b = (xor_halves a b).1
bit-bit_xor (suc j) a b = rw (xor_halves a b).0 (bit-bit_xor j (a / 2) (b / 2))

-- Numbers below 2 ^ k with the same k digits are equal.
pub bit_ext : (k a b : ℕ) → a < 2 ^ k → b < 2 ^ k → ((j : ℕ) → bit j a ≡ bit j b) → a ≡ b
unfolding bit
bit_ext zero a b p q h = omega arith
bit_ext (suc k) a b p q h = omega (
  arith,
  h 0,
  bit_ext k (a / 2) (b / 2) (omega (arith, pow-suc 2 k)) (omega (arith, pow-suc 2 k))
      (λ j. h (suc j)),
)

lt-two-pow : (a : ℕ) → a < 2 ^ a
lt-two-pow zero = omega arith
lt-two-pow (suc a) = omega (arith, lt-two-pow a, pow-suc 2 a)

pub bit_ext_all : (a b : ℕ) → ((j : ℕ) → bit j a ≡ bit j b) → a ≡ b
bit_ext_all a b h =
    bit_ext (a + b) a b (omega (arith, lt-two-pow (a + b))) (omega (arith, lt-two-pow (a + b))) h

pub bit_xor-lt : (k a b : ℕ) → a < 2 ^ k → b < 2 ^ k → bit_xor a b < 2 ^ k
bit_xor-lt zero a b p q = rw (none_of a p, none_of b q) (omega arith)
  where
    none_of : (n : ℕ) → n < 1 → n ≡ 0
    none_of n h = omega arith
bit_xor-lt (suc k) a b p q = omega (
  arith,
  xor_halves a b,
  pow-suc 2 k,
  bit_xor-lt k (a / 2) (b / 2) (omega (arith, pow-suc 2 k)) (omega (arith, pow-suc 2 k)),
)

-- A value XORed twice with the same mask comes back.
pub bit_xor_cancel : (a b : ℕ) → bit_xor (bit_xor a b) b ≡ a
bit_xor_cancel a b =
    bit_ext_all _ _
      λ j. omega (arith, bit-bit_xor j (bit_xor a b) b, bit-bit_xor j a b, bit-lt j a, bit-lt j b)

-- Multiplying by 2 ^ k moves the digits up.
pub bit-shift_below : (k j x : ℕ) → j < k → bit j (x * 2 ^ k) ≡ 0
unfolding bit
bit-shift_below zero j x h = absurd (omega arith)
bit-shift_below (suc k) zero x h = omega (arith, ap (λ (t : ℕ). x * t) (pow-suc 2 k))
bit-shift_below (suc k) (suc j) x h = rw half (bit-shift_below k j x (omega arith))
  where
    half : x * 2 ^ suc k / 2 ≡ x * 2 ^ k
    half = omega (arith, ap (λ (t : ℕ). x * t) (pow-suc 2 k))

pub bit-shift : (k j x : ℕ) → bit (k + j) (x * 2 ^ k) ≡ bit j x
unfolding bit
bit-shift zero j x = rw (out, one) refl
  where
    out : 0 + j ≡ j
    out = omega arith

    one : x * 1 ≡ x
    one = omega arith
bit-shift (suc k) j x = rw suc_out (ap (bit (k + j)) half ∙ bit-shift k j x)
  where
    suc_out : suc k + j ≡ suc (k + j)
    suc_out = omega arith

    half : x * 2 ^ suc k / 2 ≡ x * 2 ^ k
    half = omega (arith, ap (λ (t : ℕ). x * t) (pow-suc 2 k))

-- The digits of a number below 2 ^ k stop at k.
pub bit_above : (k j x : ℕ) → x < 2 ^ k → bit (k + j) x ≡ 0
unfolding bit
bit_above zero j x h = rw nil (bit-zero_number (0 + j))
  where
    nil : x ≡ 0
    nil = omega arith
bit_above (suc k) j x h = rw suc_out (bit_above k j (x / 2) (omega (arith, pow-suc 2 k)))
  where
    suc_out : suc k + j ≡ suc (k + j)
    suc_out = omega arith

zero-bit_or : (a : ℕ) → bit_or 0 a ≡ a
zero-bit_or a = bit_ext_all _ _ λ j. omega (arith, bit-bit_or j 0 a, bit-zero_number j)

-- A low field of w digits and a field above it are joined by `|` to their sum.
pub bit_or-disjoint : (w lo hi : ℕ) → lo < 2 ^ w → bit_or lo (hi * 2 ^ w) ≡ hi * 2 ^ w + lo
bit_or-disjoint zero lo hi fits = rw empty (zero-bit_or (hi * 1) ∙ omega arith)
  where
    empty : lo ≡ 0
    empty = omega arith
bit_or-disjoint (suc w) lo hi fits =
    let doubled = ap (λ (t : ℕ). hi * t) (pow-suc 2 w) in
    let half : hi * 2 ^ suc w / 2 ≡ hi * 2 ^ w = omega (arith, doubled) in
    let rest = bit_or-disjoint w (lo / 2) hi (omega (arith, pow-suc 2 w)) in
    omega (arith, or_halves lo (hi * 2 ^ suc w), ap (bit_or (lo / 2)) half, rest, doubled)
