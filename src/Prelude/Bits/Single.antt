-- ===== src/Prelude/Bits/Single.antt =====
-- Numbers with one digit set, and the low digits of a number.
use Prim.Native.Nat.{ℕ, zero, suc, ◌+◌, ◌-◌, ◌*◌, ◌/◌, ◌%◌, ◌^◌, ◌<◌, bit_and}
use mathlib.Core.Path.{◌≡◌, refl, sym, ap, ◌∙◌}
use mathlib.Core.Logic.{◌≢◌, ◌↔◌}
use native.Mathlib.Nat.{pow-suc, one-le-pow, div-add-mod'}
use native.Mathlib.Decide.{dec_lt, ℕ_discrete}
use native.Mathlib.Omega.{arith}
use formation_flight.Prelude.Bits.{
  bit, bit-lt, bit-bit_and, bit-shift, bit-shift_below, bit_above, bit_ext_all,
}

-- The digits below k are those of the low part.
bit_below_fields : (k q r j : ℕ) → j < k → bit j (q * 2 ^ k + r) ≡ bit j r
unfolding bit
bit_below_fields zero q r j h = absurd (omega arith)
bit_below_fields (suc k) q r zero h = omega (arith, ap (λ (t : ℕ). q * t) (pow-suc 2 k))
bit_below_fields (suc k) q r (suc j) h =
    ap (bit j) half ∙ bit_below_fields k q (r / 2) j (omega arith)
  where
    half : (q * 2 ^ suc k + r) / 2 ≡ q * 2 ^ k + r / 2
    half = omega (arith, ap (λ (t : ℕ). q * t) (pow-suc 2 k))

-- A cast to k bits keeps the digits below k.
pub bit-mod : (k j x : ℕ) → j < k → bit j (x % 2 ^ k) ≡ bit j x
bit-mod k j x h =
    sym (ap (bit j) (sym (div-add-mod' x (2 ^ k))) ∙ bit_below_fields k (x / 2 ^ k) (x % 2 ^ k) j h)

bit-digit_self : (k b : ℕ) → b < 2 → bit k (b * 2 ^ k) ≡ b
unfolding bit
bit-digit_self k b h = ap (λ m. bit m (b * 2 ^ k)) here ∙ (bit-shift k 0 b ∙ omega arith)
  where
    here : k ≡ k + 0
    here = omega arith

bit-digit_ne : (j k b : ℕ) → b < 2 → j ≢ k → bit j (b * 2 ^ k) ≡ 0
bit-digit_ne j k b small h = elim (dec_lt j k) [
  | yes p ↦ bit-shift_below k j b p
  | no p ↦
      let above : j ≡ k + (1 + (j - k - 1)) = omega arith in
      ap (λ m. bit m (b * 2 ^ k)) above
      ∙ (bit-shift k (1 + (j - k - 1)) b ∙ bit_above 1 (j - k - 1) b small)
]

pub bit-single_self : (k : ℕ) → bit k (1 * 2 ^ k) ≡ 1
bit-single_self k = bit-digit_self k 1 (omega arith)

pub bit-single_ne : (j k : ℕ) → j ≢ k → bit j (1 * 2 ^ k) ≡ 0
bit-single_ne j k h = bit-digit_ne j k 1 (omega arith) h

-- Masking with one digit leaves that digit.
pub bit_and-single : (k x : ℕ) → bit_and x (1 * 2 ^ k) ≡ bit k x * 2 ^ k
bit_and-single k x = bit_ext_all _ _ λ j. digit j (ℕ_discrete j k)
  where
    digit : (j : ℕ) → Dec (j ≡ k) → bit j (bit_and x (1 * 2 ^ k)) ≡ bit j (bit k x * 2 ^ k)
    digit j (yes e) = rw e (
        omega (
          arith,
          bit-bit_and k x (1 * 2 ^ k),
          bit-single_self k,
          bit-digit_self k (bit k x) (bit-lt k x),
          bit-lt k x,
        ))
    digit j (no ne) = omega (
      arith,
      bit-bit_and j x (1 * 2 ^ k),
      bit-single_ne j k ne,
      bit-digit_ne j k (bit k x) (bit-lt k x) ne,
    )

-- The test of a single flag: `x & (1 << k)` is zero exactly if the digit is.
pub bit_and-single_iff : (k x : ℕ) → (bit_and x (1 * 2 ^ k) ≡ 0) ↔ (bit k x ≡ 0)
bit_and-single_iff k x = (
  λ e. zero_digit (bit k x) (bit-lt k x) (sym (bit_and-single k x) ∙ e),
  λ e. bit_and-single k x ∙ (ap (λ (t : ℕ). t * 2 ^ k) e ∙ omega arith),
)
  where
    zero_digit : (b : ℕ) → b < 2 → b * 2 ^ k ≡ 0 → b ≡ 0
    zero_digit zero h e = refl
    zero_digit (suc zero) h e = absurd (omega (arith, one-le-pow k 2))
    zero_digit (suc (suc b)) h e = absurd (omega arith)
