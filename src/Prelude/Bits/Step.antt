-- ===== src/Prelude/Bits/Step.antt =====
-- The lowest digit of `|`, `&` and `^` and the rest of them, from the recursion with fuel that the
-- operations mean.
use Prim.Native.Nat.{
  ℕ, zero, suc, ◌+◌, ◌*◌, ◌/◌, ◌%◌, ◌≤◌, ◌<◌, min, max, bit_and, bit_or, bit_xor, digits, bitwise,
  bit_and-bitwise, bit_or-bitwise, bit_xor-bitwise, differ,
}
use mathlib.Core.Path.{◌≡◌, refl, ◌∙◌}
use native.Mathlib.Decide.{ℕ_discrete}
use native.Mathlib.Omega.{arith}

module _ (alone : ℕ → ℕ) (both : ℕ → ℕ → ℕ) where
  -- Fuel above the first number's size is not used.
  one_more :
      (fuel x y : ℕ) → x ≤ fuel → digits alone both (suc fuel) x y ≡ digits alone both fuel x y
  one_more fuel zero y enough = spent fuel
    where
      spent : (n : ℕ) → digits alone both (suc n) zero y ≡ digits alone both n zero y
      spent zero = refl
      spent (suc n) = refl
  one_more zero (suc x) y enough = absurd (omega arith)
  one_more (suc fuel) (suc x) y enough = rw (one_more fuel (suc x / 2) (y / 2) (omega arith))

  exact_fuel : (fuel x y : ℕ) → x ≤ fuel → digits alone both fuel x y ≡ digits alone both x x y
  exact_fuel zero zero y enough = refl
  exact_fuel zero (suc x) y enough = absurd (omega arith)
  exact_fuel (suc fuel) x y enough = elim (ℕ_discrete x (suc fuel)) [
    | yes e ↦ rw e
    | no ne ↦ one_more fuel x y (omega arith) ∙ exact_fuel fuel x y (omega arith)
  ]

  unroll :
      (x y : ℕ)
      → bitwise alone both (suc x) y
        ≡ bitwise alone both (suc x / 2) (y / 2) * 2 + both (suc x % 2) (y % 2)
  unroll x y = rw (exact_fuel x (suc x / 2) (y / 2) (omega arith))

-- The two halves of an operation's result.
pub or_halves :
    (x y : ℕ) → (bit_or x y / 2 ≡ bit_or (x / 2) (y / 2)) × (bit_or x y % 2 ≡ max (x % 2) (y % 2))
or_halves zero y = simp bit_or-bitwise (omega arith)
or_halves (suc x) y = simp bit_or-bitwise (omega (arith, unroll (λ n. n) max x y))

pub and_halves :
    (x y : ℕ)
    → (bit_and x y / 2 ≡ bit_and (x / 2) (y / 2)) × (bit_and x y % 2 ≡ min (x % 2) (y % 2))
and_halves zero y = simp bit_and-bitwise (omega arith)
and_halves (suc x) y = simp bit_and-bitwise (omega (arith, unroll (λ n. 0) min x y))

differ_binary : (x y : ℕ) → x < 2 → y < 2 → differ x y ≡ (x + y) % 2
differ_binary zero y p q = omega arith
differ_binary (suc zero) zero p q = refl
differ_binary (suc zero) (suc zero) p q = refl
differ_binary (suc zero) (suc (suc y)) p q = absurd (omega arith)
differ_binary (suc (suc x)) y p q = absurd (omega arith)

pub xor_halves :
    (x y : ℕ)
    → (bit_xor x y / 2 ≡ bit_xor (x / 2) (y / 2)) × (bit_xor x y % 2 ≡ (x % 2 + y % 2) % 2)
xor_halves zero y = simp bit_xor-bitwise (omega arith)
xor_halves (suc x) y = simp bit_xor-bitwise (
    omega (
      arith,
      unroll (λ n. n) differ x y,
      differ_binary (suc x % 2) (y % 2) (omega arith) (omega arith),
    ))
