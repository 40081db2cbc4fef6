-- ===== src/Crypto/Ccm/Tag.antt =====
-- lib/ff_core/ccm.cpp: the comparison of two tags.
use formation_flight.Prelude.{
  ℕ, suc, ◌<◌, ◌≡◌, refl, sym, ap, ap₂, ◌∙◌, List, [], ◌∷◌, bit_or, bit_xor, arith, get_or, length,
  u8,
}
use formation_flight.Prelude.Bits.{
  bit, bit_ext_all, bit-bit_xor, bit-bit_or, bit-zero_number, bit-lt, bit_xor-lt,
}
use formation_flight.Crypto.Ccm.{tag_diff}

bit_xor_self : (a : ℕ) → bit_xor a a ≡ 0
bit_xor_self a =
    bit_ext_all _ _ λ j. omega (arith, bit-bit_xor j a a, bit-zero_number j, bit-lt j a)

bit_xor_zero_eq : (a b : ℕ) → bit_xor a b ≡ 0 → a ≡ b
bit_xor_zero_eq a b h =
    bit_ext_all _ _
      λ j. omega (arith, bit-bit_xor j a b, ap (bit j) h, bit-zero_number j, bit-lt j a, bit-lt j b)

bit_or_zero_eq : (a b : ℕ) → bit_or a b ≡ 0 → (a ≡ 0) × (b ≡ 0)
bit_or_zero_eq a b h = (
  bit_ext_all _ _ (λ j. omega (arith, bit-bit_or j a b, ap (bit j) h, bit-zero_number j)),
  bit_ext_all _ _ (λ j. omega (arith, bit-bit_or j a b, ap (bit j) h, bit-zero_number j)),
)

pub tag_diff_self : (ts : List ℕ) → tag_diff ts ts 0 ≡ 0
unfolding tag_diff
tag_diff_self [] = refl
tag_diff_self (t ∷ ts) = rw (bit_xor_self t) (tag_diff_self ts)

-- A difference that was gathered stays.
tag_diff_zero : (ms ts : List ℕ) (diff : ℕ) → tag_diff ms ts diff ≡ 0 → diff ≡ 0
unfolding tag_diff
tag_diff_zero [] ts diff h = h
tag_diff_zero (m ∷ ms) [] diff h = h
tag_diff_zero (m ∷ ms) (t ∷ ts) diff h = (bit_or_zero_eq diff _ (tag_diff_zero ms ts _ h)).0

pub tag_diff_eq :
    (ms ts : List ℕ)
    → length ms ≡ length ts
    → ((j : ℕ) → get_or ms j 0 < 256)
    → ((j : ℕ) → get_or ts j 0 < 256)
    → tag_diff ms ts 0 ≡ 0
    → ms ≡ ts
unfolding tag_diff
tag_diff_eq [] [] e p q h = refl
tag_diff_eq [] (t ∷ ts) e p q h = absurd (omega arith)
tag_diff_eq (m ∷ ms) [] e p q h = absurd (omega arith)
tag_diff_eq (m ∷ ms) (t ∷ ts) e p q h =
    let gathered = bit_or_zero_eq 0 _ (tag_diff_zero ms ts _ h) in
    let small : bit_xor m t < 256 = bit_xor-lt 8 m t (p 0) (q 0) in
    let same : bit_xor m t ≡ 0 = omega (arith, gathered.1) in
    ap₂ (λ a b. a ∷ b) (bit_xor_zero_eq m t same)
      (tag_diff_eq ms ts (omega arith) (λ j. p (suc j)) (λ j. q (suc j))
        (ap (λ (d : ℕ). tag_diff ms ts (bit_or 0 (u8 d))) (sym same) ∙ h))
