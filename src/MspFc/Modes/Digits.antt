-- ===== src/MspFc/Modes/Digits.antt =====
-- lib/ff_core/msp_fc.cpp: the digits of the active modes, one added after another.
use native.Mathlib.Decide.{ℕ_discrete}
use mathlib.Core.Path.{subst}
use mathlib.Core.Option.{some-injective, none-ne-some}
use formation_flight.Prelude.{
  ℕ, zero, suc, ◌+◌, ◌/◌, ◌%◌, ◌<◌, ◌≤◌, ◌≡◌, ◌≢◌, ◌⊎◌, inl, inr, refl, sym, ap, ◌∙◌, List, [], ◌∷◌,
  some, true, false, ◌==◌, bit_or, length, get_or, get_elem?, shl, arith, Bool-cases,
}
use formation_flight.Prelude.Bits.{bit, bit-lt, bit-bit_or}
use formation_flight.Prelude.Bits.Single.{bit-single_self, bit-single_ne}
use formation_flight.MspFc.Modes.{add_mode}

-- The box at position `i` is on: its digit of the flags is there and is set.
abbrev pub IsOn : List ℕ → ℕ → Type 0
IsOn flags i = (i / 8 < length flags) × (bit (i % 8) (get_or flags (i / 8) 0) ≡ 1)

abbrev pub Increasing : ℕ → List ℕ → Type 0
Increasing lo [] = Unit
Increasing lo (p ∷ ps) = (lo ≤ p) × Increasing (p + 1) ps

Increasing-le :
    (lo : ℕ) (ps : List ℕ) (a id : ℕ) → Increasing lo ps → get_elem? ps a ≡ some id → lo ≤ id
Increasing-le lo [] a id h e = absurd (none-ne-some id e)
Increasing-le lo (p ∷ ps) zero id h e = omega (arith, h.0, some-injective p id e)
Increasing-le lo (p ∷ ps) (suc a) id h e = omega (arith, h.0, Increasing-le (p + 1) ps a id h.1 e)

-- What `add_mode` leaves of a digit: it was set, or the id stands at its place.
abbrev pub Added : List ℕ → ℕ → ℕ → ℕ → ℕ → Type 0
Added ps k id modes j = (bit j modes ≡ 1) ⊎ ((a : ℕ) × (k + a ≡ j) × (get_elem? ps a ≡ some id))

add_mode_hit :
    (p : ℕ) (ps : List ℕ) (k id modes : ℕ)
    → (p == id) ≡ true
    → add_mode (p ∷ ps) k id modes ≡ bit_or modes (shl 1 k)
unfolding add_mode
add_mode_hit p ps k id modes e = rw e refl

add_mode_miss :
    (p : ℕ) (ps : List ℕ) (k id modes : ℕ)
    → (p == id) ≡ false
    → add_mode (p ∷ ps) k id modes ≡ add_mode ps (k + 1) id modes
unfolding add_mode
add_mode_miss p ps k id modes e = rw e refl

hit_digit :
    (modes k j p id : ℕ) (ps : List ℕ)
    → p ≡ id
    → bit j (bit_or modes (shl 1 k)) ≡ 1
    → Added (p ∷ ps) k id modes j
hit_digit modes k j p id ps same e = elim (ℕ_discrete j k) [
  | yes here ↦ inr (0, omega arith, ap some same)
  | no other ↦ inl (ground (arith, bit-bit_or j modes (shl 1 k), bit-single_ne j k other, e))
]

miss_digit :
    (modes k j p id : ℕ) (ps : List ℕ) → Added ps (k + 1) id modes j → Added (p ∷ ps) k id modes j
miss_digit modes k j p id ps (inl e) = inl e
miss_digit modes k j p id ps (inr (a, at, e)) = inr (suc a, omega arith, e)

pub add_mode-Added :
    (ps : List ℕ) (k id modes j : ℕ) → bit j (add_mode ps k id modes) ≡ 1 → Added ps k id modes j
unfolding add_mode
add_mode-Added [] k id modes j e = inl e
add_mode-Added (p ∷ ps) k id modes j e = elim (Bool-cases (p == id)) [
  | inl hit ↦
      hit_digit modes k j p id ps (ground (arith, hit))
        (ap (bit j) (sym (add_mode_hit p ps k id modes hit)) ∙ e)
  | inr miss ↦ miss_digit modes k j p id ps (
      add_mode-Added ps (k + 1) id modes j
        (ap (bit j) (sym (add_mode_miss p ps k id modes miss)) ∙ e))
]

keeps_digit : (modes k j : ℕ) → bit j modes ≡ 1 → bit j (bit_or modes (shl 1 k)) ≡ 1
keeps_digit modes k j e = ground (arith, bit-bit_or j modes (shl 1 k), bit-lt j (shl 1 k), e)

sets_digit : (modes k : ℕ) → bit k (bit_or modes (shl 1 k)) ≡ 1
sets_digit modes k = ground (arith, bit-bit_or k modes (shl 1 k), bit-lt k modes, bit-single_self k)

pub Added-add_mode :
    (lo : ℕ) (ps : List ℕ) (k id modes j : ℕ)
    → Increasing lo ps
    → Added ps k id modes j
    → bit j (add_mode ps k id modes) ≡ 1
unfolding add_mode
Added-add_mode lo [] k id modes j h (inl e) = e
Added-add_mode lo [] k id modes j h (inr (a, at, e)) = absurd (none-ne-some id e)
Added-add_mode lo (p ∷ ps) k id modes j h added = elim (Bool-cases (p == id)) [
  | inl hit ↦ ap (bit j) (add_mode_hit p ps k id modes hit) ∙ hit_set (ground (arith, hit)) added
  | inr miss ↦
      ap (bit j) (add_mode_miss p ps k id modes miss)
      ∙ Added-add_mode (p + 1) ps (k + 1) id modes j h.1
          (later (λ e. ground (arith, miss, e)) added)
]
  where
    hit_set : p ≡ id → Added (p ∷ ps) k id modes j → bit j (bit_or modes (shl 1 k)) ≡ 1
    hit_set same (inl e) = keeps_digit modes k j e
    hit_set same (inr (zero, at, e)) =
        subst (λ i. bit i (bit_or modes (shl 1 k)) ≡ 1) (omega arith) (sets_digit modes k)
    hit_set same (inr (suc a, at, e)) = absurd (omega (arith, Increasing-le (p + 1) ps a id h.1 e))

    later : p ≢ id → Added (p ∷ ps) k id modes j → Added ps (k + 1) id modes j
    later other (inl e) = inl e
    later other (inr (zero, at, e)) = absurd (other (some-injective p id e))
    later other (inr (suc a, at, e)) = inr (a, omega arith, e)
