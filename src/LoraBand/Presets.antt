-- ===== src/LoraBand/Presets.antt =====
-- lib/ff_core/lora_band.cpp: the channels of the presets and their bands.
use formation_flight.Prelude.{
  ℕ, ◌+◌, ◌-◌, ◌*◌, ◌≤◌, ◌≡◌, ◌≢◌, refl, Bool, true, false, ltb, ◌==◌, Option, none, some, arith,
}
use native.Mathlib.Decide.{ℕ_discrete}
use formation_flight.RateControl.{Double}
use formation_flight.LoraBand.{
  LoraBand, lora_band_preset, lora_band_edges, lora_band_valid, within_edges, blank_band,
}

-- 2 ^ 53.
abbrev pub exact_limit : ℕ
exact_limit = 9007199254740992

-- Doubles are exact on whole numbers up to 2 ^ 53, and on their halves.
pub record IsExact {D : Type 0} (d : Double D) : Type 0 where
  pub add_nat : (a b : ℕ) → a + b ≤ exact_limit → d.add (d.of_nat a) (d.of_nat b) ≡ d.of_nat (a + b)
  pub sub_nat :
      (a b : ℕ) → b ≤ a → a ≤ exact_limit → d.sub (d.of_nat a) (d.of_nat b) ≡ d.of_nat (a - b)
  pub mul_nat : (a b : ℕ) → a * b ≤ exact_limit → d.mul (d.of_nat a) (d.of_nat b) ≡ d.of_nat (a * b)
  pub half_nat : (a : ℕ) → 2 * a ≤ exact_limit → d.div (d.of_nat (2 * a)) (d.of_nat 2) ≡ d.of_nat a
  pub mul_half :
      (a b : ℕ)
      → 2 * a * b ≤ exact_limit
      → d.mul (d.div (d.of_nat a) (d.of_nat 2)) (d.of_nat (2 * b)) ≡ d.of_nat (a * b)
  pub lt_nat :
      (a b : ℕ) → a ≤ exact_limit → b ≤ exact_limit → d.lt (d.of_nat a) (d.of_nat b) ≡ ltb a b
  pub lt_half :
      (a b : ℕ)
      → a ≤ exact_limit
      → 2 * b ≤ exact_limit
      → d.lt (d.div (d.of_nat a) (d.of_nat 2)) (d.of_nat b) ≡ ltb a (2 * b)

low_band : {narrow : Bool} → false ≡ true → narrow ≡ false
low_band h = cc

module _ {D : Type 0} ⦃d : Double D⦄ where
  open d use {of_nat, div}

  -- A channel whose half bandwidth is a whole number of hertz.
  inside :
      (band freq : ℕ) (bw : D) (low high half_bw : ℕ)
      → IsExact d
      → high ≤ exact_limit
      → d.div (d.mul bw (d.of_nat 1000)) (d.of_nat 2) ≡ d.of_nat half_bw
      → low + half_bw ≤ freq
      → freq + half_bw ≤ high
      → ((band == 2400) ≡ true → d.lt bw (d.of_nat 500) ≡ false)
      → within_edges band freq bw (some (d.of_nat low, d.of_nat high)) ≡ none
  inside band freq bw low high half_bw e top h p q wide =
      rw
        (
          h,
          e.sub_nat freq half_bw (omega arith) (omega arith),
          e.add_nat freq half_bw (omega arith),
          e.lt_nat (freq - half_bw) low (omega arith) (omega arith),
          e.lt_nat high (freq + half_bw) (omega arith) (omega arith),
        )
        (ground arith)

  -- Half a bandwidth of `khz` kilohertz.
  half_band :
      (khz half_bw : ℕ)
      → IsExact d
      → khz * 1000 ≡ 2 * half_bw
      → 2 * half_bw ≤ exact_limit
      → d.div (d.mul (d.of_nat khz) (d.of_nat 1000)) (d.of_nat 2) ≡ d.of_nat half_bw
  half_band khz half_bw e h le = rw (e.mul_nat khz 1000 (omega arith), h) (e.half_nat half_bw le)

  -- There is a preset for the bands of the list only, and it is valid.
  abbrev pub IsPresetOf : ℕ → Option (LoraBand D) → Type 0
  IsPresetOf band none = (band ≢ 433) × (band ≢ 868) × (band ≢ 915) × (band ≢ 2400)
  IsPresetOf band (some b) = (b.band ≡ band) × (lora_band_valid b ≡ none)

  preset_433 : IsExact d → IsPresetOf 433 (lora_band_preset 433)
  unfolding lora_band_preset lora_band_valid blank_band lora_band_edges
  preset_433 e = (
    refl,
    inside 433 434400000 (of_nat 250) 433050000 434790000 125000 e (omega arith)
        (half_band 250 125000 e (omega arith) (omega arith)) (omega arith) (omega arith) low_band,
  )

  preset_868 : IsExact d → IsPresetOf 868 (lora_band_preset 868)
  unfolding lora_band_preset lora_band_valid blank_band lora_band_edges
  preset_868 e = (
    refl,
    inside 868 869525000 (of_nat 125) 869400000 869650000 62500 e (omega arith)
        (half_band 125 62500 e (omega arith) (omega arith)) (omega arith) (omega arith) low_band,
  )

  preset_915 : IsExact d → IsPresetOf 915 (lora_band_preset 915)
  unfolding lora_band_preset lora_band_valid blank_band lora_band_edges
  preset_915 e = (
    refl,
    inside 915 920000000 (of_nat 500) 902000000 928000000 250000 e (omega arith)
        (half_band 500 250000 e (omega arith) (omega arith)) (omega arith) (omega arith) low_band,
  )

  preset_2400 : IsExact d → IsPresetOf 2400 (lora_band_preset 2400)
  unfolding lora_band_preset lora_band_valid blank_band lora_band_edges
  preset_2400 e = (
    refl,
    inside 2400 2476000000 (div (of_nat 1625) (of_nat 2)) 2400000000 2483500000 406250 e
        (omega arith) (rw (e.mul_half 1625 500 (omega arith)) (e.half_nat 406250 (omega arith)))
        (omega arith) (omega arith) (λ h. e.lt_half 1625 500 (omega arith) (omega arith)),
  )

  -- If doubles are exact on whole numbers up to 2 ^ 53 and on their halves: there is a preset for
  -- 433, 868, 915 and 2400, whose channel is valid for its band, and for no other.
  pub lora_band_preset-IsPresetOf : (band : ℕ) → IsExact d → IsPresetOf band (lora_band_preset band)
  lora_band_preset-IsPresetOf band e = elim (ℕ_discrete band 433) [
    | yes p ↦ rw p (preset_433 e)
    | no a ↦ elim (ℕ_discrete band 868) [
      | yes p ↦ rw p (preset_868 e)
      | no b ↦ elim (ℕ_discrete band 915) [
        | yes p ↦ rw p (preset_915 e)
        | no c ↦ elim (ℕ_discrete band 2400) [
          | yes p ↦ rw p (preset_2400 e)
          | no n ↦ rw (unknown a b c n) (a, b, c, n)
        ]
      ]
    ]
  ]
    where
      unknown :
          band ≢ 433 → band ≢ 868 → band ≢ 915 → band ≢ 2400 → lora_band_preset {D = D} band ≡ none
      unknown a b c n = unfold lora_band_preset in ground arith
