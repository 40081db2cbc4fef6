-- ===== src/LoraBand/Resolved.antt =====
-- lib/ff_core/lora_band.cpp: the band that a node runs on.
use formation_flight.Prelude.{
  ℕ, ◌≡◌, ◌≢◌, ◌⊎◌, inl, inr, refl, Bool, true, false, not, ◌&&◌, ◌==◌, arith, if◌then◌else◌,
  ==_iff,
}
use formation_flight.HwLayout.{LoraChip, sx127x, sx128x, lr1121}
use formation_flight.LoraBand.{board_supports_band, only_band, resolve_lora_band, lora_bands}

-- A band that the board can run, and no other of those there are.
abbrev pub IsOnlyBand : LoraChip → Bool → ℕ → Type 0
IsOnlyBand chip elrs_hardware r =
    (board_supports_band chip elrs_hardware r ≡ true)
    × ((b : ℕ) → board_supports_band chip elrs_hardware b ≡ true → b ≡ r)

two_bands :
    (chip : LoraChip) (elrs : Bool) (a b : ℕ)
    → board_supports_band chip elrs a ≡ true
    → board_supports_band chip elrs b ≡ true
    → a ≢ b
    → (r : ℕ) → ¬ IsOnlyBand chip elrs r
two_bands chip elrs a b p q ne r only = ne (omega (arith, only.1 a p, only.1 b q))

-- The search finds the only band, or none if there are several.
only_band_lem :
    (chip : LoraChip) (elrs : Bool)
    → let r = only_band (board_supports_band chip elrs) lora_bands 0 in
      ((r ≢ 0) × IsOnlyBand chip elrs r) ⊎ ((r ≡ 0) × ((b : ℕ) → ¬ IsOnlyBand chip elrs b))
unfolding only_band board_supports_band
only_band_lem sx127x false = inr (refl, two_bands sx127x false 868 915 refl refl (omega arith))
only_band_lem sx127x true = inr (refl, two_bands sx127x true 868 915 refl refl (omega arith))
only_band_lem sx128x false = inl (omega arith, (refl, λ b h. (==_iff b 2400).0 h))
only_band_lem sx128x true = inl (omega arith, (refl, λ b h. ground arith))
only_band_lem lr1121 false = inr (refl, two_bands lr1121 false 868 915 refl refl (omega arith))
only_band_lem lr1121 true = inr (refl, two_bands lr1121 true 868 915 refl refl (omega arith))

-- Whether a setting counts: it is there, and the board can run it.
abbrev pub counts : LoraChip → Bool → ℕ → Bool
counts chip elrs_hardware band = not (band == 0) && board_supports_band chip elrs_hardware band

-- A rest of the search is the only band that the board can run, and 0 if there are several.
abbrev pub IsResolved : LoraChip → Bool → ℕ → ℕ → ℕ → Type 0
IsResolved chip elrs_hardware configured flashed_default r =
    (counts chip elrs_hardware configured ≡ true → r ≡ configured)
    × (counts chip elrs_hardware configured ≡ false
        → counts chip elrs_hardware flashed_default ≡ true
        → r ≡ flashed_default)
    × (counts chip elrs_hardware configured ≡ false
        → counts chip elrs_hardware flashed_default ≡ false
        → ((r ≢ 0) × IsOnlyBand chip elrs_hardware r)
          ⊎ ((r ≡ 0) × ((b : ℕ) → ¬ IsOnlyBand chip elrs_hardware b)))
    × (r ≢ 0 → board_supports_band chip elrs_hardware r ≡ true)

apart : {b : Bool} → b ≡ true → b ≡ false → ⊥
apart h k = cc

and_right : (a b : Bool) → (a && b) ≡ true → b ≡ true
and_right true b h = h
and_right false b h = cc

by_choice :
    (chip : LoraChip) (elrs : Bool) (configured flashed : ℕ) (first second : Bool) (only : ℕ)
    → counts chip elrs configured ≡ first
    → counts chip elrs flashed ≡ second
    → ((only ≢ 0) × IsOnlyBand chip elrs only) ⊎ ((only ≡ 0) × ((b : ℕ) → ¬ IsOnlyBand chip elrs b))
    → IsResolved chip elrs configured flashed
        (if first then configured else if second then flashed else only)
by_choice chip elrs configured flashed true second only p q o =
    (λ h. refl, λ h k. absurd (apart p h), λ h k. absurd (apart p h), λ n. and_right _ _ p)
by_choice chip elrs configured flashed false true only p q o =
    (λ h. absurd (apart h p), λ h k. refl, λ h k. absurd (apart q k), λ n. and_right _ _ q)
by_choice chip elrs configured flashed false false only p q (inl o) =
    (λ h. absurd (apart h p), λ h k. absurd (apart k q), λ h k. inl o, λ n. o.1.0)
by_choice chip elrs configured flashed false false only p q (inr o) =
    (λ h. absurd (apart h p), λ h k. absurd (apart k q), λ h k. inr o, λ n. absurd (n o.0))

-- A configured band that the board can run is taken; else the flashed default if the board can run
-- it; else the only band that it can run, and 0 if it can run several. What is not 0 the board can
-- run.
pub resolve_lora_band-IsResolved :
    (chip : LoraChip) (elrs_hardware : Bool) (configured flashed_default : ℕ)
    → IsResolved chip elrs_hardware configured flashed_default
        (resolve_lora_band chip elrs_hardware configured flashed_default)
unfolding resolve_lora_band
resolve_lora_band-IsResolved chip elrs_hardware configured flashed_default =
    by_choice chip elrs_hardware configured flashed_default _ _ _ refl refl
      (only_band_lem chip elrs_hardware)
