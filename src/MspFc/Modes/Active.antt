-- ===== src/MspFc/Modes/Active.antt =====
-- lib/ff_core/msp_fc.cpp, decodeActiveModes: which modes are on.
use native.Mathlib.Decide.{ℕ_discrete}
use mathlib.Core.Path.{subst}
use mathlib.Core.Option.{none-ne-some}
use formation_flight.Prelude.{
  ℕ, zero, suc, ◌+◌, ◌/◌, ◌%◌, ◌<◌, ◌≡◌, ◌↔◌, ◌⊎◌, inl, inr, refl, sym, ap, ◌∙◌, List, [], ◌∷◌,
  some, true, false, leb, ◌==◌, if◌then◌else◌, bit_and, length, get_or, get_elem?, shl, arith,
  Bool-cases,
}
use formation_flight.Prelude.Bits.{bit, bit-lt, bit-zero_number}
use formation_flight.Prelude.Bits.Single.{bit_and-single_iff}
use formation_flight.MspFc.Modes.{fc_box_permanent_ids, add_mode, modes_from, decode_active_modes}
use formation_flight.MspFc.Modes.Digits.{IsOn, Increasing, Added, add_mode-Added, Added-add_mode}

permanent-Increasing : Increasing 0 fc_box_permanent_ids
permanent-Increasing = omega arith

-- A box that is on and stands for mode `j`, among those at position `i` and behind.
abbrev Boxed : List ℕ → List ℕ → ℕ → ℕ → Type 0
Boxed flags box_ids i j =
    (k : ℕ) × (id : ℕ) × IsOn flags (i + k)
    × (get_elem? box_ids k ≡ some id)
    × (get_elem? fc_box_permanent_ids j ≡ some id)

abbrev with_box : List ℕ → ℕ → ℕ → ℕ → ℕ
with_box flags id i modes =
    if bit_and (get_or flags (i / 8) 0) (shl 1 (i % 8)) == 0
    then modes
    else add_mode fc_box_permanent_ids 0 id modes

modes_from_past :
    (flags : List ℕ) (id : ℕ) (box_ids : List ℕ) (i modes : ℕ)
    → leb (length flags) (i / 8) ≡ true
    → modes_from flags (id ∷ box_ids) i modes ≡ modes
unfolding modes_from
modes_from_past flags id box_ids i modes past = rw past refl

modes_from_within :
    (flags : List ℕ) (id : ℕ) (box_ids : List ℕ) (i modes : ℕ)
    → leb (length flags) (i / 8) ≡ false
    → modes_from flags (id ∷ box_ids) i modes
      ≡ modes_from flags box_ids (i + 1) (with_box flags id i modes)
unfolding modes_from
modes_from_within flags id box_ids i modes within = rw within refl

box_off :
    (flags : List ℕ) (id i modes : ℕ)
    → bit (i % 8) (get_or flags (i / 8) 0) ≡ 0
    → with_box flags id i modes ≡ modes
box_off flags id i modes e =
    ground (arith, (bit_and-single_iff (i % 8) (get_or flags (i / 8) 0)).1 e)

box_on :
    (flags : List ℕ) (id i modes : ℕ)
    → bit (i % 8) (get_or flags (i / 8) 0) ≡ 1
    → with_box flags id i modes ≡ add_mode fc_box_permanent_ids 0 id modes
box_on flags id i modes e = ground (arith, (bit_and-single_iff (i % 8) (get_or flags (i / 8) 0)).0)

-- One box, in front of those behind it.
behind_box :
    (flags : List ℕ) (id : ℕ) (box_ids : List ℕ) (i j : ℕ)
    → Boxed flags box_ids (i + 1) j
    → Boxed flags (id ∷ box_ids) i j
behind_box flags id box_ids i j (k, x, on, here, permanent) =
    (suc k, x, subst (IsOn flags) (omega arith) on, here, permanent)

first_box :
    (flags : List ℕ) (id : ℕ) (box_ids : List ℕ) (i modes j : ℕ)
    → i / 8 < length flags
    → bit j (with_box flags id i modes) ≡ 1
    → (bit j modes ≡ 1) ⊎ Boxed flags (id ∷ box_ids) i j
first_box flags id box_ids i modes j inside e =
    elim (ℕ_discrete (bit (i % 8) (get_or flags (i / 8) 0)) 1) [
      | yes on ↦ named on (
          add_mode-Added fc_box_permanent_ids 0 id modes j
            (ap (bit j) (sym (box_on flags id i modes on)) ∙ e))
      | no other ↦ inl (
          ap (bit j) (
            sym (
              box_off flags id i modes
                (omega (arith, bit-lt (i % 8) (get_or flags (i / 8) 0), other))))
          ∙ e)
    ]
  where
    named :
        bit (i % 8) (get_or flags (i / 8) 0) ≡ 1
        → Added fc_box_permanent_ids 0 id modes j
        → (bit j modes ≡ 1) ⊎ Boxed flags (id ∷ box_ids) i j
    named on (inl e) = inl e
    named on (inr (a, at, e)) =
        let there : j ≡ a = omega arith in
        inr (
          0,
          id,
          subst (IsOn flags) (omega arith) (inside, on),
          refl,
          ap (get_elem? fc_box_permanent_ids) there ∙ e,
        )

modes_from-Boxed :
    (flags box_ids : List ℕ) (i modes j : ℕ)
    → bit j (modes_from flags box_ids i modes) ≡ 1
    → (bit j modes ≡ 1) ⊎ Boxed flags box_ids i j
unfolding modes_from
modes_from-Boxed flags [] i modes j e = inl e
modes_from-Boxed flags (id ∷ box_ids) i modes j e = elim (Bool-cases (leb (length flags) (i / 8))) [
  | inl past ↦ inl (ap (bit j) (sym (modes_from_past flags id box_ids i modes past)) ∙ e)
  | inr within ↦
      elim (modes_from-Boxed flags box_ids (i + 1) (with_box flags id i modes) j
        (ap (bit j) (sym (modes_from_within flags id box_ids i modes within)) ∙ e)) [
          | inl mine ↦ first_box flags id box_ids i modes j (ground (arith, within)) mine
          | inr later ↦ inr (behind_box flags id box_ids i j later)
        ]
]

with_box_keeps :
    (flags : List ℕ) (id i modes j : ℕ) → bit j modes ≡ 1 → bit j (with_box flags id i modes) ≡ 1
with_box_keeps flags id i modes j e = elim (ℕ_discrete (bit (i % 8) (get_or flags (i / 8) 0)) 1) [
  | yes on ↦
      ap (bit j) (box_on flags id i modes on)
      ∙ Added-add_mode 0 fc_box_permanent_ids 0 id modes j permanent-Increasing (inl e)
  | no other ↦
      ap (bit j)
        (box_off flags id i modes (omega (arith, bit-lt (i % 8) (get_or flags (i / 8) 0), other)))
      ∙ e
]

Boxed-modes_from :
    (flags box_ids : List ℕ) (i modes j : ℕ)
    → (bit j modes ≡ 1) ⊎ Boxed flags box_ids i j
    → bit j (modes_from flags box_ids i modes) ≡ 1
unfolding modes_from
Boxed-modes_from flags [] i modes j (inl e) = e
Boxed-modes_from flags [] i modes j (inr (k, id, on, here, permanent)) =
    absurd (none-ne-some id here)
Boxed-modes_from flags (id ∷ box_ids) i modes j h = elim (Bool-cases (leb (length flags) (i / 8))) [
  | inl past ↦ ap (bit j) (modes_from_past flags id box_ids i modes past) ∙ only_before past h
  | inr within ↦
      ap (bit j) (modes_from_within flags id box_ids i modes within)
      ∙ Boxed-modes_from flags box_ids (i + 1) (with_box flags id i modes) j (moved h)
]
  where
    only_before :
        leb (length flags) (i / 8) ≡ true
        → (bit j modes ≡ 1) ⊎ Boxed flags (id ∷ box_ids) i j
        → bit j modes ≡ 1
    only_before past (inl e) = e
    only_before past (inr (k, x, on, here, permanent)) = absurd (ground (arith, past, on.0))

    moved :
        (bit j modes ≡ 1) ⊎ Boxed flags (id ∷ box_ids) i j
        → (bit j (with_box flags id i modes) ≡ 1) ⊎ Boxed flags box_ids (i + 1) j
    moved (inl e) = inl (with_box_keeps flags id i modes j e)
    moved (inr (zero, x, on, here, permanent)) = inl (
        ap (bit j) (
          box_on flags id i modes
            (subst (λ n. bit (n % 8) (get_or flags (n / 8) 0) ≡ 1) (omega arith) on.1))
        ∙ Added-add_mode 0 fc_box_permanent_ids 0 id modes j permanent-Increasing
            (inr (j, omega arith, permanent ∙ sym here)))
    moved (inr (suc k, x, on, here, permanent)) =
        inr (k, x, subst (IsOn flags) (omega arith) on, here, permanent)

-- Mode `j` of the digits that the decoder yields is on exactly if some box that is on has the
-- permanent id of mode `j`, whatever the flags and the ids of the boxes.
pub decode_active_modes_iff :
    (flags box_ids : List ℕ) (j : ℕ)
    → (bit j (decode_active_modes flags box_ids) ≡ 1) ↔ (
        (i : ℕ) × (id : ℕ) × IsOn flags i
        × (get_elem? box_ids i ≡ some id)
        × (get_elem? fc_box_permanent_ids j ≡ some id))
unfolding decode_active_modes
decode_active_modes_iff flags box_ids j = (
  λ e. started (modes_from-Boxed flags box_ids 0 0 j e),
  λ (i, id, on, here, permanent).
      Boxed-modes_from flags box_ids 0 0 j
        (inr (i, id, subst (IsOn flags) (omega arith) on, here, permanent)),
)
  where
    started :
        (bit j 0 ≡ 1) ⊎ Boxed flags box_ids 0 j
        → (i : ℕ) × (id : ℕ) × IsOn flags i
          × (get_elem? box_ids i ≡ some id)
          × (get_elem? fc_box_permanent_ids j ≡ some id)
    started (inl e) = absurd (omega (arith, bit-zero_number j, e))
    started (inr (k, id, on, here, permanent)) =
        (k, id, subst (IsOn flags) (omega arith) on, here, permanent)
