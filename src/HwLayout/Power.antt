-- ===== src/HwLayout/Power.antt =====
-- lib/ff_core/hw_layout.cpp: the level that is chosen from a power table.
use formation_flight.Prelude.{
  ℕ, zero, suc, ◌+◌, ◌-◌, ◌≤◌, ◌<◌, ◌≡◌, ◌⊎◌, inl, inr, refl, Bool, true, false, not, lt_i32, arith,
  ◌==◌, if◌then◌else◌, IsWord32,
}
use native.Mathlib.Decide.{dec_lt, dec_le}
use formation_flight.HwLayout.Decibels.{lower_within}
use formation_flight.HwLayout.{
  HardwareLayout, power_level_dbm, level_for, lower_to, table_level, default_lora_dbm, clamp_int,
}

-- What the loop over the levels below `m` has found, from `least` on: the last level within.
abbrev IsLast : ℕ → ℕ → ℕ → ℕ → Type 0
IsLast target least m level =
    (least ≤ level)
    × ((level ≡ least) ⊎ ((level < m) × (lt_i32 target (power_level_dbm level) ≡ false)))
    × ((l : ℕ) → level < l → least ≤ l → l < m → lt_i32 target (power_level_dbm l) ≡ true)

next_level :
    (target least l level : ℕ) (over : Bool)
    → lt_i32 target (power_level_dbm l) ≡ over
    → least ≤ l
    → IsLast target least l level
    → IsLast target least (l + 1) (if over then level else l)
next_level target least l level true e h s = (s.0, still s.1, up)
  where
    still :
        (level ≡ least) ⊎ ((level < l) × (lt_i32 target (power_level_dbm level) ≡ false))
        → (level ≡ least) ⊎ ((level < l + 1) × (lt_i32 target (power_level_dbm level) ≡ false))
    still (inl q) = inl q
    still (inr q) = inr (omega (arith, q.0), q.1)

    up : (k : ℕ) → level < k → least ≤ k → k < l + 1 → lt_i32 target (power_level_dbm k) ≡ true
    up k a b c = elim (dec_lt k l) [
      | yes p ↦ s.2 k a b p
      | no p ↦ let same : k ≡ l = omega arith in rw same e
    ]
next_level target least l level false e h s =
    (h, inr (omega arith, e), λ k a b c. absurd (omega arith))

level_for-IsLast :
    (n least l target level : ℕ)
    → least ≤ l
    → IsLast target least l level
    → IsLast target least (l + n) (level_for n l target level)
unfolding level_for
level_for-IsLast zero least l target level h s = rw (same l) s
  where
    same : (k : ℕ) → k + 0 ≡ k
    same k = omega arith
level_for-IsLast (suc n) least l target level h s = rw (same l n) (
    level_for-IsLast n least (l + 1) target (if lt_i32 target (power_level_dbm l) then level else l)
      (omega arith) (next_level target least l level (lt_i32 target (power_level_dbm l)) refl h s))
  where
    same : (k j : ℕ) → k + suc j ≡ k + 1 + j
    same k j = omega arith

-- What is left of the levels above `least` under the ceiling.
abbrev IsUnder : ℕ → ℕ → ℕ → ℕ → Type 0
IsUnder ceiling least n r =
    (least ≤ r)
    × (r ≤ least + n)
    × ((r ≡ least) ⊎ (lt_i32 ceiling (power_level_dbm r) ≡ false))
    × ((l : ℕ) → r < l → l ≤ least + n → lt_i32 ceiling (power_level_dbm l) ≡ true)

lower_step :
    (n least ceiling r : ℕ) (over : Bool)
    → lt_i32 ceiling (power_level_dbm (least + suc n)) ≡ over
    → IsUnder ceiling least n r
    → IsUnder ceiling least (suc n) (elim over [ true ↦ r | false ↦ least + suc n ])
lower_step n least ceiling r true e u = (u.0, omega (arith, u.1), u.2, above)
  where
    above : (l : ℕ) → r < l → l ≤ least + suc n → lt_i32 ceiling (power_level_dbm l) ≡ true
    above l a b = elim (dec_le l (least + n)) [
      | yes p ↦ u.3 l a p
      | no p ↦ let same : l ≡ least + suc n = omega arith in rw same e
    ]
lower_step n least ceiling r false e u =
    (omega arith, omega arith, inr e, λ l a b. absurd (omega arith))

lower_to-IsUnder : (n least ceiling : ℕ) → IsUnder ceiling least n (lower_to n least ceiling)
unfolding lower_to
lower_to-IsUnder zero least ceiling =
    (omega arith, omega arith, inl refl, λ l a b. absurd (omega arith))
lower_to-IsUnder (suc n) least ceiling =
    lower_step n least ceiling (lower_to n least ceiling)
      (lt_i32 ceiling (power_level_dbm (least + suc n))) refl (lower_to-IsUnder n least ceiling)

-- The power that is asked for, 10 dBm by default.
abbrev pub target_dbm : ℕ → ℕ
target_dbm requested_dbm = if not (requested_dbm == 0) then requested_dbm else default_lora_dbm

abbrev pub top_level : HardwareLayout → ℕ → ℕ
top_level hw count = clamp_int hw.power_max hw.power_min (hw.power_min + count - 1)

pub top_level-range :
    (hw : HardwareLayout) (count : ℕ)
    → hw.power_min ≤ hw.power_max
    → hw.power_max ≤ 7
    → 1 ≤ count
    → count ≤ 8
    → (hw.power_min ≤ top_level hw count) × (top_level hw count ≤ 7)
top_level-range hw count a b c e = ground arith

-- Level `r` is the least one or within both limits, and every higher level up to `top` is over one.
abbrev pub IsHighest : ℕ → ℕ → ℕ → ℕ → ℕ → Type 0
IsHighest target ceiling least top r =
    (least ≤ r)
    × ((r ≡ least)
        ⊎ ((r ≤ top)
            × (lt_i32 target (power_level_dbm r) ≡ false)
            × (lt_i32 ceiling (power_level_dbm r) ≡ false)))
    × ((l : ℕ)
        → r < l
        → l ≤ top
        → (lt_i32 target (power_level_dbm l) ≡ true) ⊎ (lt_i32 ceiling (power_level_dbm l) ≡ true))

-- Both loops together: neither limit is passed above the least level, and no higher level is within
-- both.
both_limits :
    (target ceiling least top level r : ℕ)
    → IsWord32 target
    → top ≤ 7
    → IsLast target least (top + 1) level
    → IsUnder ceiling least (level - least) r
    → IsHighest target ceiling least top r
both_limits target ceiling least top level r w t last under =
    (under.0, within last.1 under.2, higher)
  where
    within :
        ((level ≡ least) ⊎ ((level < top + 1) × (lt_i32 target (power_level_dbm level) ≡ false)))
        → ((r ≡ least) ⊎ (lt_i32 ceiling (power_level_dbm r) ≡ false))
        → (r ≡ least)
          ⊎ ((r ≤ top)
              × (lt_i32 target (power_level_dbm r) ≡ false)
              × (lt_i32 ceiling (power_level_dbm r) ≡ false))
    within (inl p) q = inl (omega (arith, under.0, under.1))
    within (inr p) (inl q) = inl q
    within (inr p) (inr q) = inr (
      omega (arith, under.1, last.0, p.0),
      lower_within target r level w (omega (arith, under.1, last.0)) (omega (arith, p.0)) p.1,
      q,
    )

    higher :
        (l : ℕ)
        → r < l
        → l ≤ top
        → (lt_i32 target (power_level_dbm l) ≡ true) ⊎ (lt_i32 ceiling (power_level_dbm l) ≡ true)
    higher l a b = elim (dec_le l level) [
      | yes p ↦ inr (under.3 l a (omega (arith, last.0)))
      | no p ↦ inl (last.2 l (omega arith) (omega (arith, under.0)) (omega arith))
    ]

-- The level from a table of `count` values.
pub table_level-IsHighest :
    (hw : HardwareLayout) (count requested_dbm ceiling_dbm : ℕ)
    → hw.power_min ≤ hw.power_max
    → hw.power_max ≤ 7
    → 1 ≤ count
    → count ≤ 8
    → IsWord32 requested_dbm
    → IsHighest
        (target_dbm requested_dbm)
        ceiling_dbm
        hw.power_min
        (top_level hw count)
        (table_level hw count requested_dbm ceiling_dbm)
unfolding table_level
table_level-IsHighest hw count requested_dbm ceiling_dbm a b c e w =
    let target = target_dbm requested_dbm in
    let least = hw.power_min in
    let top = top_level hw count in
    let bounds = top_level-range hw count a b c e in
    let level = level_for (top + 1 - least) least target least in
    let all : least + (top + 1 - least) ≡ top + 1 = omega (arith, bounds.0) in
    let start : IsLast target least least least =
      (omega arith, inl refl, λ l p q r. absurd (omega arith)) in
    let found : IsLast target least (least + (top + 1 - least)) level =
      level_for-IsLast (top + 1 - least) least least target least (omega arith) start in
    let last : IsLast target least (top + 1) level = rw all at found in
    both_limits target ceiling_dbm least top level (lower_to (level - least) least ceiling_dbm)
      (ground arith) bounds.1 last (lower_to-IsUnder (level - least) least ceiling_dbm)
