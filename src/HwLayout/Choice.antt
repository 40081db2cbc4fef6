-- ===== src/HwLayout/Choice.antt =====
-- lib/ff_core/hw_layout.cpp: the power that is chosen on a board whose layout was parsed.
use Prim.Native.String.{String}
use formation_flight.Prelude.{
  ℕ, ◌+◌, ◌-◌, ◌<◌, ◌≤◌, ◌≡◌, ◌⊎◌, inl, inr, refl, Bool, true, false, ◌==◌, List, some, length,
  get_or, u8, IsWord32, lt_i32, arith,
}
use formation_flight.HwLayout.{
  HardwareLayout, LoraChip, sx127x, sx128x, lr1121, PowerChoice, elrs_power_to_dbm, power_level_dbm,
  power_table, table_level, table_power, choose_power,
}
use formation_flight.HwLayout.Power.{
  IsHighest, target_dbm, top_level, top_level-range, table_level-IsHighest,
}
use formation_flight.HwLayout.Parse.{LayoutJson, parse_layout_json}
use formation_flight.HwLayout.Tables.{IsTabled, parse_layout_json-IsTabled}

-- What comes out of a table of one to eight values: `level`, with the power that it stands for, and
-- with a value of the table for the chip.
pub record IsChoice (hw : HardwareLayout) (chip : LoraChip) (values : List ℕ)
    (requested_dbm ceiling_dbm : ℕ) (c : PowerChoice) : Type 0 where
  pub highest :
      IsHighest
        (target_dbm requested_dbm)
        ceiling_dbm
        hw.power_min
        (top_level hw (length values))
        c.level
  pub covered : c.level < hw.power_min + length values
  pub output : c.output_dbm ≡ power_level_dbm c.level
  pub taken :
      c.chip_dbm ≡ elrs_power_to_dbm chip (get_or values (c.level - hw.power_min) 0) hw.radio_rfo_hf

length-power_table :
    (hw : HardwareLayout) (chip : LoraChip) (high_band : Bool)
    → IsTabled hw
    → hw.has_power_table ≡ true
    → (1 ≤ length (power_table hw chip high_band)) × (length (power_table hw chip high_band) ≤ 8)
length-power_table hw sx127x high_band t h = (t.filled h, t.room)
length-power_table hw sx128x high_band t h = (t.filled h, t.room)
length-power_table hw lr1121 high_band t h =
    let filled : 1 ≤ length hw.power_values = t.filled h in ground (arith, t.room, t.dual_room)

level_covered :
    (hw : HardwareLayout) (target ceiling count r : ℕ)
    → hw.power_min ≤ hw.power_max
    → hw.power_max ≤ 7
    → 1 ≤ count
    → count ≤ 8
    → IsHighest target ceiling hw.power_min (top_level hw count) r
    → (r < hw.power_min + count) × (r ≤ 7)
level_covered hw target ceiling count r a b c e (low, found, above) = by_level found
  where
    below : top_level hw count < hw.power_min + count
    below = ground arith

    by_level :
        (r ≡ hw.power_min)
          ⊎ ((r ≤ top_level hw count)
              × (lt_i32 target (power_level_dbm r) ≡ false)
              × (lt_i32 ceiling (power_level_dbm r) ≡ false))
        → (r < hw.power_min + count) × (r ≤ 7)
    by_level (inl p) = (omega arith, omega arith)
    by_level (inr p) =
        (omega (arith, p.0, below), omega (arith, p.0, (top_level-range hw count a b c e).1))

table_power-IsChoice :
    (hw : HardwareLayout) (chip : LoraChip) (values : List ℕ) (requested_dbm ceiling_dbm : ℕ)
    → hw.power_min ≤ hw.power_max
    → hw.power_max ≤ 7
    → 1 ≤ length values
    → length values ≤ 8
    → IsWord32 requested_dbm
    → IsChoice hw chip values requested_dbm ceiling_dbm
        (table_power hw chip values requested_dbm ceiling_dbm)
unfolding table_power
table_power-IsChoice hw chip values requested_dbm ceiling_dbm a b c e w =
    let level = table_level hw (length values) requested_dbm ceiling_dbm in
    let highest = table_level-IsHighest hw (length values) requested_dbm ceiling_dbm a b c e w in
    let covered =
      level_covered hw (target_dbm requested_dbm) ceiling_dbm (length values) level a b c e
        highest in
    let byte : u8 level ≡ level = omega (arith, covered.1) in
    rw byte (record { highest = highest; covered = covered.0; output = refl; taken = refl })

module _ {J : Type 0} (j : LayoutJson J)
    (words : (doc : J) (key : String) (v : ℕ) → j.int_at doc key ≡ some v → IsWord32 v) where
  -- Whatever document a layout is parsed from, over a layout whose table is in range: if there is a
  -- power table then, the power is chosen by it. The level is the least one, or its power is neither
  -- above the request (10 dBm without one) nor above the ceiling of the band; every higher level that
  -- the table covers is above one of them; and the chip is given the table's value for the level.
  pub choose_power-parsed :
      (json : List ℕ) (out : HardwareLayout) (chip : LoraChip) (high_band : Bool)
      (requested_dbm ceiling_dbm : ℕ)
      → IsTabled out
      → (parse_layout_json j json out).0.has_power_table ≡ true
      → IsWord32 requested_dbm
      → IsChoice
          (parse_layout_json j json out).0
          chip
          (power_table (parse_layout_json j json out).0 chip high_band)
          requested_dbm
          ceiling_dbm
          (choose_power (parse_layout_json j json out).0 chip high_band requested_dbm ceiling_dbm)
  unfolding choose_power
  choose_power-parsed json out chip high_band requested_dbm ceiling_dbm t h w =
      let hw = (parse_layout_json j json out).0 in
      let tabled = parse_layout_json-IsTabled j words json out t in
      let values = power_table hw chip high_band in
      let sizes = length-power_table hw chip high_band tabled h in
      let filled : (length values == 0) ≡ false = ground (arith, sizes.0) in
      rw (h, filled)
        (table_power-IsChoice hw chip values requested_dbm ceiling_dbm tabled.least tabled.most
          sizes.0 sizes.1 w)
