-- ===== src/HwLayout/Decibels.antt =====
-- lib/ff_core/hw_layout.cpp: the power of a level.
use formation_flight.Prelude.{
  ℕ, zero, suc, ◌+◌, ◌-◌, ◌≤◌, ◌<◌, ◌≡◌, refl, false, lt_i32, arith, IsWord32,
}
use formation_flight.HwLayout.{power_level_dbm}

dbm_step : (l : ℕ) → l < 7 → power_level_dbm l ≤ power_level_dbm (suc l)
unfolding power_level_dbm
dbm_step zero h = omega arith
dbm_step (suc zero) h = omega arith
dbm_step (suc (suc zero)) h = omega arith
dbm_step (suc (suc (suc zero))) h = omega arith
dbm_step (suc (suc (suc (suc zero)))) h = omega arith
dbm_step (suc (suc (suc (suc (suc zero))))) h = omega arith
dbm_step (suc (suc (suc (suc (suc (suc zero)))))) h = omega arith
dbm_step (suc (suc (suc (suc (suc (suc (suc l))))))) h = absurd (omega arith)

dbm_mono : (k l : ℕ) → l + k ≤ 7 → power_level_dbm l ≤ power_level_dbm (l + k)
dbm_mono zero l h = rw (add_zero l) (omega arith)
  where
    add_zero : (n : ℕ) → n + 0 ≡ n
    add_zero n = omega arith
dbm_mono (suc k) l h =
    rw (add_suc l k) (omega (arith, dbm_mono k l (omega arith), dbm_step (l + k) (omega arith)))
  where
    add_suc : (n j : ℕ) → n + suc j ≡ suc (n + j)
    add_suc n j = omega arith

dbm-le : (l : ℕ) → l ≤ 7 → power_level_dbm l ≤ 33
dbm-le l h = omega (arith, dbm_mono (7 - l) l (omega arith), top (l + (7 - l)) (omega arith))
  where
    top : (n : ℕ) → n ≡ 7 → power_level_dbm n ≤ 33
    top n e = rw e (unfold power_level_dbm in omega arith)

-- A lower level stays below a limit.
pub lower_within :
    (limit a b : ℕ)
    → IsWord32 limit
    → a ≤ b
    → b ≤ 7
    → lt_i32 limit (power_level_dbm b) ≡ false
    → lt_i32 limit (power_level_dbm a) ≡ false
lower_within limit a b w h top e =
    less (power_level_dbm a) (power_level_dbm b)
      (omega (arith, below (a + (b - a)) (omega arith), dbm_mono (b - a) a (omega arith)))
      (dbm-le b top) e
  where
    below : (n : ℕ) → n ≡ b → power_level_dbm n ≡ power_level_dbm b
    below n q = rw q refl

    less : (x y : ℕ) → x ≤ y → y ≤ 33 → lt_i32 limit y ≡ false → lt_i32 limit x ≡ false
    less x y p q r = ground arith
