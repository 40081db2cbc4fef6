-- ===== src/Ubx/Messages/Course.antt =====
-- lib/ff_core/ubx.cpp: the ranges of what the decoders report.
use mathlib.Core.Option.{none-ne-some, some-injective}
use mathlib.Core.Path.{subst}
use formation_flight.Prelude.{
  ℕ, ◌<◌, ◌≡◌, refl, List, none, some, Bool, true, false, not, ◌&&◌, ◌||◌, ltb, ◌==◌, if◌then◌else◌,
  bit_and, length, arith,
}
use formation_flight.Ubx.Messages.{
  UbxFix, UbxVelNed, UbxSol, decode_nav_sol, normalise_course_ddeg, decode_nav_pvt,
  decode_nav_velned, read_i32, read_u8, div_i32,
}

normalise_course_ddeg-lt : (v : ℕ) → normalise_course_ddeg v < 3600
unfolding normalise_course_ddeg
normalise_course_ddeg-lt v = ground arith

accepted : {A : Type 0} (short : Bool) {a b : A} → (if short then none else some a) ≡ some b → a ≡ b
accepted true {a} {b} e = absurd (none-ne-some b e)
accepted false {a} {b} e = some-injective a b e

gated :
    (trusted : Bool) (t : ℕ)
    → (trusted && (t == 2 || t == 3)) ≡ (let r = if trusted then t else 0 in (r == 2 || r == 3))
gated true t = refl
gated false t = refl

-- Whatever payload of a NAV-PVT or NAV-VELNED message and of a NAV-SOL message is decoded: the
-- course is below 3600 decidegrees in both of the former, and a fix is called valid exactly if the
-- fix type that is reported with it is 2 or 3.
pub decoded_ranges :
    (p q r : List ℕ) (fix : UbxFix) (motion : UbxVelNed) (sol : UbxSol)
    → decode_nav_pvt p ≡ some fix
    → decode_nav_velned q ≡ some motion
    → decode_nav_sol r ≡ some sol
    → (fix.course_ddeg < 3600)
      × (motion.course_ddeg < 3600)
      × (fix.valid ≡ (fix.fix_type == 2 || fix.fix_type == 3))
      × (sol.valid ≡ (sol.fix_type == 2 || sol.fix_type == 3))
unfolding decode_nav_pvt decode_nav_velned decode_nav_sol
decoded_ranges p q r fix motion sol e1 e2 e3 = (
  subst (λ (f : UbxFix). f.course_ddeg < 3600) (accepted (ltb (length p) 92) e1)
      (normalise_course_ddeg-lt (div_i32 (read_i32 p 64) 10000)),
  subst (λ (m : UbxVelNed). m.course_ddeg < 3600) (accepted (ltb (length q) 36) e2)
      (normalise_course_ddeg-lt (div_i32 (read_i32 q 24) 10000)),
  subst (λ (f : UbxFix). f.valid ≡ (f.fix_type == 2 || f.fix_type == 3))
      (accepted (ltb (length p) 92) e1)
      (gated (not (bit_and (read_u8 p 21) 1 == 0)) (read_u8 p 20)),
  subst (λ (s : UbxSol). s.valid ≡ (s.fix_type == 2 || s.fix_type == 3))
      (accepted (ltb (length r) 52) e3)
      (gated (not (bit_and (read_u8 r 11) 1 == 0)) (read_u8 r 10)),
)
