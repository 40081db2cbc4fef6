-- ===== src/Scheduler/Delay.antt =====
-- lib/ff_core/scheduler.cpp: the time that poll returns.
use formation_flight.Prelude.{
  ℕ, ◌<◌, ◌≤◌, ◌≡◌, refl, ◌∙◌, List, [], ◌∷◌, Bool, true, false, ◌&&◌, ◌||◌, ltb, leb,
  if◌then◌else◌, arith, add32, sub32, inl, inr, ◌↔◌, Bool-cases, IsWord32,
}
use formation_flight.Scheduler.{Timer, Scheduler, reached, is_due, next_delay, no_timer_due, poll}

-- Whether some timer is due.
unfoldable pub any_due : ℕ → List Timer → Bool
any_due now_ms [] = false
any_due now_ms (t ∷ ts) = let rest = any_due now_ms ts in is_due now_ms t || rest

unfoldable pub any_active : List Timer → Bool
any_active [] = false
any_active (t ∷ ts) = let rest = any_active ts in t.active || rest

next_delay-le : (now_ms : ℕ) (ts : List Timer) (best : ℕ) → next_delay now_ms ts best ≤ best
unfolding next_delay
next_delay-le now_ms [] best = omega arith
next_delay-le now_ms (t ∷ ts) best =
    let d = sub32 t.due_ms now_ms in
    let dd = if leb 2147483648 d then 0 else d in
    let best' = if t.active && ltb dd best then dd else best in
    let le = next_delay-le now_ms ts best' in let down : best' ≤ best = ground arith in omega arith

-- The time from now until a timer is due, 0 if it is late.
abbrev pub remaining : ℕ → Timer → ℕ
remaining now_ms t = let d = sub32 t.due_ms now_ms in if leb 2147483648 d then 0 else d

not_due_early :
    (now_ms k : ℕ) (t : Timer)
    → IsWord32 now_ms
    → k < remaining now_ms t
    → reached (add32 now_ms k) t.due_ms ≡ false
not_due_early now_ms k t word h = ground arith

-- The best time so far with the next timer's.
abbrev better : ℕ → Timer → ℕ → ℕ
better now_ms t best =
    if t.active && ltb (remaining now_ms t) best then remaining now_ms t else best

better-le : (now_ms : ℕ) (t : Timer) (best : ℕ) → better now_ms t best ≤ best
better-le now_ms t best = ground arith

better_active :
    (now_ms : ℕ) (t : Timer) (best : ℕ)
    → t.active ≡ true
    → better now_ms t best ≤ remaining now_ms t
better_active now_ms t best e = ground arith

-- Before the time is over no timer is due.
next_delay_early :
    (now_ms k : ℕ) (ts : List Timer) (best : ℕ)
    → IsWord32 now_ms
    → k < next_delay now_ms ts best
    → any_due (add32 now_ms k) ts ≡ false
unfolding next_delay any_due is_due
next_delay_early now_ms k [] best word h = refl
next_delay_early now_ms k (t ∷ ts) best word h =
    let le = next_delay-le now_ms ts (better now_ms t best) in
    let rest = next_delay_early now_ms k ts (better now_ms t best) word h in
    elim (Bool-cases t.active) [
      | inl e ↦
          let early =
            not_due_early now_ms k t word (omega (arith, better_active now_ms t best e)) in
          rw (any_due, is_due, e, early, rest) refl
      | inr e ↦ rw (any_due, is_due, e, rest) refl
    ]

-- The time is below 2 ^ 31 as soon as a timer is active.
next_delay_active :
    (now_ms : ℕ) (ts : List Timer) (best : ℕ)
    → any_active ts ≡ true
    → next_delay now_ms ts best < 2147483648
unfolding next_delay any_active
next_delay_active now_ms [] best h = absurd cc
next_delay_active now_ms (t ∷ ts) best h =
    let le = next_delay-le now_ms ts (better now_ms t best) in
    elim (Bool-cases t.active) [
      | inl e ↦
          let near = better_active now_ms t best e in
          let small : remaining now_ms t < 2147483648 = ground arith in omega arith
      | inr e ↦ next_delay_active now_ms ts (better now_ms t best) (ground arith)
    ]

next_delay_idle :
    (now_ms : ℕ) (ts : List Timer) (best : ℕ)
    → any_active ts ≡ false
    → next_delay now_ms ts best ≡ best
unfolding next_delay any_active
next_delay_idle now_ms [] best h = refl
next_delay_idle now_ms (t ∷ ts) best h =
    let still : better now_ms t best ≡ best = ground arith in
    next_delay_idle now_ms ts (better now_ms t best) (ground arith) ∙ still

module _ {W : Type 0} (run : ℕ → Scheduler × W → Scheduler × W) where
  -- Whatever the callbacks do, if they leave a 32-bit clock: at no time before the delay that `poll`
  -- returns is over is a timer due, and the delay is UINT32_MAX exactly if no timer is active.
  pub poll_delay :
      (now_ms k : ℕ) (st : Scheduler × W)
      → IsWord32 (poll run now_ms st).1.0.now_ms
      → let r = poll run now_ms st in
        (k < r.0 → any_due (add32 r.1.0.now_ms k) r.1.0.timers ≡ false)
        × ((r.0 ≡ 4294967295) ↔ (any_active r.1.0.timers ≡ false))
  unfolding poll
  poll_delay now_ms k st word =
      let r = poll run now_ms st in
      let now' = r.1.0.now_ms in
      let ts = r.1.0.timers in
      (
        next_delay_early now' k ts no_timer_due word,
        (
          λ e. elim (Bool-cases (any_active ts)) [
            | inl a ↦ let small = next_delay_active now' ts no_timer_due a in absurd (omega arith)
            | inr a ↦ a
          ],
          λ a. next_delay_idle now' ts no_timer_due a,
        ),
      )
