-- ===== src/Scheduler/Batch.antt =====
-- lib/ff_core/scheduler.cpp: what a poll does when the callbacks leave the scheduler alone.
use formation_flight.Prelude.{
  ℕ, suc, ◌+◌, ◌<◌, ◌≡◌, refl, sym, ap, ap₂, ◌∙◌, List, [], ◌∷◌, ◌++◌, append_assoc, Bool, true,
  false, not, ◌||◌, if◌then◌else◌, arith, map, set, get_or, length, length-append, inl, inr,
  Bool-cases, IsWord32,
}
use formation_flight.Scheduler.{
  Timer, Scheduler, blank_timer, is_due, advance, fire_one, fire, poll,
}
use formation_flight.Scheduler.Delay.{any_due}

-- All due timers at once: each is advanced, and their callbacks run in the order of the slots.
unfoldable pub advance_due : ℕ → Timer → Timer
advance_due now_ms t = if is_due now_ms t then advance now_ms t else t

unfoldable pub work_due : {W : Type 0} → (ℕ → W → W) → ℕ → List Timer → W → W
work_due work now_ms [] w = w
work_due work now_ms (t ∷ ts) w =
    work_due work now_ms ts (if is_due now_ms t then work t.task w else w)

get_or-middle :
    (ps ts : List Timer) (t : Timer) → get_or (ps ++ (t ∷ ts)) (length ps) blank_timer ≡ t
get_or-middle [] ts t = refl
get_or-middle (p ∷ ps) ts t = get_or-middle ps ts t

set-middle :
    (ps ts : List Timer) (t u : Timer) → set (ps ++ (t ∷ ts)) (length ps) u ≡ ps ++ (u ∷ ts)
set-middle [] ts t u = refl
set-middle (p ∷ ps) ts t u = ap (λ x. p ∷ x) (set-middle ps ts t u)

-- A timer that was advanced is not due at the same time, if its period is below 2 ^ 31.
advance_not_due :
    (now_ms : ℕ) (t : Timer)
    → IsWord32 now_ms
    → t.period_ms < 2147483648
    → is_due now_ms (advance now_ms t) ≡ false
unfolding is_due advance
advance_not_due now_ms t word short = ground arith

any_due-advance_due :
    (now_ms : ℕ) (ts : List Timer)
    → IsWord32 now_ms
    → ((j : ℕ) → (get_or ts j blank_timer).period_ms < 2147483648)
    → any_due now_ms (map (advance_due now_ms) ts) ≡ false
unfolding any_due advance_due
any_due-advance_due now_ms [] word short = refl
any_due-advance_due now_ms (t ∷ ts) word short =
    let rest = any_due-advance_due now_ms ts word (λ j. short (suc j)) in
    elim (Bool-cases (is_due now_ms t)) [
      | inl e ↦ rw (any_due, advance_due, e, advance_not_due now_ms t word (short 0)) rest
      | inr e ↦ rw (any_due, advance_due, e, e) rest
    ]

guard_passed :
    {A : Type 0} (due active : Bool) (skipped fired : A)
    → due ≡ true
    → active ≡ true
    → (if not due || not active then skipped else fired) ≡ fired
guard_passed due active skipped fired p q = rw (p, q) refl

due_active : (now_ms : ℕ) (t : Timer) → is_due now_ms t ≡ true → t.active ≡ true
unfolding is_due
due_active now_ms t e = ground arith

module _ {W : Type 0} (work : ℕ → W → W) where
  -- Callbacks that change only the rest of the program.
  abbrev pub quiet : ℕ → Scheduler × W → Scheduler × W
  quiet task st = (st.0, work task st.1)

  abbrev at : ℕ → List Timer → Scheduler
  at now_ms ts = record { timers = ts; now_ms = now_ms }

  -- A round on a timer that is known.
  fire_one-at :
      (due : Bool) (i now_ms : ℕ) (ts : List Timer) (t : Timer) (w : W)
      → get_or ts i blank_timer ≡ t
      → fire_one quiet due i (at now_ms ts, w) ≡ (
          if not due || not t.active
          then (at now_ms ts, w)
          else (at now_ms (set ts i (advance now_ms t)), work t.task w))
  unfolding fire_one
  fire_one-at due i now_ms ts t w e =
      ap
        (λ (u : Timer).
          if not due || not u.active
          then (at now_ms ts, w)
          else (at now_ms (set ts i (advance now_ms u)), work u.task w))
        e

  fire_one-middle :
      (now_ms : ℕ) (ps ts : List Timer) (t : Timer) (w : W)
      → fire_one quiet (is_due now_ms t) (length ps) (at now_ms (ps ++ (t ∷ ts)), w) ≡ (
        at now_ms (ps ++ (advance_due now_ms t ∷ ts)),
        if is_due now_ms t then work t.task w else w,
      )
  unfolding advance_due
  fire_one-middle now_ms ps ts t w =
      fire_one-at (is_due now_ms t) (length ps) now_ms (ps ++ (t ∷ ts)) t w (get_or-middle ps ts t)
      ∙ elim (Bool-cases (is_due now_ms t)) [
        | inl e ↦
            guard_passed _ _ _ _ e (due_active now_ms t e)
            ∙ rw e
                (ap (λ us. (at now_ms us, work t.task w)) (set-middle ps ts t (advance now_ms t)))
        | inr e ↦ rw e refl
      ]

  fire-middle :
      (now_ms : ℕ) (ps ts : List Timer) (w : W)
      → fire quiet (map (is_due now_ms) ts) (length ps) (at now_ms (ps ++ ts), w)
        ≡ (at now_ms (ps ++ map (advance_due now_ms) ts), work_due work now_ms ts w)
  unfolding fire work_due
  fire-middle now_ms ps [] w = refl
  fire-middle now_ms ps (t ∷ ts) w =
      let t' = advance_due now_ms t in
      let w' = if is_due now_ms t then work t.task w else w in
      let dues = map (is_due now_ms) ts in
      ap (fire quiet dues (length ps + 1)) (fire_one-middle now_ms ps ts t w)
      ∙ ap₂ (λ i us. fire quiet dues i (at now_ms us, w')) one_more regroup
      ∙ fire-middle now_ms (ps ++ (t' ∷ [])) ts w'
      ∙ ap (λ us. (at now_ms us, work_due work now_ms ts w'))
          (append_assoc ps (t' ∷ []) (map (advance_due now_ms) ts))
    where
      one_more : length ps + 1 ≡ length (ps ++ (advance_due now_ms t ∷ []))
      one_more = omega (arith, length-append ps (advance_due now_ms t ∷ []))

      regroup : ps ++ (advance_due now_ms t ∷ ts) ≡ (ps ++ (advance_due now_ms t ∷ [])) ++ ts
      regroup = sym (append_assoc ps (advance_due now_ms t ∷ []) ts)

  -- With callbacks that leave the scheduler alone, a poll runs the callback of every timer that is
  -- due, once each and in the order of the slots, and advances just these timers.
  pub poll-quiet :
      (now_ms : ℕ) (s : Scheduler) (w : W)
      → (poll quiet now_ms (s, w)).1 ≡ (
        record { timers = map (advance_due now_ms) s.timers; now_ms = now_ms },
        work_due work now_ms s.timers w,
      )
  unfolding poll
  poll-quiet now_ms s w = fire-middle now_ms [] s.timers w

  -- With such callbacks, a 32-bit clock and periods below 2 ^ 31 no timer is due any more when the
  -- poll returns, however late it came: there is no burst of calls to catch up.
  pub poll_no_burst :
      (now_ms : ℕ) (s : Scheduler) (w : W)
      → IsWord32 now_ms
      → ((j : ℕ) → (get_or s.timers j blank_timer).period_ms < 2147483648)
      → any_due now_ms (poll quiet now_ms (s, w)).1.0.timers ≡ false
  poll_no_burst now_ms s w word short =
      ap (λ r. any_due now_ms r.0.timers) (poll-quiet now_ms s w)
      ∙ any_due-advance_due now_ms s.timers word short
