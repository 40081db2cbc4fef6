-- ===== src/Tests/Timers.antt =====
-- lib/ff_core/scheduler.cpp: timers that are started, polled late and put off.
use formation_flight.Prelude.{
  ℕ, zero, suc, ◌<◌, ◌≡◌, ◌↔◌, refl, List, [], ◌∷◌, true, false, arith, get_or, replicate, add32,
  map,
}
use formation_flight.Scheduler.{
  Timer, Scheduler, blank_timer, alloc, after, cancel, active_count, is_due, advance, fire_one,
  poll,
}
use formation_flight.Scheduler.Batch.{quiet, advance_due, work_due, poll-quiet, poll_no_burst}
use formation_flight.Scheduler.Delay.{any_due, any_active, poll_delay}
use formation_flight.Scheduler.Slots.{put_off, rearm_too_late}

abbrev beacon : Timer
beacon = record { due_ms = 100; period_ms = 50; task = 1; active = true }

abbrev once : Timer
once = record { due_ms = 120; period_ms = 0; task = 2; active = true }

abbrev timers : Scheduler
timers = record { timers = beacon ∷ once ∷ replicate 14 blank_timer; now_ms = 90 }

abbrev trace : ℕ → List ℕ → List ℕ
trace task ran = task ∷ ran

-- A poll that is late by several periods fires each timer once and puts the period behind it.
poll_late : (poll (quiet trace) 400 (timers, [])).1 ≡ (
  record {
    timers =
        record { due_ms = 450; period_ms = 50; task = 1; active = true }
        ∷ record { due_ms = 120; period_ms = 0; task = 2; active = false }
        ∷ replicate 14 blank_timer;
    now_ms = 400;
  },
  2 ∷ 1 ∷ [],
)
unfolding poll fire_one is_due advance
poll_late = refl

cancel-after : active_count (cancel (after 30 7 timers).0 (after 30 7 timers).1).timers ≡ 2
unfolding after cancel alloc active_count
cancel-after = refl

poll-quiet_example : (poll (quiet trace) 400 (timers, [])).1 ≡ (
  record { timers = map (advance_due 400) timers.timers; now_ms = 400 },
  work_due trace 400 timers.timers [],
)
poll-quiet_example = poll-quiet trace 400 timers []

period_short : (j : ℕ) → (get_or timers.timers j blank_timer).period_ms < 2147483648
period_short zero = omega arith
period_short (suc zero) = omega arith
period_short (suc (suc j)) = idle 14 j
  where
    idle : (n i : ℕ) → (get_or (replicate n blank_timer) i blank_timer).period_ms < 2147483648
    idle zero i = omega arith
    idle (suc n) zero = omega arith
    idle (suc n) (suc i) = idle n i

poll_no_burst_example : any_due 400 (poll (quiet trace) 400 (timers, [])).1.0.timers ≡ false
poll_no_burst_example = poll_no_burst trace 400 timers [] (omega arith) period_short

poll_delay_example :
    let r = poll (quiet trace) 110 (timers, []) in
    (9 < r.0 → any_due (add32 r.1.0.now_ms 9) r.1.0.timers ≡ false)
    × ((r.0 ≡ 4294967295) ↔ (any_active r.1.0.timers ≡ false))
unfolding poll fire_one is_due
poll_delay_example = poll_delay (quiet trace) 110 9 (timers, []) (omega arith)

rearm_too_late_example :
    (poll (put_off 1000) 400 (record { timers = beacon ∷ once ∷ []; now_ms = 0 }, [])).1.1
    ≡ 2 ∷ 1 ∷ []
unfolding is_due
rearm_too_late_example = rearm_too_late 400 1000 beacon once [] refl refl refl refl
