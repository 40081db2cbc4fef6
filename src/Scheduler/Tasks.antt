-- ===== src/Scheduler/Tasks.antt =====
-- lib/ff_core/scheduler.cpp: polls with two callbacks that agree on some tasks.
use mathlib.Core.Path.{subst}
use formation_flight.Prelude.{
  replicate, ℕ, zero, suc, ◌+◌, ◌≡◌, refl, sym, ap, ◌∙◌, List, [], ◌∷◌, Option, none, some, Bool,
  true, false, not, ◌||◌, map, set, get_or, arith, Bool-cases, inl, inr, add32,
}
use formation_flight.Scheduler.{
  Timer, blank_timer, Scheduler, alloc, start, advance, is_due, fire_one, fire, poll, next_delay,
  no_timer_due,
}

-- Every active timer has a task of some kind.
abbrev pub AllActive : (ℕ → Type 0) → List Timer → Type 0
AllActive P [] = Unit
AllActive P (t ∷ ts) = (t.active ≡ true → P t.task) × AllActive P ts

AllActive-get_or :
    (P : ℕ → Type 0) (ts : List Timer) (i : ℕ)
    → AllActive P ts
    → (get_or ts i blank_timer).active ≡ true
    → P (get_or ts i blank_timer).task
AllActive-get_or P [] i h e = absurd (ground (arith, e))
AllActive-get_or P (t ∷ ts) zero h e = h.0 e
AllActive-get_or P (t ∷ ts) (suc i) h e = AllActive-get_or P ts i h.1 e

pub AllActive-blank : (P : ℕ → Type 0) (n : ℕ) → AllActive P (replicate n blank_timer)
AllActive-blank P zero = tt
AllActive-blank P (suc n) = (λ e. absurd (ground (arith, e)), AllActive-blank P n)

AllActive-set :
    (P : ℕ → Type 0) (ts : List Timer) (i : ℕ) (t : Timer)
    → AllActive P ts
    → (t.active ≡ true → P t.task)
    → AllActive P (set ts i t)
AllActive-set P [] i t h p = tt
AllActive-set P (u ∷ ts) zero t h p = (p, h.1)
AllActive-set P (u ∷ ts) (suc i) t h p = (h.0, AllActive-set P ts i t h.1 p)

pub AllActive-start :
    (P : ℕ → Type 0) (delay_ms period_ms task : ℕ) (s : Scheduler)
    → AllActive P s.timers
    → P task
    → AllActive P (start delay_ms period_ms task s).1.timers
unfolding start
AllActive-start P delay_ms period_ms task s h p = started (alloc s.timers)
  where
    started :
        (o : Option ℕ)
        → AllActive P
            (elim o as (λ _. Option ℕ × Scheduler) [
              | none ↦ (none, s)
              | some k ↦ (
                some k,
                record s {
                  timers = set s.timers k (record {
                    due_ms = add32 s.now_ms delay_ms;
                    period_ms = period_ms;
                    task = task;
                    active = true;
                  });
                },
              )
            ]).1.timers
    started none = h
    started (some k) = AllActive-set P s.timers k _ h (λ _. p)

task-advance : (now_ms : ℕ) (t : Timer) → (advance now_ms t).task ≡ t.task
unfolding advance
task-advance now_ms t = ground arith

-- The scheduler in which the callback of timer `i` runs.
abbrev advanced : ℕ → Scheduler → Scheduler
advanced i s = record s {
  timers = set s.timers i (advance s.now_ms (get_or s.timers i blank_timer));
}

abbrev rests : Bool → ℕ → Scheduler → Bool
rests due i s = not due || not (get_or s.timers i blank_timer).active

module _ {W : Type 0} (run : ℕ → Scheduler × W → Scheduler × W) where
  fire_one_resting :
      (due : Bool) (i : ℕ) (s : Scheduler) (w : W)
      → rests due i s ≡ true
      → fire_one run due i (s, w) ≡ (s, w)
  unfolding fire_one
  fire_one_resting due i s w e = rw e refl

  fire_one_due :
      (due : Bool) (i : ℕ) (s : Scheduler) (w : W)
      → rests due i s ≡ false
      → fire_one run due i (s, w) ≡ run (get_or s.timers i blank_timer).task (advanced i s, w)
  unfolding fire_one
  fire_one_due due i s w e = rw e refl

module _ {W : Type 0} (run run' : ℕ → Scheduler × W → Scheduler × W) (P : ℕ → Type 0)
    (same : (task : ℕ) (st : Scheduler × W) → P task → run task st ≡ run' task st)
    (keeps : (task : ℕ) (st : Scheduler × W) → P task → (run task st).0 ≡ st.0) where
  -- Two runs lead to one state, whose active timers are still of the kind.
  abbrev Same : Scheduler × W → Scheduler × W → Type 0
  Same a b = (a ≡ b) × AllActive P a.0.timers

  fire_one-Same :
      (due : Bool) (i : ℕ) (s : Scheduler) (w : W)
      → AllActive P s.timers
      → Same (fire_one run due i (s, w)) (fire_one run' due i (s, w))
  fire_one-Same due i s w h = elim (Bool-cases (rests due i s)) [
    | inl still ↦ (
      fire_one_resting run due i s w still ∙ sym (fire_one_resting run' due i s w still),
      subst (λ (st : Scheduler × W). AllActive P st.0.timers)
          (sym (fire_one_resting run due i s w still)) h,
    )
    | inr fires ↦
        let t = get_or s.timers i blank_timer in
        let p : P t.task = AllActive-get_or P s.timers i h (ground (arith, fires)) in
        (
          fire_one_due run due i s w fires
              ∙ (same t.task (advanced i s, w) p ∙ sym (fire_one_due run' due i s w fires)),
          subst (λ (st : Scheduler × W). AllActive P st.0.timers)
              (sym (fire_one_due run due i s w fires))
              (subst (λ (s' : Scheduler). AllActive P s'.timers)
                (sym (keeps t.task (advanced i s, w) p))
                (AllActive-set P s.timers i (advance s.now_ms t) h
                  (λ _. subst P (sym (task-advance s.now_ms t)) p))),
        )
  ]

  fire-Same :
      (dues : List Bool) (i : ℕ) (s : Scheduler) (w : W)
      → AllActive P s.timers
      → Same (fire run dues i (s, w)) (fire run' dues i (s, w))
  unfolding fire
  fire-Same [] i s w h = (refl, h)
  fire-Same (due ∷ dues) i s w h =
      let (e, h') = fire_one-Same due i s w h in
      let st = fire_one run due i (s, w) in
      let (e', h'') = fire-Same dues (i + 1) st.0 st.1 h' in
      (e' ∙ ap (fire run' dues (i + 1)) e, h'')

  -- If the active timers have tasks of a kind, on which two callbacks agree and leave the scheduler
  -- alone, then a poll does the same with both, and the active timers stay of the kind.
  pub poll-Same :
      (now_ms : ℕ) (s : Scheduler) (w : W)
      → AllActive P s.timers
      → (poll run now_ms (s, w) ≡ poll run' now_ms (s, w))
        × AllActive P (poll run now_ms (s, w)).1.0.timers
  unfolding poll
  poll-Same now_ms s w h =
      let (e, h') = fire-Same (map (is_due now_ms) s.timers) 0 (record s { now_ms = now_ms }) w h in
      (ap (λ (st : Scheduler × W). (next_delay st.0.now_ms st.0.timers no_timer_due, st)) e, h')
