-- ===== src/Scheduler/Slots.antt =====
-- lib/ff_core/scheduler.cpp: how timers are started, and a timer that fires too early.
use formation_flight.Prelude.{
  ℕ, zero, suc, ◌+◌, ◌<◌, ◌≡◌, refl, ap, ◌∙◌, List, [], ◌∷◌, some, none, true, false, ◌⊎◌, ◌==◌,
  if◌then◌else◌, arith, add32, set, get_or, length, inl, inr, Option-cases,
}
use formation_flight.Scheduler.{
  Timer, Scheduler, blank_timer, alloc, start, active_count, is_due, advance, fire_one, poll, rearm,
}

-- The slot that is found is the first one whose timer is idle: starting a timer in it adds one to
-- the active ones.
active_count-set :
    (ts : List Timer) (t : Timer) {h : ℕ}
    → alloc ts ≡ some h
    → t.active ≡ true
    → active_count (set ts h t) ≡ active_count ts + 1
unfolding alloc active_count
active_count-set [] t e a = absurd cc
active_count-set (u ∷ ts) t {h} e a = elim (Option-cases (alloc ts)) [
  | inl n ↦ ground arith
  | inr (j, f) ↦ ground (arith, active_count-set ts t f a)
]

-- Callbacks that record their tasks; task 1 also puts off the timer in slot 1.
unfoldable pub put_off : ℕ → ℕ → Scheduler × List ℕ → Scheduler × List ℕ
unfolding rearm
put_off delay_ms task st = (if task == 1 then rearm (some 1) delay_ms st.0 else st.0, task ∷ st.1)

alloc_full : (ts : List Timer) → alloc ts ≡ none → active_count ts ≡ length ts
unfolding alloc active_count
alloc_full [] e = refl
alloc_full (t ∷ ts) e = elim (Option-cases (alloc ts)) [
  | inl n ↦ ground (arith, alloc_full ts n)
  | inr (j, f) ↦ ground arith
]

alloc_idle :
    (ts : List Timer) {h : ℕ}
    → alloc ts ≡ some h
    → (h < length ts) × ((get_or ts h blank_timer).active ≡ false)
unfolding alloc
alloc_idle [] e = absurd cc
alloc_idle (t ∷ ts) {h} e = elim (Option-cases (alloc ts)) [
  | inl n ↦ ground arith
  | inr (j, f) ↦ let r = alloc_idle ts f in ground arith
]

get_or-set :
    (ts : List Timer) (h : ℕ) (t : Timer) → h < length ts → get_or (set ts h t) h blank_timer ≡ t
get_or-set [] h t m = absurd (omega arith)
get_or-set (u ∷ ts) zero t m = refl
get_or-set (u ∷ ts) (suc h) t m = get_or-set ts h t (omega arith)

abbrev started : ℕ → ℕ → ℕ → Scheduler → Timer
started delay_ms period_ms task s = record {
  due_ms = add32 s.now_ms delay_ms;
  period_ms = period_ms;
  task = task;
  active = true;
}

start-none :
    (delay_ms period_ms task : ℕ) (s : Scheduler)
    → alloc s.timers ≡ none
    → start delay_ms period_ms task s ≡ (none, s)
unfolding start
start-none delay_ms period_ms task s e = rw (start, e) refl

start-some :
    (delay_ms period_ms task h : ℕ) (s : Scheduler)
    → alloc s.timers ≡ some h
    → start delay_ms period_ms task s
      ≡ (some h, record s { timers = set s.timers h (started delay_ms period_ms task s) })
unfolding start
start-some delay_ms period_ms task h s e = rw (start, e) refl

-- What starting a timer does with sixteen slots: with all of them in use nothing, and no handle;
-- else it returns the handle of an idle slot, which holds the timer now, due after the delay, and
-- one more timer is active.
pub start_lem :
    (delay_ms period_ms task : ℕ) (s : Scheduler)
    → length s.timers ≡ 16
    → ((start delay_ms period_ms task s ≡ (none, s)) × (active_count s.timers ≡ 16))
      ⊎ ((h : ℕ) × (h < 16)
          × ((start delay_ms period_ms task s).0 ≡ some h)
          × ((get_or s.timers h blank_timer).active ≡ false)
          × (get_or (start delay_ms period_ms task s).1.timers h blank_timer ≡ record {
            due_ms = add32 s.now_ms delay_ms;
            period_ms = period_ms;
            task = task;
            active = true;
          })
          × (active_count (start delay_ms period_ms task s).1.timers ≡ active_count s.timers + 1))
start_lem delay_ms period_ms task s full = elim (Option-cases (alloc s.timers)) [
  | inl n ↦ inl (start-none delay_ms period_ms task s n, alloc_full s.timers n ∙ full)
  | inr (h, f) ↦
      let r = start-some delay_ms period_ms task h s f in
      let (inside, idle) = alloc_idle s.timers f in
      let t = started delay_ms period_ms task s in
      inr (
        h,
        omega arith,
        ap (λ x. x.0) r,
        idle,
        ap (λ x. get_or x.1.timers h blank_timer) r ∙ get_or-set s.timers h t inside,
        ap (λ x. active_count x.1.timers) r ∙ active_count-set s.timers t f refl,
      )
]

-- With only two timers, of tasks 1 and 2 in slots 0 and 1 and both due, and a callback of task 1
-- that rearms slot 1 by any delay, the poll runs both callbacks: the timer that was put off fires
-- at once.
pub rearm_too_late :
    (now_ms delay_ms : ℕ) (first second : Timer) (ran : List ℕ)
    → is_due now_ms first ≡ true
    → is_due now_ms second ≡ true
    → first.task ≡ 1
    → second.task ≡ 2
    → (poll
        (put_off delay_ms)
        now_ms
        (record { timers = first ∷ second ∷ []; now_ms = 0 }, ran)).1.1
      ≡ 2 ∷ 1 ∷ ran
unfolding poll fire_one put_off rearm is_due advance
rearm_too_late now_ms delay_ms first second ran p q e f = ground arith
