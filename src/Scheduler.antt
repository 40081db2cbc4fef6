-- ===== src/Scheduler.antt =====
-- lib/ff_core/scheduler.h and scheduler.cpp: the cooperative timer scheduler.
--
-- A handle is the index of its timer, and kInvalidTimer is `none`. A callback with its context is a
-- number, `task`; what it does to the scheduler and to the rest of the program, whose state is `W`,
-- is the parameter `run`.

pub mod Batch
pub mod Delay
pub mod Slots
pub mod Tasks
use mathlib.Core.Option
use formation_flight.Prelude.{
  ℕ, zero, suc, ◌+◌, List, [], ◌∷◌, Option, none, some, Bool, true, false, not, ◌&&◌, ◌||◌, ltb,
  leb, ◌==◌, if◌then◌else◌, map, set, get_or, add32, sub32,
}

abbrev pub max_timers : ℕ
max_timers = 16

abbrev pub no_timer_due : ℕ
no_timer_due = 4294967295

pub record Timer : Type 0 where
  pub due_ms : ℕ
  pub period_ms : ℕ
  pub task : ℕ
  pub active : Bool

abbrev pub blank_timer : Timer
blank_timer = record { due_ms = 0; period_ms = 0; task = 0; active = false }

pub record Scheduler : Type 0 where
  pub timers : List Timer
  pub now_ms : ℕ

-- The sign of `now_ms - due_ms` as an int32_t.
abbrev pub reached : ℕ → ℕ → Bool
reached now_ms due_ms = ltb (sub32 now_ms due_ms) 2147483648

unfoldable pub alloc : List Timer → Option ℕ
alloc [] = none
alloc (t ∷ ts) = if not t.active then some 0 else Option.map suc (alloc ts)

-- `after` and `every` fill the slot that `alloc` finds; they differ in the period that they store.
unfoldable pub start : ℕ → ℕ → ℕ → Scheduler → Option ℕ × Scheduler
unfolding alloc
start delay_ms period_ms task s = elim (alloc s.timers) [
  | none ↦ (none, s)
  | some h ↦
      let t : Timer = record {
        due_ms = add32 s.now_ms delay_ms;
        period_ms = period_ms;
        task = task;
        active = true;
      } in
      (some h, record s { timers = set s.timers h t })
]

unfoldable pub after : ℕ → ℕ → Scheduler → Option ℕ × Scheduler
unfolding start
after delay_ms task s = start delay_ms 0 task s

unfoldable pub every : ℕ → ℕ → Scheduler → Option ℕ × Scheduler
unfolding start
every period_ms task s = start period_ms period_ms task s

unfoldable pub cancel : Option ℕ → Scheduler → Scheduler
cancel none s = s
cancel (some h) s =
    let t = get_or s.timers h blank_timer in
    if leb max_timers h
    then s
    else record s { timers = set s.timers h (record t { active = false }) }

unfoldable pub rearm : Option ℕ → ℕ → Scheduler → Scheduler
rearm none delay_ms s = s
rearm (some h) delay_ms s =
    let t = get_or s.timers h blank_timer in
    let armed : Timer = record t {
      due_ms = add32 s.now_ms delay_ms;
      period_ms = 0;
      active = true;
    } in
    if leb max_timers h then s else record s { timers = set s.timers h armed }

unfoldable pub is_active : Option ℕ → Scheduler → Bool
is_active none s = false
is_active (some h) s =
    let t = get_or s.timers h blank_timer in if leb max_timers h then false else t.active

unfoldable pub active_count : List Timer → ℕ
active_count [] = 0
active_count (t ∷ ts) = let rest = active_count ts in if t.active then rest + 1 else rest

unfoldable pub is_due : ℕ → Timer → Bool
is_due now_ms t = t.active && reached now_ms t.due_ms

-- What happens to a timer before its callback runs.
unfoldable pub advance : ℕ → Timer → Timer
advance now_ms t =
    let due_ms = add32 t.due_ms t.period_ms in
    if t.period_ms == 0
    then record t { active = false }
    else record t { due_ms = if reached now_ms due_ms then add32 now_ms t.period_ms else due_ms }

-- The loop over the timers that looks for the shortest time to go.
unfoldable pub next_delay : ℕ → List Timer → ℕ → ℕ
next_delay now_ms [] best = best
next_delay now_ms (t ∷ ts) best =
    let d = sub32 t.due_ms now_ms in
    let dd = if leb 2147483648 d then 0 else d in
    next_delay now_ms ts (if t.active && ltb dd best then dd else best)

module _ {W : Type 0} (run : ℕ → Scheduler × W → Scheduler × W) where
  -- One round of the loop that fires: `due` is the timer's flag in the snapshot.
  unfoldable pub fire_one : Bool → ℕ → Scheduler × W → Scheduler × W
  unfolding advance
  fire_one due i (s, w) =
      let t = get_or s.timers i blank_timer in
      let fired = run t.task (record s { timers = set s.timers i (advance s.now_ms t) }, w) in
      if not due || not t.active then (s, w) else fired

  -- The loop from timer `i` on, with the snapshot from there.
  unfoldable pub fire : List Bool → ℕ → Scheduler × W → Scheduler × W
  unfolding fire_one
  fire [] i st = st
  fire (due ∷ dues) i st = fire dues (i + 1) (fire_one due i st)

  -- The time to the next timer, and the state behind.
  unfoldable pub poll : ℕ → Scheduler × W → ℕ × (Scheduler × W)
  unfolding is_due fire next_delay
  poll now_ms (s, w) =
      let at_entry : Scheduler = record s { now_ms = now_ms } in
      let (s', w') = fire (map (is_due now_ms) s.timers) 0 (at_entry, w) in
      (next_delay s'.now_ms s'.timers no_timer_due, (s', w'))
