-- ===== src/FrameLog/Recent.antt =====
-- lib/ff_core/frame_log.h: the log as a list, newest first.
use formation_flight.Prelude.{
  ℕ, ◌+◌, ◌<◌, ◌≤◌, ◌≡◌, ap, ◌∙◌, List, ◌∷◌, get_or, set, length, length-set, take, arith,
}
use formation_flight.Prelude.Newest.{get_or-set, get_or-set_ne, entries_from, entries_from-newest}
use formation_flight.FrameLog.{FrameLogEntry, FrameLog, blank_entry, add, entry_at}

pub record WellFormed (log : FrameLog) : Type 0 where
  pub room : length log.entries ≡ 32
  pub inside : log.head < 32
  pub counted : log.count ≤ 32

-- The entries that a reader sees.
abbrev pub recent : FrameLog → List FrameLogEntry
recent log = entries_from (entry_at log) 0 log.count

add-WellFormed : (e : FrameLogEntry) (log : FrameLog) → WellFormed log → WellFormed (add e log)
unfolding add
add-WellFormed e log w = record {
  room = length-set log.entries log.head e ∙ w.room;
  inside = omega arith;
  counted = ground (arith, w.counted);
}

pub entry_at-add_newest :
    (e : FrameLogEntry) (log : FrameLog) → WellFormed log → entry_at (add e log) 0 ≡ e
unfolding add entry_at
entry_at-add_newest e log w =
    ap (λ i. get_or (set log.entries log.head e) i blank_entry) (omega (arith, w.inside))
    ∙ get_or-set log.entries log.head e blank_entry (omega (arith, w.inside, w.room))

entry_at-add_older :
    (e : FrameLogEntry) (log : FrameLog) (i : ℕ)
    → WellFormed log
    → i < 31
    → entry_at (add e log) (i + 1) ≡ entry_at log i
unfolding add entry_at
entry_at-add_older e log i w h =
    get_or-set_ne log.entries log.head _ e blank_entry (omega (arith, w.inside))
    ∙ ap (λ j. get_or log.entries j blank_entry) (omega (arith, w.inside))

-- A frame that is logged is put in front of the ones that a reader sees, and the oldest falls out
-- when there were 32.
pub recent-add :
    (e : FrameLogEntry) (log : FrameLog)
    → WellFormed log
    → recent (add e log) ≡ take 32 (e ∷ recent log)
unfolding add
recent-add e log w =
    entries_from-newest (entry_at log) (entry_at (add e log)) 31 log.count e
      (entry_at-add_newest e log w) (λ k h. entry_at-add_older e log k w h) w.counted
