-- ===== src/Node/Timers/Quiet.antt =====
-- lib/ff_core/node.cpp: timers that send nothing.
use formation_flight.Prelude.{
  ℕ, ◌≤◌, ◌≡◌, refl, sym, ap, ◌∙◌, List, [], ◌∷◌, none, Bool, true, false, if◌then◌else◌, ltb, ◌==◌,
  arith, replicate,
}
use formation_flight.RateControl.{Double}
use formation_flight.Scheduler.{Scheduler, blank_timer}
use formation_flight.Scheduler.Tasks.{AllActive, poll-Same}
use formation_flight.Node.Interfaces.{NodeDeps}
use formation_flight.Node.State.{Node}
use formation_flight.Node.Radar.{on_msp_radar_tick}
use formation_flight.Node.Timers.{on_expire, run_task, poll}

-- Tasks that send nothing on a radio: the expiry and the radar.
abbrev pub IsQuiet : ℕ → Type 0
IsQuiet task = 5 ≤ task

-- The scheduler of a node that has not begun.
abbrev pub no_timers : Scheduler
no_timers = record { timers = replicate 16 blank_timer; now_ms = 0 }

module _ {D W : Type 0} ⦃d : Double D⦄ where
  -- What a quiet task does.
  abbrev quiet_task : NodeDeps D W → ℕ → Scheduler × (Node D × W) → Scheduler × (Node D × W)
  quiet_task deps task (s, (n, w)) =
      if task == 5 then (s, (on_expire deps s.now_ms n, w)) else (s, on_msp_radar_tick deps (n, w))

  run_task-quiet_task :
      (deps : NodeDeps D W) (task : ℕ) (st : Scheduler × (Node D × W))
      → IsQuiet task
      → run_task deps task st ≡ quiet_task deps task st
  unfolding run_task
  run_task-quiet_task deps task (s, (n, w)) q =
      branches (ltb task 4) (task == 4) (ground arith) (ground arith) _ _ _
    where
      branches :
          (b c : Bool)
          → b ≡ false
          → c ≡ false
          → (x y z : Scheduler × (Node D × W)) → (if b then x else if c then y else z) ≡ z
      branches true c e f x y z = absurd (ground (arith, e))
      branches false true e f x y z = absurd (ground (arith, f))
      branches false false e f x y z = refl

  quiet_task-keeps :
      (deps : NodeDeps D W) (task : ℕ) (st : Scheduler × (Node D × W))
      → (quiet_task deps task st).0 ≡ st.0
  quiet_task-keeps deps task (s, (n, w)) =
      either (task == 5) (s, (on_expire deps s.now_ms n, w)) (s, on_msp_radar_tick deps (n, w)) refl
        refl
    where
      either :
          (b : Bool) (x y : Scheduler × (Node D × W))
          → x.0 ≡ s
          → y.0 ≡ s
          → (if b then x else y).0 ≡ s
      either true x y e f = e
      either false x y e f = f

  -- The dependencies of the same node without radios.
  abbrev pub without_radios : NodeDeps D W → NodeDeps D W
  without_radios deps = record deps { radios = none }

  -- The state behind polls at some times, the latest time first.
  abbrev pub polls : NodeDeps D W → List ℕ → Scheduler × (Node D × W) → Scheduler × (Node D × W)
  polls deps [] st = st
  polls deps (now_ms ∷ before) st = (poll deps now_ms (polls deps before st)).1

  poll-IsQuiet :
      (deps : NodeDeps D W) (now_ms : ℕ) (s : Scheduler) (n : Node D) (w : W)
      → AllActive IsQuiet s.timers
      → (poll deps now_ms (s, (n, w)) ≡ poll (without_radios deps) now_ms (s, (n, w)))
        × AllActive IsQuiet (poll deps now_ms (s, (n, w))).1.0.timers
  unfolding poll on_msp_radar_tick on_expire
  poll-IsQuiet deps now_ms s n w h =
      poll-Same (run_task deps) (run_task (without_radios deps)) IsQuiet
        (λ task st q.
          run_task-quiet_task deps task st q
          ∙ sym (run_task-quiet_task (without_radios deps) task st q))
        (λ task st q.
          ap (λ (r : Scheduler × (Node D × W)). r.0) (run_task-quiet_task deps task st q)
          ∙ quiet_task-keeps deps task st)
        now_ms s (n, w) h

  pub polls-IsQuiet :
      (deps : NodeDeps D W) (times : List ℕ) (st : Scheduler × (Node D × W))
      → AllActive IsQuiet st.0.timers
      → (polls deps times st ≡ polls (without_radios deps) times st)
        × AllActive IsQuiet (polls deps times st).0.timers
  polls-IsQuiet deps [] st h = (refl, h)
  polls-IsQuiet deps (now_ms ∷ before) st h =
      let (e, h') = polls-IsQuiet deps before st h in
      let mid = polls deps before st in
      let (e', h'') = poll-IsQuiet deps now_ms mid.0 mid.1.0 mid.1.1 h' in
      (
        ap (λ (r : ℕ × (Scheduler × (Node D × W))). r.1) e'
            ∙ ap (λ (r : Scheduler × (Node D × W)). (poll (without_radios deps) now_ms r).1) e,
        h'',
      )
