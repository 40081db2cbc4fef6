-- ===== src/Node/Timers/Silent.antt =====
-- lib/ff_core/node.cpp: a node that only listens.
use mathlib.Core.Path.{subst}
use formation_flight.Prelude.{
  ℕ, zero, suc, ◌+◌, ◌≡◌, refl, sym, ◌∙◌, List, Option, none, some, Bool, true, false,
  if◌then◌else◌, ltb, arith, replicate,
}
use formation_flight.PeerTable.{Peer, max_radios}
use formation_flight.RateControl.{Double}
use formation_flight.Scheduler.{Scheduler, every}
use formation_flight.Scheduler.Tasks.{AllActive, AllActive-blank, AllActive-start}
use formation_flight.Node.Interfaces.{NodeDeps, RadioSet}
use formation_flight.Node.State.{Node}
use formation_flight.Node.Timers.{
  poll, begin, prepare_radios, begin_radios, begin_radio, start_beacon, start_announce,
  start_expire, start_radar,
}
use formation_flight.Node.Timers.Quiet.{IsQuiet, no_timers, without_radios, polls, polls-IsQuiet}

module _ {D W : Type 0} ⦃d : Double D⦄ where
  -- A listening node's state, with its scheduler as it was.
  abbrev Listens : Scheduler → Scheduler × (Node D × W) → Type 0
  Listens s st = (st.0 ≡ s) × (st.1.0.cfg.listen_only ≡ true)

  choose :
      (P : Scheduler × (Node D × W) → Type 0) (b : Bool) (x y : Scheduler × (Node D × W))
      → b ≡ true
      → P x
      → P (if b then x else y)
  choose P true x y e p = p
  choose P false x y e p = absurd (ground (arith, e))

  start_beacon-Listens :
      (deps : NodeDeps D W) (index : ℕ) (s : Scheduler) (n : Node D) (w : W)
      → n.cfg.listen_only ≡ true
      → Listens s (start_beacon deps index (s, (n, w)))
  unfolding start_beacon
  start_beacon-Listens deps index s n w l =
      choose (Listens s) n.cfg.listen_only (s, (n, w)) _ l (refl, l)

  begin_radios-Listens :
      (deps : NodeDeps D W) (radios : RadioSet D W) (k index : ℕ) (s : Scheduler)
      (st : Scheduler × (Node D × W))
      → Listens s st
      → Listens s (begin_radios deps radios k index st)
  unfolding begin_radios begin_radio
  begin_radios-Listens deps radios zero index s st l = l
  begin_radios-Listens deps radios (suc k) index s (s', (n, w)) l =
      let one = start_beacon-Listens deps index s' _ w l.1 in
      begin_radios-Listens deps radios k (index + 1) s _ (one.0 ∙ l.0, one.1)

  prepare_radios-Listens :
      (deps : NodeDeps D W) (s : Scheduler) (n : Node D) (w : W)
      → n.cfg.listen_only ≡ true
      → Listens s (prepare_radios deps (s, (n, w)))
  unfolding prepare_radios
  prepare_radios-Listens deps s n w l = prepared deps.radios
    where
      clear : Node D
      clear = record n { radio_count = 0; beacon_timer = replicate max_radios none }

      prepared :
          (r : Option (RadioSet D W))
          → Listens s (elim r [
            | none ↦ (s, (clear, w))
            | some radios ↦
                let count = radios.radio_count w in
                let radio_count = if ltb max_radios count then max_radios else count in
                begin_radios deps radios radio_count 0
                  (s, (record clear { radio_count = radio_count }, w))
          ])
      prepared none = (refl, l)
      prepared (some radios) =
          let count = radios.radio_count w in
          let radio_count = if ltb max_radios count then max_radios else count in
          begin_radios-Listens deps radios radio_count 0 s
            (s, (record clear { radio_count = radio_count }, w)) (refl, l)

  start_announce-Listens :
      (deps : NodeDeps D W) (s : Scheduler) (st : Scheduler × (Node D × W))
      → Listens s st
      → Listens s (start_announce deps st)
  unfolding start_announce
  start_announce-Listens deps s (s', (n, w)) l =
      choose (Listens s) n.cfg.listen_only (s', (n, w)) _ l.1 l

  start_expire-IsQuiet :
      (deps : NodeDeps D W) (st : Scheduler × (Node D × W))
      → AllActive IsQuiet st.0.timers
      → AllActive IsQuiet (start_expire deps st).0.timers
  unfolding start_expire every
  start_expire-IsQuiet deps (s, (n, w)) h =
      AllActive-start IsQuiet n.cfg.expire_interval_ms n.cfg.expire_interval_ms 5 s h (omega arith)

  start_radar-IsQuiet :
      (deps : NodeDeps D W) (st : Scheduler × (Node D × W))
      → AllActive IsQuiet st.0.timers
      → AllActive IsQuiet (start_radar deps st).0.timers
  unfolding start_radar every
  start_radar-IsQuiet deps (s, (n, w)) h = started deps.msp_radar_sink
    where
      started :
          (sink : Option (ℕ → Peer → W → W))
          → AllActive IsQuiet
              (elim sink as (λ _. Scheduler × (Node D × W)) [
                | none ↦ (s, (n, w))
                | some sink ↦
                    let (timer, s') = every n.cfg.msp_radar_interval_ms 6 s in
                    (s', (record n { msp_radar_cursor = 0; msp_radar_timer = timer }, w))
              ]).0.timers
      started none = h
      started (some sink) =
          AllActive-start IsQuiet n.cfg.msp_radar_interval_ms n.cfg.msp_radar_interval_ms 6 s h
            (omega arith)

  idle_poll :
      (deps : NodeDeps D W) (now_ms : ℕ) (n : Node D) (w : W)
      → (poll deps now_ms (no_timers, (n, w))).1 ≡ (record no_timers { now_ms = now_ms }, (n, w))
  unfolding poll
  idle_poll deps now_ms n w = refl

  begin-IsQuiet :
      (deps : NodeDeps D W) (now_ms : ℕ) (n : Node D) (w : W)
      → n.cfg.listen_only ≡ true
      → AllActive IsQuiet (begin deps now_ms (no_timers, (n, w))).0.timers
  unfolding begin
  begin-IsQuiet deps now_ms n w l =
      let polled : Scheduler = record no_timers { now_ms = now_ms } in
      let prepared = prepare_radios-Listens deps polled n w l in
      let announced =
        start_announce-Listens deps polled (prepare_radios deps (polled, (n, w))) prepared in
      let st = start_announce deps (prepare_radios deps (polled, (n, w))) in
      subst
        (λ st.
          AllActive IsQuiet
            (start_radar deps
              (start_expire deps (start_announce deps (prepare_radios deps st)))).0.timers)
        (sym (idle_poll deps now_ms n w))
        (start_radar-IsQuiet deps (start_expire deps st) (
          start_expire-IsQuiet deps st (
            subst (λ (s : Scheduler). AllActive IsQuiet s.timers) (sym announced.0)
              (AllActive-blank IsQuiet 16))))

  -- A node that only listens, begun at any time with no timers before: however often and whenever it
  -- is polled from then on, it does just what it would do without any radios.
  pub listen_only_silent :
      (deps : NodeDeps D W) (n : Node D) (w : W) (begun_ms : ℕ) (times : List ℕ)
      → n.cfg.listen_only ≡ true
      → polls deps times (begin deps begun_ms (no_timers, (n, w)))
        ≡ polls (without_radios deps) times (begin deps begun_ms (no_timers, (n, w)))
  listen_only_silent deps n w begun_ms times l =
      (polls-IsQuiet deps times (begin deps begun_ms (no_timers, (n, w)))
        (begin-IsQuiet deps begun_ms n w l)).0
