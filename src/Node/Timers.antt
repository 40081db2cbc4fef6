-- ===== src/Node/Timers.antt =====
-- lib/ff_core/node.cpp: begin, poll and the timers' callbacks.
pub mod Silent
pub mod Quiet
use formation_flight.Prelude.{
  ℕ, zero, suc, ◌+◌, none, some, if◌then◌else◌, ltb, ◌==◌, get_or, set, replicate,
}
use formation_flight.PeerTable.{expire, count_active_on, max_radios}
use formation_flight.RateControl.{Double, next_delay_ms}
use formation_flight.Scheduler
use formation_flight.Scheduler.{Scheduler, after, every, rearm}
use formation_flight.Node.Interfaces.{NodeDeps, RadioSet}
use formation_flight.Node.State.{Node, no_radio_stats}
use formation_flight.Node.Send.{send_beacon, send_announce}
use formation_flight.Node.Radar.{on_msp_radar_tick}

-- kPositionFrameSize: a position packet with the cipher's expansion.
abbrev pub position_frame_size : ℕ
position_frame_size = 31

abbrev pub announce_task : ℕ
announce_task = 4

abbrev pub expire_task : ℕ
expire_task = 5

abbrev pub msp_radar_task : ℕ
msp_radar_task = 6

module _ {D W : Type 0} ⦃d : Double D⦄ (deps : NodeDeps D W) where
  open d use {half, of_nat}

  unfoldable pub random01 : W → W × D
  random01 w = elim deps.rng [ none ↦ (w, half) | some rng ↦ rng w ]

  unfoldable pub next_beacon_delay_ms : ℕ → ℕ → Node D → W → ℕ × W
  unfolding random01 count_active_on next_delay_ms
  next_beacon_delay_ms index clock_ms n w =
      let active = count_active_on index clock_ms n.peers in
      let (w', r) = random01 w in
      (next_delay_ms n.cfg.rate active r (get_or n.airtime index (of_nat 0)), w')

  unfoldable pub on_beacon_tick : ℕ → Scheduler × (Node D × W) → Scheduler × (Node D × W)
  unfolding send_beacon next_beacon_delay_ms rearm
  on_beacon_tick index (s, (n, w)) =
      let (n', w') = send_beacon deps s.now_ms index (n, w) in
      let (delay, w'') = next_beacon_delay_ms index s.now_ms n' w' in
      let rs = record (get_or n'.radio_stats index no_radio_stats) { beacon_interval_ms = delay } in
      let paced : Node D = record n' { radio_stats = set n'.radio_stats index rs } in
      (rearm (get_or n'.beacon_timer index none) delay s, (paced, w''))

  unfoldable pub on_expire : ℕ → Node D → Node D
  unfolding expire
  on_expire clock_ms n = record n { peers = expire clock_ms n.peers }

  -- The trampolines.
  unfoldable pub run_task : ℕ → Scheduler × (Node D × W) → Scheduler × (Node D × W)
  unfolding on_beacon_tick send_announce on_expire on_msp_radar_tick
  run_task task (s, (n, w)) =
      if ltb task max_radios
      then on_beacon_tick task (s, (n, w))
      else if task == announce_task
      then (s, send_announce deps s.now_ms (n, w))
      else if task == expire_task
      then (s, (on_expire s.now_ms n, w))
      else (s, on_msp_radar_tick deps (n, w))

  unfoldable pub poll : ℕ → Scheduler × (Node D × W) → ℕ × (Scheduler × (Node D × W))
  unfolding Scheduler.poll run_task
  poll now_ms st = Scheduler.poll run_task now_ms st

  -- The first beacon of a radio.
  unfoldable pub start_beacon : ℕ → Scheduler × (Node D × W) → Scheduler × (Node D × W)
  unfolding next_beacon_delay_ms after
  start_beacon index (s, (n, w)) =
      let (delay, w') = next_beacon_delay_ms index s.now_ms n w in
      let (timer, s') = after delay index s in
      let started : Node D = record n { beacon_timer = set n.beacon_timer index timer } in
      if n.cfg.listen_only then (s, (n, w)) else (s', (started, w'))

  unfoldable pub begin_radio :
      RadioSet D W → ℕ → Scheduler × (Node D × W) → Scheduler × (Node D × W)
  unfolding start_beacon
  begin_radio radios index (s, (n, w)) =
      let airtime_ms = radios.airtime_ms w index position_frame_size in
      let rs = record (get_or n.radio_stats index no_radio_stats) { airtime_ms = airtime_ms } in
      let sized : Node D = record n {
        airtime = set n.airtime index airtime_ms;
        radio_stats = set n.radio_stats index rs;
      } in
      start_beacon index (s, (sized, w))

  -- The loop over the radios: `k` of them from `index` on.
  unfoldable pub begin_radios :
      RadioSet D W → ℕ → ℕ → Scheduler × (Node D × W) → Scheduler × (Node D × W)
  unfolding begin_radio
  begin_radios radios zero index st = st
  begin_radios radios (suc k) index st =
      begin_radios radios k (index + 1) (begin_radio radios index st)

  unfoldable pub prepare_radios : Scheduler × (Node D × W) → Scheduler × (Node D × W)
  unfolding begin_radios
  prepare_radios (s, (n, w)) =
      let clear : Node D = record n { radio_count = 0; beacon_timer = replicate max_radios none } in
      elim deps.radios [
        | none ↦ (s, (clear, w))
        | some radios ↦
            let count = radios.radio_count w in
            let radio_count = if ltb max_radios count then max_radios else count in
            begin_radios radios radio_count 0 (s, (record clear { radio_count = radio_count }, w))
      ]

  unfoldable pub start_announce : Scheduler × (Node D × W) → Scheduler × (Node D × W)
  unfolding every
  start_announce (s, (n, w)) =
      let (timer, s') = every n.cfg.announce_interval_ms announce_task s in
      if n.cfg.listen_only then (s, (n, w)) else (s', (record n { announce_timer = timer }, w))

  unfoldable pub start_expire : Scheduler × (Node D × W) → Scheduler × (Node D × W)
  unfolding every
  start_expire (s, (n, w)) =
      let (timer, s') = every n.cfg.expire_interval_ms expire_task s in
      (s', (record n { expire_timer = timer }, w))

  unfoldable pub start_radar : Scheduler × (Node D × W) → Scheduler × (Node D × W)
  unfolding every
  start_radar (s, (n, w)) = elim deps.msp_radar_sink [
    | none ↦ (s, (n, w))
    | some sink ↦
        let (timer, s') = every n.cfg.msp_radar_interval_ms msp_radar_task s in
        (s', (record n { msp_radar_cursor = 0; msp_radar_timer = timer }, w))
  ]

  unfoldable pub begin : ℕ → Scheduler × (Node D × W) → Scheduler × (Node D × W)
  unfolding poll prepare_radios start_announce start_expire start_radar
  begin now_ms st = start_radar (start_expire (start_announce (prepare_radios (poll now_ms st).1)))
