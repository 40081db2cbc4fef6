-- ===== src/Tests/Nodes.antt =====
-- lib/ff_core/node.cpp, rate_control.cpp and frame_log.h with a toy cipher, and with numbers that
-- are counted in halves for doubles.
use formation_flight.Prelude.{
  ℕ, ◌+◌, ◌-◌, ◌*◌, ◌/◌, ◌≡◌, refl, List, [], ◌∷◌, true, false, if◌then◌else◌, ltb, leb, ◌==◌,
  replicate, arith, set,
}
use formation_flight.PeerTable.{blank_peer, update_position}
use formation_flight.FrameLog.{empty_log}
use formation_flight.FrameLog.Recent.{WellFormed}
use formation_flight.RateControl.{Double, RateConfig}
use formation_flight.RateControl.Interval.{IsRounding}
use formation_flight.Node.Interfaces.{NodeConfig, NodeLocation}
use formation_flight.Node.State.{Node, new_node}
use formation_flight.Node.Receive.{on_receive}
use formation_flight.Node.Receive.Tally.{Accounted}
use formation_flight.Node.Receive.Accounting.{on_receive-Accounted}
use formation_flight.Node.Send.{beacon_packet, send_beacon}
use formation_flight.Node.Send.Delivery.{flying, delivered}
use formation_flight.Node.Send.Heard.{IsLocation}
use formation_flight.Node.Timers.{begin}
use formation_flight.Node.Timers.Silent.{listen_only_silent}
use formation_flight.Node.Timers.Quiet.{no_timers, polls, without_radios}
use formation_flight.Tests.Ciphers.{toy, toy-IsBlockCipher}
use formation_flight.Crypto.Replay.{accept_frame}
use formation_flight.Tests.Ciphers

instance unfoldable pub halves : Double ℕ
halves = record {
  of_nat = λ n. n * 2;
  add = λ a b. a + b;
  sub = λ a b. a - b;
  mul = λ a b. a * b / 2;
  div = λ a b. if b == 0 then 0 else a * 2 / b;
  lt = ltb;
  le = leb;
  eq = λ a b. a == b;
  half = 1;
  default_load = 1;
  to_u32 = λ v. v / 2;
}

halves-IsRounding : IsRounding halves
unfolding IsRounding halves
halves-IsRounding v lo hi w n high inside = (ground arith, ground arith)

abbrev rate : RateConfig ℕ
rate = record {
  target_load = 1;
  min_interval_ms = 200;
  max_interval_ms = 1000;
  jitter_frac = 0;
  duty_cycle_pct = 1;
}

abbrev pub config : ℕ → NodeConfig ℕ
config uid = record {
  uid = uid;
  name = b'w' ∷ 0 ∷ [];
  capabilities = 0;
  rate = rate;
  peer_timeout_ms = 6000;
  announce_interval_ms = 2000;
  expire_interval_ms = 1000;
  msp_radar_interval_ms = 100;
  listen_only = false;
}

abbrev pub hill : NodeLocation
hill = record {
  valid = true;
  armed = true;
  lat = 470000000;
  lon = 80000000;
  alt_m = 900;
  speed_cms = 1500;
  course_ddeg = 3599;
  sats = 9;
  fix_type = 3;
  hdop = 90;
}

empty_log-WellFormed : WellFormed empty_log
empty_log-WellFormed = record { room = refl; inside = omega arith; counted = omega arith }

on_receive-Accounted_example :
    Accounted 700 200 1
      (new_node (config 9))
      (on_receive
        (flying toy hill)
        690
        (2 ∷ 1 ∷ 5 ∷ [])
        700
        200
        1
        (new_node (config 9), (Ciphers.node, []))).0
unfolding new_node
on_receive-Accounted_example =
    on_receive-Accounted _ (flying toy hill) 690 (2 ∷ 1 ∷ 5 ∷ []) 700 200 1 (new_node (config 9))
      (Ciphers.node, []) empty_log-WellFormed refl

hill-IsLocation : IsLocation hill
hill-IsLocation = record {
  lat = omega arith;
  lon = omega arith;
  alt_m = omega arith;
  speed_cms = omega arith;
  course_ddeg = omega arith;
}

delivered_example :
    (frame : List ℕ) × ((send_beacon
        (flying toy hill)
        500
        0
        (new_node (config 77), (Ciphers.node, []))).1.1
      ≡ frame ∷ [])
    × ((on_receive
          (flying toy hill)
          520
          frame
          520
          200
          1
          (new_node (config 9), (Ciphers.node, []))).0.peers
        ≡ (update_position
            (beacon_packet (config 77) hill)
            520
            200
            1
            (new_node (config 9)).peers).0)
unfolding new_node accept_frame
delivered_example =
    delivered toy (new_node (config 77)) (new_node (config 9)) hill Ciphers.node Ciphers.node [] []
      500 0 520 520 200 1 (toy-IsBlockCipher (5 ∷ [])) (omega arith) hill-IsLocation refl refl
      (ground arith) refl hill

abbrev scattered : Node ℕ
scattered = record (new_node (config 9)) {
  peers = record {
    peers = set (replicate 16 blank_peer) 5 (record blank_peer { uid = 77; valid = true });
    timeout_ms = 6000;
  };
  msp_radar_cursor = 11;
}

abbrev ground_station : Node ℕ
ground_station = new_node (record (config 9) { listen_only = true })

listen_only_silent_example :
    polls
      (flying toy hill)
      (5000 ∷ 1500 ∷ [])
      (begin (flying toy hill) 1000 (no_timers, (ground_station, (Ciphers.node, []))))
    ≡ polls
        (without_radios (flying toy hill))
        (5000 ∷ 1500 ∷ [])
        (begin (flying toy hill) 1000 (no_timers, (ground_station, (Ciphers.node, []))))
unfolding new_node
listen_only_silent_example =
    listen_only_silent (flying toy hill) ground_station (Ciphers.node, []) 1000 (5000 ∷ 1500 ∷ [])
      refl
