-- ===== src/Node/State.antt =====
-- lib/ff_core/node.h and node.cpp: what a node keeps, and the log line of a frame.
use formation_flight.Prelude.{
  ℕ, List, Option, none, if◌then◌else◌, ltb, get_or, set, replicate, u8, u16,
}
use formation_flight.PeerTable.{PeerTable, new_table, max_radios}
use formation_flight.FrameLog
use formation_flight.FrameLog.{FrameLog, FrameLogEntry, FrameResult, empty_log}
use formation_flight.RateControl.{Double}
use formation_flight.Node.Interfaces.{NodeConfig, NodeStats, RadioStats}

-- The fields of `Node` but for its dependencies, which are arguments, and its scheduler. The
-- contexts of the beacon timers are their tasks. The rate controller holds `cfg.rate`.
pub record Node (D : Type 0) : Type 0 where
  pub cfg : NodeConfig D
  pub peers : PeerTable
  pub stats : NodeStats
  pub radio_stats : List (RadioStats D)
  pub frames : FrameLog
  pub radio_count : ℕ
  pub airtime : List D
  pub beacon_timer : List (Option ℕ)
  pub announce_timer : Option ℕ
  pub expire_timer : Option ℕ
  pub msp_radar_timer : Option ℕ
  pub msp_radar_cursor : ℕ

abbrev pub no_stats : NodeStats
no_stats = record {
  beacons_sent = 0;
  announces_sent = 0;
  rx_ok = 0;
  rx_rejected = 0;
  rx_self = 0;
  last_tx_ms = 0;
}

module _ {D : Type 0} ⦃d : Double D⦄ where
  open d use {of_nat}

  abbrev pub no_radio_stats : RadioStats D
  no_radio_stats = record {
    tx = 0;
    rx_ok = 0;
    rx_crypto_fail = 0;
    rx_replay = 0;
    rx_decode_fail = 0;
    rx_self = 0;
    last_rx_ms = 0;
    last_rssi = 0;
    beacon_interval_ms = 0;
    airtime_ms = of_nat 0;
  }

  -- The constructor.
  unfoldable pub new_node : NodeConfig D → Node D
  unfolding new_table
  new_node cfg = record {
    cfg = cfg;
    peers = new_table cfg.peer_timeout_ms;
    stats = no_stats;
    radio_stats = replicate max_radios no_radio_stats;
    frames = empty_log;
    radio_count = 0;
    airtime = replicate max_radios (of_nat 0);
    beacon_timer = replicate max_radios none;
    announce_timer = none;
    expire_timer = none;
    msp_radar_timer = none;
    msp_radar_cursor = 0;
  }

  -- `radioStats`.
  unfoldable pub stats_of : Node D → ℕ → RadioStats D
  stats_of n index = get_or n.radio_stats (if ltb index max_radios then index else 0) no_radio_stats

  -- An assignment to fields of the radio's statistics, through the reference `onReceive` takes.
  abbrev pub on_radio : ℕ → (RadioStats D → RadioStats D) → Node D → Node D
  on_radio index change n =
      let slot = if ltb index max_radios then index else 0 in
      record n {
        radio_stats = set n.radio_stats slot (change (get_or n.radio_stats slot no_radio_stats));
      }

module _ {D : Type 0} where
  -- `clock_ms` is the scheduler's time.
  unfoldable pub log_frame : ℕ → ℕ → ℕ → ℕ → ℕ → ℕ → FrameResult → Node D → Node D
  unfolding FrameLog.add
  log_frame clock_ms radio_index uid len rssi type result n =
      let e : FrameLogEntry = record {
        ms = clock_ms;
        uid = uid;
        len = u16 len;
        rssi = rssi;
        radio = u8 radio_index;
        type = type;
        result = result;
      } in
      record n { frames = FrameLog.add e n.frames }
