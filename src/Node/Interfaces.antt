-- ===== src/Node/Interfaces.antt =====
-- lib/ff_core/node.h: what a node is built from, its configuration and its counters.
use formation_flight.Prelude.{ℕ, List, Option, Bool}
use formation_flight.PeerTable.{Peer}
use formation_flight.RateControl.{RateConfig}

pub record NodeLocation : Type 0 where
  pub valid : Bool
  pub armed : Bool
  pub lat : ℕ
  pub lon : ℕ
  pub alt_m : ℕ
  pub speed_cms : ℕ
  pub course_ddeg : ℕ
  pub sats : ℕ
  pub fix_type : ℕ
  pub hdop : ℕ

-- IRadioSet. The methods that are `const` in the source leave the state alone.
pub record RadioSet (D W : Type 0) : Type 0 where
  pub radio_count : W → ℕ
  pub airtime_ms : W → ℕ → ℕ → D
  pub radio_transmits : W → ℕ → Bool
  pub transmit : ℕ → List ℕ → W → W

-- ICrypto. `encrypt` takes the buffer and its capacity and yields the frame, `none` for 0; `decrypt`
-- takes the frame and the time.
pub record Cipher (W : Type 0) : Type 0 where
  pub encrypt : List ℕ → ℕ → W → W × Option (List ℕ)
  pub decrypt : List ℕ → ℕ → W → W × Option (List ℕ)
  pub last_reject_was_replay : W → Bool

pub record NodeConfig (D : Type 0) : Type 0 where
  pub uid : ℕ
  pub name : List ℕ
  pub capabilities : ℕ
  pub rate : RateConfig D
  pub peer_timeout_ms : ℕ
  pub announce_interval_ms : ℕ
  pub expire_interval_ms : ℕ
  pub msp_radar_interval_ms : ℕ
  pub listen_only : Bool

-- ILocationSource, IMspRadarSink and RandomFn are functions on the state.
pub record NodeDeps (D W : Type 0) : Type 0 where
  pub radios : Option (RadioSet D W)
  pub location : Option (W → W × NodeLocation)
  pub crypto : Option (Cipher W)
  pub msp_radar_sink : Option (ℕ → Peer → W → W)
  pub rng : Option (W → W × D)

pub record NodeStats : Type 0 where
  pub beacons_sent : ℕ
  pub announces_sent : ℕ
  pub rx_ok : ℕ
  pub rx_rejected : ℕ
  pub rx_self : ℕ
  pub last_tx_ms : ℕ

pub record RadioStats (D : Type 0) : Type 0 where
  pub tx : ℕ
  pub rx_ok : ℕ
  pub rx_crypto_fail : ℕ
  pub rx_replay : ℕ
  pub rx_decode_fail : ℕ
  pub rx_self : ℕ
  pub last_rx_ms : ℕ
  pub last_rssi : ℕ
  pub beacon_interval_ms : ℕ
  pub airtime_ms : D
