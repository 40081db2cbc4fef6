-- ===== src/RadioHub.antt =====
-- lib/ff_core/radio_hub.h and radio_hub.cpp: the radios of a node behind one interface.
--
-- A driver is an interface over the state `W` of the hardware and the rest of the program. The loop
-- that empties a driver's ring has as many rounds as its argument says, and is `none` when they do
-- not suffice.
pub mod Service
use formation_flight.Prelude.{
  ℕ, zero, suc, ◌+◌, List, [], ◌∷◌, ◌++◌, Option, none, some, Bool, true, false, ◌&&◌, leb,
  if◌then◌else◌, length, get_elem?,
}
use formation_flight.PeerTable.{max_radios}
use formation_flight.RateControl.{Double}
use formation_flight.Node.Interfaces.{NodeDeps, RadioSet}
use formation_flight.Node.State.{Node}
use formation_flight.Node.Receive.{on_receive}

-- The data are the first `len` bytes of the array.
pub record RxFrame : Type 0 where
  pub timestamp_ms : ℕ
  pub rssi : ℕ
  pub data_bytes : List ℕ

pub record RadioDriver (D W : Type 0) : Type 0 where
  pub transmit : List ℕ → W → W
  pub airtime_ms : W → ℕ → D
  pub service_rx : W → W
  pub pop_rx : W → W × Option RxFrame
  pub transmits : W → Bool
  pub enabled : W → Bool

module _ {D W : Type 0} where
  -- The hub is the list of its drivers.
  unfoldable pub add :
      Option (RadioDriver D W) → List (RadioDriver D W) → List (RadioDriver D W) × Bool
  add none radios = (radios, false)
  add (some driver) radios =
      if leb max_radios (length radios) then (radios, false) else (radios ++ (driver ∷ []), true)

  unfoldable pub radio_enabled : List (RadioDriver D W) → W → ℕ → Bool
  radio_enabled radios w index = elim (get_elem? radios index) [
    | none ↦ false
    | some r ↦ r.enabled w
  ]

  unfoldable pub radio_transmits : List (RadioDriver D W) → W → ℕ → Bool
  unfolding radio_enabled
  radio_transmits radios w index =
      radio_enabled radios w index
      && elim (get_elem? radios index) [ none ↦ false | some r ↦ r.transmits w ]

  unfoldable pub transmit : List (RadioDriver D W) → ℕ → List ℕ → W → W
  transmit radios index frame w = elim (get_elem? radios index) [
    | none ↦ w
    | some r ↦ if r.enabled w then r.transmit frame w else w
  ]

  module _ ⦃d : Double D⦄ where
    open d use {of_nat}

    unfoldable pub airtime_ms : List (RadioDriver D W) → W → ℕ → ℕ → D
    airtime_ms radios w index payload_len = elim (get_elem? radios index) [
      | none ↦ of_nat 0
      | some r ↦ r.airtime_ms w payload_len
    ]

    -- The hub as the radio set of a node.
    unfoldable pub hub_radio_set : List (RadioDriver D W) → RadioSet D W
    unfolding airtime_ms radio_transmits transmit
    hub_radio_set radios = record {
      radio_count = λ w. length radios;
      airtime_ms = airtime_ms radios;
      radio_transmits = radio_transmits radios;
      transmit = transmit radios;
    }

    module _ (deps : NodeDeps D W) (clock_ms : ℕ) where
      -- A frame of radio `index`, handed to the node.
      unfoldable pub deliver : ℕ → RxFrame → Node D × W → Node D × W
      unfolding on_receive
      deliver index frame st =
          on_receive deps clock_ms frame.data_bytes frame.timestamp_ms frame.rssi index st

      -- The loop that empties the ring of radio `index`.
      unfoldable pub drain : ℕ → RadioDriver D W → ℕ → Node D × W → Option (Node D × W)
      unfolding deliver
      drain zero driver index st = none
      drain (suc fuel) driver index (n, w) =
          let (w', popped) = driver.pop_rx w in
          elim popped [
            | none ↦ some (n, w')
            | some frame ↦ drain fuel driver index (deliver index frame (n, w'))
          ]

      -- The loop over the radios, from radio `index` on.
      unfoldable pub service_from :
          ℕ → List (RadioDriver D W) → ℕ → Node D × W → Option (Node D × W)
      unfolding drain
      service_from fuel [] index st = some st
      service_from fuel (driver ∷ drivers) index (n, w) =
          elim (drain fuel driver index (n, driver.service_rx w)) [
            | none ↦ none
            | some st ↦ service_from fuel drivers (index + 1) st
          ]

      unfoldable pub service : ℕ → List (RadioDriver D W) → Node D × W → Option (Node D × W)
      unfolding service_from
      service fuel radios st = service_from fuel radios 0 st
