-- ===== src/Tests/Hubs.antt =====
-- lib/ff_core/radio_hub.cpp with a driver whose ring is the whole state of the hardware.
use formation_flight.Prelude.{
  ℕ, ◌≡◌, refl, ap, List, [], ◌∷◌, Option, none, some, Bool, true, false, if◌then◌else◌, arith,
}
use formation_flight.Node.Interfaces.{NodeDeps}
use formation_flight.Node.State.{new_node}
use formation_flight.Node.Receive.{on_receive}
use formation_flight.RadioHub.{RxFrame, RadioDriver, deliver, drain, add}
use formation_flight.RadioHub.Service.{IsQueue, delivered_all, drain_total}
use formation_flight.Tests.Nodes.{halves, config}

abbrev pop_first : List RxFrame → List RxFrame × Option RxFrame
pop_first [] = ([], none)
pop_first (f ∷ fs) = (fs, some f)

abbrev wired : RadioDriver ℕ (List RxFrame)
wired = record {
  transmit = λ frame w. w;
  airtime_ms = λ w len. 12;
  service_rx = λ w. w;
  pop_rx = pop_first;
  transmits = λ w. true;
  enabled = λ w. true;
}

-- A node in the clear.
abbrev alone : NodeDeps ℕ (List RxFrame)
alone = record { radios = none; location = none; crypto = none; msp_radar_sink = none; rng = none }

hub_is_full : (add (some wired) (wired ∷ wired ∷ wired ∷ wired ∷ [])).1 ≡ false
unfolding add
hub_is_full = refl

abbrev world_of : {A B : Type 0} → A × B → B
world_of st = st.1

same_world :
    {A B : Type 0} (b : Bool) (x y : A) (w : B) → world_of (if b then (x, w) else (y, w)) ≡ w
same_world true x y w = refl
same_world false x y w = refl

wired-IsQueue : IsQueue alone 500 wired (λ w. w)
unfolding deliver on_receive
wired-IsQueue = record {
  pop_empty = λ w e. ap (λ v. (pop_first v).1) e;
  pop_first = λ w f fs e. (ap (λ v. (pop_first v).1) e, ap (λ v. (pop_first v).0) e);
  left_alone = λ index f n w. same_world _ _ _ w;
}

abbrev ring : List RxFrame
ring =
    record { timestamp_ms = 10; rssi = 200; data_bytes = 2 ∷ 1 ∷ [] }
    ∷ record { timestamp_ms = 11; rssi = 201; data_bytes = [] }
    ∷ []

drain_total_example :
    drain alone 500 3 wired 1 (new_node (config 9), ring)
    ≡ some (delivered_all alone 500 wired 1 ring (new_node (config 9), ring))
drain_total_example =
    drain_total alone 500 wired (λ w. w) ring 3 1 (new_node (config 9)) ring wired-IsQueue refl
      (omega arith)
