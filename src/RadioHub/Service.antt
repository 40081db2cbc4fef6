-- ===== src/RadioHub/Service.antt =====
-- lib/ff_core/radio_hub.cpp, service: which frames reach the node.
use formation_flight.Prelude.{
  ℕ, zero, suc, ◌<◌, ◌≡◌, ap, ◌∙◌, List, [], ◌∷◌, Option, none, some, length, arith,
}
use formation_flight.RateControl.{Double}
use formation_flight.Node.Interfaces.{NodeDeps}
use formation_flight.Node.State.{Node}
use formation_flight.RadioHub.{RxFrame, RadioDriver, deliver, drain}

-- What `service` relies on: a driver's ring is a queue, and what the node does with a frame leaves
-- it alone.
pub record IsQueue {D W : Type 0} ⦃d : Double D⦄ (deps : NodeDeps D W) (clock_ms : ℕ)
    (driver : RadioDriver D W) (pending : W → List RxFrame) : Type 0 where
  pub pop_empty : (w : W) → pending w ≡ [] → (driver.pop_rx w).1 ≡ none
  pub pop_first :
      (w : W) (f : RxFrame) (fs : List RxFrame)
      → pending w ≡ f ∷ fs
      → ((driver.pop_rx w).1 ≡ some f) × (pending (driver.pop_rx w).0 ≡ fs)
  pub left_alone :
      (index : ℕ) (f : RxFrame) (n : Node D) (w : W)
      → pending (deliver deps clock_ms index f (n, w)).1 ≡ pending w

module _ {D W : Type 0} ⦃d : Double D⦄ (deps : NodeDeps D W) (clock_ms : ℕ)
    (driver : RadioDriver D W) where
  -- The frames handed to the node one after another, each popped first, and the pop that finds none.
  abbrev pub delivered_all : ℕ → List RxFrame → Node D × W → Node D × W
  delivered_all index [] (n, w) = (n, (driver.pop_rx w).0)
  delivered_all index (f ∷ fs) (n, w) =
      delivered_all index fs (deliver deps clock_ms index f (n, (driver.pop_rx w).0))

  drain_next :
      (fuel index : ℕ) (n : Node D) (w : W) (f : RxFrame)
      → (driver.pop_rx w).1 ≡ some f
      → drain deps clock_ms (suc fuel) driver index (n, w)
        ≡ drain deps clock_ms fuel driver index
            (deliver deps clock_ms index f (n, (driver.pop_rx w).0))
  unfolding drain
  drain_next fuel index n w f e =
      ap
        (λ (o : Option RxFrame). elim o [
          | none ↦ some (n, (driver.pop_rx w).0)
          | some frame ↦
              drain deps clock_ms fuel driver index
                (deliver deps clock_ms index frame (n, (driver.pop_rx w).0))
        ])
        e

  drain_last :
      (fuel index : ℕ) (n : Node D) (w : W)
      → (driver.pop_rx w).1 ≡ none
      → drain deps clock_ms (suc fuel) driver index (n, w) ≡ some (n, (driver.pop_rx w).0)
  unfolding drain
  drain_last fuel index n w e =
      ap
        (λ (o : Option RxFrame). elim o [
          | none ↦ some (n, (driver.pop_rx w).0)
          | some frame ↦
              drain deps clock_ms fuel driver index
                (deliver deps clock_ms index frame (n, (driver.pop_rx w).0))
        ])
        e

  -- Of a driver whose ring is a queue that the node leaves alone: with more rounds than frames are
  -- pending, the loop ends, and the node has been handed each of them once, in order.
  pub drain_total :
      (pending : W → List RxFrame) (frames : List RxFrame) (fuel index : ℕ) (n : Node D) (w : W)
      → IsQueue deps clock_ms driver pending
      → pending w ≡ frames
      → length frames < fuel
      → drain deps clock_ms fuel driver index (n, w) ≡ some (delivered_all index frames (n, w))
  drain_total pending frames zero index n w q e short = absurd (omega arith)
  drain_total pending [] (suc fuel) index n w q e short =
      drain_last fuel index n w (q.pop_empty w e)
  drain_total pending (f ∷ fs) (suc fuel) index n w q e short =
      let (popped, rest) = q.pop_first w f fs e in
      let st = deliver deps clock_ms index f (n, (driver.pop_rx w).0) in
      drain_next fuel index n w f popped
      ∙ drain_total pending fs fuel index st.0 st.1 q
          (q.left_alone index f n (driver.pop_rx w).0 ∙ rest) (omega arith)
