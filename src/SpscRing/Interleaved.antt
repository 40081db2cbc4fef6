-- ===== src/SpscRing/Interleaved.antt =====
-- lib/ff_core/ring_buffer.h: producer and consumer, interleaved in any way.
use native.Mathlib.Decide.{dec_lt}
use native.Mathlib.Nat.{mod-eq_of_lt, add-mod_right}
use formation_flight.Prelude.{
  Bool, false, ◌==◌, ℕ, ◌+◌, ◌%◌, ◌<◌, ◌≡◌, refl, ap, ◌∙◌, List, [], ◌++◌, length, arith,
}
use formation_flight.SpscRing.{SpscRing, size}
use formation_flight.SpscRing.Steps.{
  Producer, ready, checking, writing, publishing, Consumer, waiting, looking, reading, releasing,
  System, Reach,
}
use formation_flight.SpscRing.Held.{ProducerFine, ConsumerFine, Holds, Inv}
use formation_flight.SpscRing.Moves.{Reach-Inv}

module _ {A : Type 0} (capacity : ℕ) where
  size-Holds : (r : SpscRing A) (q : List A) → Holds capacity r q → size capacity r ≡ length q
  unfolding size
  size-Holds r q h = elim (dec_lt (r.tail + length q) capacity) [
    | yes l ↦
        ap (λ n. n % capacity) (ground (arith, h.apart))
        ∙ (add-mod_right (length q) capacity ∙ mod-eq_of_lt h.short)
    | no l ↦ ap (λ n. n % capacity) (ground (arith, h.apart)) ∙ mod-eq_of_lt h.short
  ]

  -- The ring of a capacity as it is constructed, with nothing under way.
  abbrev pub at_start : List A → System A
  at_start buf = record {
    ring = record { buf = buf; head = 0; tail = 0; dropped = 0 };
    producer = ready;
    consumer = waiting;
    sent = [];
    received = [];
  }

  at_start-Inv : (buf : List A) → length buf ≡ capacity → 0 < capacity → Inv capacity (at_start buf)
  at_start-Inv buf l c = record {
    q = [];
    holds = record {
      room = l;
      head_inside = c;
      tail_inside = c;
      short = c;
      apart = ground arith;
      held = λ k k<0. absurd (omega arith);
    };
    order = refl;
    producing = tt;
    consuming = tt;
  }

  -- Whether the producer is about to write the slot that the consumer is about to read.
  abbrev pub collides : Producer A → Consumer A → Bool
  collides (writing item head) (reading tail) = head == tail
  collides _ _ = false

  Inv-collides :
      (r : SpscRing A) (q : List A) (p : Producer A) (c : Consumer A)
      → Holds capacity r q
      → ProducerFine capacity r q p
      → ConsumerFine capacity r q c
      → collides p c ≡ false
  Inv-collides r q (writing item head) (reading tail) h f g =
      ground (arith, h.apart, h.short, h.tail_inside, f.0, f.1, g.0, g.1)
  Inv-collides r q ready c h f g = refl
  Inv-collides r q (checking item head) c h f g = refl
  Inv-collides r q (publishing item head) c h f g = refl
  Inv-collides r q (writing item head) waiting h f g = refl
  Inv-collides r q (writing item head) (looking tail) h f g = refl
  Inv-collides r q (writing item head) (releasing x tail) h f g = refl

  -- However the accesses of a producer and a consumer to a ring with a buffer of the size of its
  -- capacity are interleaved, from the empty ring on: the items received are the first of those
  -- sent, in order; fewer items than the capacity are on their way, and `size` counts them; and
  -- the two never access one slot at once.
  pub in_order :
      (buf : List A) (s : System A)
      → length buf ≡ capacity
      → 0 < capacity
      → Reach capacity (at_start buf) s
      → (waiting_items : List A) × (s.sent ≡ s.received ++ waiting_items)
        × (length waiting_items < capacity)
        × (size capacity s.ring ≡ length waiting_items)
        × (collides s.producer s.consumer ≡ false)
  in_order buf s l c r =
      let i = Reach-Inv capacity (at_start-Inv buf l c) r in
      (
        i.q,
        i.order,
        i.holds.short,
        size-Holds s.ring i.q i.holds,
        Inv-collides s.ring i.q s.producer s.consumer i.holds i.producing i.consuming,
      )
