-- ===== src/Tests/Rings.antt =====
-- lib/ff_core/ring_buffer.h on a ring of two slots.
use formation_flight.Prelude.{ℕ, ◌<◌, ◌≡◌, refl, List, [], ◌∷◌, ◌++◌, false, length, arith}
use formation_flight.SpscRing.{size, push}
use formation_flight.SpscRing.Steps.{System, checking, looking, Reach, next, load_head, load_tail}
use formation_flight.SpscRing.Interleaved.{at_start, collides, in_order}
use formation_flight.SpscRing.Whole.{pushed, push-Reach}

abbrev first : System ℕ
first = pushed 2 9 (at_start 2 (0 ∷ 0 ∷ []))

-- One item is in, the producer has begun to push another, and the consumer to pop.
abbrev both_at_work : System ℕ
both_at_work = record first { producer = checking 8 1; consumer = looking 0 }

both_at_work-Reach : Reach 2 (at_start 2 (0 ∷ 0 ∷ [])) both_at_work
unfolding push
both_at_work-Reach =
    next (next (push-Reach 2 9 (at_start 2 (0 ∷ 0 ∷ [])) refl) (load_head first 8 refl))
      (load_tail (record first { producer = checking 8 1 }) refl)

in_order_example :
    (waiting_items : List ℕ) × (both_at_work.sent ≡ both_at_work.received ++ waiting_items)
    × (length waiting_items < 2)
    × (size 2 both_at_work.ring ≡ length waiting_items)
    × (collides 2 both_at_work.producer both_at_work.consumer ≡ false)
in_order_example = in_order 2 (0 ∷ 0 ∷ []) both_at_work refl (omega arith) both_at_work-Reach
