-- ===== src/SpscRing/Whole.antt =====
-- lib/ff_core/ring_buffer.h: push and pop as runs of their steps.
use mathlib.Core.Path.{subst}
use formation_flight.Prelude.{
  ℕ, ◌+◌, ◌%◌, ◌<◌, ◌≡◌, refl, sym, List, [], ◌∷◌, ◌++◌, Option, none, some, Bool, true, false, set,
  u32, Bool-cases, inl, inr, zero, suc, if◌then◌else◌, ◌==◌, arith, get_elem?, length,
}
use formation_flight.SpscRing.{SpscRing, push, pop}
use formation_flight.SpscRing.Steps.{
  ready, checking, writing, publishing, waiting, looking, reading, releasing, System, Reach,
  load_head, drop_item, find_room, write_item, store_head, load_tail, find_none, find_item,
  read_item, store_tail, here, next,
}

get_elem?-some :
    {A : Type 0} (xs : List A) (i : ℕ) → i < length xs → (x : A) × (get_elem? xs i ≡ some x)
get_elem?-some [] i h = absurd (omega arith)
get_elem?-some (x ∷ xs) zero h = (x, refl)
get_elem?-some (x ∷ xs) (suc i) h = get_elem?-some xs i (omega arith)

module _ {A : Type 0} (capacity : ℕ) where
  -- The system after a whole `push` with a result, the item counted as sent if it was accepted.
  abbrev after_push : A → SpscRing A × Bool → System A → System A
  after_push item result s = record s {
    ring = result.0;
    producer = ready;
    sent = if result.1 then s.sent ++ (item ∷ []) else s.sent;
  }

  abbrev pub pushed : A → System A → System A
  pushed item s = after_push item (push capacity item s.ring) s

  -- The system after a whole `pop` with a result.
  abbrev after_pop : SpscRing A × Option A → System A → System A
  after_pop result s = record s {
    ring = result.0;
    consumer = waiting;
    received = elim result.1 [ none ↦ s.received | some item ↦ s.received ++ (item ∷ []) ];
  }

  abbrev pub popped : System A → System A
  popped s = after_pop (pop capacity s.ring) s

  push_full :
      (item : A) (r : SpscRing A)
      → ((r.head + 1) % capacity == r.tail) ≡ true
      → push capacity item r ≡ (record r { dropped = u32 (r.dropped + 1) }, false)
  unfolding push
  push_full item r full = rw full refl

  push_room :
      (item : A) (r : SpscRing A)
      → ((r.head + 1) % capacity == r.tail) ≡ false
      → push capacity item r
        ≡ (record r { buf = set r.buf r.head item; head = (r.head + 1) % capacity }, true)
  unfolding push
  push_room item r room = rw room refl

  pop_nothing : (r : SpscRing A) → (r.tail == r.head) ≡ true → pop capacity r ≡ (r, none)
  unfolding pop
  pop_nothing r same = rw same refl

  pop_an_item :
      (r : SpscRing A) (item : A)
      → (r.tail == r.head) ≡ false
      → get_elem? r.buf r.tail ≡ some item
      → pop capacity r ≡ (record r { tail = (r.tail + 1) % capacity }, some item)
  unfolding pop
  pop_an_item r item other there = rw (other, there) refl

  -- A producer that is not in `push` can run it as a whole, between any two steps of the consumer.
  pub push-Reach : (item : A) (s : System A) → s.producer ≡ ready → Reach capacity s (pushed item s)
  push-Reach item s idle = elim (Bool-cases ((s.ring.head + 1) % capacity == s.ring.tail)) [
    | inl full ↦
        subst (λ x. Reach capacity s (after_push item x s)) (sym (push_full item s.ring full))
          (next (next here (load_head s item idle)) (
            drop_item (record s { producer = checking item s.ring.head }) item s.ring.head refl
              (ground (arith, full))))
    | inr room ↦
        subst (λ x. Reach capacity s (after_push item x s)) (sym (push_room item s.ring room))
          (next
            (next
              (next (next here (load_head s item idle)) (
                find_room (record s { producer = checking item s.ring.head }) item s.ring.head refl
                  (λ e. ground (arith, room, e))))
              (write_item (record s { producer = writing item s.ring.head }) item s.ring.head refl))
            (store_head
              (record s {
                ring = record s.ring { buf = set s.ring.buf s.ring.head item };
                producer = publishing item s.ring.head;
              })
              item s.ring.head refl))
  ]

  -- So can a consumer that is not in `pop`, on a ring whose tail lies inside of its buffer.
  pub pop-Reach :
      (s : System A)
      → s.consumer ≡ waiting
      → s.ring.tail < length s.ring.buf
      → Reach capacity s (popped s)
  pop-Reach s idle inside = elim (Bool-cases (s.ring.tail == s.ring.head)) [
    | inl same ↦
        subst (λ x. Reach capacity s (after_pop x s)) (sym (pop_nothing s.ring same))
          (next (next here (load_tail s idle)) (
            find_none (record s { consumer = looking s.ring.tail }) s.ring.tail refl
              (ground (arith, same))))
    | inr other ↦
        let (item, there) = get_elem?-some s.ring.buf s.ring.tail inside in
        subst (λ x. Reach capacity s (after_pop x s)) (sym (pop_an_item s.ring item other there))
          (next
            (next
              (next (next here (load_tail s idle)) (
                find_item (record s { consumer = looking s.ring.tail }) s.ring.tail refl
                  (λ e. ground (arith, other, e))))
              (read_item (record s { consumer = reading s.ring.tail }) s.ring.tail item refl there))
            (store_tail (record s { consumer = releasing item s.ring.tail }) item s.ring.tail refl))
  ]
