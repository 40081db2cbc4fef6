-- ===== src/SpscRing/Held.antt =====
-- lib/ff_core/ring_buffer.h: the items that a ring holds, and what a step does to them.
use native.Mathlib.Decide.{dec_lt}
use native.Mathlib.Nat.{mod-eq_of_lt, mod_self}
use mathlib.Core.Option.{some-injective}
use formation_flight.Prelude.{
  ℕ, zero, suc, ◌+◌, ◌-◌, ◌%◌, ◌<◌, ◌≡◌, ◌≢◌, refl, sym, ap, ◌∙◌, List, [], ◌∷◌, ◌++◌, some, length,
  length-append, length-set, get_elem?, get_elem?-set_ne, set, ltb, if◌then◌else◌, arith,
}
use formation_flight.SpscRing.{SpscRing}
use formation_flight.SpscRing.Steps.{
  Producer, ready, checking, writing, publishing, Consumer, waiting, looking, reading, releasing,
  System,
}

-- The index `k` places behind `i` in a ring.
abbrev pub slot : ℕ → ℕ → ℕ → ℕ
slot capacity i k = if ltb (i + k) capacity then i + k else i + k - capacity

next-slot : (capacity i : ℕ) → i < capacity → (i + 1) % capacity ≡ slot capacity i 1
next-slot capacity i h = elim (dec_lt (i + 1) capacity) [
  | yes l ↦ mod-eq_of_lt l ∙ ground arith
  | no l ↦ ap (λ j. j % capacity) (omega arith) ∙ (mod_self capacity ∙ ground arith)
]

get_elem?-append :
    {A : Type 0} (xs ys : List A) (k : ℕ) → k < length xs → get_elem? (xs ++ ys) k ≡ get_elem? xs k
get_elem?-append [] ys k h = absurd (omega arith)
get_elem?-append (x ∷ xs) ys zero h = refl
get_elem?-append (x ∷ xs) ys (suc k) h = get_elem?-append xs ys k (omega arith)

get_elem?-append_end :
    {A : Type 0} (xs : List A) (y : A) → get_elem? (xs ++ (y ∷ [])) (length xs) ≡ some y
get_elem?-append_end [] y = refl
get_elem?-append_end (x ∷ xs) y = get_elem?-append_end xs y

pub front :
    {A : Type 0} (q : List A) (x : A)
    → 0 < length q
    → get_elem? q 0 ≡ some x
    → (rest : List A) × (q ≡ x ∷ rest)
front [] x h e = absurd (omega arith)
front (y ∷ q) x h e = (q, ap (λ z. z ∷ q) (some-injective y x e))

module _ {A : Type 0} (capacity : ℕ) where
  -- What the locals of the producer say about the ring, which holds the items `q`.
  abbrev pub ProducerFine : SpscRing A → List A → Producer A → Type 0
  ProducerFine r q ready = Unit
  ProducerFine r q (checking item head) = head ≡ r.head
  ProducerFine r q (writing item head) = (head ≡ r.head) × (length q + 1 < capacity)
  ProducerFine r q (publishing item head) =
      (head ≡ r.head) × (length q + 1 < capacity) × (get_elem? r.buf r.head ≡ some item)

  abbrev pub ConsumerFine : SpscRing A → List A → Consumer A → Type 0
  ConsumerFine r q waiting = Unit
  ConsumerFine r q (looking tail) = tail ≡ r.tail
  ConsumerFine r q (reading tail) = (tail ≡ r.tail) × (0 < length q)
  ConsumerFine r q (releasing item tail) = (tail ≡ r.tail) × (rest : List A) × (q ≡ item ∷ rest)

  -- A ring that holds the items `q`, oldest first.
  pub record Holds (r : SpscRing A) (q : List A) : Type 0 where
    pub room : length r.buf ≡ capacity
    pub head_inside : r.head < capacity
    pub tail_inside : r.tail < capacity
    pub short : length q < capacity
    pub apart : r.head ≡ slot capacity r.tail (length q)
    pub held : (k : ℕ) → k < length q → get_elem? r.buf (slot capacity r.tail k) ≡ get_elem? q k

  -- The state of a whole system: the ring holds what was sent and not yet received.
  pub record Inv (s : System A) : Type 0 where
    pub q : List A
    pub holds : Holds s.ring q
    pub order : s.sent ≡ s.received ++ q
    pub producing : ProducerFine s.ring q s.producer
    pub consuming : ConsumerFine s.ring q s.consumer

  pub found_room :
      (r : SpscRing A) (q : List A)
      → Holds r q
      → (r.head + 1) % capacity ≢ r.tail
      → length q + 1 < capacity
  found_room r q h other =
      ground
        (arith, h.apart, h.short, h.tail_inside, next-slot capacity r.head h.head_inside, other)

  pub found_item : (r : SpscRing A) (q : List A) → Holds r q → r.tail ≢ r.head → 0 < length q
  found_item r q h other = ground (arith, h.apart, h.short, h.tail_inside, other)

  -- Writing behind the items leaves them alone.
  pub Holds-write :
      (r : SpscRing A) (q : List A) (item : A)
      → Holds r q
      → Holds (record r { buf = set r.buf r.head item }) q
  Holds-write r q item h = record {
    room = length-set r.buf r.head item ∙ h.room;
    head_inside = h.head_inside;
    tail_inside = h.tail_inside;
    short = h.short;
    apart = h.apart;
    held = λ k k<n. get_elem?-set_ne r.buf item (elsewhere k k<n) ∙ h.held k k<n;
  }
    where
      elsewhere : (k : ℕ) → k < length q → r.head ≢ slot capacity r.tail k
      elsewhere k k<n e = ground (arith, h.apart, h.short, h.tail_inside, e)

  pub Holds-publish :
      (r : SpscRing A) (q : List A) (item : A)
      → Holds r q
      → length q + 1 < capacity
      → get_elem? r.buf r.head ≡ some item
      → Holds (record r { head = (r.head + 1) % capacity }) (q ++ (item ∷ []))
  Holds-publish r q item h space there = record {
    room = h.room;
    head_inside = ground (arith, next-slot capacity r.head h.head_inside, h.head_inside);
    tail_inside = h.tail_inside;
    short = omega (arith, length-append q (item ∷ []));
    apart = ground (
      arith,
      next-slot capacity r.head h.head_inside,
      h.apart,
      h.tail_inside,
      length-append q (item ∷ []),
    );
    held = λ k k<n. elim (dec_lt k (length q)) [
      | yes l ↦ h.held k l ∙ sym (get_elem?-append q (item ∷ []) k l)
      | no l ↦
          ap (get_elem? r.buf) (ground (arith, h.apart, length-append q (item ∷ [])))
          ∙ (there
              ∙ (sym (get_elem?-append_end q item)
                  ∙ ap (get_elem? (q ++ (item ∷ []))) (omega (arith, length-append q (item ∷ [])))))
    ];
  }

  pub Holds-release :
      (r : SpscRing A) (item : A) (rest : List A)
      → Holds r (item ∷ rest)
      → Holds (record r { tail = (r.tail + 1) % capacity }) rest
  Holds-release r item rest h = record {
    room = h.room;
    head_inside = h.head_inside;
    tail_inside = ground (arith, next-slot capacity r.tail h.tail_inside, h.tail_inside);
    short = omega (arith, h.short);
    apart = ground (arith, next-slot capacity r.tail h.tail_inside, h.apart, h.tail_inside);
    held = λ k k<n.
        ap (get_elem? r.buf)
          (ground (arith, next-slot capacity r.tail h.tail_inside, h.tail_inside, h.short))
        ∙ h.held (suc k) (omega arith);
  }

  -- The consumer's locals stay true when the producer adds an item.
  pub ConsumerFine-append :
      (r : SpscRing A) (head : ℕ) (q : List A) (item : A) (c : Consumer A)
      → ConsumerFine r q c
      → ConsumerFine (record r { head = head }) (q ++ (item ∷ [])) c
  ConsumerFine-append r head q item waiting f = tt
  ConsumerFine-append r head q item (looking tail) f = f
  ConsumerFine-append r head q item (reading tail) f =
      (f.0, omega (arith, length-append q (item ∷ [])))
  ConsumerFine-append r head q item (releasing x tail) (e, rest, whole) =
      (e, rest ++ (item ∷ []), ap (λ xs. xs ++ (item ∷ [])) whole)

  -- The producer's locals stay true when the consumer takes one.
  pub ProducerFine-rest :
      (r : SpscRing A) (tail : ℕ) (x : A) (rest : List A) (p : Producer A)
      → ProducerFine r (x ∷ rest) p
      → ProducerFine (record r { tail = tail }) rest p
  ProducerFine-rest r tail x rest ready f = tt
  ProducerFine-rest r tail x rest (checking item head) f = f
  ProducerFine-rest r tail x rest (writing item head) f = (f.0, omega (arith, f.1))
  ProducerFine-rest r tail x rest (publishing item head) f = (f.0, omega (arith, f.1), f.2)

  pub ConsumerFine-ring :
      (r r' : SpscRing A) (q : List A) (c : Consumer A)
      → r.tail ≡ r'.tail
      → ConsumerFine r q c
      → ConsumerFine r' q c
  ConsumerFine-ring r r' q waiting e f = tt
  ConsumerFine-ring r r' q (looking tail) e f = f ∙ e
  ConsumerFine-ring r r' q (reading tail) e f = (f.0 ∙ e, f.1)
  ConsumerFine-ring r r' q (releasing x tail) e f = (f.0 ∙ e, f.1, f.2)
