-- ===== src/SpscRing/Steps.antt =====
-- lib/ff_core/ring_buffer.h: push and pop, one access of shared memory after the other.
use formation_flight.Prelude.{ℕ, ◌+◌, ◌%◌, ◌≡◌, ◌≢◌, List, [], ◌∷◌, ◌++◌, some, get_elem?, set, u32}
use formation_flight.SpscRing.{SpscRing}

-- Where the producer is in `push`, with its locals, and the consumer in `pop`.
pub data Producer (A : Type 0) : Type 0 where
  ready : Producer A
  checking : A → ℕ → Producer A
  writing : A → ℕ → Producer A
  publishing : A → ℕ → Producer A

pub data Consumer (A : Type 0) : Type 0 where
  waiting : Consumer A
  looking : ℕ → Consumer A
  reading : ℕ → Consumer A
  releasing : A → ℕ → Consumer A

-- The ring between the two, with what `push` has accepted and what `pop` has delivered so far.
pub record System (A : Type 0) : Type 0 where
  pub ring : SpscRing A
  pub producer : Producer A
  pub consumer : Consumer A
  pub sent : List A
  pub received : List A

module _ {A : Type 0} (capacity : ℕ) where
  -- One step of either, in any order.
  pub data Step : System A → System A → Type 0 where
    load_head :
        (s : System A) (item : A)
        → s.producer ≡ ready
        → Step s (record s { producer = checking item s.ring.head })
    drop_item :
        (s : System A) (item : A) (head : ℕ)
        → s.producer ≡ checking item head
        → (head + 1) % capacity ≡ s.ring.tail
        → Step s (record s {
          ring = record s.ring { dropped = u32 (s.ring.dropped + 1) };
          producer = ready;
        })
    find_room :
        (s : System A) (item : A) (head : ℕ)
        → s.producer ≡ checking item head
        → (head + 1) % capacity ≢ s.ring.tail
        → Step s (record s { producer = writing item head })
    write_item :
        (s : System A) (item : A) (head : ℕ)
        → s.producer ≡ writing item head
        → Step s (record s {
          ring = record s.ring { buf = set s.ring.buf head item };
          producer = publishing item head;
        })
    store_head :
        (s : System A) (item : A) (head : ℕ)
        → s.producer ≡ publishing item head
        → Step s (record s {
          ring = record s.ring { head = (head + 1) % capacity };
          producer = ready;
          sent = s.sent ++ (item ∷ []);
        })
    load_tail :
        (s : System A) → s.consumer ≡ waiting → Step s (record s { consumer = looking s.ring.tail })
    find_none :
        (s : System A) (tail : ℕ)
        → s.consumer ≡ looking tail
        → tail ≡ s.ring.head
        → Step s (record s { consumer = waiting })
    find_item :
        (s : System A) (tail : ℕ)
        → s.consumer ≡ looking tail
        → tail ≢ s.ring.head
        → Step s (record s { consumer = reading tail })
    read_item :
        (s : System A) (tail : ℕ) (item : A)
        → s.consumer ≡ reading tail
        → get_elem? s.ring.buf tail ≡ some item
        → Step s (record s { consumer = releasing item tail })
    store_tail :
        (s : System A) (item : A) (tail : ℕ)
        → s.consumer ≡ releasing item tail
        → Step s (record s {
          ring = record s.ring { tail = (tail + 1) % capacity };
          consumer = waiting;
          received = s.received ++ (item ∷ []);
        })

  pub data Reach (s : System A) : System A → Type 0 where
    here : Reach s s
    next : {t u : System A} → Reach s t → Step t u → Reach s u
