-- ===== src/SpscRing/Moves.antt =====
-- lib/ff_core/ring_buffer.h: the steps of the two and the invariant.
use mathlib.Core.Path.{subst}
use formation_flight.Prelude.{
  ℕ, ◌+◌, ◌%◌, ◌≡◌, ◌≢◌, refl, sym, ap, ◌∙◌, List, [], ◌∷◌, ◌++◌, some, append_assoc, get_elem?,
  get_elem?-set_self, set, arith, u32,
}
use formation_flight.SpscRing.Steps.{
  writing, publishing, reading, System, Step, load_head, drop_item, find_room, write_item,
  store_head, load_tail, find_none, find_item, read_item, store_tail, Reach, here, next,
}
use formation_flight.SpscRing.Held.{
  front, ProducerFine, ConsumerFine, Holds, Inv, found_room, found_item, Holds-write, Holds-publish,
  Holds-release, ConsumerFine-append, ProducerFine-rest, ConsumerFine-ring,
}

module _ {A : Type 0} (capacity : ℕ) where
  Step-Inv : {s t : System A} → Step capacity s t → Inv capacity s → Inv capacity t
  Step-Inv (load_head s item e) i = record {
    q = i.q;
    holds = i.holds;
    order = i.order;
    producing = refl;
    consuming = i.consuming;
  }
  Step-Inv (drop_item s item head e full) i = record {
    q = i.q;
    holds = record {
      room = i.holds.room;
      head_inside = i.holds.head_inside;
      tail_inside = i.holds.tail_inside;
      short = i.holds.short;
      apart = i.holds.apart;
      held = i.holds.held;
    };
    order = i.order;
    producing = tt;
    consuming =
        ConsumerFine-ring capacity s.ring (record s.ring { dropped = u32 (s.ring.dropped + 1) }) i.q
          s.consumer refl i.consuming;
  }
  Step-Inv (find_room s item head e other) i =
      let at_head : head ≡ s.ring.head = subst (ProducerFine capacity s.ring i.q) e i.producing in
      record {
        q = i.q;
        holds = i.holds;
        order = i.order;
        producing = (
          at_head,
          found_room capacity s.ring i.q i.holds
              (subst (λ h. (h + 1) % capacity ≢ s.ring.tail) at_head other),
        );
        consuming = i.consuming;
      }
  Step-Inv (write_item s item head e) i =
      let fine : ProducerFine capacity s.ring i.q (writing item head) =
        subst (ProducerFine capacity s.ring i.q) e i.producing in
      record {
        q = i.q;
        holds =
            subst (λ h. Holds capacity (record s.ring { buf = set s.ring.buf h item }) i.q)
              (sym fine.0) (Holds-write capacity s.ring i.q item i.holds);
        order = i.order;
        producing = (
          fine.0,
          fine.1,
          subst (λ h. get_elem? (set s.ring.buf h item) s.ring.head ≡ some item) (sym fine.0)
              (get_elem?-set_self s.ring.buf s.ring.head item
                (omega (arith, i.holds.room, i.holds.head_inside))),
        );
        consuming =
            ConsumerFine-ring capacity s.ring (record s.ring { buf = set s.ring.buf head item }) i.q
              s.consumer refl i.consuming;
      }
  Step-Inv (store_head s item head e) i =
      let fine : ProducerFine capacity s.ring i.q (publishing item head) =
        subst (ProducerFine capacity s.ring i.q) e i.producing in
      record {
        q = i.q ++ (item ∷ []);
        holds =
            subst
              (λ h.
                Holds capacity (record s.ring { head = (h + 1) % capacity }) (i.q ++ (item ∷ [])))
              (sym fine.0) (Holds-publish capacity s.ring i.q item i.holds fine.1 fine.2);
        order = ap (λ xs. xs ++ (item ∷ [])) i.order ∙ append_assoc s.received i.q (item ∷ []);
        producing = tt;
        consuming =
            ConsumerFine-append capacity s.ring ((head + 1) % capacity) i.q item s.consumer
              i.consuming;
      }
  Step-Inv (load_tail s e) i = record {
    q = i.q;
    holds = i.holds;
    order = i.order;
    producing = i.producing;
    consuming = refl;
  }
  Step-Inv (find_none s tail e none_left) i = record {
    q = i.q;
    holds = i.holds;
    order = i.order;
    producing = i.producing;
    consuming = tt;
  }
  Step-Inv (find_item s tail e other) i =
      let at_tail : tail ≡ s.ring.tail = subst (ConsumerFine capacity s.ring i.q) e i.consuming in
      record {
        q = i.q;
        holds = i.holds;
        order = i.order;
        producing = i.producing;
        consuming = (at_tail, found_item capacity s.ring i.q i.holds (λ eq. other (at_tail ∙ eq)));
      }
  Step-Inv (read_item s tail item e there) i =
      let fine : ConsumerFine capacity s.ring i.q (reading tail) =
        subst (ConsumerFine capacity s.ring i.q) e i.consuming in
      let (rest, whole) = front i.q item fine.1 (
        sym (i.holds.held 0 fine.1)
        ∙ (ap (get_elem? s.ring.buf) (ground (arith, i.holds.tail_inside, fine.0)) ∙ there)) in
      record {
        q = i.q;
        holds = i.holds;
        order = i.order;
        producing = i.producing;
        consuming = (fine.0, rest, whole);
      }
  Step-Inv (store_tail s item tail e) i =
      let fine : (tail ≡ s.ring.tail) × (rest : List A) × (i.q ≡ item ∷ rest) =
        subst (ConsumerFine capacity s.ring i.q) e i.consuming in
      record {
        q = fine.1;
        holds =
            subst (λ t. Holds capacity (record s.ring { tail = (t + 1) % capacity }) fine.1)
              (sym fine.0)
              (Holds-release capacity s.ring item fine.1
                (subst (Holds capacity s.ring) fine.2 i.holds));
        order =
            i.order
            ∙ (ap (λ xs. s.received ++ xs) fine.2
                ∙ sym (append_assoc s.received (item ∷ []) fine.1));
        producing =
            ProducerFine-rest capacity s.ring ((tail + 1) % capacity) item fine.1 s.producer
              (subst (λ q. ProducerFine capacity s.ring q s.producer) fine.2 i.producing);
        consuming = tt;
      }

  pub Reach-Inv : {s t : System A} → Inv capacity s → Reach capacity s t → Inv capacity t
  Reach-Inv i here = i
  Reach-Inv i (next r step) = Step-Inv step (Reach-Inv i r)
