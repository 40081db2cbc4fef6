-- ===== src/Follow/Lock/Best.antt =====
-- lib/ff_core/follow.cpp: the search for a nearest peer, slot by slot.
use formation_flight.Prelude.{
  ℕ, ◌≡◌, refl, sym, ap, ◌∙◌, Bool, true, false, not, ◌&&◌, none, some, Option, List, [], ◌∷◌,
  if◌then◌else◌, ◌⊎◌, inl, inr,
}
use formation_flight.Maths.{Maths}
use formation_flight.RateControl.{Double}
use formation_flight.Node.Interfaces.{NodeLocation}
use formation_flight.PeerTable.{Peer, if_valid}
use formation_flight.Follow.Lock.{follow_peer_stale, nearest_from, distance_to}
use formation_flight.Follow.Lock.Followable.{stale_if_valid}

-- `<` on doubles, NaN included.
pub record IsStrictOrder {D : Type 0} (d : Double D) : Type 0 where
  pub irreflexive : (x : D) → d.lt x x ≡ false
  pub transitive : (x y z : D) → d.lt x y ≡ true → d.lt y z ≡ true → d.lt x z ≡ true

abbrev pub AllStale : ℕ → ℕ → List Peer → Type 0
AllStale now_ms timeout_ms [] = Unit
AllStale now_ms timeout_ms (p ∷ ps) =
    (follow_peer_stale (some p) now_ms timeout_ms ≡ true) × AllStale now_ms timeout_ms ps

not_true : (b : Bool) → (b ≡ true → ⊥) → b ≡ false
not_true true h = absurd (h refl)
not_true false h = refl

module _ {D : Type 0} (d : Double D) (dist : Peer → D) (now_ms timeout_ms : ℕ) where
  abbrev nearer : Peer → Peer → Bool
  nearer p q = d.lt (dist p) (dist q)

  -- No slot that may be followed is nearer than `q`.
  abbrev pub NoneNearer : Peer → List Peer → Type 0
  NoneNearer q [] = Unit
  NoneNearer q (p ∷ ps) =
      (follow_peer_stale (some p) now_ms timeout_ms ≡ false → nearer p q ≡ false) × NoneNearer q ps

  -- The search has `none` only if nobody may be followed, and otherwise a slot that nobody beats.
  abbrev pub IsBest : List Peer → Option Peer → Type 0
  IsBest ps none = AllStale now_ms timeout_ms ps
  IsBest ps (some q) = NoneNearer q ps

  -- With the candidate `q0`, and a rest of the slots: it stays, or a nearer one is found.
  abbrev Improves : Peer → List Peer → Option Peer → Type 0
  Improves q0 ps none = ⊥
  Improves q0 ps (some q) = ((q ≡ q0) ⊎ (nearer q q0 ≡ true)) × NoneNearer q ps

  module _ (laws : IsStrictOrder d) (p : Peer) (ps : List Peer) where
    -- What is not nearer than the candidate is not nearer than what comes of it.
    still_not_nearer :
        (q0 q : Peer) → ((q ≡ q0) ⊎ (nearer q q0 ≡ true)) → nearer p q0 ≡ false → nearer p q ≡ false
    still_not_nearer q0 q (inl e) h = rw e h
    still_not_nearer q0 q (inr e) h =
        not_true _ (λ k. false_ne (sym h ∙ laws.transitive (dist p) (dist q) (dist q0) k e))
      where
        false_ne : false ≡ true → ⊥
        false_ne z = cc

    skip_stale :
        (q0 : Peer) (r : Option Peer)
        → follow_peer_stale (some p) now_ms timeout_ms ≡ true
        → Improves q0 ps r
        → Improves q0 (p ∷ ps) r
    skip_stale q0 none s h = h
    skip_stale q0 (some q) s h = (h.0, ((λ fresh. cc), h.1))

    keep_candidate :
        (q0 : Peer) (r : Option Peer)
        → nearer p q0 ≡ false
        → Improves q0 ps r
        → Improves q0 (p ∷ ps) r
    keep_candidate q0 none n h = h
    keep_candidate q0 (some q) n h = (h.0, ((λ fresh. still_not_nearer q0 q h.0 n), h.1))

    take_nearer :
        (q0 : Peer) (r : Option Peer)
        → nearer p q0 ≡ true
        → Improves p ps r
        → Improves q0 (p ∷ ps) r
    take_nearer q0 none n h = h
    take_nearer q0 (some q) n (inl e, rest) =
        (inr (rw e n), ((λ fresh. rw e (laws.irreflexive (dist p))), rest))
    take_nearer q0 (some q) n (inr e, rest) = (
      inr (laws.transitive (dist q) (dist p) (dist q0) e n),
      ((λ fresh. still_not_nearer p q (inr e) (laws.irreflexive (dist p))), rest),
    )

    first_candidate : (r : Option Peer) → Improves p ps r → IsBest (p ∷ ps) r
    first_candidate none h = absurd h
    first_candidate (some q) h =
        ((λ fresh. still_not_nearer p q h.0 (laws.irreflexive (dist p))), h.1)

    no_candidate :
        (r : Option Peer)
        → follow_peer_stale (some p) now_ms timeout_ms ≡ true
        → IsBest ps r
        → IsBest (p ∷ ps) r
    no_candidate none s h = (s, h)
    no_candidate (some q) s h = ((λ fresh. cc), h)

    -- One slot of the search when there is a candidate, and when there is none.
    improve_step :
        (q0 : Peer) (best : D) (tail : Option Peer → D → Option Peer) (stale better no_fix : Bool)
        → no_fix ≡ false
        → follow_peer_stale (some p) now_ms timeout_ms ≡ stale
        → nearer p q0 ≡ better
        → best ≡ dist q0
        → ((q : Peer) (b : D) → b ≡ dist q → Improves q ps (tail (some q) b))
        → Improves q0 (p ∷ ps) (
            if not stale && no_fix
            then some p
            else tail
                (if not stale && better then some p else some q0)
                (if not stale && better then dist p else best))
    improve_step q0 best tail stale better true f s b e ih = cc
    improve_step q0 best tail true better false f s b e ih = skip_stale q0 _ s (ih q0 best e)
    improve_step q0 best tail false true false f s b e ih = take_nearer q0 _ b (ih p (dist p) refl)
    improve_step q0 best tail false false false f s b e ih = keep_candidate q0 _ b (ih q0 best e)

    first_step :
        (best : D) (tail : Option Peer → D → Option Peer) (stale no_fix : Bool)
        → no_fix ≡ false
        → follow_peer_stale (some p) now_ms timeout_ms ≡ stale
        → ((q : Peer) (b : D) → b ≡ dist q → Improves q ps (tail (some q) b))
        → ((b : D) → IsBest ps (tail none b))
        → IsBest (p ∷ ps) (
            if not stale && no_fix
            then some p
            else tail
                (if not stale && true then some p else none)
                (if not stale && true then dist p else best))
    first_step best tail stale true f s ih none_yet = cc
    first_step best tail true false f s ih none_yet = no_candidate _ s (none_yet best)
    first_step best tail false false f s ih none_yet = first_candidate _ (ih p (dist p) refl)

module _ {D : Type 0} ⦃d : Double D⦄ ⦃m : Maths D⦄ where
  module _ (laws : IsStrictOrder d) (self : NodeLocation) (fix : self.valid ≡ true) where
    module _ (now_ms timeout_ms : ℕ) where
      nearest_from-Improves :
          (ps : List Peer) (q0 : Peer) (best : D)
          → best ≡ distance_to self q0
          → Improves d
              (distance_to self)
              now_ms
              timeout_ms
              q0
              ps
              (nearest_from self now_ms timeout_ms ps (some q0) best)
      unfolding nearest_from
      nearest_from-Improves [] q0 best e = (inl refl, tt)
      nearest_from-Improves (p ∷ ps) q0 best e =
          improve_step d (distance_to self) now_ms timeout_ms laws p ps q0 best
            (nearest_from self now_ms timeout_ms ps)
            (follow_peer_stale (if_valid p) now_ms timeout_ms) (d.lt (distance_to self p) best)
            (not self.valid) (ap not fix) (sym (stale_if_valid p now_ms timeout_ms))
            (ap (d.lt (distance_to self p)) (sym e)) e (nearest_from-Improves ps)

      pub nearest_from-IsBest :
          (ps : List Peer) (best : D)
          → IsBest d
              (distance_to self)
              now_ms
              timeout_ms
              ps
              (nearest_from self now_ms timeout_ms ps none best)
      unfolding nearest_from
      nearest_from-IsBest [] best = tt
      nearest_from-IsBest (p ∷ ps) best =
          first_step d (distance_to self) now_ms timeout_ms laws p ps best
            (nearest_from self now_ms timeout_ms ps)
            (follow_peer_stale (if_valid p) now_ms timeout_ms) (not self.valid) (ap not fix)
            (sym (stale_if_valid p now_ms timeout_ms)) (nearest_from-Improves ps)
            (nearest_from-IsBest ps)
