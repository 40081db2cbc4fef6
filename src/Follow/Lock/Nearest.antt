-- ===== src/Follow/Lock/Nearest.antt =====
-- lib/ff_core/follow.cpp: the peer that is locked on when none is configured.
use formation_flight.Prelude.{
  ℕ, ◌≡◌, true, false, ◌==◌, none, some, Option, List, [], ◌∷◌, ==_iff, ◌≤◌, ◌≢◌, bit_and, sub32,
  arith,
}
use formation_flight.Maths.{Maths}
use formation_flight.RateControl.{Double}
use formation_flight.Node.Interfaces.{NodeLocation}
use formation_flight.PeerTable.{Peer, PeerTable}
use formation_flight.Follow.State.{FollowController}
use formation_flight.Follow.Lock.{follow_peer_stale, candidate_peer, distance_to}
use formation_flight.Follow.Lock.Best.{
  IsStrictOrder, AllStale, NoneNearer, IsBest, nearest_from-IsBest,
}
use formation_flight.Follow.Lock.Followable.{InTable, IsFollowable, nearest-IsFollowable}

-- The slot is in use, with a fix, and its position is not older than the timeout.
abbrev pub IsFresh : ℕ → ℕ → Peer → Type 0
IsFresh now_ms timeout_ms p =
    (p.valid ≡ true) × (bit_and p.flags 2 ≢ 0) × (sub32 now_ms p.last_position_ms ≤ timeout_ms)

follow_peer_stale-IsFresh :
    (p : Peer) (now_ms timeout_ms : ℕ)
    → follow_peer_stale (some p) now_ms timeout_ms ≡ false
    → IsFresh now_ms timeout_ms p
unfolding follow_peer_stale
follow_peer_stale-IsFresh p now_ms timeout_ms h = (ground arith, ground arith, ground arith)

IsFresh-follow_peer_stale :
    (p : Peer) (now_ms timeout_ms : ℕ)
    → IsFresh now_ms timeout_ms p
    → follow_peer_stale (some p) now_ms timeout_ms ≡ false
unfolding follow_peer_stale
IsFresh-follow_peer_stale p now_ms timeout_ms (v, fix, near) = ground arith

module _ {D : Type 0} (d : Double D) (dist : Peer → D) (now_ms timeout_ms : ℕ) where
  abbrev NoneFresh : List Peer → Type 0
  NoneFresh [] = Unit
  NoneFresh (p ∷ ps) = (IsFresh now_ms timeout_ms p → ⊥) × NoneFresh ps

  abbrev NoneFreshNearer : Peer → List Peer → Type 0
  NoneFreshNearer q [] = Unit
  NoneFreshNearer q (p ∷ ps) =
      (IsFresh now_ms timeout_ms p → d.lt (dist p) (dist q) ≡ false) × NoneFreshNearer q ps

  -- Nobody, if no slot is fresh, and otherwise a fresh slot than which no fresh one is nearer.
  abbrev pub IsNearest : List Peer → Option Peer → Type 0
  IsNearest ps none = NoneFresh ps
  IsNearest ps (some q) = InTable q ps × IsFresh now_ms timeout_ms q × NoneFreshNearer q ps

  NoneFresh-AllStale : (ps : List Peer) → AllStale now_ms timeout_ms ps → NoneFresh ps
  NoneFresh-AllStale [] h = tt
  NoneFresh-AllStale (p ∷ ps) (stale, rest) = (
    λ f. let fresh = IsFresh-follow_peer_stale p now_ms timeout_ms f in cc,
    NoneFresh-AllStale ps rest,
  )

  NoneFreshNearer-NoneNearer :
      (q : Peer) (ps : List Peer) → NoneNearer d dist now_ms timeout_ms q ps → NoneFreshNearer q ps
  NoneFreshNearer-NoneNearer q [] h = tt
  NoneFreshNearer-NoneNearer q (p ∷ ps) (far, rest) = (
    λ f. far (IsFresh-follow_peer_stale p now_ms timeout_ms f),
    NoneFreshNearer-NoneNearer q ps rest,
  )

  IsNearest-IsBest :
      (ps : List Peer) (r : Option Peer)
      → IsFollowable now_ms timeout_ms ps r
      → IsBest d dist now_ms timeout_ms ps r
      → IsNearest ps r
  IsNearest-IsBest ps none f h = NoneFresh-AllStale ps h
  IsNearest-IsBest ps (some q) (fresh, held) h =
      (held, follow_peer_stale-IsFresh q now_ms timeout_ms fresh, NoneFreshNearer-NoneNearer q ps h)

module _ {D : Type 0} ⦃d : Double D⦄ ⦃m : Maths D⦄ where
  -- With `<` a strict order, a fix of the node's own and no peer configured, if the search finds
  -- nobody, no slot of the table is in use with a fix and a position not older than the timeout.
  -- Otherwise it finds a slot of the table that is, and no other such slot is nearer.
  pub candidate_peer-IsNearest :
      (laws : IsStrictOrder d) (self : NodeLocation) (now_ms : ℕ) (t : PeerTable)
      (c : FollowController D)
      → self.valid ≡ true
      → c.config.target_uid ≡ 0
      → IsNearest d
          (distance_to self)
          now_ms
          c.config.peer_timeout_ms
          t.peers
          (candidate_peer self now_ms t c)
  unfolding candidate_peer
  candidate_peer-IsNearest laws self now_ms t c fix any =
      let unpinned : (c.config.target_uid == 0) ≡ true = (==_iff c.config.target_uid 0).1 any in
      let timeout_ms = c.config.peer_timeout_ms in
      let slots = t.peers in
      rw unpinned (
        IsNearest-IsBest d (distance_to self) now_ms timeout_ms slots _
          (nearest-IsFollowable self now_ms timeout_ms slots _)
          (nearest_from-IsBest laws self fix now_ms timeout_ms slots _))
