-- ===== src/Follow/Lock/Followable.antt =====
-- lib/ff_core/follow.cpp: the peers that may be followed.
use formation_flight.Prelude.{
  ℕ, suc, ◌≡◌, ◌⊎◌, inl, inr, refl, sym, Bool, true, false, not, ◌&&◌, none, arith, some, Option,
  List, [], ◌∷◌, get_elem?, Bool-cases, ◌∙◌, ap, if◌then◌else◌,
}
use formation_flight.Maths.{Maths}
use formation_flight.RateControl.{Double}
use formation_flight.Node.Interfaces.{NodeLocation}
use formation_flight.PeerTable.{Peer, find, if_valid, holds}
use formation_flight.Follow.Lock.{follow_peer_stale, nearest_from, is_better, distance_to}

abbrev pub InTable : Peer → List Peer → Type 0
InTable p ps = (i : ℕ) × (get_elem? ps i ≡ some p)

further : (p q : Peer) (ps : List Peer) → InTable p ps → InTable p (q ∷ ps)
further p q ps (i, e) = (suc i, e)

pub found_holds :
    (uid : ℕ) (ps : List Peer) (p : Peer) → find uid ps ≡ some p → (p.uid ≡ uid) × InTable p ps
unfolding find
found_holds uid [] p h = cc
found_holds uid (q ∷ ps) p h = elim (Bool-cases (holds uid q)) [
  | inl e ↦ let same : q ≡ p = ground arith in (ground arith, (0, ap some same))
  | inr e ↦ let later = found_holds uid ps p (rw e at h) in (later.0, further p q ps later.1)
]

-- A candidate that the search returns is the first one given to it, or a slot that is not stale.
abbrev pub IsFollowable : ℕ → ℕ → List Peer → Option Peer → Type 0
IsFollowable now_ms timeout_ms ps none = Unit
IsFollowable now_ms timeout_ms ps (some p) =
    (follow_peer_stale (some p) now_ms timeout_ms ≡ false) × InTable p ps

IsFollowable-further :
    (now_ms timeout_ms : ℕ) (q : Peer) (ps : List Peer) (r : Option Peer)
    → IsFollowable now_ms timeout_ms ps r
    → IsFollowable now_ms timeout_ms (q ∷ ps) r
IsFollowable-further now_ms timeout_ms q ps none h = tt
IsFollowable-further now_ms timeout_ms q ps (some p) h = (h.0, further p q ps h.1)

pub stale_if_valid :
    (p : Peer) (now_ms timeout_ms : ℕ)
    → follow_peer_stale (if_valid p) now_ms timeout_ms
      ≡ follow_peer_stale (some p) now_ms timeout_ms
unfolding follow_peer_stale
stale_if_valid p now_ms timeout_ms = ground arith

-- One slot of the search: the tests on it, and what the rest of the search makes of a candidate.
abbrev picked :
    {D : Type 0}
    → Bool
    → Bool
    → Bool
    → Peer
    → (Option Peer → D → Option Peer)
    → Option Peer
    → D
    → D
    → Option Peer
picked stale no_fix better p tail candidate dist best =
    let taken = not stale && better in
    if not stale && no_fix
    then some p
    else tail (if taken then some p else candidate) (if taken then dist else best)

module _ (now_ms timeout_ms : ℕ) (p : Peer) (ps : List Peer) where
  later-IsFollowable :
      (r candidate : Option Peer)
      → ((r ≡ candidate) ⊎ IsFollowable now_ms timeout_ms ps r)
      → (r ≡ candidate) ⊎ IsFollowable now_ms timeout_ms (p ∷ ps) r
  later-IsFollowable r candidate (inl e) = inl e
  later-IsFollowable r candidate (inr f) = inr (IsFollowable-further now_ms timeout_ms p ps r f)

  this_or_later :
      (r candidate : Option Peer)
      → follow_peer_stale (some p) now_ms timeout_ms ≡ false
      → ((r ≡ some p) ⊎ IsFollowable now_ms timeout_ms ps r)
      → (r ≡ candidate) ⊎ IsFollowable now_ms timeout_ms (p ∷ ps) r
  this_or_later r candidate fresh (inl e) = inr (rw e (fresh, (0, refl)))
  this_or_later r candidate fresh (inr f) = inr (IsFollowable-further now_ms timeout_ms p ps r f)

  picked-IsFollowable :
      {D : Type 0} (stale no_fix better : Bool) (tail : Option Peer → D → Option Peer)
      (candidate : Option Peer) (dist best : D)
      → (stale ≡ false → follow_peer_stale (some p) now_ms timeout_ms ≡ false)
      → ((c : Option Peer) (b : D) → (tail c b ≡ c) ⊎ IsFollowable now_ms timeout_ms ps (tail c b))
      → (picked stale no_fix better p tail candidate dist best ≡ candidate)
        ⊎ IsFollowable now_ms timeout_ms
            (p ∷ ps)
            (picked stale no_fix better p tail candidate dist best)
  picked-IsFollowable true no_fix better tail candidate dist best fresh ih =
      later-IsFollowable _ candidate (ih candidate best)
  picked-IsFollowable false true better tail candidate dist best fresh ih =
      inr (fresh refl, (0, refl))
  picked-IsFollowable false false true tail candidate dist best fresh ih =
      this_or_later _ candidate (fresh refl) (ih (some p) dist)
  picked-IsFollowable false false false tail candidate dist best fresh ih =
      later-IsFollowable _ candidate (ih candidate best)

module _ {D : Type 0} ⦃d : Double D⦄ ⦃m : Maths D⦄ where
  nearest_from-IsFollowable :
      (self : NodeLocation) (now_ms timeout_ms : ℕ) (ps : List Peer) (candidate : Option Peer)
      (best : D)
      → (nearest_from self now_ms timeout_ms ps candidate best ≡ candidate)
        ⊎ IsFollowable now_ms timeout_ms ps (nearest_from self now_ms timeout_ms ps candidate best)
  unfolding nearest_from
  nearest_from-IsFollowable self now_ms timeout_ms [] candidate best = inl refl
  nearest_from-IsFollowable self now_ms timeout_ms (p ∷ ps) candidate best =
      picked-IsFollowable now_ms timeout_ms p ps (follow_peer_stale (if_valid p) now_ms timeout_ms)
        (not self.valid) (is_better candidate (distance_to self p) best)
        (nearest_from self now_ms timeout_ms ps) candidate (distance_to self p) best
        (λ e. sym (stale_if_valid p now_ms timeout_ms) ∙ e)
        (nearest_from-IsFollowable self now_ms timeout_ms ps)

  pub nearest-IsFollowable :
      (self : NodeLocation) (now_ms timeout_ms : ℕ) (ps : List Peer) (best : D)
      → IsFollowable now_ms timeout_ms ps (nearest_from self now_ms timeout_ms ps none best)
  nearest-IsFollowable self now_ms timeout_ms ps best =
      elim (nearest_from-IsFollowable self now_ms timeout_ms ps none best) [
        | inl e ↦ rw e tt
        | inr f ↦ f
      ]

pub find-IsFollowable :
    (uid now_ms timeout_ms : ℕ) (ps : List Peer) (o : Option Peer)
    → find uid ps ≡ o
    → IsFollowable now_ms timeout_ms ps (if follow_peer_stale o now_ms timeout_ms then none else o)
unfolding follow_peer_stale
find-IsFollowable uid now_ms timeout_ms ps none e = tt
find-IsFollowable uid now_ms timeout_ms ps (some p) e =
    fresh_only (follow_peer_stale (some p) now_ms timeout_ms) refl
  where
    fresh_only :
        (stale : Bool)
        → follow_peer_stale (some p) now_ms timeout_ms ≡ stale
        → IsFollowable now_ms timeout_ms ps (if stale then none else some p)
    fresh_only true h = tt
    fresh_only false h = (h, (found_holds uid ps p e).1)
