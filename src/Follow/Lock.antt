-- ===== src/Follow/Lock.antt =====
-- lib/ff_core/follow.cpp: which peer is the leader.
pub mod Best
pub mod Nearest
pub mod Failover
pub mod Followable
use formation_flight.Prelude.{
  ℕ, Bool, true, false, not, ◌&&◌, ◌||◌, ltb, ◌==◌, if◌then◌else◌, List, [], ◌∷◌, Option, none,
  some, bit_and, sub32,
}
use formation_flight.Geo.{distance_m}
use formation_flight.Maths.{Maths}
use formation_flight.RateControl.{Double}
use formation_flight.Node.Interfaces.{NodeLocation}
use formation_flight.PeerTable.{Peer, PeerTable, find, if_valid}
use formation_flight.Follow.State.{
  FollowController, LockState, idle, acquiring, locked, locked_holding, padded_name,
}

-- POSITION_FLAG_HAS_FIX.
abbrev pub has_fix : Peer → Bool
has_fix p = not (bit_and p.flags 2 == 0)

unfoldable pub follow_peer_stale : Option Peer → ℕ → ℕ → Bool
follow_peer_stale none now_ms timeout_ms = true
follow_peer_stale (some p) now_ms timeout_ms =
    if not p.valid
    then true
    else if not (has_fix p)
    then true
    else ltb timeout_ms (sub32 now_ms p.last_position_ms)

module _ {D : Type 0} ⦃d : Double D⦄ ⦃m : Maths D⦄ where
  open d use {of_nat, div, lt}
  open m use {of_i32}

  unfoldable pub deg_1e7 : ℕ → D
  deg_1e7 v = div (of_i32 v) (of_nat 10000000)

  unfoldable pub distance_to : NodeLocation → Peer → D
  distance_to self p =
      distance_m (deg_1e7 self.lat) (deg_1e7 self.lon) (deg_1e7 p.lat) (deg_1e7 p.lon)

  -- `candidate == nullptr || distM < bestDistM`.
  abbrev pub is_better : Option Peer → D → D → Bool
  is_better none dist best = true
  is_better (some q) dist best = lt dist best

  -- The loop over the slots from one on, with the candidate so far and its distance.
  unfoldable pub nearest_from : NodeLocation → ℕ → ℕ → List Peer → Option Peer → D → Option Peer
  unfolding follow_peer_stale
  nearest_from self now_ms timeout_ms [] candidate best = candidate
  nearest_from self now_ms timeout_ms (p ∷ ps) candidate best =
      let stale = follow_peer_stale (if_valid p) now_ms timeout_ms in
      let dist = distance_to self p in
      let taken = not stale && is_better candidate dist best in
      let rest =
        nearest_from self now_ms timeout_ms ps (if taken then some p else candidate)
          (if taken then dist else best) in
      if not stale && not self.valid then some p else rest

  -- The peer that may be locked on: `self` is the node's own location at that time.
  unfoldable pub candidate_peer : NodeLocation → ℕ → PeerTable → FollowController D → Option Peer
  unfolding nearest_from follow_peer_stale
  candidate_peer self now_ms t c =
      let pinned = find c.config.target_uid t.peers in
      if not (c.config.target_uid == 0)
      then if follow_peer_stale pinned now_ms c.config.peer_timeout_ms then none else pinned
      else nearest_from self now_ms c.config.peer_timeout_ms t.peers none (of_nat 0)

module _ {D : Type 0} where
  unfoldable pub lock_on : Option Peer → FollowController D → FollowController D × Option Peer
  lock_on none c = (c, none)
  lock_on (some p) c = (
    record c { lock_state = locked; locked_uid = p.uid; locked_name = padded_name 15 p.name },
    some p,
  )

  unfoldable pub keep_lock :
      Bool → Option Peer → FollowController D → FollowController D × Option Peer
  keep_lock true p c = (record c { lock_state = locked_holding }, none)
  keep_lock false p c = (c, p)

  unfoldable pub regain_lock :
      Bool → Option Peer → FollowController D → FollowController D × Option Peer
  regain_lock true p c = (c, none)
  regain_lock false none c = (c, none)
  regain_lock false (some p) c =
      (record c { lock_state = locked; locked_name = padded_name 15 p.name }, some p)

module _ {D : Type 0} ⦃d : Double D⦄ ⦃m : Maths D⦄ where
  unfoldable pub acquire :
      NodeLocation → ℕ → PeerTable → FollowController D → FollowController D × Option Peer
  acquire self now_ms t c = lock_on (candidate_peer self now_ms t c) c

  -- The peer that is followed in this cycle.
  unfoldable pub resolve_lock_in :
      LockState
      → NodeLocation
      → ℕ
      → PeerTable
      → FollowController D
      → FollowController D × Option Peer
  unfolding acquire keep_lock regain_lock follow_peer_stale
  resolve_lock_in idle self now_ms t c = acquire self now_ms t (record c { lock_state = acquiring })
  resolve_lock_in acquiring self now_ms t c = acquire self now_ms t c
  resolve_lock_in locked self now_ms t c =
      let p = find c.locked_uid t.peers in
      keep_lock (follow_peer_stale p now_ms c.config.peer_timeout_ms) p c
  resolve_lock_in locked_holding self now_ms t c =
      let p = find c.locked_uid t.peers in
      regain_lock (follow_peer_stale p now_ms c.config.peer_timeout_ms) p c

  unfoldable pub resolve_lock :
      NodeLocation → ℕ → PeerTable → FollowController D → FollowController D × Option Peer
  unfolding resolve_lock_in
  resolve_lock self now_ms t c = resolve_lock_in c.lock_state self now_ms t c
