-- ===== src/Follow/Lock/Failover.antt =====
-- lib/ff_core/follow.cpp: the leader that is locked on.
use formation_flight.Prelude.{
  ℕ, ◌≡◌, inl, inr, refl, sym, Bool, true, false, ◌==◌, none, some, Option, Bool-cases,
}
use formation_flight.Maths.{Maths}
use formation_flight.RateControl.{Double}
use formation_flight.Node.Interfaces.{NodeLocation}
use formation_flight.PeerTable.{Peer, PeerTable, find}
use formation_flight.Follow.State.{
  FollowController, LockState, idle, acquiring, locked, locked_holding,
}
use formation_flight.Follow.Lock.{
  follow_peer_stale, candidate_peer, lock_on, keep_lock, regain_lock, resolve_lock_in, resolve_lock,
}
use formation_flight.Follow.Lock.Followable.{
  InTable, IsFollowable, nearest-IsFollowable, find-IsFollowable, found_holds,
}

-- The peer that a cycle follows, if it has one: it is locked on, in the table and not stale.
abbrev pub IsLeader : {D : Type 0} → ℕ → PeerTable → FollowController D → Option Peer → Type 0
IsLeader now_ms t c none = Unit
IsLeader now_ms t c (some p) =
    (follow_peer_stale (some p) now_ms c.config.peer_timeout_ms ≡ false)
    × InTable p t.peers
    × (c.locked_uid ≡ p.uid)
    × (c.lock_state ≡ locked)

module _ {D : Type 0} ⦃d : Double D⦄ ⦃m : Maths D⦄ where
  candidate_peer-IsFollowable :
      (self : NodeLocation) (now_ms : ℕ) (t : PeerTable) (c : FollowController D)
      → IsFollowable now_ms c.config.peer_timeout_ms t.peers (candidate_peer self now_ms t c)
  unfolding candidate_peer
  candidate_peer-IsFollowable self now_ms t c = elim (Bool-cases (c.config.target_uid == 0)) [
    | inl e ↦ rw e (nearest-IsFollowable self now_ms c.config.peer_timeout_ms t.peers _)
    | inr e ↦
        rw e (find-IsFollowable c.config.target_uid now_ms c.config.peer_timeout_ms t.peers _ refl)
  ]

  lock_on-IsLeader :
      (now_ms : ℕ) (t : PeerTable) (c : FollowController D) (o : Option Peer)
      → IsFollowable now_ms c.config.peer_timeout_ms t.peers o
      → IsLeader now_ms t (lock_on o c).0 (lock_on o c).1
  unfolding lock_on
  lock_on-IsLeader now_ms t c none f = tt
  lock_on-IsLeader now_ms t c (some p) f = (f.0, f.1, refl, refl)

  -- A leader that was lost, or kept.
  keep_lock-IsLeader :
      (now_ms : ℕ) (t : PeerTable) (c : FollowController D) (o : Option Peer)
      → c.lock_state ≡ locked
      → find c.locked_uid t.peers ≡ o
      → (stale : Bool) → follow_peer_stale o now_ms c.config.peer_timeout_ms ≡ stale
      → IsLeader now_ms t (keep_lock stale o c).0 (keep_lock stale o c).1
  unfolding keep_lock
  keep_lock-IsLeader now_ms t c o l e true h = tt
  keep_lock-IsLeader now_ms t c none l e false h = tt
  keep_lock-IsLeader now_ms t c (some p) l e false h =
      let f = found_holds c.locked_uid t.peers p e in (h, f.1, sym f.0, l)

  regain_lock-IsLeader :
      (now_ms : ℕ) (t : PeerTable) (c : FollowController D) (o : Option Peer)
      → find c.locked_uid t.peers ≡ o
      → (stale : Bool) → follow_peer_stale o now_ms c.config.peer_timeout_ms ≡ stale
      → IsLeader now_ms t (regain_lock stale o c).0 (regain_lock stale o c).1
  unfolding regain_lock
  regain_lock-IsLeader now_ms t c o e true h = tt
  regain_lock-IsLeader now_ms t c none e false h = tt
  regain_lock-IsLeader now_ms t c (some p) e false h =
      let f = found_holds c.locked_uid t.peers p e in (h, f.1, sym f.0, refl)

  resolve_lock_in-IsLeader :
      (s : LockState) (self : NodeLocation) (now_ms : ℕ) (t : PeerTable) (c : FollowController D)
      → c.lock_state ≡ s
      → IsLeader now_ms t
          (resolve_lock_in s self now_ms t c).0
          (resolve_lock_in s self now_ms t c).1
  unfolding resolve_lock_in
  resolve_lock_in-IsLeader idle self now_ms t c l =
      lock_on-IsLeader now_ms t (record c { lock_state = acquiring }) _
        (candidate_peer-IsFollowable self now_ms t (record c { lock_state = acquiring }))
  resolve_lock_in-IsLeader acquiring self now_ms t c l =
      lock_on-IsLeader now_ms t c _ (candidate_peer-IsFollowable self now_ms t c)
  resolve_lock_in-IsLeader locked self now_ms t c l =
      keep_lock-IsLeader now_ms t c (find c.locked_uid t.peers) l refl _ refl
  resolve_lock_in-IsLeader locked_holding self now_ms t c l =
      regain_lock-IsLeader now_ms t c (find c.locked_uid t.peers) refl _ refl

  pub resolve_lock-IsLeader :
      (self : NodeLocation) (now_ms : ℕ) (t : PeerTable) (c : FollowController D)
      → IsLeader now_ms t (resolve_lock self now_ms t c).0 (resolve_lock self now_ms t c).1
  unfolding resolve_lock
  resolve_lock-IsLeader self now_ms t c = resolve_lock_in-IsLeader c.lock_state self now_ms t c refl
