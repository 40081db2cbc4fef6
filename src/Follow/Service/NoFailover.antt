-- ===== src/Follow/Service/NoFailover.antt =====
-- lib/ff_core/follow.cpp: the lock over any cycles with the gate open.
use formation_flight.Prelude.{
  ℕ, ◌≡◌, ap, ◌∙◌, Bool, true, false, not, ◌||◌, none, some, Option, List, [], ◌∷◌, if◌then◌else◌,
  lt_i16,
}
use formation_flight.Maths.{Maths}
use formation_flight.RateControl.{Double}
use formation_flight.Node.Interfaces.{NodeLocation}
use formation_flight.PeerTable.{Peer, PeerTable}
use formation_flight.Follow.Lock.{resolve_lock, resolve_lock_in, keep_lock, regain_lock}
use formation_flight.Follow.Service.{follow_leader, run_cycle, service}
use formation_flight.Follow.Conditions.{stand_down, cycle_is_due}
use formation_flight.Follow.Service.Kept.{either, SameLock, follow_leader-SameLock}
use formation_flight.Follow.Service.Sane.{Cycle, after_cycle, begun, begun-SameCore}
use formation_flight.Follow.State.{
  FollowController, FcCommand, LockState, idle, acquiring, locked, locked_holding,
  set_telemetry_needs,
}
use formation_flight.Follow.Target.{any_rc_channel_assigned}

abbrev IsHeld : LockState → Type 0
IsHeld idle = ⊥
IsHeld acquiring = ⊥
IsHeld locked = Unit
IsHeld locked_holding = Unit

-- The controller is locked on to this peer, whether it hears it or not.
abbrev pub HoldsLock : {D : Type 0} → ℕ → FollowController D → Type 0
HoldsLock uid c = IsHeld c.lock_state × (c.locked_uid ≡ uid)

-- The gate is open in every cycle.
abbrev pub GateOpen : List Cycle → Type 0
GateOpen [] = Unit
GateOpen (y ∷ ys) = (y.fc.gcs_nav_active ≡ true) × GateOpen ys

either_of {κ} :
    {A : Type 0} (P : A → Type κ) (b : Bool) (x y : A) → b ≡ false → P y → P (if b then x else y)
either_of P true x y e p = cc
either_of P false x y e p = p

module _ {D : Type 0} ⦃d : Double D⦄ ⦃m : Maths D⦄ where
  abbrev pub after_cycles : List Cycle → FollowController D → FollowController D
  after_cycles [] c = c
  after_cycles (y ∷ ys) c = after_cycles ys (after_cycle y c)

  HoldsLock-same :
      (uid : ℕ) (c c' : FollowController D) → SameLock c c' → HoldsLock uid c → HoldsLock uid c'
  HoldsLock-same uid c c' s h = (rw s.1 h.0, s.2 ∙ h.1)

  keep_lock-HoldsLock :
      (uid : ℕ) (stale : Bool) (o : Option Peer) (c : FollowController D)
      → HoldsLock uid c
      → HoldsLock uid (keep_lock stale o c).0
  unfolding keep_lock
  keep_lock-HoldsLock uid true o c h = (tt, h.1)
  keep_lock-HoldsLock uid false o c h = h

  regain_lock-HoldsLock :
      (uid : ℕ) (stale : Bool) (o : Option Peer) (c : FollowController D)
      → HoldsLock uid c
      → HoldsLock uid (regain_lock stale o c).0
  unfolding regain_lock
  regain_lock-HoldsLock uid true o c h = h
  regain_lock-HoldsLock uid false none c h = h
  regain_lock-HoldsLock uid false (some p) c h = (tt, h.1)

  resolve_lock_in-HoldsLock :
      (s : LockState) (self : NodeLocation) (now_ms : ℕ) (t : PeerTable) (uid : ℕ)
      (c : FollowController D)
      → IsHeld s
      → HoldsLock uid c
      → HoldsLock uid (resolve_lock_in s self now_ms t c).0
  unfolding resolve_lock_in
  resolve_lock_in-HoldsLock idle self now_ms t uid c held h = absurd held
  resolve_lock_in-HoldsLock acquiring self now_ms t uid c held h = absurd held
  resolve_lock_in-HoldsLock locked self now_ms t uid c held h = keep_lock-HoldsLock uid _ _ c h
  resolve_lock_in-HoldsLock locked_holding self now_ms t uid c held h =
      regain_lock-HoldsLock uid _ _ c h

  run_cycle-HoldsLock :
      (uid : ℕ) (y : Cycle) (c : FollowController D)
      → y.fc.gcs_nav_active ≡ true
      → HoldsLock uid c
      → HoldsLock uid (run_cycle y.now_ms y.fc y.self_at_lock y.self y.table c).0
  unfolding run_cycle resolve_lock
  run_cycle-HoldsLock uid y c gate h =
      let r = resolve_lock y.self_at_lock y.now_ms y.table c in
      let end = follow_leader y.now_ms y.fc y.self r.1 r.0 in
      either_of Held (not y.fc.gcs_nav_active) (stand_down y.now_ms c) end (ap not gate) (
        HoldsLock-same uid r.0 end.0 (follow_leader-SameLock y.now_ms y.fc y.self r.1 r.0)
          (resolve_lock_in-HoldsLock c.lock_state y.self_at_lock y.now_ms y.table uid c h.0 h))
    where
      Held : FollowController D × List FcCommand → Type 0
      Held r = HoldsLock uid r.0

  after_cycle-HoldsLock :
      (uid : ℕ) (y : Cycle) (c : FollowController D)
      → y.fc.gcs_nav_active ≡ true
      → HoldsLock uid c
      → HoldsLock uid (after_cycle y c)
  unfolding service
  after_cycle-HoldsLock uid y c gate h =
      let r = run_cycle y.now_ms y.fc y.self_at_lock y.self y.table (begun y c) in
      let same = begun-SameCore y c in
      either Held (cycle_is_due y.now_ms c) (r.0, needs ∷ r.1) (c, [])
        (run_cycle-HoldsLock uid y (begun y c) gate
          (HoldsLock-same uid c (begun y c) (same.0, same.2, same.3) h))
        h
    where
      Held : FollowController D × List FcCommand → Type 0
      Held r = HoldsLock uid r.0

      needs : FcCommand
      needs = set_telemetry_needs y.fc.gcs_nav_active (
          any_rc_channel_assigned c.config
          || not (lt_i16 c.config.autothrottle_enable_rc_channel 1))

  -- No failover: once the controller is locked on to a peer, it is locked on to this one after any
  -- number of cycles in which the gate stays open, whatever the table holds meanwhile.
  pub no_failover :
      (ys : List Cycle) (uid : ℕ) (c : FollowController D)
      → GateOpen ys
      → HoldsLock uid c
      → HoldsLock uid (after_cycles ys c)
  no_failover [] uid c gates h = h
  no_failover (y ∷ ys) uid c gates h =
      no_failover ys uid (after_cycle y c) gates.1 (after_cycle-HoldsLock uid y c gates.0 h)
