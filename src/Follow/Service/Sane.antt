-- ===== src/Follow/Service/Sane.antt =====
-- lib/ff_core/follow.cpp: what a history of cycles and configurations keeps.
use formation_flight.Prelude.{
  ℕ, ◌/◌, add32, lt_i16, ◌≡◌, refl, Bool, true, false, not, ◌&&◌, ◌||◌, none, some, Option, List,
  [], ◌∷◌,
}
use formation_flight.Maths.{Maths}
use formation_flight.RateControl.{Double}
use formation_flight.Node.Interfaces.{NodeLocation}
use formation_flight.PeerTable.{Peer, PeerTable}
use formation_flight.Follow.Config.{FollowConfig, FollowError, follow_validate_config}
use formation_flight.Follow.Config.Roles.{sane_of_valid}
use formation_flight.Follow.Gvars.{update_status_gvars, update_autothrottle_gvars}
use formation_flight.Follow.Lock.{
  resolve_lock, resolve_lock_in, lock_on, keep_lock, regain_lock, candidate_peer,
}
use formation_flight.Follow.Service.{follow_leader, pre_arm_check, run_cycle, service}
use formation_flight.Follow.Conditions.{stand_down, cycle_is_due, bail}
use formation_flight.Follow.Service.Kept.{
  either, KeepsSane, SameCore, KeepsSane-SameCore, follow_leader-KeepsSane,
  resolve_offset-KeepsSane,
}
use formation_flight.Follow.State.{
  FollowController, FcView, FcCommand, LockState, idle, acquiring, locked, locked_holding, adopt,
  answer_config, apply_config, force_reacquire, set_telemetry_needs,
}
use formation_flight.Follow.Target.{resolve_offset, any_rc_channel_assigned}

pub record Cycle : Type 0 where
  pub now_ms : ℕ
  pub fc : FcView
  pub self_at_lock : NodeLocation
  pub self : NodeLocation
  pub table : PeerTable

pub data FollowEvent (D : Type 0) : Type 0 where
  cycle : Cycle → FollowEvent D
  configure : FollowConfig D → FollowEvent D

module _ {D : Type 0} ⦃d : Double D⦄ ⦃m : Maths D⦄ where
  abbrev pub after_cycle : Cycle → FollowController D → FollowController D
  after_cycle y c = (service y.now_ms y.fc y.self_at_lock y.self y.table c).0

  abbrev pub after_event : FollowEvent D → FollowController D → FollowController D
  after_event (cycle y) c = after_cycle y c
  after_event (configure cfg) c = (apply_config cfg c).0

  abbrev pub after_events : List (FollowEvent D) → FollowController D → FollowController D
  after_events [] c = c
  after_events (e ∷ es) c = after_events es (after_event e c)

  adopt-KeepsSane :
      (cfg : FollowConfig D) (c : FollowController D)
      → follow_validate_config cfg ≡ none
      → KeepsSane (adopt cfg c)
  unfolding adopt force_reacquire
  adopt-KeepsSane cfg c h = either KeepsSane _ _ _ (sane_of_valid cfg h) (sane_of_valid cfg h)

  pub apply_config-KeepsSane :
      (cfg : FollowConfig D) (c : FollowController D)
      → KeepsSane c
      → KeepsSane (apply_config cfg c).0
  unfolding apply_config
  apply_config-KeepsSane cfg c k = answered _ refl
    where
      answered :
          (o : Option FollowError)
          → follow_validate_config cfg ≡ o
          → KeepsSane (answer_config o cfg c).0
      answered (some e) h = k
      answered none h = adopt-KeepsSane cfg c h

  -- The search for a leader leaves the offset and the configuration alone.
  lock_on-KeepsSane :
      (o : Option Peer) (c : FollowController D) → KeepsSane c → KeepsSane (lock_on o c).0
  unfolding lock_on
  lock_on-KeepsSane none c k = k
  lock_on-KeepsSane (some p) c k = k

  keep_lock-KeepsSane :
      (stale : Bool) (o : Option Peer) (c : FollowController D)
      → KeepsSane c
      → KeepsSane (keep_lock stale o c).0
  unfolding keep_lock
  keep_lock-KeepsSane true o c k = k
  keep_lock-KeepsSane false o c k = k

  regain_lock-KeepsSane :
      (stale : Bool) (o : Option Peer) (c : FollowController D)
      → KeepsSane c
      → KeepsSane (regain_lock stale o c).0
  unfolding regain_lock
  regain_lock-KeepsSane true o c k = k
  regain_lock-KeepsSane false none c k = k
  regain_lock-KeepsSane false (some p) c k = k

  resolve_lock_in-KeepsSane :
      (s : LockState) (self : NodeLocation) (now_ms : ℕ) (t : PeerTable) (c : FollowController D)
      → KeepsSane c
      → KeepsSane (resolve_lock_in s self now_ms t c).0
  unfolding resolve_lock_in
  resolve_lock_in-KeepsSane idle self now_ms t c k =
      lock_on-KeepsSane (candidate_peer self now_ms t (record c { lock_state = acquiring }))
        (record c { lock_state = acquiring }) k
  resolve_lock_in-KeepsSane acquiring self now_ms t c k =
      lock_on-KeepsSane (candidate_peer self now_ms t c) c k
  resolve_lock_in-KeepsSane locked self now_ms t c k = keep_lock-KeepsSane _ _ c k
  resolve_lock_in-KeepsSane locked_holding self now_ms t c k = regain_lock-KeepsSane _ _ c k

  stand_down-KeepsSane :
      (now_ms : ℕ) (c : FollowController D) → KeepsSane c → KeepsSane (stand_down now_ms c).0
  unfolding stand_down bail update_status_gvars update_autothrottle_gvars
  stand_down-KeepsSane now_ms c k = k

  run_cycle-KeepsSane :
      (y : Cycle) (c : FollowController D)
      → KeepsSane c
      → KeepsSane (run_cycle y.now_ms y.fc y.self_at_lock y.self y.table c).0
  unfolding run_cycle resolve_lock
  run_cycle-KeepsSane y c k =
      let r = resolve_lock y.self_at_lock y.now_ms y.table c in
      either Sane (not y.fc.gcs_nav_active) (stand_down y.now_ms c)
        (follow_leader y.now_ms y.fc y.self r.1 r.0) (stand_down-KeepsSane y.now_ms c k)
        (follow_leader-KeepsSane y.now_ms y.fc y.self r.1 r.0
          (resolve_lock_in-KeepsSane c.lock_state y.self_at_lock y.now_ms y.table c k))
    where
      Sane : FollowController D × List FcCommand → Type 0
      Sane r = KeepsSane r.0

  -- What `service` does first: the time of the next cycle, and the check on the ground.
  abbrev pub begun : Cycle → FollowController D → FollowController D
  begun y c =
      pre_arm_check y.fc
        (record c { started = true; next_run_ms = add32 y.now_ms (1000 / c.config.emit_hz) })

  pub begun-SameCore : (y : Cycle) (c : FollowController D) → SameCore c (begun y c)
  unfolding pre_arm_check
  begun-SameCore y c =
      either (SameCore c) (not y.fc.armed && any_rc_channel_assigned c.config) _ _
        (refl, refl, refl, refl) (refl, refl, refl, refl)

  after_cycle-KeepsSane :
      (y : Cycle) (c : FollowController D) → KeepsSane c → KeepsSane (after_cycle y c)
  unfolding service
  after_cycle-KeepsSane y c k =
      let r = run_cycle y.now_ms y.fc y.self_at_lock y.self y.table (begun y c) in
      either Sane (cycle_is_due y.now_ms c) (r.0, needs ∷ r.1) (c, [])
        (run_cycle-KeepsSane y (begun y c)
          (KeepsSane-SameCore c (begun y c) (begun-SameCore y c) k))
        k
    where
      Sane : FollowController D × List FcCommand → Type 0
      Sane r = KeepsSane r.0

      needs : FcCommand
      needs = set_telemetry_needs y.fc.gcs_nav_active (
          any_rc_channel_assigned c.config
          || not (lt_i16 c.config.autothrottle_enable_rc_channel 1))

  after_events-KeepsSane :
      (es : List (FollowEvent D)) (c : FollowController D)
      → KeepsSane c
      → KeepsSane (after_events es c)
  after_events-KeepsSane [] c k = k
  after_events-KeepsSane (cycle y ∷ es) c k =
      after_events-KeepsSane es (after_cycle y c) (after_cycle-KeepsSane y c k)
  after_events-KeepsSane (configure cfg ∷ es) c k =
      after_events-KeepsSane es (apply_config cfg c).0 (apply_config-KeepsSane cfg c k)

  -- From a configuration on that is accepted, after any further cycles and configurations: whatever
  -- the stick positions, the offset that the next cycle resolves has the separation that the
  -- configuration at that time asks for, so no cycle is given up for its offset.
  pub accepted_stays_sane :
      (cfg : FollowConfig D) (c : FollowController D)
      → follow_validate_config cfg ≡ none
      → (es : List (FollowEvent D)) (fc : FcView)
      → KeepsSane (resolve_offset fc (after_events es (apply_config cfg c).0))
  accepted_stays_sane cfg c h es fc =
      resolve_offset-KeepsSane fc (after_events es (apply_config cfg c).0)
        (after_events-KeepsSane es (apply_config cfg c).0 accepted)
    where
      accepted : KeepsSane (apply_config cfg c).0
      accepted = unfold apply_config in rw h (adopt-KeepsSane cfg c h)
