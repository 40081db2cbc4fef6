-- ===== src/Follow/Service/Reports.antt =====
-- lib/ff_core/follow.cpp: waypoints and reports among the commands of a cycle.
use formation_flight.Prelude.{
  ℕ, ◌≡◌, Bool, true, false, not, ◌&&◌, some, List, [], ◌∷◌, ◌++◌, Bool-cases, if◌then◌else◌,
  lt_i16, lt_i32, u8, sub32, inl, inr,
}
use formation_flight.Maths.{Maths}
use formation_flight.RateControl.{Double}
use formation_flight.Node.Interfaces.{NodeLocation}
use formation_flight.PeerTable.{Peer, PeerTable}
use formation_flight.Follow.Config.{FollowConfig}
use formation_flight.Follow.Gvars.{
  update_status_gvars, update_autothrottle_gvars, update_debug_gvars, send_gvar_if_due, gvar_due,
  status_gvar_value,
}
use formation_flight.Follow.Lock.Failover.{IsLeader}
use formation_flight.Follow.Offset.{offset_geometry_sane}
use formation_flight.Follow.Service.{floor_cm}
use formation_flight.Follow.Conditions.{bail}
use formation_flight.Follow.Status.{ShownTarget, status}
use formation_flight.Follow.State.{
  FollowController, FollowTarget, FcView, FcCommand, set_telemetry_needs, send_gvar,
  send_follow_waypoint, send_set_head, SentGvar,
}
use formation_flight.Follow.Target.{slot_to_lat_lon, target_too_far}

-- What holds of each command that is sent.
pub data Each (P : FcCommand → Type 0) : List FcCommand → Type 0 where
  nothing : Each P []
  command : {x : FcCommand} {xs : List FcCommand} → P x → Each P xs → Each P (x ∷ xs)

pub Each-append :
    {P : FcCommand → Type 0} {xs ys : List FcCommand} → Each P xs → Each P ys → Each P (xs ++ ys)
Each-append nothing k = k
Each-append (command p h) k = command p (Each-append h k)

module _ {D : Type 0} ⦃d : Double D⦄ ⦃m : Maths D⦄ where
  -- The snapshot shows the waypoint, and how long ago it was sent.
  abbrev pub IsShown : ℕ → FollowController D → FollowTarget → ℕ → ℕ → Type 0
  IsShown now_ms c target alt_cm heading =
      (later_ms : ℕ) (seen : FcView)
      → (s : ShownTarget D) × ((status later_ms seen c).last_target ≡ some s)
        × (s.target ≡ target)
        × (s.alt_cm ≡ alt_cm)
        × (s.heading_deg ≡ heading)
        × (s.age_ms ≡ sub32 later_ms now_ms)
        × (s.live_offset ≡ c.last_known_good)

  -- A waypoint, when the cycle leaves the controller as `c`.
  abbrev pub IsGuarded :
      ℕ → FcView → NodeLocation → PeerTable → FollowController D → FcCommand → Type 0
  IsGuarded now_ms fc self t c (send_follow_waypoint target alt_cm heading) =
      (fc.gcs_nav_active ≡ true)
      × (self.valid ≡ true)
      × (target_too_far c.config target self ≡ false)
      × (lt_i32 alt_cm (floor_cm c.config) ≡ false)
      × (offset_geometry_sane c.last_known_good c.config.min_sep_m c.config.min_vsep_m ≡ true)
      × ((p : Peer) × IsLeader now_ms t c (some p)
          × ((course_deg : D) × (target
                ≡ slot_to_lat_lon p.lat p.lon course_deg c.last_known_good.longitudinal_m
                    c.last_known_good.lateral_m)))
      × IsShown now_ms c target alt_cm heading
  IsGuarded now_ms fc self t c (set_telemetry_needs altitude rc) = Unit
  IsGuarded now_ms fc self t c (send_gvar index value) = Unit
  IsGuarded now_ms fc self t c (send_set_head heading) = Unit

  abbrev pub AllGuarded :
      ℕ → FcView → NodeLocation → PeerTable → FollowController D → List FcCommand → Type 0
  AllGuarded now_ms fc self t c = Each (IsGuarded now_ms fc self t c)

  module _ (now_ms : ℕ) (fc : FcView) (self : NodeLocation) (t : PeerTable) where
    -- `c` is the controller in the end; reports do not depend on it.
    gvar-AllGuarded :
        (c : FollowController D) (index value : ℕ) (sent : SentGvar) (now : ℕ)
        → AllGuarded now_ms fc self t c (send_gvar_if_due index value sent now).1
    unfolding send_gvar_if_due
    gvar-AllGuarded c index value sent now = elim (Bool-cases (gvar_due index value sent now)) [
      | inl e ↦ rw e (command tt nothing)
      | inr e ↦ rw e nothing
    ]

    pub status-AllGuarded :
        (c : FollowController D) (code : ℕ) (c0 : FollowController D)
        → AllGuarded now_ms fc self t c (update_status_gvars code now_ms c0).1
    unfolding update_status_gvars
    status-AllGuarded c code c0 =
        Each-append
          (gvar-AllGuarded c c0.config.status_gvar_index (status_gvar_value c0.lock_state)
            c0.status_gvar now_ms)
          (gvar-AllGuarded c c0.config.condition_flags_gvar_index code c0.condition_flags_gvar
            now_ms)

    pub one-AllGuarded :
        (c : FollowController D) (b : Bool) (x : FcCommand)
        → IsGuarded now_ms fc self t c x
        → AllGuarded now_ms fc self t c (if b then x ∷ [] else [])
    one-AllGuarded c true x g = command g nothing
    one-AllGuarded c false x g = nothing

    pub throttle-AllGuarded :
        (c : FollowController D) (engaged : Bool) (speed : ℕ) (c0 : FollowController D)
        → AllGuarded now_ms fc self t c (update_autothrottle_gvars engaged speed now_ms c0).1
    unfolding update_autothrottle_gvars
    throttle-AllGuarded c engaged speed c0 =
        Each-append
          (gvar-AllGuarded c c0.config.autothrottle_engage_gvar_index (if engaged then 1 else 0)
            c0.engage_gvar now_ms)
          (one-AllGuarded c (engaged && not (lt_i16 c0.config.target_speed_gvar_index 0))
            (send_gvar (u8 c0.config.target_speed_gvar_index) speed) tt)

    pub bail-AllGuarded :
        (c : FollowController D) (code : ℕ) (c0 : FollowController D)
        → AllGuarded now_ms fc self t c (bail code now_ms c0).1
    unfolding bail
    bail-AllGuarded c code c0 =
        Each-append (status-AllGuarded c code c0)
          (throttle-AllGuarded c false 0 (update_status_gvars code now_ms c0).0)

    pub debug-AllGuarded :
        (c : FollowController D) (cfg : FollowConfig D) (target : FollowTarget) (alt heading : ℕ)
        → AllGuarded now_ms fc self t c (update_debug_gvars cfg target alt heading self)
    unfolding update_debug_gvars
    debug-AllGuarded c cfg target alt heading = elim (Bool-cases cfg.debug) [
      | inl e ↦ rw e (command tt (command tt (command tt (command tt nothing))))
      | inr e ↦ rw e nothing
    ]
