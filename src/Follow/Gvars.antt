-- ===== src/Follow/Gvars.antt =====
-- lib/ff_core/follow.cpp: what the controller reports in the global variables of the flight
-- controller.
use formation_flight.Prelude.{
  ℕ, Bool, not, ◌&&◌, ◌||◌, ltb, ◌==◌, if◌then◌else◌, List, [], ◌∷◌, ◌++◌, lt_i16, u8, sub32,
}
use formation_flight.Maths.{Maths}
use formation_flight.RateControl.{Double}
use formation_flight.Node.Interfaces.{NodeLocation}
use formation_flight.Follow.Config.{FollowConfig}
use formation_flight.Follow.Lock.{deg_1e7}
use formation_flight.Follow.State.{
  FollowController, FollowTarget, FcCommand, send_gvar, LockState, idle, acquiring, locked,
  locked_holding, SentGvar, never_sent,
}
use formation_flight.Follow.Target.{horizontal_offset_m}

abbrev pub gvar_heartbeat_ms : ℕ
gvar_heartbeat_ms = 5000

unfoldable pub status_gvar_value : LockState → ℕ
status_gvar_value idle = 0
status_gvar_value acquiring = 1
status_gvar_value locked = 2
status_gvar_value locked_holding = 3

-- Whether a value is sent now.
unfoldable pub gvar_due : ℕ → ℕ → SentGvar → ℕ → Bool
gvar_due index value sent now =
    not (lt_i16 index 0)
    && (sent.last_sent == never_sent
        || (not (value == sent.last_sent)
            || not (ltb (sub32 now sent.last_send_ms) gvar_heartbeat_ms)))

unfoldable pub send_gvar_if_due : ℕ → ℕ → SentGvar → ℕ → SentGvar × List FcCommand
unfolding gvar_due
send_gvar_if_due index value sent now =
    if gvar_due index value sent now
    then (record { last_sent = value; last_send_ms = now }, send_gvar (u8 index) value ∷ [])
    else (sent, [])

module _ {D : Type 0} where
  unfoldable pub update_status_gvars :
      ℕ → ℕ → FollowController D → FollowController D × List FcCommand
  unfolding send_gvar_if_due status_gvar_value
  update_status_gvars condition_code now_ms c =
      let (status, first) =
        send_gvar_if_due c.config.status_gvar_index (status_gvar_value c.lock_state) c.status_gvar
          now_ms in
      let (flags, second) =
        send_gvar_if_due c.config.condition_flags_gvar_index condition_code c.condition_flags_gvar
          now_ms in
      (record c { status_gvar = status; condition_flags_gvar = flags }, first ++ second)

  unfoldable pub update_autothrottle_gvars :
      Bool → ℕ → ℕ → FollowController D → FollowController D × List FcCommand
  unfolding send_gvar_if_due
  update_autothrottle_gvars engaged target_speed_cms now_ms c =
      let (sent, first) =
        send_gvar_if_due c.config.autothrottle_engage_gvar_index (if engaged then 1 else 0)
          c.engage_gvar now_ms in
      (
        record c { engage_gvar = sent },
        first
            ++ (if engaged && not (lt_i16 c.config.target_speed_gvar_index 0)
                then send_gvar (u8 c.config.target_speed_gvar_index) target_speed_cms ∷ []
                else []),
      )

module _ {D : Type 0} ⦃d : Double D⦄ ⦃m : Maths D⦄ where
  open d use {of_nat, mul}
  open m use {round_i32}

  -- GVARs 0 to 3 are those that are compiled in.
  unfoldable pub update_debug_gvars :
      FollowConfig D → FollowTarget → ℕ → ℕ → NodeLocation → List FcCommand
  update_debug_gvars cfg target alt_cm heading_deg self =
      let (north_m, east_m) =
        horizontal_offset_m self (deg_1e7 target.lat_1e7) (deg_1e7 target.lon_1e7) in
      if not cfg.debug
      then []
      else send_gvar 0 (round_i32 (mul north_m (of_nat 100)))
        ∷ send_gvar 1 (round_i32 (mul east_m (of_nat 100)))
        ∷ send_gvar 2 alt_cm
        ∷ send_gvar 3 heading_deg
        ∷ []
