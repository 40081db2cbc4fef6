-- ===== src/Follow/Service/Kept.antt =====
-- lib/ff_core/follow.cpp: what a cycle keeps.
use formation_flight.Prelude.{
  ℕ, ◌≡◌, refl, Bool, true, false, not, none, some, Option, List, Bool-cases, if◌then◌else◌, inl,
  inr,
}
use formation_flight.Maths.{Maths}
use formation_flight.RateControl.{Double}
use formation_flight.Node.Interfaces.{NodeLocation}
use formation_flight.PeerTable.{Peer}
use formation_flight.Follow.Gvars.{update_status_gvars, update_autothrottle_gvars}
use formation_flight.Follow.Offset.{FollowOffset, offset_geometry_sane, candidate_offset_ok}
use formation_flight.Follow.Service.{emit, check_and_emit, steer, follow_leader}
use formation_flight.Follow.Conditions.{raise_condition, condition_target_too_far, bail}
use formation_flight.Follow.State.{FollowController, FollowTarget, FcView, FcCommand}
use formation_flight.Follow.Target.{
  target_too_far, resolve_course_deg, resolve_offset, resolve_candidate_offset,
}

pub either {ℓ κ} :
    {A : Type ℓ} (P : A → Type κ) (b : Bool) (x y : A) → P x → P y → P (if b then x else y)
either P true x y p q = p
either P false x y p q = q

module _ {D : Type 0} ⦃d : Double D⦄ ⦃m : Maths D⦄ where
  -- The offset that the controller keeps has the separation that its configuration asks for.
  abbrev pub KeepsSane : FollowController D → Type 0
  KeepsSane c = offset_geometry_sane c.last_known_good c.config.min_sep_m c.config.min_vsep_m ≡ true

  -- The two controllers differ in what is reported only.
  abbrev pub SameCore : FollowController D → FollowController D → Type 0
  SameCore c c' =
      (c'.config ≡ c.config)
      × (c'.last_known_good ≡ c.last_known_good)
      × (c'.lock_state ≡ c.lock_state)
      × (c'.locked_uid ≡ c.locked_uid)

  pub bail-SameCore : (code now_ms : ℕ) (c : FollowController D) → SameCore c (bail code now_ms c).0
  unfolding bail update_status_gvars update_autothrottle_gvars
  bail-SameCore code now_ms c = (refl, refl, refl, refl)

  -- What the offset, the configuration and the lock become is what they were.
  abbrev pub SameLock : FollowController D → FollowController D → Type 0
  SameLock c c' =
      (c'.config ≡ c.config) × (c'.lock_state ≡ c.lock_state) × (c'.locked_uid ≡ c.locked_uid)

  pub KeepsSane-SameCore : (c c' : FollowController D) → SameCore c c' → KeepsSane c → KeepsSane c'
  KeepsSane-SameCore c c' s k = rw (s.0, s.1) k

  sane_of_ok :
      (o r : FollowOffset D) (min_sep_m min_vsep_m : D)
      → candidate_offset_ok o r min_sep_m min_vsep_m ≡ true
      → offset_geometry_sane o min_sep_m min_vsep_m ≡ true
  unfolding candidate_offset_ok
  sane_of_ok o r min_sep_m min_vsep_m h =
      elim (Bool-cases (offset_geometry_sane o min_sep_m min_vsep_m)) [
        | inl e ↦ e
        | inr e ↦ absurd (refused (rw e at h))
      ]
    where
      refused : false ≡ true → ⊥
      refused p = cc

  pub resolve_offset-KeepsSane :
      (fc : FcView) (c : FollowController D) → KeepsSane c → KeepsSane (resolve_offset fc c)
  unfolding resolve_offset
  resolve_offset-KeepsSane fc c k = kept _ refl
    where
      candidate : FollowOffset D
      candidate = resolve_candidate_offset fc c.config

      kept :
          (ok : Bool)
          → candidate_offset_ok candidate c.last_known_good c.config.min_sep_m c.config.min_vsep_m
            ≡ ok
          → offset_geometry_sane
              (if ok then candidate else c.last_known_good)
              c.config.min_sep_m
              c.config.min_vsep_m
            ≡ true
      kept true e = sane_of_ok candidate c.last_known_good _ _ e
      kept false e = k

  module _ (now_ms : ℕ) (fc : FcView) (self : NodeLocation) where
    emit-SameCore :
        (code : ℕ) (p : Peer) (course_deg : D) (target : FollowTarget) (alt : ℕ)
        (c : FollowController D)
        → SameCore c (emit now_ms fc code p self course_deg target alt c).0
    unfolding emit update_status_gvars update_autothrottle_gvars
    emit-SameCore code p course_deg target alt c = (refl, refl, refl, refl)

    check_and_emit-SameCore :
        (code : ℕ) (p : Peer) (course_deg : D) (target : FollowTarget) (alt : ℕ)
        (c : FollowController D)
        → SameCore c (check_and_emit now_ms fc code p self course_deg target alt c).0
    unfolding check_and_emit
    check_and_emit-SameCore code p course_deg target alt c =
        let far = target_too_far c.config target self in
        let raised = raise_condition condition_target_too_far code in
        let out = emit now_ms fc code p self course_deg target alt c in
        let near_or_not = if far then bail raised now_ms c else out in
        let off =
          not (offset_geometry_sane c.last_known_good c.config.min_sep_m c.config.min_vsep_m) in
        either Unchanged off (bail code now_ms c) near_or_not (bail-SameCore code now_ms c) (
          either Unchanged far (bail raised now_ms c) out (bail-SameCore raised now_ms c)
            (emit-SameCore code p course_deg target alt c))
      where
        Unchanged : FollowController D × List FcCommand → Type 0
        Unchanged r = SameCore c r.0

    steer-SameCore :
        (p : Peer) (c : FollowController D)
        → SameCore (resolve_offset fc c) (steer now_ms fc p self c).0
    unfolding steer resolve_course_deg
    steer-SameCore p c =
        let along = resolve_course_deg p (resolve_offset fc c) in
        check_and_emit-SameCore _ p along.1 _ _ along.0

    pub follow_leader-SameLock :
        (o : Option Peer) (c : FollowController D) → SameLock c (follow_leader now_ms fc self o c).0
    unfolding follow_leader resolve_offset
    follow_leader-SameLock none c = let s = bail-SameCore 0 now_ms c in (s.0, s.2, s.3)
    follow_leader-SameLock (some p) c =
        let s = bail-SameCore 0 now_ms c in
        let t = steer-SameCore p c in
        either Unlocked (not self.valid) (bail 0 now_ms c) (steer now_ms fc p self c)
          (s.0, s.2, s.3) (t.0, t.2, t.3)
      where
        Unlocked : FollowController D × List FcCommand → Type 0
        Unlocked r = SameLock c r.0

    pub follow_leader-KeepsSane :
        (o : Option Peer) (c : FollowController D)
        → KeepsSane c
        → KeepsSane (follow_leader now_ms fc self o c).0
    unfolding follow_leader
    follow_leader-KeepsSane none c k =
        KeepsSane-SameCore c (bail 0 now_ms c).0 (bail-SameCore 0 now_ms c) k
    follow_leader-KeepsSane (some p) c k =
        either Sane (not self.valid) (bail 0 now_ms c) (steer now_ms fc p self c)
          (KeepsSane-SameCore c (bail 0 now_ms c).0 (bail-SameCore 0 now_ms c) k)
          (KeepsSane-SameCore (resolve_offset fc c) (steer now_ms fc p self c).0
            (steer-SameCore p c) (resolve_offset-KeepsSane fc c k))
      where
        Sane : FollowController D × List FcCommand → Type 0
        Sane r = KeepsSane r.0
