-- ===== src/Follow/Target/Heading.antt =====
-- lib/ff_core/follow.cpp: the heading that is sent.
use formation_flight.Prelude.{
  ℕ, ◌+◌, ◌%◌, ◌≤◌, ◌<◌, ◌≡◌, refl, none, some, Option, arith, ◌⊎◌, inl, inr, IsWord32,
}
use formation_flight.Maths.{Maths}
use formation_flight.RateControl.{Double}
use formation_flight.Node.Interfaces.{NodeLocation}
use formation_flight.PeerTable.{Peer}
use formation_flight.Follow.Config.{
  FollowConfig, HeadingMode, heading_off, course, point_leader, fixed, course_relative,
}
use formation_flight.Follow.Target.{
  degrees_of, wire_heading, heading_from, raw_heading, resolve_heading_deg,
}

-- The pattern of an int32_t is its value, or 2 ^ 32 more. 2 ^ 32 is 256 more than a multiple of 360.
degrees_of-mod :
    (x : ℕ)
    → IsWord32 x
    → (degrees_of x < 360)
      × ((x < 2147483648 → degrees_of x ≡ x % 360)
          × (2147483648 ≤ x → (degrees_of x + 256) % 360 ≡ x % 360))
unfolding degrees_of
degrees_of-mod x w = ground arith

wire_heading-range : (x : ℕ) → IsWord32 x → (1 ≤ wire_heading x) × (wire_heading x ≤ 359)
unfolding wire_heading degrees_of
wire_heading-range x w = ground arith

module _ {D : Type 0} ⦃d : Double D⦄ ⦃m : Maths D⦄ where
  off_of_none :
      (mode : HeadingMode) (course_deg heading : D) (p : Peer) (self : NodeLocation)
      → raw_heading mode course_deg heading p self ≡ none
      → mode ≡ heading_off
  unfolding raw_heading
  off_of_none heading_off course_deg heading p self h = refl
  off_of_none course course_deg heading p self h = cc
  off_of_none point_leader course_deg heading p self h = cc
  off_of_none fixed course_deg heading p self h = cc
  off_of_none course_relative course_deg heading p self h = cc

  -- If doubles are rounded to int32_t: a heading is sent as 1 to 359 degrees, and as 0, which leaves
  -- the nose alone, only in the mode that is off.
  pub resolve_heading_deg-range :
      (cfg : FollowConfig D) (p : Peer) (course_deg : D) (self : NodeLocation)
      → ((v : D) → IsWord32 (m.round_i32 v))
      → ((cfg.heading_mode ≡ heading_off) × (resolve_heading_deg cfg p course_deg self ≡ 0))
        ⊎ ((1 ≤ resolve_heading_deg cfg p course_deg self)
            × (resolve_heading_deg cfg p course_deg self ≤ 359))
  unfolding resolve_heading_deg
  resolve_heading_deg-range cfg p course_deg self w =
      off_or_on (raw_heading cfg.heading_mode course_deg cfg.heading_deg p self)
        (off_of_none cfg.heading_mode course_deg cfg.heading_deg p self)
    where
      off_or_on :
          (o : Option D)
          → (o ≡ none → cfg.heading_mode ≡ heading_off)
          → ((cfg.heading_mode ≡ heading_off) × (heading_from o ≡ 0))
            ⊎ ((1 ≤ heading_from o) × (heading_from o ≤ 359))
      off_or_on none off = inl (off refl, refl)
      off_or_on (some raw) off = inr (wire_heading-range (m.round_i32 raw) (w raw))
