-- ===== src/Follow/Config/Roles.antt =====
-- lib/ff_core/follow.cpp: what an accepted configuration is.
use formation_flight.Prelude.{
  ◌≤◌, ◌≡◌, ◌≢◌, ◌⊎◌, refl, true, none, IsWord16, first_error, AllPass-first_error, AllPass, sym,
  ◌∙◌, ap,
}
use formation_flight.Maths.{Maths}
use formation_flight.RateControl.{Double}
use formation_flight.Follow.Offset.{is_sane, offset_geometry_sane}
use formation_flight.Follow.Config.{
  FollowConfig, disabled, static_offset, field_checks, follow_validate_config,
}
use formation_flight.Follow.Config.Apart.{
  GvarRole, ChannelRole, gvar_of, channel_of, NoClash, NoClash-any, gvar_pairs, axis_pairs,
  taken_apart, gvar_range, channel_range, clash_apart, clash_apart_sym, or_offset-none, status,
  condition_flags, target_speed, engage, long_axis, lat_axis, vert_axis, enable,
}

module _ {D : Type 0} ⦃d : Double D⦄ ⦃m : Maths D⦄ where
  pub passes : (c : FollowConfig D) → follow_validate_config c ≡ none → AllPass (field_checks c)
  unfolding follow_validate_config
  passes c h =
      AllPass-first_error (field_checks c) (or_offset-none (first_error (field_checks c)) _ h).0

  pub sane_of_valid :
      (c : FollowConfig D)
      → follow_validate_config c ≡ none
      → offset_geometry_sane (static_offset c) c.min_sep_m c.min_vsep_m ≡ true
  unfolding follow_validate_config offset_geometry_sane
  sane_of_valid c h = ap is_sane (or_offset-none (first_error (field_checks c)) _ h).1

  gvars_in_range :
      (c : FollowConfig D) (r : GvarRole)
      → AllPass (field_checks c)
      → IsWord16 (gvar_of c r)
      → (gvar_of c r ≡ disabled) ⊎ (gvar_of c r ≤ 7)
  unfolding field_checks
  gvars_in_range c status p w = gvar_range _ w p.1.1.1.1.1.0
  gvars_in_range c condition_flags p w = gvar_range _ w p.1.1.1.1.1.1.0
  gvars_in_range c target_speed p w = gvar_range _ w p.1.1.1.1.1.1.1.1.1.1.0
  gvars_in_range c engage p w = gvar_range _ w p.1.1.1.1.1.1.1.1.1.1.1.0

  channels_in_range :
      (c : FollowConfig D) (r : ChannelRole)
      → AllPass (field_checks c)
      → IsWord16 (channel_of c r)
      → (channel_of c r ≡ disabled) ⊎ ((1 ≤ channel_of c r) × (channel_of c r ≤ 16))
  unfolding field_checks
  channels_in_range c long_axis p w = channel_range _ w p.1.1.1.1.1.1.1.0
  channels_in_range c lat_axis p w = channel_range _ w p.1.1.1.1.1.1.1.1.0
  channels_in_range c vert_axis p w = channel_range _ w p.1.1.1.1.1.1.1.1.1.0
  channels_in_range c enable p w = channel_range _ w p.1.1.1.1.1.1.1.1.1.1.1.1.0

  -- The clashes that were looked for, one by one.
  gvar_clashes : (c : FollowConfig D) → AllPass (field_checks c) → NoClash (gvar_pairs c)
  unfolding field_checks
  gvar_clashes c p = NoClash-any (gvar_pairs c) p.1.1.1.1.1.1.1.1.1.1.1.1.1.0

  channel_clashes : (c : FollowConfig D) → AllPass (field_checks c) → NoClash (axis_pairs c)
  unfolding field_checks
  channel_clashes c p = NoClash-any (axis_pairs c) p.1.1.1.1.1.1.1.1.1.1.1.1.1.1.0

  gvars_apart :
      (c : FollowConfig D) (r s : GvarRole)
      → AllPass (field_checks c)
      → r ≢ s
      → gvar_of c r ≢ disabled
      → gvar_of c r ≢ gvar_of c s
  gvars_apart c status status p ne on = absurd (ne refl)
  gvars_apart c status condition_flags p ne on = clash_apart _ _ (gvar_clashes c p).0 on
  gvars_apart c status target_speed p ne on = clash_apart _ _ (gvar_clashes c p).1.0 on
  gvars_apart c status engage p ne on = clash_apart _ _ (gvar_clashes c p).1.1.0 on
  gvars_apart c condition_flags status p ne on = clash_apart_sym _ _ (gvar_clashes c p).0 on
  gvars_apart c condition_flags condition_flags p ne on = absurd (ne refl)
  gvars_apart c condition_flags target_speed p ne on = clash_apart _ _ (gvar_clashes c p).1.1.1.0 on
  gvars_apart c condition_flags engage p ne on = clash_apart _ _ (gvar_clashes c p).1.1.1.1.0 on
  gvars_apart c target_speed status p ne on = clash_apart_sym _ _ (gvar_clashes c p).1.0 on
  gvars_apart c target_speed condition_flags p ne on =
      clash_apart_sym _ _ (gvar_clashes c p).1.1.1.0 on
  gvars_apart c target_speed target_speed p ne on = absurd (ne refl)
  gvars_apart c target_speed engage p ne on = clash_apart _ _ (gvar_clashes c p).1.1.1.1.1.0 on
  gvars_apart c engage status p ne on = clash_apart_sym _ _ (gvar_clashes c p).1.1.0 on
  gvars_apart c engage condition_flags p ne on = clash_apart_sym _ _ (gvar_clashes c p).1.1.1.1.0 on
  gvars_apart c engage target_speed p ne on = clash_apart_sym _ _ (gvar_clashes c p).1.1.1.1.1.0 on
  gvars_apart c engage engage p ne on = absurd (ne refl)

  enable_apart :
      (c : FollowConfig D) (s : ChannelRole)
      → AllPass (field_checks c)
      → enable ≢ s
      → channel_of c enable ≢ disabled
      → channel_of c enable ≢ channel_of c s
  unfolding field_checks
  enable_apart c long_axis p ne on = (taken_apart _ _ _ _ p.1.1.1.1.1.1.1.1.1.1.1.1.1.1.1.0 on).0
  enable_apart c lat_axis p ne on = (taken_apart _ _ _ _ p.1.1.1.1.1.1.1.1.1.1.1.1.1.1.1.0 on).1
  enable_apart c vert_axis p ne on = (taken_apart _ _ _ _ p.1.1.1.1.1.1.1.1.1.1.1.1.1.1.1.0 on).2
  enable_apart c enable p ne on = absurd (ne refl)

  channels_apart :
      (c : FollowConfig D) (r s : ChannelRole)
      → AllPass (field_checks c)
      → r ≢ s
      → channel_of c r ≢ disabled
      → channel_of c r ≢ channel_of c s
  channels_apart c long_axis long_axis p ne on = absurd (ne refl)
  channels_apart c long_axis lat_axis p ne on = clash_apart _ _ (channel_clashes c p).0 on
  channels_apart c long_axis vert_axis p ne on = clash_apart _ _ (channel_clashes c p).1.0 on
  channels_apart c long_axis enable p ne on =
      λ same. enable_apart c long_axis p (λ k. ne (sym k)) (λ off. on (same ∙ off)) (sym same)
  channels_apart c lat_axis long_axis p ne on = clash_apart_sym _ _ (channel_clashes c p).0 on
  channels_apart c lat_axis lat_axis p ne on = absurd (ne refl)
  channels_apart c lat_axis vert_axis p ne on = clash_apart _ _ (channel_clashes c p).1.1.0 on
  channels_apart c lat_axis enable p ne on =
      λ same. enable_apart c lat_axis p (λ k. ne (sym k)) (λ off. on (same ∙ off)) (sym same)
  channels_apart c vert_axis long_axis p ne on = clash_apart_sym _ _ (channel_clashes c p).1.0 on
  channels_apart c vert_axis lat_axis p ne on = clash_apart_sym _ _ (channel_clashes c p).1.1.0 on
  channels_apart c vert_axis vert_axis p ne on = absurd (ne refl)
  channels_apart c vert_axis enable p ne on =
      λ same. enable_apart c vert_axis p (λ k. ne (sym k)) (λ off. on (same ∙ off)) (sym same)
  channels_apart c enable s p ne on = enable_apart c s p ne on

  -- In a configuration that is accepted, whose indices and channels have 16 bits: the GVAR of the
  -- status, of the conditions, of the target speed and of the engagement is disabled or one of the
  -- eight, and no two of these four that are enabled are the same (the fixed GVARs of the debug
  -- output are not among them); a channel is disabled or one of the sixteen, and no two of the three
  -- axes and the arming switch that are enabled are read from the same one; and the offset has the
  -- separation that is asked for.
  pub follow_validate_config-roles :
      (c : FollowConfig D)
      → ((r : GvarRole) → IsWord16 (gvar_of c r))
      → ((r : ChannelRole) → IsWord16 (channel_of c r))
      → follow_validate_config c ≡ none
      → ((r : GvarRole) → (gvar_of c r ≡ disabled) ⊎ (gvar_of c r ≤ 7))
        × ((r s : GvarRole) → r ≢ s → gvar_of c r ≢ disabled → gvar_of c r ≢ gvar_of c s)
        × ((r : ChannelRole)
            → (channel_of c r ≡ disabled) ⊎ ((1 ≤ channel_of c r) × (channel_of c r ≤ 16)))
        × ((r s : ChannelRole)
            → r ≢ s
            → channel_of c r ≢ disabled
            → channel_of c r ≢ channel_of c s)
        × (offset_geometry_sane (static_offset c) c.min_sep_m c.min_vsep_m ≡ true)
  follow_validate_config-roles c gw cw h = (
    λ r. gvars_in_range c r (passes c h) (gw r),
    λ r s. gvars_apart c r s (passes c h),
    λ r. channels_in_range c r (passes c h) (cw r),
    λ r s. channels_apart c r s (passes c h),
    sane_of_valid c h,
  )
