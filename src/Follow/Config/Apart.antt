-- ===== src/Follow/Config/Apart.antt =====
-- lib/ff_core/follow.cpp: the quantities and the settings of a configuration, kept apart.
use formation_flight.Prelude.{
  ℕ, ◌≤◌, ◌≡◌, ◌≢◌, List, [], ◌∷◌, ◌⊎◌, refl, Bool, true, false, not, ◌||◌, ◌&&◌, ◌==◌, none, arith,
  IsWord16, Option, some,
}
use formation_flight.Follow.Offset.{OffsetError}
use formation_flight.Follow.Config.{
  FollowConfig, FollowError, disabled, bad_gvar, bad_channel, clash, or_offset,
}

-- What is written to a GVAR of the configuration, and what is read from an RC channel of it.
pub data GvarRole : Type 0 where
  status condition_flags target_speed engage : GvarRole

pub data ChannelRole : Type 0 where
  long_axis lat_axis vert_axis enable : ChannelRole

module _ {D : Type 0} where
  abbrev pub gvar_of : FollowConfig D → GvarRole → ℕ
  gvar_of c status = c.status_gvar_index
  gvar_of c condition_flags = c.condition_flags_gvar_index
  gvar_of c target_speed = c.target_speed_gvar_index
  gvar_of c engage = c.autothrottle_engage_gvar_index

  abbrev pub channel_of : FollowConfig D → ChannelRole → ℕ
  channel_of c long_axis = c.rc_long_channel
  channel_of c lat_axis = c.rc_lat_channel
  channel_of c vert_axis = c.rc_vert_channel
  channel_of c enable = c.autothrottle_enable_rc_channel

or_false : (a b : Bool) → (a || b) ≡ false → (a ≡ false) × (b ≡ false)
or_false true b h = cc
or_false false b h = (refl, h)

-- The tests for a clash, joined by `||`.
abbrev any_clash : List (ℕ × ℕ) → Bool
any_clash [] = false
any_clash ((x, y) ∷ []) = clash x y
any_clash ((x, y) ∷ q ∷ ps) = clash x y || any_clash (q ∷ ps)

abbrev pub NoClash : List (ℕ × ℕ) → Type 0
NoClash [] = Unit
NoClash ((x, y) ∷ ps) = (clash x y ≡ false) × NoClash ps

pub NoClash-any : (ps : List (ℕ × ℕ)) → any_clash ps ≡ false → NoClash ps
NoClash-any [] h = tt
NoClash-any ((x, y) ∷ []) h = (h, tt)
NoClash-any ((x, y) ∷ q ∷ ps) h =
    let both = or_false (clash x y) (any_clash (q ∷ ps)) h in (both.0, NoClash-any (q ∷ ps) both.1)

module _ {D : Type 0} where
  abbrev pub gvar_pairs : FollowConfig D → List (ℕ × ℕ)
  gvar_pairs c =
      (gvar_of c status, gvar_of c condition_flags)
      ∷ (gvar_of c status, gvar_of c target_speed)
      ∷ (gvar_of c status, gvar_of c engage)
      ∷ (gvar_of c condition_flags, gvar_of c target_speed)
      ∷ (gvar_of c condition_flags, gvar_of c engage)
      ∷ (gvar_of c target_speed, gvar_of c engage)
      ∷ []

  abbrev pub axis_pairs : FollowConfig D → List (ℕ × ℕ)
  axis_pairs c =
      (channel_of c long_axis, channel_of c lat_axis)
      ∷ (channel_of c long_axis, channel_of c vert_axis)
      ∷ (channel_of c lat_axis, channel_of c vert_axis)
      ∷ []

pub taken_apart :
    (x a b c : ℕ)
    → (not (x == disabled) && (x == a || (x == b || x == c))) ≡ false
    → x ≢ disabled
    → (x ≢ a) × (x ≢ b) × (x ≢ c)
taken_apart x a b c h on = ground arith

pub gvar_range : (x : ℕ) → IsWord16 x → bad_gvar x ≡ false → (x ≡ disabled) ⊎ (x ≤ 7)
gvar_range x w h = ground arith

pub channel_range :
    (x : ℕ) → IsWord16 x → bad_channel x ≡ false → (x ≡ disabled) ⊎ ((1 ≤ x) × (x ≤ 16))
channel_range x w h = ground arith

pub clash_apart : (x y : ℕ) → clash x y ≡ false → x ≢ disabled → x ≢ y
clash_apart x y h on = ground arith

pub clash_apart_sym : (x y : ℕ) → clash x y ≡ false → y ≢ disabled → y ≢ x
clash_apart_sym x y h on = ground arith

pub or_offset-none :
    (e : Option FollowError) (o : Option OffsetError)
    → or_offset e o ≡ none
    → (e ≡ none) × (o ≡ none)
or_offset-none (some e) o h = cc
or_offset-none none none h = (refl, refl)
or_offset-none none (some e) h = cc
