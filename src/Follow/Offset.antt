-- ===== src/Follow/Offset.antt =====
-- lib/ff_core/follow.cpp: the geometry of the slot, and the rules on it.
use formation_flight.Prelude.{Bool, true, false, not, ◌&&◌, ◌||◌, if◌then◌else◌, Option, none, some}
use formation_flight.Maths.{Maths}
use formation_flight.RateControl.{Double}

pub record FollowOffset (D : Type 0) : Type 0 where
  pub longitudinal_m : D
  pub lateral_m : D
  pub vertical_m : D

-- What `offsetGeometrySane` says of an offset that it refuses.
pub data OffsetError : Type 0 where
  below_min_sep below_min_vsep : OffsetError

abbrev pub is_sane : Option OffsetError → Bool
is_sane none = true
is_sane (some e) = false

module _ {D : Type 0} ⦃d : Double D⦄ ⦃m : Maths D⦄ where
  open d use {of_nat, add, mul, lt, half}
  open m use {sqrt, fabs}

  -- `none` if the offset is accepted.
  unfoldable pub offset_geometry : FollowOffset D → D → D → Option OffsetError
  offset_geometry offset min_sep_m min_vsep_m =
      let horizontal_mag = sqrt (
        add (mul offset.longitudinal_m offset.longitudinal_m)
          (mul offset.lateral_m offset.lateral_m)) in
      let mag3d =
        sqrt (add (mul horizontal_mag horizontal_mag) (mul offset.vertical_m offset.vertical_m)) in
      if lt mag3d min_sep_m
      then some below_min_sep
      else if lt horizontal_mag half && lt (fabs offset.vertical_m) min_vsep_m
      then some below_min_vsep
      else none

  unfoldable pub offset_geometry_sane : FollowOffset D → D → D → Bool
  unfolding offset_geometry
  offset_geometry_sane offset min_sep_m min_vsep_m =
      is_sane (offset_geometry offset min_sep_m min_vsep_m)

  -- The axis lies on different sides of zero.
  unfoldable pub crossed : D → D → Bool
  crossed candidate reference =
      (lt (of_nat 0) candidate && lt reference (of_nat 0))
      || (lt candidate (of_nat 0) && lt (of_nat 0) reference)

  unfoldable pub axis_sign_locked : D → D → D → D → D → D → D → Bool
  unfolding crossed
  axis_sign_locked candidate reference candidate1 candidate2 reference1 reference2 min_sep_m =
      let of_candidate = sqrt (add (mul candidate1 candidate1) (mul candidate2 candidate2)) in
      let of_reference = sqrt (add (mul reference1 reference1) (mul reference2 reference2)) in
      let co_mag = if lt of_candidate of_reference then of_candidate else of_reference in
      if not (crossed candidate reference) then false else lt co_mag min_sep_m

  unfoldable pub candidate_offset_ok : FollowOffset D → FollowOffset D → D → D → Bool
  unfolding offset_geometry_sane axis_sign_locked
  candidate_offset_ok c r min_sep_m min_vsep_m =
      if not (offset_geometry_sane c min_sep_m min_vsep_m)
      then false
      else if axis_sign_locked c.longitudinal_m r.longitudinal_m c.lateral_m c.vertical_m
          r.lateral_m r.vertical_m min_sep_m
      then false
      else if axis_sign_locked c.lateral_m r.lateral_m c.longitudinal_m c.vertical_m
          r.longitudinal_m r.vertical_m min_sep_m
      then false
      else not (
          axis_sign_locked c.vertical_m r.vertical_m c.longitudinal_m c.lateral_m r.longitudinal_m
            r.lateral_m min_sep_m)
