-- ===== src/Temperature/Curve.antt =====
-- The Callendar-Van Dusen curve and the test that it rises (src/MAX31865.cpp, from
-- `resistanceAtTemperature` to `finiteFloat`).
use max.Prelude.{negsuc, Bool, true, false, not, ◌&&◌, ◌||◌, List, [], ◌∷◌, if◌then◌else◌}
use max.Temperature.{
  Arith, ◌⊕◌, ◌⊖◌, ◌⊗◌, ◌⊘◌, ◌≺◌, ◌≼◌, equals, negate, literal, whole, Casts, RtdConfig,
}

module _ {F D : Type 0} ⦃single : Arith F⦄ ⦃double : Arith D⦄ (m : Casts F D) where
  open m use {widen, is_finite, sqrt, copysign}

  unfoldable pub resistance_at_temperature : RtdConfig F → D → D
  resistance_at_temperature config t =
      let a = widen config.coefficients.a in
      let b = widen config.coefficients.b in
      let c = if t ≺ whole 0 then widen config.coefficients.c else whole 0 in
      let ratio = whole 1 ⊕ (a ⊗ t) ⊕ (b ⊗ t ⊗ t) ⊕ (c ⊗ (t ⊖ whole 100) ⊗ t ⊗ t ⊗ t) in
      widen config.nominal_resistance_ohms ⊗ ratio

  unfoldable pub resistance_derivative_at_temperature : RtdConfig F → D → D
  resistance_derivative_at_temperature config t =
      let a = widen config.coefficients.a in
      let b = widen config.coefficients.b in
      let c = widen config.coefficients.c in
      let ratio_derivative =
        if t ≺ whole 0
        then a ⊕ (whole 2 ⊗ b ⊗ t) ⊕ (c ⊗ t ⊗ t ⊗ ((whole 4 ⊗ t) ⊖ whole 300))
        else a ⊕ (whole 2 ⊗ b ⊗ t) in
      widen config.nominal_resistance_ohms ⊗ ratio_derivative

  unfoldable pub nonnegative_derivative_at : RtdConfig F → D → Bool
  nonnegative_derivative_at config t =
      let derivative = resistance_derivative_at_temperature config t in
      is_finite derivative && (whole 0 ≼ derivative)

  -- The loop over the two roots of the second derivative.
  unfoldable pub rises_at_roots : RtdConfig F → D → D → List D → Bool
  rises_at_roots config low high [] = true
  rises_at_roots config low high (root ∷ roots) =
      let rest = rises_at_roots config low high roots in
      if (low ≺ root) && (root ≺ high) && not (nonnegative_derivative_at config root)
      then false
      else rest

  -- The roots of qa t^2 + qb t + qc, in the form that does not cancel.
  unfoldable pub critical_roots : D → D → D → D → List D
  critical_roots qa qb qc discriminant =
      let root_term = sqrt discriminant in
      let q = literal (negsuc 4) 1 ⊗ (qb ⊕ copysign root_term qb) in
      let repeated_root = negate qb ⊘ (whole 2 ⊗ qa) in
      (if equals q (whole 0) then repeated_root else q ⊘ qa)
      ∷ (if equals q (whole 0) then repeated_root else qc ⊘ q)
      ∷ []

  unfoldable pub cubic_rises : RtdConfig F → D → D → D → D → Bool
  cubic_rises config b c low high =
      let qa = whole 12 ⊗ c in
      let qb = literal (negsuc 599) 0 ⊗ c in
      let qc = whole 2 ⊗ b in
      let discriminant = (qb ⊗ qb) ⊖ (whole 4 ⊗ qa ⊗ qc) in
      if not (is_finite discriminant)
      then false
      else if discriminant ≺ whole 0
      then true
      else rises_at_roots config low high (critical_roots qa qb qc discriminant)

  unfoldable pub negative_curve_segment_is_strictly_increasing : RtdConfig F → D → D → Bool
  negative_curve_segment_is_strictly_increasing config low high =
      if not (nonnegative_derivative_at config low) || not (nonnegative_derivative_at config high)
      then false
      else let b = widen config.coefficients.b in
        let c = widen config.coefficients.c in
        if equals c (whole 0) then true else cubic_rises config b c low high

  -- The part of the domain below zero, and the part from zero on.
  unfoldable pub negative_part_rises : RtdConfig F → D → D → Bool
  negative_part_rises config minimum maximum =
      let negative_maximum = if maximum ≺ whole 0 then maximum else whole 0 in
      if (minimum ≺ negative_maximum)
        && equals config.coefficients.a (whole 0)
        && equals config.coefficients.b (whole 0)
        && equals config.coefficients.c (whole 0)
      then false
      else negative_curve_segment_is_strictly_increasing config minimum negative_maximum

  unfoldable pub positive_part_rises : RtdConfig F → D → D → Bool
  positive_part_rises config minimum maximum =
      let positive_minimum = if whole 0 ≺ minimum then minimum else whole 0 in
      if (positive_minimum ≺ maximum)
        && equals config.coefficients.a (whole 0)
        && equals config.coefficients.b (whole 0)
      then false
      else nonnegative_derivative_at config positive_minimum
        && nonnegative_derivative_at config maximum

  unfoldable pub curve_is_strictly_increasing : RtdConfig F → Bool
  curve_is_strictly_increasing config =
      let minimum = widen config.minimum_temperature_c in
      let maximum = widen config.maximum_temperature_c in
      (if minimum ≺ whole 0 then negative_part_rises config minimum maximum else true)
      && (if whole 0 ≼ maximum then positive_part_rises config minimum maximum else true)

  abbrev pub finite_float : F → Bool
  finite_float value = is_finite (widen value)
