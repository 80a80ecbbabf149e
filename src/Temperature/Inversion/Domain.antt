-- ===== src/Temperature/Inversion/Domain.antt =====
-- The temperatures that the conversion gives lie in the configured domain.
use max.Prelude.{
  ℕ, zero, suc, ◌+◌, ◌*◌, ◌≤◌, ◌≡◌, sym, ◌∙◌, subst, leb, pos, Bool, true, false, arith,
  if◌then◌else◌,
}
use max.Status.{ok, success}
use max.Temperature.{Arith, ◌≼◌, ◌⊕◌, ◌⊖◌, ◌⊗◌, literal, whole, Casts, RtdConfig}
use max.Temperature.Curve.{finite_float}
use max.Temperature.Settings.{validate_rtd_config, valid_domain}
use max.Temperature.Scale.{
  bisect, invert, midpoint, clamp, lowest, highest, resistance_to_temperature,
}
use max.Temperature.Inversion.{inverted}

-- What IEEE arithmetic gives of finite numbers, told by their exact values. `at x` counts the
-- units, of the least positive `double`, by which `x` lies above the least finite `double`. The
-- comparisons are those of the exact values; a sum is rounded to a number that no finite number
-- parts from the exact sum; a difference of numbers in the range of a `float` is at most twice the
-- exact one; half of a number is at most half a unit too large; and rounding to a `float` keeps
-- the order and gives a `float` back.
pub record RoundingLaws {F D : Type 0} ⦃single : Arith F⦄ ⦃double : Arith D⦄ (m : Casts F D)
    : Type 0 where
  pub at : D → ℕ
  pub compared :
      (x y : F)
      → finite_float m x ≡ true
      → finite_float m y ≡ true
      → (x ≼ y) ≡ leb (at (m.widen x)) (at (m.widen y))
  pub sum :
      (a b least greatest : D)
      → m.is_finite a ≡ true
      → m.is_finite b ≡ true
      → m.is_finite least ≡ true
      → m.is_finite greatest ≡ true
      → at least + at (whole 0) ≤ at a + at b
      → at a + at b ≤ at greatest + at (whole 0)
      → (m.is_finite (a ⊕ b) ≡ true) × (at least ≤ at (a ⊕ b)) × (at (a ⊕ b) ≤ at greatest)
  pub difference :
      (x y : F) (low high : D)
      → finite_float m x ≡ true
      → finite_float m y ≡ true
      → m.is_finite low ≡ true
      → m.is_finite high ≡ true
      → at (m.widen x) ≤ at low
      → at low ≤ at high
      → at high ≤ at (m.widen y)
      → (m.is_finite (high ⊖ low) ≡ true)
        × (at (whole 0) ≤ at (high ⊖ low))
        × (at (high ⊖ low) + 2 * at low ≤ at (whole 0) + 2 * at high)
  pub half :
      (x : D)
      → m.is_finite x ≡ true
      → at (whole 0) ≤ at x
      → let halved = x ⊗ literal (pos 5) 1 in
        (m.is_finite halved ≡ true)
        × (at (whole 0) ≤ at halved)
        × (2 * at halved ≤ at x + at (whole 0) + 1)
  pub rounded :
      (x y : D)
      → m.is_finite x ≡ true
      → m.is_finite y ≡ true
      → at x ≤ at y
      → (m.narrow x ≼ m.narrow y) ≡ true
  pub exact : (x : F) → finite_float m x ≡ true → m.narrow (m.widen x) ≡ x

not_above : (a b : ℕ) → leb a b ≡ false → b ≤ a
not_above a b h = ground arith

module _ {F D : Type 0} ⦃single : Arith F⦄ ⦃double : Arith D⦄ (m : Casts F D)
    (laws : RoundingLaws m) (config : RtdConfig F) where
  open m use {widen, narrow, is_finite}
  open laws use {at}

  -- Both ends of the domain are finite, and in their order.
  record IsDomain : Type 0 where
    pub least : finite_float m config.minimum_temperature_c ≡ true
    pub greatest : finite_float m config.maximum_temperature_c ≡ true
    pub ordered : (config.maximum_temperature_c ≼ config.minimum_temperature_c) ≡ false

  validated : validate_rtd_config m config ≡ success → valid_domain m config ≡ true
  unfolding validate_rtd_config
  validated e = ground arith

  valid_domain-IsDomain : valid_domain m config ≡ true → IsDomain
  unfolding valid_domain
  valid_domain-IsDomain e = ground arith

  -- An interval inside the domain.
  record IsWithin (low high : D) : Type 0 where
    pub finite_low : is_finite low ≡ true
    pub finite_high : is_finite high ≡ true
    pub least : at (widen config.minimum_temperature_c) ≤ at low
    pub ordered : at low ≤ at high
    pub greatest : at high ≤ at (widen config.maximum_temperature_c)

  -- A number between the ends of an interval.
  record IsBetween (low high middle : D) : Type 0 where
    pub finite : is_finite middle ≡ true
    pub above : at low ≤ at middle
    pub below : at middle ≤ at high

  midpoint-IsBetween :
      (low high : D) → IsDomain → IsWithin low high → IsBetween low high (midpoint low high)
  midpoint-IsBetween low high d h =
      let whole_width =
        laws.difference _ _ low high d.least d.greatest h.finite_low h.finite_high h.least h.ordered
          h.greatest in
      let halved = laws.half (high ⊖ low) whole_width.0 whole_width.1 in
      let middle =
        laws.sum low ((high ⊖ low) ⊗ literal (pos 5) 1) low high h.finite_low halved.0 h.finite_low
          h.finite_high (omega arith) (omega arith) in
      record { finite = middle.0; above = middle.1; below = middle.2 }

  step-IsWithin :
      (low high middle : D) (b : Bool)
      → IsWithin low high
      → IsBetween low high middle
      → IsWithin (if b then middle else low) (if b then high else middle)
  step-IsWithin low high middle true h k = record {
    finite_low = k.finite;
    finite_high = h.finite_high;
    least = omega (arith, h.least, k.above);
    ordered = k.below;
    greatest = h.greatest;
  }
  step-IsWithin low high middle false h k = record {
    finite_low = h.finite_low;
    finite_high = k.finite;
    least = h.least;
    ordered = k.above;
    greatest = omega (arith, h.greatest, k.below);
  }

  bisect-IsWithin :
      (x : D) (rounds : ℕ) (low high : D)
      → IsDomain
      → IsWithin low high
      → let r = bisect m config x rounds low high in IsWithin r.0 r.1
  unfolding bisect
  bisect-IsWithin x zero low high d h = h
  bisect-IsWithin x (suc rounds) low high d h =
      bisect-IsWithin x rounds _ _ d
        (step-IsWithin low high _ _ h (midpoint-IsBetween low high d h))

  whole-IsWithin :
      IsDomain → IsWithin (widen config.minimum_temperature_c) (widen config.maximum_temperature_c)
  whole-IsWithin d = record {
    finite_low = d.least;
    finite_high = d.greatest;
    least = omega arith;
    ordered = not_above _ _ (sym (laws.compared _ _ d.greatest d.least) ∙ d.ordered);
    greatest = omega arith;
  }

  -- Rounded to a `float`, a number of the domain stays in the domain.
  narrow-IsWithin :
      (low high middle : D)
      → IsDomain
      → IsWithin low high
      → IsBetween low high middle
      → ((config.minimum_temperature_c ≼ narrow middle) ≡ true)
        × ((narrow middle ≼ config.maximum_temperature_c) ≡ true)
  narrow-IsWithin low high middle d h k = (
    subst (λ x. (x ≼ narrow middle) ≡ true) (laws.exact _ d.least)
        (laws.rounded _ _ d.least k.finite (omega (arith, h.least, k.above))),
    subst (λ x. (narrow middle ≼ x) ≡ true) (laws.exact _ d.greatest)
        (laws.rounded _ _ k.finite d.greatest (omega (arith, h.greatest, k.below))),
  )

  -- Under settings that are accepted, a temperature that the conversion gives lies in the
  -- configured domain, its ends included, if the arithmetic rounds as IEEE arithmetic does
  -- (`RoundingLaws`).
  pub resistance_to_temperature-domain :
      (ohms t : F)
      → validate_rtd_config m config ≡ success
      → resistance_to_temperature m config ohms ≡ ok t
      → ((config.minimum_temperature_c ≼ t) ≡ true) × ((t ≼ config.maximum_temperature_c) ≡ true)
  unfolding invert
  resistance_to_temperature-domain ohms t v e =
      let d = valid_domain-IsDomain (validated v) in
      let h = inverted m config ohms t e in
      let w =
        bisect-IsWithin (clamp (lowest m config) (highest m config) (widen ohms)) 48 _ _ d
          (whole-IsWithin d) in
      subst
        (λ x.
          ((config.minimum_temperature_c ≼ x) ≡ true) × ((x ≼ config.maximum_temperature_c) ≡ true))
        h.value (narrow-IsWithin _ _ _ d w (midpoint-IsBetween _ _ d w))
