-- ===== src/Temperature/Inversion.antt =====
-- What the bisection of the temperature conversion finds.
pub mod Domain
use max.Prelude.{
  ℕ, zero, suc, ◌+◌, ◌≡◌, refl, subst, ◌⊎◌, inl, inr, Bool, true, false, arith, if◌then◌else◌,
}
use max.Status.{ok}
use max.Temperature.{Arith, ◌≺◌, whole, Casts, RtdConfig}
use max.Temperature.Curve.{resistance_at_temperature, finite_float}
use max.Temperature.Scale.{
  bisect, invert, midpoint, clamp, lowest, highest, resistance_to_temperature,
}

module _ {F D : Type 0} ⦃single : Arith F⦄ ⦃double : Arith D⦄ (m : Casts F D) where
  open m use {widen, narrow, is_finite}

  -- Of the interval `low` to `high`: an end that has moved from `lo` or `hi` has a resistance on
  -- its side of `x`.
  pub record Brackets (config : RtdConfig F) (x lo hi low high : D) : Type 0 where
    pub below : (low ≡ lo) ⊎ (resistance_at_temperature m config low ≺ x ≡ true)
    pub above : (high ≡ hi) ⊎ (resistance_at_temperature m config high ≺ x ≡ false)

  step-Brackets :
      (config : RtdConfig F) (x lo hi low high middle : D) (b : Bool)
      → resistance_at_temperature m config middle ≺ x ≡ b
      → Brackets config x lo hi low high
      → Brackets config x lo hi (if b then middle else low) (if b then high else middle)
  step-Brackets config x lo hi low high middle true e h = record { below = inr e; above = h.above }
  step-Brackets config x lo hi low high middle false e h = record { below = h.below; above = inr e }

  bisect-Brackets :
      (config : RtdConfig F) (x lo hi : D) (rounds : ℕ) (low high : D)
      → Brackets config x lo hi low high
      → let r = bisect m config x rounds low high in Brackets config x lo hi r.0 r.1
  unfolding bisect
  bisect-Brackets config x lo hi zero low high h = h
  bisect-Brackets config x lo hi (suc rounds) low high h =
      bisect-Brackets config x lo hi rounds _ _ (step-Brackets config x lo hi low high _ _ refl h)

  -- What the guards of the conversion let pass, and what is behind them.
  record Inverted (config : RtdConfig F) (ohms t : F) : Type 0 where
    pub finite : finite_float m ohms ≡ true
    pub nonnegative : (ohms ≺ whole 0) ≡ false
    pub least : (ohms ≺ narrow (lowest m config)) ≡ false
    pub greatest : (narrow (highest m config) ≺ ohms) ≡ false
    pub value :
        narrow (invert m config (clamp (lowest m config) (highest m config) (widen ohms))) ≡ t

  inverted :
      (config : RtdConfig F) (ohms t : F)
      → resistance_to_temperature m config ohms ≡ ok t
      → Inverted config ohms t
  unfolding resistance_to_temperature
  inverted config ohms t e = ground arith

  -- The intervals that `n` halvings of the domain can leave, the middle going to the side that
  -- the curve at it tells.
  pub data Halved (config : RtdConfig F) (x : D) : ℕ → D → D → Type 0 where
    whole_domain :
        Halved config x 0 (widen config.minimum_temperature_c) (widen config.maximum_temperature_c)
    raised :
        {n : ℕ} {low high : D}
        → Halved config x n low high
        → resistance_at_temperature m config (midpoint low high) ≺ x ≡ true
        → Halved config x (suc n) (midpoint low high) high
    lowered :
        {n : ℕ} {low high : D}
        → Halved config x n low high
        → resistance_at_temperature m config (midpoint low high) ≺ x ≡ false
        → Halved config x (suc n) low (midpoint low high)

  step-Halved :
      (config : RtdConfig F) (x : D) (n : ℕ) (low high : D) (b : Bool)
      → resistance_at_temperature m config (midpoint low high) ≺ x ≡ b
      → Halved config x n low high
      → Halved config x
          (suc n)
          (if b then midpoint low high else low)
          (if b then high else midpoint low high)
  step-Halved config x n low high true e h = raised h e
  step-Halved config x n low high false e h = lowered h e

  bisect-Halved :
      (config : RtdConfig F) (x : D) (rounds n total : ℕ) (low high : D)
      → n + rounds ≡ total
      → Halved config x n low high
      → let r = bisect m config x rounds low high in Halved config x total r.0 r.1
  unfolding bisect
  bisect-Halved config x zero n total low high e h =
      subst (λ k. Halved config x k low high) (none_left e) h
    where
      none_left : n + zero ≡ total → n ≡ total
      none_left e = omega arith
  bisect-Halved config x (suc rounds) n total low high e h =
      bisect-Halved config x rounds (suc n) total _ _ (one_done e)
        (step-Halved config x n low high _ refl h)
    where
      one_done : n + suc rounds ≡ total → suc n + rounds ≡ total
      one_done e = omega arith

  -- A temperature that the conversion gives for a resistance inside the rounded ends of the curve
  -- is the rounded middle of the interval that 48 halvings of the configured domain leave. Each
  -- halving takes the upper half if the curve at the middle is below the resistance, and the lower
  -- half if not. So at the lower end the curve is below the resistance, or it is the least
  -- temperature, and at the upper end the curve is not below it, or it is the greatest
  -- temperature. The resistance is cut to the range of the curve first.
  pub resistance_to_temperature-Brackets :
      (config : RtdConfig F) (ohms t : F)
      → resistance_to_temperature m config ohms ≡ ok t
      → let x = clamp (lowest m config) (highest m config) (widen ohms) in
        ((ohms ≺ narrow (lowest m config)) ≡ false)
        × ((narrow (highest m config) ≺ ohms) ≡ false)
        × ((low : D) × (high : D) × (narrow (midpoint low high) ≡ t)
            × Halved config x 48 low high
            × Brackets config x
                (widen config.minimum_temperature_c)
                (widen config.maximum_temperature_c)
                low
                high)
  unfolding invert
  resistance_to_temperature-Brackets config ohms t e =
      let h = inverted config ohms t e in
      let r =
        bisect m config (clamp (lowest m config) (highest m config) (widen ohms)) 48
          (widen config.minimum_temperature_c) (widen config.maximum_temperature_c) in
      (
        h.least,
        h.greatest,
        (
          r.0,
          r.1,
          h.value,
          bisect-Halved config _ 48 0 48 _ _ refl whole_domain,
          bisect-Brackets config _ _ _ 48 _ _ (record { below = inl refl; above = inl refl }),
        ),
      )
