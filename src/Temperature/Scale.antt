-- ===== src/Temperature/Scale.antt =====
-- The conversions between codes, resistances and temperatures (src/MAX31865.cpp, from
-- `codeToRatio` to `temperatureToCode`).
use max.Prelude.{ℕ, zero, suc, pos, Bool, false, not, ◌||◌, ltb, ◌==◌, if◌then◌else◌}
use max.Status.{
  invalid_argument, invalid_state, conversion_out_of_range, same_code, Failure, Result, ok, err,
  Status, require, ◌>>=◌, ◌>>◌,
}
use max.Commands.{adc_code_max, adc_full_scale}
use max.Driver.Samples.{Scaling}
use max.Temperature.{Arith, ◌⊕◌, ◌⊖◌, ◌⊗◌, ◌⊘◌, ◌≺◌, ◌≼◌, literal, whole, Casts, RtdConfig}
use max.Temperature.Curve.{resistance_at_temperature, finite_float}
use max.Temperature.Settings.{maximum_representable}

module _ {D : Type 0} ⦃double : Arith D⦄ where
  abbrev pub clamp : D → D → D → D
  clamp least greatest x = if x ≺ least then least else if greatest ≺ x then greatest else x

  abbrev pub midpoint : D → D → D
  midpoint low high = low ⊕ ((high ⊖ low) ⊗ literal (pos 5) 1)

module _ {F D : Type 0} ⦃single : Arith F⦄ ⦃double : Arith D⦄ (m : Casts F D) where
  open m use {widen, narrow, is_finite, floor, to_uint32}

  unfoldable pub code_to_ratio : ℕ → Result F
  code_to_ratio code = do
    require (not (ltb adc_code_max code)) conversion_out_of_range
        "RTD code exceeds the 15-bit conversion range" (pos code)
    ok (whole code ⊘ whole adc_full_scale)

  abbrev require_reference : RtdConfig F → Status
  require_reference config =
      require
        (not (
          not (finite_float m config.reference_resistor_ohms)
          || (config.reference_resistor_ohms ≼ whole 0)))
        invalid_state "RTD reference-resistor configuration is invalid" (pos 0)

  abbrev require_resistance : F → Status
  require_resistance ohms =
      require (not (not (finite_float m ohms) || (ohms ≺ whole 0))) invalid_argument
        "resistance must be finite and nonnegative" (pos 0)

  unfoldable pub code_to_resistance : RtdConfig F → ℕ → Result F
  code_to_resistance config code = do
    ratio ← code_to_ratio code
    require_reference config
    let candidate = ratio ⊗ config.reference_resistor_ohms
    require (finite_float m candidate) conversion_out_of_range
        "RTD resistance calculation overflowed" (pos 0)
    ok candidate

  unfoldable pub resistance_to_code : RtdConfig F → F → Result ℕ
  resistance_to_code config ohms = do
    require_resistance ohms
    require_reference config
    let scaled = widen ohms ⊘ widen config.reference_resistor_ohms ⊗ whole adc_full_scale
    let maximum_input = whole adc_code_max ⊘ whole adc_full_scale ⊗ config.reference_resistor_ohms
    require (not (not (is_finite scaled) || (scaled ≺ whole 0) || (maximum_input ≺ ohms)))
        conversion_out_of_range "resistance is outside the representable ADC-code range" (pos 0)
    let rounded = to_uint32 (floor (scaled ⊕ literal (pos 5) 1))
    ok (if ltb adc_code_max rounded then adc_code_max else rounded)

  abbrev pub lowest : RtdConfig F → D
  lowest config = resistance_at_temperature m config (widen config.minimum_temperature_c)

  abbrev pub highest : RtdConfig F → D
  highest config = resistance_at_temperature m config (widen config.maximum_temperature_c)

  -- `rounds` rounds of the bisection for a resistance; the interval that is left.
  unfoldable pub bisect : RtdConfig F → D → ℕ → D → D → D × D
  bisect config resistance zero low high = (low, high)
  bisect config resistance (suc rounds) low high =
      let middle = midpoint low high in
      let below = resistance_at_temperature m config middle ≺ resistance in
      bisect config resistance rounds (if below then middle else low)
        (if below then high else middle)

  unfoldable pub invert : RtdConfig F → D → D
  invert config resistance =
      let (low, high) =
        bisect config resistance 48 (widen config.minimum_temperature_c)
          (widen config.maximum_temperature_c) in
      midpoint low high

  unfoldable pub resistance_to_temperature : RtdConfig F → F → Result F
  resistance_to_temperature config ohms = do
    require_resistance ohms
    let least = lowest config
    let greatest = highest config
    require (not (not (is_finite least) || not (is_finite greatest) || (greatest ≼ least)))
        invalid_state "configured RTD curve is not invertible" (pos 0)
    require (not ((ohms ≺ narrow least) || (narrow greatest ≺ ohms))) conversion_out_of_range
        "resistance is outside the configured temperature domain" (pos 0)
    let candidate = invert config (clamp least greatest (widen ohms))
    require (is_finite candidate) conversion_out_of_range "temperature inversion failed" (pos 0)
    ok (narrow candidate)

  -- Whether the code is the one that an endpoint's resistance is rounded to.
  abbrev pub is_endpoint : RtdConfig F → F → ℕ → Bool
  is_endpoint config input code = same_code_of (resistance_to_code config input)
    where
      same_code_of : Result ℕ → Bool
      same_code_of (ok endpoint) = endpoint == code
      same_code_of (err f) = false

  -- The temperature of a threshold code whose resistance has none, for the failure `f`.
  unfoldable pub endpoint_temperature : RtdConfig F → ℕ → F → Failure → Result F
  endpoint_temperature config code ohms f =
      if not (same_code f.code conversion_out_of_range)
      then err f
      else if ohms ≺ narrow (lowest config)
      then (if is_endpoint config (narrow (lowest config)) code
          then ok config.minimum_temperature_c
          else err f)
      else if narrow (highest config) ≺ ohms
      then (if is_endpoint config (narrow (highest config)) code
          then ok config.maximum_temperature_c
          else err f)
      else err f

  unfoldable pub fault_threshold_code_to_temperature : RtdConfig F → ℕ → Result F
  fault_threshold_code_to_temperature config code = do
    ohms ← code_to_resistance config code
    or_endpoint ohms (resistance_to_temperature config ohms)
    where
      or_endpoint : F → Result F → Result F
      or_endpoint ohms (ok candidate) = ok candidate
      or_endpoint ohms (err f) = endpoint_temperature config code ohms f

  unfoldable pub temperature_to_resistance : RtdConfig F → F → Result F
  temperature_to_resistance config temperature = do
    require (finite_float m temperature) invalid_argument "temperature must be finite" (pos 0)
    require
        (not (
          (temperature ≺ config.minimum_temperature_c)
          || (config.maximum_temperature_c ≺ temperature)))
        conversion_out_of_range "temperature is outside the configured RTD domain" (pos 0)
    let resistance = resistance_at_temperature m config (widen temperature)
    require
        (not (
          not (is_finite resistance)
          || (resistance ≺ whole 0)
          || (maximum_representable m config ≺ resistance)))
        conversion_out_of_range "temperature maps outside the representable ADC range" (pos 0)
    ok (narrow resistance)

  unfoldable pub temperature_to_code : RtdConfig F → F → Result ℕ
  temperature_to_code config temperature = do
    ohms ← temperature_to_resistance config temperature
    resistance_to_code config ohms

  -- What a sample needs of the conversions, under the settings.
  abbrev pub scaling_of : RtdConfig F → Scaling F
  scaling_of config = record {
    nothing = whole 0;
    code_to_resistance = code_to_resistance config;
    resistance_to_temperature = resistance_to_temperature config;
  }
