-- ===== src/Temperature/Settings.antt =====
-- The RTD settings: their validation and `setRtdConfig` (src/MAX31865.cpp).
use max.Prelude.{ℕ, zero, suc, ◌+◌, ◌*◌, ◌/◌, pos, negsuc, Bool, not, ◌||◌, ltb, u32_max}
use max.Status.{invalid_argument, Result, ok, err, Status, success, require, ◌>>=◌, ◌>>◌}
use max.Commands.{
  adc_code_max, adc_full_scale, bias_settle_extra_us, manual_fault_settle_multiplier,
  manual_fault_step1_to_open_us, reference_resistor_min_ohms, reference_resistor_max_ohms,
}
use max.Driver.{Driver}
use max.Driver.Requests.{require_ready}
use max.Temperature.{Arith, ◌⊕◌, ◌⊖◌, ◌⊗◌, ◌⊘◌, ◌≺◌, ◌≼◌, literal, whole, Casts, RtdConfig}
use max.Temperature.Curve.{resistance_at_temperature, curve_is_strictly_increasing, finite_float}

-- The settling durations in microseconds, on `uint64_t`.
abbrev pub bias_delay : ℕ → ℕ
bias_delay time_constant_us = (time_constant_us * 21 + 1) / 2 + bias_settle_extra_us

abbrev pub manual_delay : ℕ → ℕ
manual_delay time_constant_us =
    time_constant_us * manual_fault_settle_multiplier + manual_fault_step1_to_open_us

unfoldable pub valid_durations : ℕ → Bool
valid_durations time_constant_us =
    not (ltb u32_max (bias_delay time_constant_us) || ltb u32_max (manual_delay time_constant_us))

module _ {F D : Type 0} ⦃single : Arith F⦄ ⦃double : Arith D⦄ (m : Casts F D) where
  open m use {widen, is_finite}

  unfoldable pub valid_resistors : RtdConfig F → Bool
  valid_resistors config = not (
      not (finite_float m config.reference_resistor_ohms)
      || (config.reference_resistor_ohms ≺ whole reference_resistor_min_ohms)
      || (whole reference_resistor_max_ohms ≺ config.reference_resistor_ohms)
      || not (finite_float m config.nominal_resistance_ohms)
      || (config.nominal_resistance_ohms ≼ whole 0))

  unfoldable pub valid_domain : RtdConfig F → Bool
  valid_domain config = not (
      not (finite_float m config.coefficients.a)
      || not (finite_float m config.coefficients.b)
      || not (finite_float m config.coefficients.c)
      || not (finite_float m config.minimum_temperature_c)
      || not (finite_float m config.maximum_temperature_c)
      || (config.minimum_temperature_c ≺ literal (negsuc 27314) 2)
      || (config.maximum_temperature_c ≼ config.minimum_temperature_c))

  -- The temperature at `index` / 64 of the domain.
  abbrev pub grid_temperature : RtdConfig F → ℕ → D
  grid_temperature config index =
      let fraction = whole index ⊘ whole 64 in
      widen config.minimum_temperature_c
      ⊕ ((widen config.maximum_temperature_c ⊖ widen config.minimum_temperature_c) ⊗ fraction)

  -- The grid loop for `count` more indices; the result is the last resistance.
  unfoldable pub check_grid : RtdConfig F → (count index : ℕ) → D → Result D
  check_grid config zero index previous = ok previous
  check_grid config (suc count) index previous = do
    let resistance = resistance_at_temperature m config (grid_temperature config index)
    require (not (not (is_finite resistance) || (resistance ≼ previous))) invalid_argument
        "RTD curve is not finite and strictly increasing" (pos 0)
    check_grid config count (index + 1) resistance

  abbrev pub maximum_representable : RtdConfig F → D
  maximum_representable config =
      widen config.reference_resistor_ohms ⊗ whole adc_code_max ⊘ whole adc_full_scale

  unfoldable pub validate_rtd_config : RtdConfig F → Status
  validate_rtd_config config = do
    require (valid_resistors config) invalid_argument "invalid RTD/reference resistance" (pos 0)
    require (valid_domain config) invalid_argument "invalid RTD coefficients or temperature domain"
        (pos 0)
    require (curve_is_strictly_increasing m config) invalid_argument
        "RTD curve is not monotonic over the complete domain" (pos 0)
    require (valid_durations config.input_filter_time_constant_us) invalid_argument
        "RTD filter settling duration is too large" (pos 0)
    let lowest = resistance_at_temperature m config (widen config.minimum_temperature_c)
    require (not (not (is_finite lowest) || (lowest ≺ whole 0))) invalid_argument
        "RTD curve has invalid minimum resistance" (pos 0)
    previous ← check_grid config 64 1 lowest
    require (not (maximum_representable config ≺ previous)) invalid_argument
        "RTD range exceeds reference-resistor full scale" (pos 0)

  abbrev pub adopted : RtdConfig F → Status → RtdConfig F → Driver → RtdConfig F × Driver
  adopted config (ok _) current d = (
    config,
    record d {
      input_filter_time_constant_us = config.input_filter_time_constant_us;
      last_operation = success;
    },
  )
  adopted config (err f) current d = (current, record d { last_operation = err f })

  -- The settings stand beside the driver, whose record holds the filter's time constant.
  unfoldable pub set_rtd_config : RtdConfig F → RtdConfig F → Driver → Status × RtdConfig F × Driver
  set_rtd_config config current d =
      let status = require_ready d >> validate_rtd_config config in
      let (settings, d') = adopted config status current d in (status, settings, d')
