-- ===== src/Temperature/Delays.antt =====
-- The settling times of accepted RTD settings.
use max.Prelude.{◌+◌, ◌*◌, ◌/◌, ◌≡◌, ◌≤◌, true, arith, u32, u32_max}
use max.Status.{success}
use max.Commands.{manual_fault_settle_multiplier}
use max.Config.{bias_settle_us_for, post_fault_settle_us_for}
use max.Temperature.{Arith, Casts, RtdConfig}
use max.Temperature.Settings.{valid_durations, validate_rtd_config}

module _ {F D : Type 0} ⦃single : Arith F⦄ ⦃double : Arith D⦄ (m : Casts F D) where
  accepted_durations :
      (config : RtdConfig F)
      → validate_rtd_config m config ≡ success
      → valid_durations config.input_filter_time_constant_us ≡ true
  unfolding validate_rtd_config
  accepted_durations config e = ground arith

  -- Under RTD settings that are accepted no settling time saturates or wraps: the bias settles for
  -- ten and a half time constants, rounded up, and a millisecond; the input settles after the
  -- cleanup of a fault cycle for five time constants and a millisecond; and the wait between the
  -- two halves of a manual fault cycle, a product of 32 bits, is five time constants.
  pub validate_rtd_config-delays :
      (config : RtdConfig F)
      → validate_rtd_config m config ≡ success
      → let rc = config.input_filter_time_constant_us in
        (bias_settle_us_for rc ≡ (rc * 21 + 1) / 2 + 1000)
        × (post_fault_settle_us_for rc ≡ rc * 5 + 1000)
        × ((rc * 21 + 1) / 2 + 1000 ≤ u32_max)
        × (rc * 5 + 1000 ≤ u32_max)
        × (u32 (rc * manual_fault_settle_multiplier) ≡ rc * 5)
  unfolding bias_settle_us_for valid_durations post_fault_settle_us_for
  validate_rtd_config-delays config e = ground (arith, accepted_durations config e)
