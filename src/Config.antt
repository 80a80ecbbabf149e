-- ===== src/Config.antt =====
-- The configuration types and their register image (include/MAX31865/Config.h and the helpers at
-- the top of src/MAX31865.cpp). An enumeration of the source can hold a number that is none of
-- its enumerators; the constructors `other_wire` and `other_filter` stand for those.
pub mod Bytes
pub mod Image
pub mod Validation
pub mod Decoded
use max.Prelude.{
  ℕ, ◌+◌, ◌-◌, ◌*◌, ◌/◌, Bool, true, false, not, ◌||◌, pos, bit_and, bit_or, ltb, ◌==◌,
  if◌then◌else◌, u32_max, u16,
}
use max.Status.{◌>>◌, ◌>>=◌, Status, invalid_argument, require}
use max.Commands.{
  config_bias, config_auto, config_3wire, config_filter_50hz, config_fault_cycle_none,
  config_fault_cycle_auto, config_fault_cycle_manual_1, config_fault_cycle_manual_2, adc_code_max,
  bias_settle_extra_us, manual_fault_settle_multiplier, single_conversion_50hz_ms,
  single_conversion_60hz_ms, continuous_conversion_50hz_ms, continuous_conversion_60hz_ms,
}
use max.Protocol.{register_verify_mask}

pub data WireMode : Type 0 where
  two_wire three_wire four_wire other_wire : WireMode

pub data Filter : Type 0 where
  hz60 hz50 other_filter : Filter

pub record FaultThresholds : Type 0 where
  pub low_code : ℕ
  pub high_code : ℕ

pub record DeviceConfig : Type 0 where
  pub wire_mode : WireMode
  pub filter : Filter
  pub bias_enabled : Bool
  pub thresholds : FaultThresholds

abbrev pub default_device_config : DeviceConfig
default_device_config = record {
  wire_mode = four_wire;
  filter = hz60;
  bias_enabled = false;
  thresholds = record { low_code = 0; high_code = adc_code_max };
}

abbrev pub default_input_filter_time_constant_us : ℕ
default_input_filter_time_constant_us = 100

abbrev pub is_three_wire : WireMode → Bool
is_three_wire three_wire = true
is_three_wire _ = false

abbrev pub is_two_wire : WireMode → Bool
is_two_wire two_wire = true
is_two_wire _ = false

abbrev pub is_hz50 : Filter → Bool
is_hz50 hz50 = true
is_hz50 _ = false

abbrev pub valid_wire_mode : WireMode → Bool
valid_wire_mode other_wire = false
valid_wire_mode _ = true

abbrev pub valid_filter : Filter → Bool
valid_filter other_filter = false
valid_filter _ = true

unfoldable pub valid_fault_cycle_bits : ℕ → Bool
valid_fault_cycle_bits bits =
    (bits == config_fault_cycle_none)
    || (bits == config_fault_cycle_auto)
    || (bits == config_fault_cycle_manual_1)
    || (bits == config_fault_cycle_manual_2)

-- `if (test) value |= mask`.
abbrev set_if : Bool → ℕ → ℕ → ℕ
set_if true mask value = bit_or value mask
set_if false mask value = value

unfoldable pub persistent_config_byte : DeviceConfig → Bool → Bool → ℕ
persistent_config_byte config bias continuous =
    let biased = set_if (bias || continuous) config_bias 0 in
    let automatic = set_if continuous config_auto biased in
    let wired = set_if (is_three_wire config.wire_mode) config_3wire automatic in
    set_if (is_hz50 config.filter) config_filter_50hz wired

-- `joinedRegister`.
abbrev pub joined_register : ℕ → ℕ → ℕ
joined_register msb lsb = u16 (bit_or (msb * 256) lsb)

unfoldable pub persistent_byte_matches : ℕ → ℕ → ℕ → Bool
persistent_byte_matches address actual expected =
    let mask = register_verify_mask address in bit_and actual mask == bit_and expected mask

unfoldable pub validate_device_config : DeviceConfig → Status
validate_device_config config = do
  require (not (not (valid_wire_mode config.wire_mode) || not (valid_filter config.filter)))
      invalid_argument "invalid wire mode or filter" (pos 0)
  require
      (not (
        ltb adc_code_max config.thresholds.low_code
        || ltb adc_code_max config.thresholds.high_code
        || ltb config.thresholds.high_code config.thresholds.low_code))
      invalid_argument "invalid fault thresholds" (pos 0)

-- `singleConversionTimeMs` and `continuousConversionTimeMs`.
unfoldable pub single_conversion_time_ms : Filter → ℕ
single_conversion_time_ms f =
    if is_hz50 f then single_conversion_50hz_ms else single_conversion_60hz_ms

unfoldable pub continuous_conversion_time_ms : Filter → ℕ
continuous_conversion_time_ms f =
    if is_hz50 f then continuous_conversion_50hz_ms else continuous_conversion_60hz_ms

-- `biasSettleUsFor`: ceil(10.5 * RC) + 1 ms, saturated to 32 bits.
unfoldable pub bias_settle_us_for : ℕ → ℕ
bias_settle_us_for time_constant_us =
    let scaled = (time_constant_us * 21 + 2 - 1) / 2 in
    let total = scaled + bias_settle_extra_us in if ltb u32_max total then u32_max else total

-- `postFaultSettleUsFor`: 5 * RC + 1 ms, saturated to 32 bits.
unfoldable pub post_fault_settle_us_for : ℕ → ℕ
post_fault_settle_us_for time_constant_us =
    let total = time_constant_us * manual_fault_settle_multiplier + bias_settle_extra_us in
    if ltb u32_max total then u32_max else total
