-- ===== src/Temperature/Thresholds.antt =====
-- Fault thresholds as resistances and temperatures, and the settings that `readConfiguration`
-- decodes (src/MAX31865.cpp; `MAX31865Settings` in include/MAX31865/Config.h).
use max.Prelude.{ℕ, pos, Bool, not, ◌||◌, ltb, ◌==◌, bit_and, if◌then◌else◌}
use max.Status.{invalid_argument, Result, ok, err, require, is_ok, ◌>>=◌, ◌>>◌}
use max.Commands.{
  config_auto, config_one_shot, config_fault_cycle_mask, config_fault_cycle_auto,
  config_fault_cycle_manual_1, config_fault_cycle_manual_2,
}
use max.Config.{DeviceConfig, FaultThresholds}
use max.Config.Bytes.{Image, decode_config}
use max.Temperature.{Arith, ◌≺◌, whole, Casts, RtdConfig}
use max.Temperature.Curve.{finite_float}
use max.Temperature.Scale.{
  code_to_resistance, resistance_to_code, temperature_to_resistance,
  fault_threshold_code_to_temperature,
}

pub data ConversionMode : Type 0 where
  normally_off continuous : ConversionMode

pub data FaultCycle : Type 0 where
  no_cycle automatic manual_step1 manual_step2 : FaultCycle

-- The cast of the masked CONFIG bits, of which each value is an enumerator.
abbrev fault_cycle_of : ℕ → FaultCycle
fault_cycle_of bits =
    if bits == config_fault_cycle_auto
    then automatic
    else if bits == config_fault_cycle_manual_1
    then manual_step1
    else if bits == config_fault_cycle_manual_2
    then manual_step2
    else no_cycle

pub record Settings (F : Type 0) : Type 0 where
  pub raw_config : ℕ
  pub device_config : DeviceConfig
  pub conversion_mode : ConversionMode
  pub one_shot_active : Bool
  pub fault_cycle : FaultCycle
  pub low_threshold_ohms : F
  pub high_threshold_ohms : F
  pub low_threshold_c : F
  pub high_threshold_c : F
  pub low_threshold_temperature_valid : Bool
  pub high_threshold_temperature_valid : Bool

module _ {F D : Type 0} ⦃single : Arith F⦄ ⦃double : Arith D⦄ (m : Casts F D) where
  -- The guards and conversions of `setFaultThresholdsResistance`.
  unfoldable pub resistance_thresholds : RtdConfig F → F → F → Result FaultThresholds
  resistance_thresholds rtd low_ohms high_ohms = do
    require
        (not (
          not (finite_float m low_ohms)
          || not (finite_float m high_ohms)
          || (low_ohms ≺ whole 0)
          || (high_ohms ≺ low_ohms)))
        invalid_argument "invalid or reversed resistance thresholds" (pos 0)
    low ← resistance_to_code m rtd low_ohms
    high ← resistance_to_code m rtd high_ohms
    require (not (ltb high low)) invalid_argument "low resistance threshold exceeds high threshold"
        (pos 0)
    ok (record { low_code = low; high_code = high })

  -- Those of `setFaultThresholdsTemperature`.
  unfoldable pub temperature_thresholds : RtdConfig F → F → F → Result FaultThresholds
  temperature_thresholds rtd low_c high_c = do
    require (not (not (finite_float m low_c) || not (finite_float m high_c) || (high_c ≺ low_c)))
        invalid_argument "invalid temperature-threshold ordering" (pos 0)
    low_resistance ← temperature_to_resistance m rtd low_c
    high_resistance ← temperature_to_resistance m rtd high_c
    low ← resistance_to_code m rtd low_resistance
    high ← resistance_to_code m rtd high_resistance
    ok (record { low_code = low; high_code = high })

  -- The low and the high threshold that were read.
  unfoldable pub threshold_resistances : RtdConfig F → FaultThresholds → Result (F × F)
  threshold_resistances rtd thresholds = do
    low ← code_to_resistance m rtd thresholds.low_code
    high ← code_to_resistance m rtd thresholds.high_code
    ok (low, high)

  unfoldable pub threshold_temperatures : RtdConfig F → FaultThresholds → Result (F × F)
  threshold_temperatures rtd thresholds = do
    low ← fault_threshold_code_to_temperature m rtd thresholds.low_code
    high ← fault_threshold_code_to_temperature m rtd thresholds.high_code
    ok (low, high)

  -- `if (!valid) value = NAN;`
  abbrev or_nan : Result F → F
  or_nan (ok temperature) = temperature
  or_nan (err f) = m.nan

  -- The settings of an image that was read, under the desired configuration.
  unfoldable pub decode_settings : RtdConfig F → DeviceConfig → Image → Result (Settings F)
  decode_settings rtd desired image = do
    let device = decode_config desired image
    low_ohms ← code_to_resistance m rtd device.thresholds.low_code
    high_ohms ← code_to_resistance m rtd device.thresholds.high_code
    let low_c = fault_threshold_code_to_temperature m rtd device.thresholds.low_code
    let high_c = fault_threshold_code_to_temperature m rtd device.thresholds.high_code
    ok (record {
      raw_config = image.config;
      device_config = device;
      conversion_mode =
          if not (bit_and image.config config_auto == 0) then continuous else normally_off;
      one_shot_active = not (bit_and image.config config_one_shot == 0);
      fault_cycle = fault_cycle_of (bit_and image.config config_fault_cycle_mask);
      low_threshold_ohms = low_ohms;
      high_threshold_ohms = high_ohms;
      low_threshold_c = or_nan low_c;
      high_threshold_c = or_nan high_c;
      low_threshold_temperature_valid = is_ok low_c;
      high_threshold_temperature_valid = is_ok high_c;
    })
