-- ===== src/Config/Decoded.antt =====
-- What a verified read back proves of the configuration that is decoded from it.
use max.Prelude.{
  ℕ, ◌*◌, ◌/◌, ◌%◌, ◌≤◌, ◌≡◌, ◌≢◌, refl, subst, Bool, true, false, not, arith, ◌==◌, bit_and,
  if◌then◌else◌,
}
use max.Status.{ok, success}
use max.Commands.{config_3wire, config_filter_50hz, config_bias, adc_code_max}
use max.Protocol.{decode_threshold, register_verify_mask}
use max.Protocol.Words.{encode_threshold_lem}
use max.Config.{
  WireMode, two_wire, three_wire, four_wire, other_wire, Filter, hz60, hz50, other_filter,
  DeviceConfig, persistent_config_byte, persistent_byte_matches, validate_device_config,
  is_three_wire, is_hz50, is_two_wire,
}
use max.Config.Bytes.{ThresholdBytes, Image, encode_thresholds, image_matches, decode_config}
use max.Config.Image.{IsImage, idle_image, config_bits, threshold_matches}
use max.Config.Validation.{validate_device_config_iff}

mode_decoded :
    (desired : WireMode) (bits : ℕ)
    → desired ≢ other_wire
    → bits ≡ (if is_three_wire desired then config_3wire else 0)
    → (if not (bits == 0) then three_wire else if is_two_wire desired then two_wire else four_wire)
      ≡ desired
mode_decoded two_wire bits valid e = ground arith
mode_decoded three_wire bits valid e = ground arith
mode_decoded four_wire bits valid e = ground arith
mode_decoded other_wire bits valid e = absurd (valid refl)

filter_decoded :
    (desired : Filter) (bits : ℕ)
    → desired ≢ other_filter
    → bits ≡ (if is_hz50 desired then config_filter_50hz else 0)
    → (if not (bits == 0) then hz50 else hz60) ≡ desired
filter_decoded hz60 bits valid e = ground arith
filter_decoded hz50 bits valid e = ground arith
filter_decoded other_filter bits valid e = absurd (valid refl)

bias_decoded :
    (desired : Bool) (bits : ℕ)
    → bits ≡ (if desired then config_bias else 0)
    → not (bits == 0) ≡ desired
bias_decoded true bits e = ground arith
bias_decoded false bits e = ground arith

abbrev threshold_image : DeviceConfig → ThresholdBytes
threshold_image config = record {
  high_msb = config.thresholds.high_code / 128;
  high_lsb = config.thresholds.high_code % 128 * 2;
  low_msb = config.thresholds.low_code / 128;
  low_lsb = config.thresholds.low_code % 128 * 2;
}

encode_thresholds_lem :
    (config : DeviceConfig)
    → config.thresholds.low_code ≤ adc_code_max
    → config.thresholds.high_code ≤ adc_code_max
    → encode_thresholds config ≡ ok (threshold_image config)
unfolding encode_thresholds
encode_thresholds_lem config low high = rw (
  encode_threshold_lem config.thresholds.high_code high,
  encode_threshold_lem config.thresholds.low_code low,
)

-- The bytes of an image, one equation each, where it matches.
byte_equations :
    (expected actual : Image)
    → image_matches expected actual ≡ true
    → (persistent_byte_matches 0 actual.config expected.config ≡ true)
      × (bit_and actual.thresholds.high_msb 255 ≡ bit_and expected.thresholds.high_msb 255)
      × (bit_and actual.thresholds.high_lsb 0xfe ≡ bit_and expected.thresholds.high_lsb 0xfe)
      × (bit_and actual.thresholds.low_msb 255 ≡ bit_and expected.thresholds.low_msb 255)
      × (bit_and actual.thresholds.low_lsb 0xfe ≡ bit_and expected.thresholds.low_lsb 0xfe)
unfolding image_matches persistent_byte_matches register_verify_mask
byte_equations expected actual h = ground arith

decoded_fields :
    (config : DeviceConfig) (actual : Image)
    → IsImage actual
    → (config.wire_mode ≢ other_wire)
      × (config.filter ≢ other_filter)
      × (config.thresholds.low_code ≤ config.thresholds.high_code)
      × (config.thresholds.high_code ≤ adc_code_max)
    → image_matches (idle_image config (threshold_image config)) actual ≡ true
    → decode_config config actual ≡ config
unfolding decode_config
decoded_fields config actual small valid same = λ i. record {
  wire_mode = mode_decoded config.wire_mode _ valid.0 bits.0 i;
  filter = filter_decoded config.filter _ valid.1 bits.1 i;
  bias_enabled = bias_decoded config.bias_enabled _ bits.2 i;
  thresholds = record { low_code = low i; high_code = high i };
}
  where
    equations :
        (persistent_byte_matches 0 actual.config
            (persistent_config_byte config config.bias_enabled false)
          ≡ true)
        × (bit_and actual.thresholds.high_msb 255 ≡ bit_and (config.thresholds.high_code / 128) 255)
        × (bit_and actual.thresholds.high_lsb 0xfe
            ≡ bit_and (config.thresholds.high_code % 128 * 2) 0xfe)
        × (bit_and actual.thresholds.low_msb 255 ≡ bit_and (config.thresholds.low_code / 128) 255)
        × (bit_and actual.thresholds.low_lsb 0xfe
            ≡ bit_and (config.thresholds.low_code % 128 * 2) 0xfe)
    equations = byte_equations (idle_image config (threshold_image config)) actual same

    bits :
        (bit_and actual.config config_3wire
          ≡ (if is_three_wire config.wire_mode then config_3wire else 0))
        × (bit_and actual.config config_filter_50hz
            ≡ (if is_hz50 config.filter then config_filter_50hz else 0))
        × (bit_and actual.config config_bias ≡ (if config.bias_enabled then config_bias else 0))
    bits = config_bits config actual.config small.0 equations.0

    high :
        decode_threshold actual.thresholds.high_msb actual.thresholds.high_lsb
        ≡ config.thresholds.high_code
    high = threshold_matches _ _ _ valid.3 small.1 small.2 equations.1 equations.2

    low :
        decode_threshold actual.thresholds.low_msb actual.thresholds.low_lsb
        ≡ config.thresholds.low_code
    low = threshold_matches _ _ _ (omega arith) small.3 small.4 equations.3 equations.4

-- When every byte of a read back image agrees with the image of a valid configuration in its
-- defined bits, the configuration that `readConfiguration` decodes from it is that configuration.
pub decode_config-image_matches :
    (config : DeviceConfig) (thresholds : ThresholdBytes) (actual : Image)
    → IsImage actual
    → validate_device_config config ≡ success
    → encode_thresholds config ≡ ok thresholds
    → image_matches (idle_image config thresholds) actual ≡ true
    → decode_config config actual ≡ config
decode_config-image_matches config thresholds actual small valid encoded same =
    decoded_fields config actual small accepted
      (subst (λ b. image_matches (idle_image config b) actual ≡ true) image same)
  where
    accepted :
        (config.wire_mode ≢ other_wire)
        × (config.filter ≢ other_filter)
        × (config.thresholds.low_code ≤ config.thresholds.high_code)
        × (config.thresholds.high_code ≤ adc_code_max)
    accepted = (validate_device_config_iff config).0 valid

    image : thresholds ≡ threshold_image config
    image = cc (encode_thresholds_lem config (omega (arith, accepted.2, accepted.3)) accepted.3)
