-- ===== src/Config/Image.antt =====
-- The register image of a configuration: what its bytes hold, and when a read back image matches.
use max.Prelude.{
  ℕ, ◌-◌, ◌*◌, ◌/◌, ◌%◌, ◌≤◌, ◌<◌, ◌≡◌, refl, Bool, true, false, ◌&&◌, ◌||◌, arith, ◌==◌, bit_and,
  ==_iff, if◌then◌else◌,
}
use max.Prelude.Bits.{all_below, all_below_sound}
use max.Status.{is_ok}
use max.Commands.{
  config_command_mask, config_3wire, config_filter_50hz, config_bias, config_auto, adc_code_max,
}
use max.Protocol.{decode_threshold, register_verify_mask}
use max.Protocol.Words.{packed_lem}
use max.Config.{
  DeviceConfig, persistent_config_byte, persistent_byte_matches, is_three_wire, is_hz50,
}
use max.Config.Bytes.{ThresholdBytes, Image, verify_image, image_matches}

-- The persistent byte holds no command bit, has the automatic bit exactly in continuous mode, and
-- the bias bit exactly where bias or continuous mode is asked for.
pub persistent_config_byte_lem :
    (config : DeviceConfig) (bias continuous : Bool)
    → let byte = persistent_config_byte config bias continuous in
      (byte < 256)
      × (bit_and byte config_command_mask ≡ 0)
      × (bit_and byte config_auto ≡ (if continuous then config_auto else 0))
      × (bit_and byte config_bias ≡ (if bias || continuous then config_bias else 0))
      × (bit_and byte config_3wire ≡ (if is_three_wire config.wire_mode then config_3wire else 0))
      × (bit_and byte config_filter_50hz
          ≡ (if is_hz50 config.filter then config_filter_50hz else 0))
unfolding persistent_config_byte
persistent_config_byte_lem config bias continuous = ground arith

-- The bits that CONFIG keeps are read through the mask of its persistent bits.
mask_table :
    all_below 256 (λ x.
      (bit_and (bit_and x 0xd1) config_3wire == bit_and x config_3wire)
      && (bit_and (bit_and x 0xd1) config_filter_50hz == bit_and x config_filter_50hz)
      && (bit_and (bit_and x 0xd1) config_bias == bit_and x config_bias)
      && (bit_and x 255 == x)
      && (bit_and x 0xfe == x - x % 2))
    ≡ true
unfolding all_below
mask_table = refl

masked :
    (x : ℕ)
    → x < 256
    → (bit_and (bit_and x 0xd1) config_3wire ≡ bit_and x config_3wire)
      × (bit_and (bit_and x 0xd1) config_filter_50hz ≡ bit_and x config_filter_50hz)
      × (bit_and (bit_and x 0xd1) config_bias ≡ bit_and x config_bias)
      × (bit_and x 255 ≡ x)
      × (bit_and x 0xfe ≡ x - x % 2)
masked x h = ground (arith, all_below_sound 256 _ x mask_table h)

-- A verification succeeds exactly when every byte agrees in its defined bits.
pub verify_image-image_matches :
    (expected actual : Image) → is_ok (verify_image expected actual) ≡ image_matches expected actual
unfolding verify_image image_matches
verify_image-image_matches expected actual = ground arith

abbrev pub IsImage : Image → Type 0
IsImage i =
    (i.config < 256)
    × (i.thresholds.high_msb < 256)
    × (i.thresholds.high_lsb < 256)
    × (i.thresholds.low_msb < 256)
    × (i.thresholds.low_lsb < 256)

-- The image that a configuration asks for with no conversion running.
abbrev pub idle_image : DeviceConfig → ThresholdBytes → Image
idle_image config thresholds = record {
  config = persistent_config_byte config config.bias_enabled false;
  thresholds = thresholds;
}

pub config_bits :
    (config : DeviceConfig) (actual : ℕ)
    → actual < 256
    → persistent_byte_matches 0 actual (persistent_config_byte config config.bias_enabled false)
      ≡ true
    → (bit_and actual config_3wire ≡ (if is_three_wire config.wire_mode then config_3wire else 0))
      × (bit_and actual config_filter_50hz
          ≡ (if is_hz50 config.filter then config_filter_50hz else 0))
      × (bit_and actual config_bias ≡ (if config.bias_enabled then config_bias else 0))
unfolding persistent_byte_matches register_verify_mask
config_bits config actual small h =
    let byte = persistent_config_byte config config.bias_enabled false in
    ground (
      arith,
      masked actual small,
      masked byte (persistent_config_byte_lem config config.bias_enabled false).0,
      persistent_config_byte_lem config config.bias_enabled false,
      bits,
    )
  where
    bits :
        bit_and actual 0xd1 ≡ bit_and (persistent_config_byte config config.bias_enabled false) 0xd1
    bits = (==_iff _ _).0 h

pub threshold_matches :
    (threshold msb lsb : ℕ)
    → threshold ≤ adc_code_max
    → msb < 256
    → lsb < 256
    → bit_and msb 255 ≡ bit_and (threshold / 128) 255
    → bit_and lsb 0xfe ≡ bit_and (threshold % 128 * 2) 0xfe
    → decode_threshold msb lsb ≡ threshold
unfolding decode_threshold
threshold_matches c msb lsb fits hm hl em el = omega (
  arith,
  packed_lem msb lsb hm hl,
  masked msb hm,
  masked lsb hl,
  masked (c / 128) (omega arith),
  masked (c % 128 * 2) (omega arith),
)
