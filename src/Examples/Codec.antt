-- ===== src/Examples/Codec.antt =====
-- Concrete runs of the theorems on the codec, the configuration image and the callback roles.
use max.Prelude.{
  String, ◌*◌, ◌%◌, ℕ, ◌+◌, ◌<◌, ◌≤◌, ◌≡◌, ◌≢◌, ◌↔◌, ◌⊎◌, inr, refl, true, false, none, some, [],
  ◌∷◌, ◌++◌, replicate, arith, pos, if◌then◌else◌, bit_and,
}
use max.Status.{
  Failure, invalid_state, operation_timeout, spi_transfer_failed, chip_select_failed,
  bus_lock_failed, gpio_failed, ok, err, success, is_ok,
}
use max.Commands.{
  adc_code_max, config_command_mask, config_auto, config_bias, config_3wire, config_filter_50hz,
}
use max.Protocol.{
  encode_threshold, decode_threshold, decode_rtd, RtdWord, encode_write_frame, encode_read_frame,
  register_verify_mask,
}
use max.Protocol.Words.{decode-encode_threshold, encode-decode_threshold, decode_rtd_lem}
use max.Protocol.Frames.{
  IsWritableSpan, encode_write_frame_iff, encode_write_frame_lem, encode_read_frame_lem,
}
use max.Config.{
  default_device_config, persistent_config_byte, validate_device_config, other_wire, other_filter,
  persistent_byte_matches,
}
use max.Config.Bytes.{
  Image, ThresholdBytes, encode_thresholds, image_matches, verify_image, decode_config,
}
use max.Config.Image.{idle_image, persistent_config_byte_lem, verify_image-image_matches}
use max.Config.Validation.{validate_device_config_iff}
use max.Config.Decoded.{decode_config-image_matches}
use max.Driver.Normalize.{
  normalize_lock_status, normalize_chip_select_status, normalize_transfer_status,
  normalize_gpio_status, normalize_required_deassert_status,
}
use max.Driver.Normalize.Roles.{
  InRole, IsLockCode, normalize-InRole, normalize_required_deassert_status_lem,
}

abbrev thresholds_bytes : ThresholdBytes
thresholds_bytes = record { high_msb = 255; high_lsb = 254; low_msb = 0; low_lsb = 0 }

-- A read back image whose undefined bits differ from what was written.
abbrev read_back : Image
read_back = record {
  config = 0x20;
  thresholds = record { high_msb = 255; high_lsb = 255; low_msb = 0; low_lsb = 1 };
}

abbrev lost : Failure
lost = record { code = operation_timeout; msg = none; detail = pos 7 }

decode-encode_threshold_example :
    (bytes : ℕ × ℕ) × (encode_threshold 0x1234 ≡ ok bytes)
    × (bytes.0 < 256)
    × (bytes.1 < 256)
    × (bytes.1 % 2 ≡ 0)
    × (decode_threshold bytes.0 bytes.1 ≡ 0x1234)
decode-encode_threshold_example = decode-encode_threshold 0x1234 (omega arith)

encode-decode_threshold_example :
    (decode_threshold 255 255 ≤ adc_code_max)
    × (encode_threshold (decode_threshold 255 255) ≡ ok (255, 254))
encode-decode_threshold_example = encode-decode_threshold 255 255 (omega arith) (omega arith)

decode_rtd_lem_example :
    (word : RtdWord) × (decode_rtd (some (0x40 ∷ 0x01 ∷ [])) 2 ≡ ok word)
    × (word.raw_register ≡ 0x4001)
    × (word.raw_code ≤ adc_code_max)
    × (word.raw_register ≡ word.raw_code * 2 + (if word.fault then 1 else 0))
decode_rtd_lem_example = decode_rtd_lem 0x40 0x01 (omega arith) (omega arith)

encode_write_frame_iff_example :
    (is_ok (encode_write_frame 3 (some (1 ∷ 2 ∷ [])) 2 (some (replicate 9 0)) 9) ≡ true)
    ↔ IsWritableSpan 3 2
encode_write_frame_iff_example =
    encode_write_frame_iff 3 2 (1 ∷ 2 ∷ []) (replicate 9 0) 9 (omega arith)

encode_write_frame_lem_example :
    encode_write_frame 3 (some (1 ∷ 2 ∷ [])) 2 (some (0 ∷ 0 ∷ 0 ∷ 9 ∷ [])) 4
    ≡ ok (131 ∷ 1 ∷ 2 ∷ 9 ∷ [], 3)
unfolding IsWritableSpan
encode_write_frame_lem_example =
    encode_write_frame_lem 3 4 (1 ∷ 2 ∷ []) (0 ∷ 0 ∷ 0 ∷ []) (9 ∷ [])
      (inr (omega arith, omega arith, omega arith)) (omega arith) refl

encode_read_frame_lem_example :
    ((1 ≤ 2) × (1 + 2 ≤ 8)
      → encode_read_frame 1 2 (some ((7 ∷ 7 ∷ 7 ∷ []) ++ (9 ∷ []))) 4
        ≡ ok (1 ∷ replicate 2 0 ++ (9 ∷ []), 3))
    × (¬ ((1 ≤ 2) × (1 + 2 ≤ 8))
        → is_ok (encode_read_frame 1 2 (some ((7 ∷ 7 ∷ 7 ∷ []) ++ (9 ∷ []))) 4) ≡ false)
encode_read_frame_lem_example =
    encode_read_frame_lem 1 4 2 (7 ∷ 7 ∷ 7 ∷ []) (9 ∷ []) (omega arith) refl

persistent_config_byte_lem_example :
    let byte = persistent_config_byte default_device_config false true in
    (byte < 256)
    × (bit_and byte config_command_mask ≡ 0)
    × (bit_and byte config_auto ≡ config_auto)
    × (bit_and byte config_bias ≡ config_bias)
    × (bit_and byte config_3wire ≡ 0)
    × (bit_and byte config_filter_50hz ≡ 0)
persistent_config_byte_lem_example = persistent_config_byte_lem default_device_config false true

verify_image-image_matches_example :
    is_ok (verify_image (idle_image default_device_config thresholds_bytes) read_back)
    ≡ image_matches (idle_image default_device_config thresholds_bytes) read_back
verify_image-image_matches_example =
    verify_image-image_matches (idle_image default_device_config thresholds_bytes) read_back

validate_device_config_iff_example : (validate_device_config default_device_config ≡ success) ↔ (
    (default_device_config.wire_mode ≢ other_wire)
    × (default_device_config.filter ≢ other_filter)
    × (default_device_config.thresholds.low_code ≤ default_device_config.thresholds.high_code)
    × (default_device_config.thresholds.high_code ≤ adc_code_max))
validate_device_config_iff_example = validate_device_config_iff default_device_config

decode_config-image_matches_example :
    decode_config default_device_config read_back ≡ default_device_config
unfolding validate_device_config encode_thresholds encode_threshold image_matches
    persistent_byte_matches persistent_config_byte register_verify_mask
decode_config-image_matches_example =
    decode_config-image_matches default_device_config thresholds_bytes read_back
      (omega arith, omega arith, omega arith, omega arith, omega arith) refl refl refl

normalize-InRole_example :
    InRole lost bus_lock_failed IsLockCode (normalize_lock_status (some lost))
    × InRole lost chip_select_failed
        (λ c. (c ≡ invalid_state) ⊎ (c ≡ chip_select_failed))
        (normalize_chip_select_status (some lost))
    × InRole lost spi_transfer_failed
        (λ c. (c ≡ invalid_state) ⊎ (c ≡ spi_transfer_failed))
        (normalize_transfer_status (some lost))
    × InRole lost gpio_failed
        (λ c. (c ≡ invalid_state) ⊎ (c ≡ gpio_failed))
        (normalize_gpio_status (some lost))
normalize-InRole_example = normalize-InRole lost

normalize_required_deassert_status_lem_example :
    (g : Failure) × (normalize_required_deassert_status (some lost) ≡ err g)
    × (g.code ≡ chip_select_failed)
    × ((m : String) × (g.msg ≡ some m))
normalize_required_deassert_status_lem_example = normalize_required_deassert_status_lem lost
