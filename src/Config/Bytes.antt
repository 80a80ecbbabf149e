-- ===== src/Config/Bytes.antt =====
-- The persistent image of a configuration as register bytes: the threshold bytes that
-- `applyConfigurationInternal` and `verifyDesiredImage` build, and the comparison of a read back
-- image with the expected one (src/MAX31865.cpp).
use max.Prelude.{
  ℕ, ◌*◌, Bool, ◌&&◌, String, List, [], ◌∷◌, pos, bit_or, bit_and, not, ◌==◌, get_or, if◌then◌else◌,
}
use max.Status.{Result, ok, Status, register_verify_failed, require, ◌>>=◌, ◌>>◌}
use max.Commands.{
  reg_config, reg_high_fault_msb, reg_high_fault_lsb, reg_low_fault_msb, reg_low_fault_lsb,
  config_3wire, config_filter_50hz, config_bias,
}
use max.Protocol.{encode_threshold, decode_threshold}
use max.Config.{
  DeviceConfig, two_wire, three_wire, four_wire, hz50, hz60, is_two_wire, persistent_byte_matches,
}

-- The four threshold bytes of the map, 03h to 06h.
pub record ThresholdBytes : Type 0 where
  pub high_msb : ℕ
  pub high_lsb : ℕ
  pub low_msb : ℕ
  pub low_lsb : ℕ

pub record Image : Type 0 where
  pub config : ℕ
  pub thresholds : ThresholdBytes

abbrev pub threshold_list : ThresholdBytes → List ℕ
threshold_list b = b.high_msb ∷ b.high_lsb ∷ b.low_msb ∷ b.low_lsb ∷ []

abbrev pub threshold_bytes : List ℕ → ThresholdBytes
threshold_bytes xs = record {
  high_msb = get_or xs 0 0;
  high_lsb = get_or xs 1 0;
  low_msb = get_or xs 2 0;
  low_lsb = get_or xs 3 0;
}

-- Both encoded thresholds of a configuration, the high one first.
unfoldable pub encode_thresholds : DeviceConfig → Result ThresholdBytes
encode_thresholds config = do
  high ← encode_threshold config.thresholds.high_code
  low ← encode_threshold config.thresholds.low_code
  ok (record { high_msb = high.0; high_lsb = high.1; low_msb = low.0; low_lsb = low.1 })

-- The detail word of a verification failure.
abbrev verify_detail : ℕ → ℕ → ℕ → ℕ
verify_detail address expected actual = bit_or (bit_or (address * 65536) (expected * 256)) actual

-- One byte of the read back image against the expected one.
unfoldable pub verify_byte : ℕ → String → ℕ → ℕ → Status
verify_byte address message expected actual =
    require (persistent_byte_matches address actual expected) register_verify_failed message
      (pos (verify_detail address expected actual))

-- The bytes in the order in which `verifyDesiredImage` compares them.
unfoldable pub verify_image : Image → Image → Status
unfolding verify_byte
verify_image expected actual = do
  let e = expected.thresholds
  let a = actual.thresholds
  verify_byte reg_config "CONFIG readback mismatch" expected.config actual.config
  verify_byte reg_high_fault_msb "fault-threshold readback mismatch" e.high_msb a.high_msb
  verify_byte reg_high_fault_lsb "fault-threshold readback mismatch" e.high_lsb a.high_lsb
  verify_byte reg_low_fault_msb "fault-threshold readback mismatch" e.low_msb a.low_msb
  verify_byte reg_low_fault_lsb "fault-threshold readback mismatch" e.low_lsb a.low_lsb

-- `matches` of `probe`: the same comparison without a failure.
unfoldable pub image_matches : Image → Image → Bool
image_matches expected actual =
    let e = expected.thresholds in
    let a = actual.thresholds in
    persistent_byte_matches reg_config actual.config expected.config
    && persistent_byte_matches reg_high_fault_msb a.high_msb e.high_msb
    && persistent_byte_matches reg_high_fault_lsb a.high_lsb e.high_lsb
    && persistent_byte_matches reg_low_fault_msb a.low_msb e.low_msb
    && persistent_byte_matches reg_low_fault_lsb a.low_lsb e.low_lsb

-- The configuration that `readConfiguration` decodes; CONFIG does not tell two wires from four,
-- so the desired mode decides between these.
unfoldable pub decode_config : DeviceConfig → Image → DeviceConfig
decode_config desired image = record {
  wire_mode =
      if not (bit_and image.config config_3wire == 0)
      then three_wire
      else if is_two_wire desired.wire_mode
      then two_wire
      else four_wire;
  filter = if not (bit_and image.config config_filter_50hz == 0) then hz50 else hz60;
  bias_enabled = not (bit_and image.config config_bias == 0);
  thresholds = record {
    low_code = decode_threshold image.thresholds.low_msb image.thresholds.low_lsb;
    high_code = decode_threshold image.thresholds.high_msb image.thresholds.high_lsb;
  };
}
