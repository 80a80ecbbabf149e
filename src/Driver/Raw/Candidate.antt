-- ===== src/Driver/Raw/Candidate.antt =====
-- The configuration that a raw register write asks for (src/MAX31865.cpp,
-- `prepareRegisterWriteCandidate`).
use max.Prelude.{ℕ, Bool, true, false, not, pos, bit_and, bit_or, ◌==◌, if◌then◌else◌}
use max.Status.{register_address_invalid, unsupported_command, Result, ok, require, ◌>>=◌, ◌>>◌}
use max.Commands.{
  reg_config, reg_high_fault_msb, reg_high_fault_lsb, reg_low_fault_msb, config_auto,
  config_command_mask, config_3wire, config_filter_50hz, config_bias, threshold_lsb_defined_mask,
}
use max.Config.{
  WireMode, two_wire, three_wire, four_wire, hz50, hz60, DeviceConfig, validate_device_config,
}
use max.Config.Bytes.{ThresholdBytes, encode_thresholds}
use max.Protocol.{
  RegisterAccess, read_write, register_address_valid, register_access, decode_threshold,
}

abbrev is_read_write : RegisterAccess → Bool
is_read_write read_write = true
is_read_write _ = false

abbrev two_or_four_wire : WireMode → WireMode
two_or_four_wire two_wire = two_wire
two_or_four_wire _ = four_wire

-- The configuration of a CONFIG byte without commands. A byte without the three-wire bit keeps
-- two wires where these were configured.
unfoldable pub config_candidate : DeviceConfig → ℕ → DeviceConfig
config_candidate desired value = record desired {
  wire_mode =
      if not (bit_and value config_3wire == 0)
      then three_wire
      else two_or_four_wire desired.wire_mode;
  filter = if not (bit_and value config_filter_50hz == 0) then hz50 else hz60;
  bias_enabled = not (bit_and value config_bias == 0);
}

-- The threshold bytes with the one of a register replaced.
abbrev pub replace_byte : ℕ → ℕ → ThresholdBytes → ThresholdBytes
replace_byte address value th =
    if address == reg_high_fault_msb
    then record th { high_msb = value }
    else if address == reg_high_fault_lsb
    then record th { high_lsb = bit_and value threshold_lsb_defined_mask }
    else if address == reg_low_fault_msb
    then record th { low_msb = value }
    else record th { low_lsb = bit_and value threshold_lsb_defined_mask }

abbrev pub with_thresholds : DeviceConfig → ThresholdBytes → DeviceConfig
with_thresholds desired th = record desired {
  thresholds = record {
    low_code = decode_threshold th.low_msb th.low_lsb;
    high_code = decode_threshold th.high_msb th.high_lsb;
  };
}

unfoldable pub threshold_candidate : DeviceConfig → ℕ → ℕ → Result DeviceConfig
threshold_candidate desired address value = do
  thresholds ← encode_thresholds desired
  let candidate = with_thresholds desired (replace_byte address value thresholds)
  validate_device_config candidate
  ok candidate

unfoldable pub prepare_register_write_candidate : DeviceConfig → ℕ → ℕ → Result DeviceConfig
prepare_register_write_candidate desired address value = do
  require (register_address_valid address) register_address_invalid
      "register address is outside 0..7" (pos address)
  require (is_read_write (register_access address)) unsupported_command "register is read-only"
      (pos address)
  if not (address == reg_config) then threshold_candidate desired address value else do
    require (bit_and value (bit_or config_auto config_command_mask) == 0) unsupported_command
        "raw CONFIG conversion/fault commands are not allowed" (pos value)
    ok (config_candidate desired value)
