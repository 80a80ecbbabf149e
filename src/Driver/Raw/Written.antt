-- ===== src/Driver/Raw/Written.antt =====
-- The configuration that a raw write of CONFIG asks for.
use max.Prelude.{
  ℕ, ◌<◌, ◌≡◌, refl, ◌⊎◌, inl, inr, some, pos, Bool-cases, Bool, true, false, not, ◌||◌, bit_and,
  ◌==◌, arith,
}
use max.Prelude.Bits.{all_below, all_below_sound}
use max.Status.{ok, err, Failure, unsupported_command}
use max.Commands.{reg_config}
use max.Config.{
  WireMode, two_wire, three_wire, four_wire, other_wire, DeviceConfig, persistent_config_byte,
  persistent_byte_matches, default_device_config,
}
use max.Protocol.{register_verify_mask, register_address_valid, register_access}
use max.Driver.Raw.Candidate.{config_candidate, prepare_register_write_candidate}

-- A byte without commands, and the byte of the configuration that it asks for.
abbrev agrees : WireMode → ℕ → Bool
agrees mode value =
    let c = config_candidate (record default_device_config { wire_mode = mode }) value in
    not (bit_and value 0x6e == 0)
    || persistent_byte_matches reg_config (persistent_config_byte c c.bias_enabled false) value

agrees_table : (mode : WireMode) → all_below 256 (agrees mode) ≡ true
unfolding all_below config_candidate persistent_config_byte persistent_byte_matches
    register_verify_mask
agrees_table two_wire = refl
agrees_table three_wire = refl
agrees_table four_wire = refl
agrees_table other_wire = refl

matches_of : {a b : Bool} → a ≡ true → not a || b ≡ true → b ≡ true
matches_of h k = ground arith

abbrev refused : ℕ → Failure
refused value = record {
  code = unsupported_command;
  msg = some "raw CONFIG conversion/fault commands are not allowed";
  detail = pos value;
}

-- A raw write of a CONFIG byte without commands is accepted and asks for a configuration that
-- keeps the thresholds, and whose own byte agrees with the value in every bit that CONFIG keeps;
-- one with a command is refused as unsupported.
pub prepare_register_write_candidate-matches :
    (desired : DeviceConfig) (value : ℕ)
    → value < 256
    → (((bit_and value 0x6e == 0) ≡ true)
        × ((c : DeviceConfig) × (prepare_register_write_candidate desired reg_config value ≡ ok c)
            × (c.thresholds ≡ desired.thresholds)
            × (persistent_byte_matches reg_config
                  (persistent_config_byte c c.bias_enabled false)
                  value
                ≡ true)))
      ⊎ (((bit_and value 0x6e == 0) ≡ false)
          × ((f : Failure) × (prepare_register_write_candidate desired reg_config value ≡ err f)
              × (f.code ≡ unsupported_command)))
unfolding prepare_register_write_candidate config_candidate persistent_config_byte
    register_address_valid register_access
prepare_register_write_candidate-matches desired value h =
    elim (Bool-cases (bit_and value 0x6e == 0)) [
      | inl e ↦ inl (
        e,
        (
          config_candidate desired value,
          rw e refl,
          refl,
          matches_of e (
              all_below_sound 256 (agrees desired.wire_mode) value (agrees_table desired.wire_mode)
                h),
        ),
      )
      | inr e ↦ inr (e, (refused value, rw e refl, refl))
    ]
